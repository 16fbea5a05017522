-- ===== src/Context/Summary/Cache.antt =====
-- The cache of extractive summaries.
use unified_ai_orchestrator.Base.{◌≡◌, ap, true, List, arith}
use unified_ai_orchestrator.Base.Text.{text_eq_refl}
use unified_ai_orchestrator.Context.{Message}
use unified_ai_orchestrator.Context.Summary.{Outside, Summarizer, key_text, find, generate_summary}

module _ (o : Outside) where
  -- A summary is stored once: asked again for the same messages, with caching on, the summarizer
  -- answers the same and changes no more.
  pub generate_summary_again :
      (s : Summarizer) (ms : List Message)
      → s.cache_summaries ≡ true
      → let (summary, s') = generate_summary o s ms in generate_summary o s' ms ≡ (summary, s')
  unfolding generate_summary find
  generate_summary_again s ms on = ground (arith, text_eq_refl (o.md5 (key_text ms)))

  -- The key holds only the first 100 characters of each content: of two lists of messages that agree
  -- so far, the one asked for second gets the summary of the first, whatever its own would be.
  pub generate_summary-stale :
      (s : Summarizer) (ms ms' : List Message)
      → s.cache_summaries ≡ true
      → key_text ms' ≡ key_text ms
      → (generate_summary o (generate_summary o s ms).1 ms').0 ≡ (generate_summary o s ms).0
  unfolding generate_summary find
  generate_summary-stale s ms ms' on same =
      ground (arith, text_eq_refl (o.md5 (key_text ms)), ap o.md5 same)
