-- ===== src/Context/Summary/Loss.antt =====
-- What a summary keeps of the messages.
use unified_ai_orchestrator.Base.{
  ◌<◌, ◌≡◌, refl, sym, some, List, ◌∷◌, ◌++◌, length, take, drop, arith, take-append-drop,
}
use unified_ai_orchestrator.Context.{Context, Message}
use unified_ai_orchestrator.Context.Window.Manager.{with_messages}
use unified_ai_orchestrator.Context.Summary.{
  Outside, Summarizer, split_at, sync_summary, summary_message, summarize_if_needed,
}

module _ (o : Outside) {J : Type 0} (s : Summarizer) (c : Context J Message) where
  -- Above the threshold the messages are an old part, as long as the ratio says, and a recent one;
  -- the result is the recent part
  -- behind one message with the summary of the old part, and the summary is returned. Nothing else
  -- of the context changes.
  pub summarize_if_needed-splits :
      s.message_threshold < length c.messages
      → (old recent : List Message) × (old ≡ take (split_at s c.messages) c.messages)
        × (c.messages ≡ old ++ recent)
        × (let summary = (sync_summary o s old).0 in
            ((summarize_if_needed o s c).0 ≡ some summary)
            × ((summarize_if_needed o s c).1
                ≡ with_messages c (summary_message summary old ∷ recent)))
  unfolding summarize_if_needed
  summarize_if_needed-splits long =
      let n = split_at s c.messages in
      (
        take n c.messages,
        drop n c.messages,
        refl,
        sym (take-append-drop n c.messages),
        (ground arith, ground arith),
      )
