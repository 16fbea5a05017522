-- ===== src/Context/Summary/Tests.antt =====
-- Runs of the summarizer, and the theorems about it at concrete inputs.
use unified_ai_orchestrator.Base.{ℕ, zero, suc, ◌≡◌, refl, true, List, [], ◌∷◌, none, drop}
use unified_ai_orchestrator.Base.Text.{Text, codes}
use unified_ai_orchestrator.Context.{Context, Message}
use unified_ai_orchestrator.Context.Compression.{is_space, lstrip, strip}
use unified_ai_orchestrator.Context.Window.Manager.{with_messages}
use unified_ai_orchestrator.Context.Summary.{
  Outside, Summarizer, join, show, sentences, summary_parts, extractive, key_text, find,
  generate_summary, llm_summary, split_at, sync_summary, summary_message, summarize_if_needed,
  summarize_if_needed_async, raised,
}

program : Unit {0}
unfolding is_space lstrip strip join show sentences summary_parts extractive key_text find
    generate_summary llm_summary split_at sync_summary summary_message summarize_if_needed
    summarize_if_needed_async
program = tt

-- Texts in lower case, a hash without collisions, and a model that is not there.
abbrev outside : Outside
outside = record { lower = λ t. t; upper = λ t. t; md5 = λ t. t; chat = λ ms. none }

abbrev summarizer : Summarizer
summarizer = record {
  message_threshold = 2;
  ratio_top = 4;
  ratio_bottom = 5;
  use_llm = true;
  has_adapter = true;
  cache_summaries = true;
  cache = [];
}

abbrev user : Text → Message
user t = record { role = codes "user"; content = t; timestamp = 3 }

abbrev xs : ℕ → Text → Text
xs zero t = t
xs (suc n) t = 120 ∷ xs n t

-- Two contents that differ behind their first 100 characters.
abbrev noted : List Message
noted = user (xs 100 (codes " decided to stay")) ∷ []

abbrev idle : List Message
idle = user (xs 100 (codes " and so on")) ∷ []

abbrev context : Context ℕ Message
context = record {
  conversation_id = codes "c";
  project_id = none;
  messages = user (codes "one") ∷ user (codes "we decided. yes") ∷ user (codes "three") ∷ [];
  codebase_context = none;
  tool_history = [];
}

two_messages :
    extractive (λ t. t) (user (codes "a") ∷ user (codes "b") ∷ []) ≡ codes "Summarized 2 messages"
unfolding program
two_messages = refl

decided : extractive (λ t. t) context.messages ≡ codes "[user]: we decided"
unfolding program
decided = refl

-- The model raises when the old messages are already cut off.
lost :
    summarize_if_needed_async outside summarizer context
    ≡ (raised, with_messages context (drop (split_at summarizer context.messages) context.messages))
unfolding program
lost = refl
