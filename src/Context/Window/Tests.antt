-- ===== src/Context/Window/Tests.antt =====
-- Runs of the window managers, and the theorems about them at concrete inputs.
use Prim.Native.String.{String}
use unified_ai_orchestrator.Base.{
  ℕ, ◌+◌, ◌-◌, ◌≤◌, ◌≡◌, refl, Bool, List, [], ◌∷◌, ◌++◌, none, some, reverse, length, ◌==◌,
}
use unified_ai_orchestrator.Base.Text.{Text, codes}
use unified_ai_orchestrator.Context.{Context, Message, system}
use unified_ai_orchestrator.Context.Tokens.{
  text, get_context_window, count_item, count_message_tokens, estimate_cost,
}
use unified_ai_orchestrator.Context.Window.{insert_at, keep_system, keep_recent, truncate}
use unified_ai_orchestrator.Context.Window.Truncation.{total, systems, newest}
use unified_ai_orchestrator.Context.Window.Order.{others, Blocked, systems_of, truncate-reverses}
use unified_ai_orchestrator.Context.Window.Manager.{
  Entry, message, raw, is_system_entry, entry_tokens, with_messages, estimate, manage_context,
  manage_context-fits, quarter,
}

program : Unit {0}
unfolding insert_at keep_system keep_recent truncate total systems newest count_item
    count_message_tokens entry_tokens is_system_entry estimate_cost get_context_window quarter
program = tt

-- Messages as numbers: 0 is of the system, and each has ten tokens.
abbrev is_zero : ℕ → Bool
is_zero n = n == 0

abbrev ten : ℕ → ℕ
ten n = 10

abbrev conversation : List ℕ
conversation = 0 ∷ 1 ∷ 2 ∷ 3 ∷ 4 ∷ []

-- Of four messages behind one of the system the last two fit, and they come back newest first.
newest_first : truncate is_zero ten 40 10 conversation ≡ 4 ∷ 3 ∷ 0 ∷ []
unfolding program
newest_first = refl

-- A token for each character.
abbrev encode : String → Text → ℕ
encode name t = length t

abbrev hello : Message
hello = record { role = codes "user"; content = codes "hello"; timestamp = 7 }

abbrev context : Context ℕ Entry
context = record {
  conversation_id = codes "c";
  project_id = none;
  messages =
      raw (record { role = some system; content = some (text (codes "Be brief.")) })
      ∷ message hello
      ∷ [];
  codebase_context = none;
  tool_history = [];
}

abbrev plain : Context ℕ Message
plain = record {
  conversation_id = codes "c";
  project_id = none;
  messages = hello ∷ hello ∷ [];
  codebase_context = none;
  tool_history = [];
}

hello_tokens : entry_tokens encode "gpt-4" (message hello) ≡ 13
unfolding program
hello_tokens = refl

million_tokens : estimate_cost 1000000 1000000 "gpt-4o" ≡ 50000000
unfolding program
million_tokens = refl

truncate-reverses_example :
    let s = systems_of is_zero ten 40 10 conversation in
    (older : List ℕ) × (recent : List ℕ) × (others is_zero ten 40 10 conversation ≡ older ++ recent)
    × (truncate is_zero ten 40 10 conversation ≡ reverse (s ++ recent))
    × Blocked is_zero ten 40 10 (reverse older) (total ten s + total ten recent)
truncate-reverses_example = truncate-reverses is_zero ten 40 10 conversation

manage_context-fits_example :
    (estimate encode 8180 "gpt-4" (manage_context encode 8180 "gpt-4" context)
      ≤ get_context_window "gpt-4" - 8180)
    × (manage_context encode 8180 "gpt-4" context
        ≡ with_messages context (manage_context encode 8180 "gpt-4" context).messages)
manage_context-fits_example = manage_context-fits encode 8180 "gpt-4" context
