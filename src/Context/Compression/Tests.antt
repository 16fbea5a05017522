-- ===== src/Context/Compression/Tests.antt =====
-- Runs of the compressor, and the theorems about it at concrete inputs.
use unified_ai_orchestrator.Base.{ℕ, ◌≡◌, refl, [], ◌∷◌, none}
use unified_ai_orchestrator.Base.Text.{codes}
use unified_ai_orchestrator.Context.{Context, Message}
use unified_ai_orchestrator.Context.Compression.{
  without_repeats, remove_duplicates, is_space, is_line_end, lstrip, strip, splitlines, join_lines,
  stripped_lines, squeeze, clip, limit_length, compress_message, compress, shorten,
  without_repeats_python, compress_messages_python,
}

program : Unit {0}
unfolding without_repeats remove_duplicates is_space is_line_end lstrip strip splitlines join_lines
    stripped_lines squeeze clip limit_length compress_message compress shorten
    without_repeats_python compress_messages_python
program = tt

abbrev said : Message
said = record { role = codes "user"; content = codes "ok"; timestamp = 1 }

abbrev echoed : Message
echoed = record { role = codes "assistant"; content = codes "ok"; timestamp = 2 }

abbrev context : Context ℕ Message
context = record {
  conversation_id = codes "c";
  project_id = none;
  messages = said ∷ said ∷ echoed ∷ [];
  codebase_context = none;
  tool_history = [];
}

-- Two lines, the first with blanks around it, and a blank line between them.
one_line : squeeze (32 ∷ 97 ∷ 32 ∷ 13 ∷ 10 ∷ 32 ∷ 10 ∷ 98 ∷ []) ≡ codes "a b"
unfolding program
one_line = refl

clipped : clip 2 (codes "abcdef") ≡ codes "ab... [truncated] ...ef"
unfolding program
clipped = refl

repeats : remove_duplicates (said ∷ said ∷ echoed ∷ []) ≡ said ∷ echoed ∷ []
unfolding program
repeats = refl
