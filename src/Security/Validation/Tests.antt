-- ===== src/Security/Validation/Tests.antt =====
-- Runs of the checks on inputs, and the theorems about them at concrete inputs.
use unified_ai_orchestrator.Base.{
  ◌≡◌, ◌↔◌, ◌⊎◌, ◌≤◌, refl, true, false, Option, none, some, [], ◌∷◌, ◌++◌, All, length,
}
use unified_ai_orchestrator.Base.Text.{Text, codes}
use unified_ai_orchestrator.Context.Compression.{strip, lstrip, is_space}
use unified_ai_orchestrator.Security.Validation.{
  valid, empty_input, control_character, no_text, is_control, validate_input, validate_command_safe,
  validate_sql_safe, without_null, sanitize_path,
}
use unified_ai_orchestrator.Security.Validation.Input.{
  Accepted, Short, Matches, validate_input-valid, sanitize_path-accepts,
}

program : Unit {0}
unfolding strip lstrip is_space no_text is_control validate_input validate_command_safe
    validate_sql_safe without_null sanitize_path
program = tt

blank_input : validate_input (codes " \t") (some 10) 0 false none ≡ empty_input
unfolding program
blank_input = refl

bell : validate_input (7 ∷ []) none 0 false none ≡ control_character
unfolding program
bell = refl

union_select : validate_sql_safe (λ s. s) (codes "1 union   select x") ≡ none
unfolding program
union_select = refl

-- The words have to stand apart, and a keyword alone is harmless.
reunion :
    validate_sql_safe (λ s. s) (codes "unionselect; execution")
    ≡ some (codes "unionselect; execution")
unfolding program
reunion = refl

-- `rm x & y` starts a command in the background.
one_ampersand : validate_command_safe (codes "a & b $HOME") ≡ some (codes "a & b $HOME")
unfolding program
one_ampersand = refl

validate_input-valid_example :
    (validate_input (codes "hello") (some 0) 2 false none ≡ valid (codes "hello")) ↔ (
      (codes "hello" ≡ codes "hello")
      × ((false ≡ true) ⊎ (no_text (strip (codes "hello")) ≡ false))
      × (2 ≤ length (codes "hello"))
      × Short (some 0) (codes "hello")
      × All Accepted (codes "hello")
      × Matches none (codes "hello"))
validate_input-valid_example =
    validate_input-valid (codes "hello") (some 0) 2 false none (codes "hello")

abbrev base : Text
base = codes "/srv/data"

abbrev resolve : Text → Option Text
resolve path = some (codes "/srv/data-evil")

-- `../data-evil` is a sibling of the base.
sibling : sanitize_path resolve (some base) (codes "../data-evil") ≡ some (codes "/srv/data-evil")
unfolding program
sibling = refl

sanitize_path-accepts_example :
    (sanitize_path resolve (some base) (codes "../data-evil") ≡ some (codes "/srv/data-evil")) ↔ (
      (rest : Text) × (resolve (without_null (codes "../data-evil"))
        ≡ some (codes "/srv/data-evil"))
      × (codes "/srv/data-evil" ≡ base ++ rest))
sanitize_path-accepts_example =
    sanitize_path-accepts resolve base (codes "../data-evil") (codes "/srv/data-evil")
