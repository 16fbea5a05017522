-- ===== src/Security/Validation.antt =====
-- python-glue/unified_ai/security/validation.py: the checks on what a user types. Lowering a text,
-- a caller's regular expression and the resolution of paths are parameters.
pub mod Input
pub mod Injection
mod Tests
use unified_ai_orchestrator.Base.{
  ℕ, Bool, true, false, Option, none, some, List, [], ◌∷◌, any, ◌&&◌, ◌||◌, not, ltb, leb, ◌==◌,
  length, drop, if◌then◌else◌,
}
use unified_ai_orchestrator.Base.Text.{Text, codes, starts_with, contains, has_char}
use unified_ai_orchestrator.Context.Compression.{strip, is_space}

-- What a check ends with: the text, or its `ValidationError` by what it says.
pub data Checked : Type 0 where
  valid : Text → Checked
  empty_input too_short too_long null_byte control_character mismatch : Checked

unfoldable pub no_text : Text → Bool
no_text [] = true
no_text (c ∷ s) = false

-- `[\x00-\x08\x0B-\x0C\x0E-\x1F]`
unfoldable pub is_control : ℕ → Bool
is_control c = leb c 8 || (leb 11 c && leb c 12) || (leb 14 c && leb c 31)

-- `max_length and len(input_str) > max_length`
over : Option ℕ → Text → Bool
over none s = false
over (some max_length) s = ltb 0 max_length && ltb max_length (length s)

-- `pattern and not re.match(pattern, input_str)`, where `none` is no pattern or the empty one.
unmatched : Option (Text → Bool) → Text → Bool
unmatched none s = false
unmatched (some match_start) s = not (match_start s)

-- `validate_input`
unfoldable pub validate_input : Text → Option ℕ → ℕ → Bool → Option (Text → Bool) → Checked
unfolding over unmatched
validate_input s max_length min_length allow_empty pattern_given =
    if not allow_empty && no_text (strip s)
    then empty_input
    else if ltb (length s) min_length
    then too_short
    else if over max_length s
    then too_long
    else if has_char 0 s
    then null_byte
    else if any is_control s
    then control_character
    else if unmatched pattern_given s
    then mismatch
    else valid s

-- `validate_command_safe`; `none` is its `ValidationError`.
abbrev pub command_patterns : List Text
command_patterns =
    codes "&&"
    ∷ codes "||"
    ∷ codes ";"
    ∷ codes "|"
    ∷ codes "`"
    ∷ codes "$("
    ∷ codes "<("
    ∷ codes ">"
    ∷ codes "<"
    ∷ codes "\n"
    ∷ []

unfoldable pub validate_command_safe : Text → Option Text
validate_command_safe s = if any (λ p. contains p s) command_patterns then none else some s

-- The parts of the regular expressions of `validate_sql_safe`: a word and what follows it, `\s*`,
-- `\s+`, and the search at every place.
after : Text → (Text → Bool) → Text → Bool
after word k s = starts_with s word && k (drop (length word) s)

spaces : (Text → Bool) → Text → Bool
spaces k [] = k []
spaces k (c ∷ s) = k (c ∷ s) || (is_space c && spaces k s)

some_spaces : (Text → Bool) → Text → Bool
some_spaces k [] = false
some_spaces k (c ∷ s) = is_space c && spaces k s

search : (Text → Bool) → Text → Bool
search k [] = k []
search k (c ∷ s) = k (c ∷ s) || search k s

anything : Text → Bool
anything s = true

sql_patterns : List (Text → Bool)
sql_patterns =
    after (codes "';") anything
    ∷ after (codes "\";") anything
    ∷ after (codes "--") anything
    ∷ after (codes "/*") anything
    ∷ after (codes "*/") anything
    ∷ after (codes "xp_") anything
    ∷ after (codes "sp_") anything
    ∷ after (codes "exec") (spaces (after (codes "(") anything))
    ∷ after (codes "execute") (spaces (after (codes "(") anything))
    ∷ after (codes "union") (some_spaces (after (codes "select") anything))
    ∷ after (codes "union")
        (some_spaces (after (codes "all") (some_spaces (after (codes "select") anything))))
    ∷ []

-- `validate_sql_safe`
unfoldable pub validate_sql_safe : (Text → Text) → Text → Option Text
unfolding after spaces some_spaces search anything sql_patterns is_space
validate_sql_safe lower s = if any (λ p. search p (lower s)) sql_patterns then none else some s

-- `user_path.replace('\0', '')`
unfoldable pub without_null : Text → Text
without_null [] = []
without_null (c ∷ s) = let rest = without_null s in if c == 0 then rest else c ∷ rest

within : Option Text → Option Text → Option Text
within none base = none
within (some resolved) none = none
within (some resolved) (some base) = if starts_with resolved base then some resolved else none

-- `sanitize_path`: `resolve` is `str((base_path / path).resolve())` as a function of the path, and
-- `base` is `str(base_path.resolve())`; they are `none` where the call raises.
unfoldable pub sanitize_path : (Text → Option Text) → Option Text → Text → Option Text
unfolding without_null within
sanitize_path resolve base user_path = within (resolve (without_null user_path)) base
