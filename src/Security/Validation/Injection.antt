-- ===== src/Security/Validation/Injection.antt =====
-- Which commands `validate_command_safe` lets through.
use unified_ai_orchestrator.Base.{
  ◌≡◌, ◌↔◌, refl, ℕ, true, false, some, [], ◌∷◌, ◌==◌, arith, Bool-cases, inl, inr,
}
use unified_ai_orchestrator.Base.Text.{Text, contains, has_char}
use unified_ai_orchestrator.Security.Validation.{validate_command_safe}

contains-char : (a : ℕ) (s : Text) → contains (a ∷ []) s ≡ has_char a s
contains-char a [] = refl
contains-char a (c ∷ s) = ground (arith, contains-char a s)

contains-first : (a : ℕ) (p s : Text) → contains (a ∷ p) s ≡ true → has_char a s ≡ true
contains-first a p [] h = ground arith
contains-first a p (c ∷ s) h = elim (Bool-cases (c == a)) [
  | inl same ↦ ground (arith, same)
  | inr other ↦ ground (arith, other, contains-first a p s (ground (arith, other, h)))
]

-- `validate_command_safe` lets a text through exactly when it has none of the characters `;`, `|`,
-- the backquote, `>`, `<` and the newline, and neither `&&` nor `$(` occurs in it. A single `&` and
-- a `$` before a name pass.
pub validate_command_safe-accepts :
    (s t : Text)
    → (validate_command_safe s ≡ some t) ↔ (
        (t ≡ s)
        × (has_char 59 s ≡ false)
        × (has_char 124 s ≡ false)
        × (has_char 96 s ≡ false)
        × (has_char 62 s ≡ false)
        × (has_char 60 s ≡ false)
        × (has_char 10 s ≡ false)
        × (contains (38 ∷ 38 ∷ []) s ≡ false)
        × (contains (36 ∷ 40 ∷ []) s ≡ false))
unfolding validate_command_safe
validate_command_safe-accepts s t = grind (
  arith,
  contains-char 59 s,
  contains-char 124 s,
  contains-char 96 s,
  contains-char 62 s,
  contains-char 60 s,
  contains-char 10 s,
  contains-first 124 (124 ∷ []) s,
  contains-first 60 (40 ∷ []) s,
)
