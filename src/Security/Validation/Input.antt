-- ===== src/Security/Validation/Input.antt =====
-- What `validate_input` and `sanitize_path` let through.
use unified_ai_orchestrator.Base.{
  ◌≡◌, ◌↔◌, ◌⊎◌, ◌≤◌, refl, ℕ, Bool, true, false, Option, none, some, [], ◌∷◌, ◌++◌, any, All,
  length, arith, Bool-cases, Option-cases, inl, inr,
}
use unified_ai_orchestrator.Base.Text.{Text, starts_with, has_char}
use unified_ai_orchestrator.Context.Compression.{strip}
use unified_ai_orchestrator.Security.Validation.{
  valid, no_text, is_control, over, unmatched, validate_input, without_null, within, sanitize_path,
}

-- A character from 32 on, or a tab, a newline or a carriage return. The control characters from 127 to
-- 159 are among those from 32 on.
abbrev pub Accepted : ℕ → Type 0
Accepted c = (32 ≤ c) ⊎ ((c ≡ 9) ⊎ ((c ≡ 10) ⊎ (c ≡ 13)))

-- A bound of zero is no bound.
abbrev pub Short : Option ℕ → Text → Type 0
Short none s = Unit
Short (some max_length) s = (max_length ≡ 0) ⊎ (length s ≤ max_length)

abbrev pub Matches : Option (Text → Bool) → Text → Type 0
Matches none s = Unit
Matches (some match_start) s = match_start s ≡ true

control-Accepted : (s : Text) → any is_control s ≡ false → All Accepted s
unfolding is_control
control-Accepted [] h = tt
control-Accepted (c ∷ s) h = (ground arith, control-Accepted s (ground arith))

Accepted-control : (s : Text) → All Accepted s → (any is_control s ≡ false) × (has_char 0 s ≡ false)
unfolding is_control
Accepted-control [] h = (refl, refl)
Accepted-control (c ∷ s) h =
    let (no_control, no_null) = Accepted-control s h.1 in (ground arith, ground arith)

over-Short : (max_length : Option ℕ) (s : Text) → (over max_length s ≡ false) ↔ Short max_length s
unfolding over
over-Short none s = (λ h. tt, λ h. refl)
over-Short (some max_length) s = (λ h. ground arith, λ h. ground arith)

unmatched-Matches :
    (pattern_given : Option (Text → Bool)) (s : Text)
    → (unmatched pattern_given s ≡ false) ↔ Matches pattern_given s
unfolding unmatched
unmatched-Matches none s = (λ h. tt, λ h. refl)
unmatched-Matches (some match_start) s = ground arith

-- `validate_input` returns a text exactly when it is the input, which is not blank unless that is
-- allowed, keeps the two bounds on its length, where a maximum of zero is none, has no character
-- below 32 but tabs, newlines and carriage returns, and matches the pattern if there is one. The
-- control characters from 127 to 159, DEL among them, are not refused.
pub validate_input-valid :
    (s : Text) (max_length : Option ℕ) (min_length : ℕ) (allow_empty : Bool)
    (pattern_given : Option (Text → Bool)) (t : Text)
    → (validate_input s max_length min_length allow_empty pattern_given ≡ valid t) ↔ (
        (t ≡ s)
        × ((allow_empty ≡ true) ⊎ (no_text (strip s) ≡ false))
        × (min_length ≤ length s)
        × Short max_length s
        × All Accepted s
        × Matches pattern_given s)
unfolding validate_input
validate_input-valid s max_length min_length allow_empty pattern_given t =
    let short = over-Short max_length s in
    let matches = unmatched-Matches pattern_given s in
    (
      λ h. (
        ground arith,
        elim (Bool-cases allow_empty) [
          | inl allowed ↦ inl allowed
          | inr not_allowed ↦ inr (ground arith)
        ],
        ground arith,
        short.0 (ground arith),
        control-Accepted s (ground arith),
        matches.0 (ground arith),
      ),
      λ (e, filled, long, fits, printable, matched).
          (let (no_control, no_null) = Accepted-control s printable in
            let not_over = short.1 fits in let not_unmatched = matches.1 matched in ground arith),
    )

starts_with-append : (s p : Text) → starts_with s p ≡ true → (rest : Text) × (s ≡ p ++ rest)
starts_with-append s [] h = (s, refl)
starts_with-append [] (d ∷ p) h = absurd (ground arith)
starts_with-append (c ∷ s) (d ∷ p) h =
    let (rest, e) = starts_with-append s p (ground arith) in (rest, ground arith)

append-starts_with : (p rest : Text) → starts_with (p ++ rest) p ≡ true
append-starts_with [] rest = refl
append-starts_with (d ∷ p) rest = ground (arith, append-starts_with p rest)

-- `sanitize_path` lets a path through exactly when it resolves and its resolved text goes on from
-- the text of the base, whatever comes next: there need not be a separator.
pub sanitize_path-accepts :
    (resolve : Text → Option Text) (base user_path : Text) (t : Text)
    → (sanitize_path resolve (some base) user_path ≡ some t)
      ↔ ((rest : Text) × (resolve (without_null user_path) ≡ some t) × (t ≡ base ++ rest))
unfolding sanitize_path within
sanitize_path-accepts resolve base user_path t = (
  λ h. elim (Option-cases (resolve (without_null user_path))) [
    | inl fails ↦ absurd (ground (arith, fails))
    | inr (r, resolved) ↦
        let (rest, e) = starts_with-append r base (ground (arith, resolved)) in
        (rest, ground (arith, resolved), ground (arith, resolved, e))
  ],
  λ (rest, resolved, e). rw (resolved, within, e, append-starts_with base rest) refl,
)
