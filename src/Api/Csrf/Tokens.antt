-- ===== src/Api/Csrf/Tokens.antt =====
-- Which requests the CSRF middleware lets through.
use unified_ai_orchestrator.Base.{
  ◌≡◌, ◌↔◌, ◌⊎◌, ◌≢◌, refl, sym, ap, true, false, Option, none, some, [], ◌∷◌, arith, inl, inr,
}
use unified_ai_orchestrator.Base.Text.{Text, text_eq→eq, text_eq_refl}
use unified_ai_orchestrator.Api.Csrf.{
  CsrfRequest, passed, has_text, same_token, get_csrf_token, is_safe_method, dispatch,
}

-- The header is missing or empty.
abbrev pub NoHeader : Option Text → Type 0
NoHeader h = (h ≡ none) ⊎ (h ≡ some [])

header-cases : (h : Option Text) → (has_text h ≡ true) ⊎ ((has_text h ≡ false) × NoHeader h)
unfolding has_text
header-cases none = inr (refl, inl refl)
header-cases (some []) = inr (refl, inr refl)
header-cases (some (c ∷ t)) = inl refl

NoHeader-blank : (h : Option Text) → NoHeader h → has_text h ≢ true
unfolding has_text
NoHeader-blank none missing h = ground arith
NoHeader-blank (some []) missing h = ground arith
NoHeader-blank (some (c ∷ t)) missing h = elim missing [
  | inl e ↦ ground arith
  | inr e ↦ ground arith
]

same_token_refl : (o : Option Text) → same_token o o ≡ true
unfolding same_token
same_token_refl none = refl
same_token_refl (some t) = text_eq_refl t

same_token→eq : (o p : Option Text) → same_token o p ≡ true → o ≡ p
unfolding same_token
same_token→eq none none h = refl
same_token→eq none (some t) h = absurd (ground arith)
same_token→eq (some t) none h = absurd (ground arith)
same_token→eq (some t) (some u) h = ap some (text_eq→eq t u h)

-- A request that may change state reaches the handler exactly when it has a cookie with a token that
-- is not empty, and its header is missing, is empty, or repeats the cookie. So the cookie alone,
-- which a browser sends with a forged request too, is enough.
pub dispatch-passed :
    {R : Type 0} (upper : Text → Text) (call_next : CsrfRequest → R) (fresh : Text)
    (r : CsrfRequest)
    → is_safe_method upper r.method ≡ false
    → (dispatch upper call_next fresh r ≡ passed (call_next r) fresh) ↔ (
        (has_text r.csrf_cookie ≡ true)
        × (NoHeader r.csrf_header ⊎ (r.csrf_header ≡ r.csrf_cookie)))
unfolding dispatch get_csrf_token
dispatch-passed upper call_next fresh r changes = elim (header-cases r.csrf_header) [
  | inr (no_text, missing) ↦ (
    λ h. (ground (arith, no_text), inl missing),
    λ (cookie, others). ground (arith, no_text, same_token_refl r.csrf_cookie),
  )
  | inl sent ↦ (
    λ h.
        (let repeats = same_token→eq r.csrf_header r.csrf_cookie (ground (arith, sent)) in
          (rw (sym repeats) sent, inr repeats)),
    λ (cookie, repeated). elim repeated [
      | inl missing ↦ absurd (NoHeader-blank r.csrf_header missing sent)
      | inr repeats ↦
          let same : same_token r.csrf_header r.csrf_cookie ≡ true =
            rw repeats (same_token_refl r.csrf_cookie) in
          ground (arith, sent, same)
    ],
  )
]
