-- ===== src/Api/Stack/Order.antt =====
-- Which requests reach the handler, and what a request that does not costs.
use unified_ai_orchestrator.Base.{
  ℕ, ◌≤◌, ◌≡◌, ◌≢◌, ◌⊎◌, inl, inr, refl, ap, ◌∙◌, Bool, true, false, Option, none, some, arith,
  Bool-cases, [], ◌∷◌,
}
use unified_ai_orchestrator.Base.Text.{Text}
use unified_ai_orchestrator.Api.Request.{ApiRequest}
use unified_ai_orchestrator.Api.ApiKey
use unified_ai_orchestrator.Api.Csrf
use unified_ai_orchestrator.Api.Csrf.Tokens.{NoHeader, dispatch-passed}
use unified_ai_orchestrator.Api.RateLimit.{RateLimits, limited, begin}
use unified_ai_orchestrator.Api.Stack.{
  Outcome, max_size, ToInt, refused, csrf_request, from_csrf, rate_limit, validated, handle,
}

-- No size is stated, or it is a number that is not over the limit.
abbrev pub Sized : ToInt → Option Text → Type 0
Sized int none = Unit
Sized int (some []) = Unit
Sized int (some (c ∷ header)) = (size : ℕ) × (int (c ∷ header) ≡ some size) × (size ≤ max_size)

-- A method that changes nothing, or a cookie that the header does not contradict.
abbrev pub Trusted : (Text → Text) → ApiRequest → Type 0
Trusted upper r =
    (Csrf.is_safe_method upper r.method ≡ true)
    ⊎ ((Csrf.has_text r.csrf_cookie ≡ true)
        × (NoHeader r.csrf_header ⊎ (r.csrf_header ≡ r.csrf_cookie)))

-- What a request has to pass on its way to the handler.
pub record Passes {R : Type 0} (int : ToInt) (cors : ApiRequest → Option R) (enable_csrf : Bool)
    (upper : Text → Text) (api_key : Option Text) (s : RateLimits) (r : ApiRequest) (made now : ℕ)
    : Type 0 where
  pub trusted : (enable_csrf ≡ false) ⊎ Trusted upper r
  pub parameters : refused r ≡ none
  pub in_limit : (begin s r made now).0 ≢ limited
  pub allowed : ApiKey.Allowed api_key r
  pub no_preflight : cors r ≡ none
  pub size : Sized int r.content_length

safe_passes :
    {R : Type 0} (upper : Text → Text) (call_next : Csrf.CsrfRequest → R) (fresh : Text)
    (q : Csrf.CsrfRequest)
    → Csrf.is_safe_method upper q.method ≡ true
    → Csrf.dispatch upper call_next fresh q ≡ Csrf.passed (call_next q) fresh
unfolding Csrf.dispatch
safe_passes upper call_next fresh q safe = ground (arith, safe)

module _ {R : Type 0} (int : ToInt) (cors : ApiRequest → Option R)
    (call_next : ApiRequest → R) where
  Trusted-passes :
      (upper : Text → Text) (fresh : Text) (s : RateLimits) (inner : Outcome R × RateLimits)
      (r : ApiRequest)
      → Trusted upper r
      → from_csrf s (Csrf.dispatch upper (λ q. inner) fresh (csrf_request r)) ≡ inner
  unfolding from_csrf csrf_request
  Trusted-passes upper fresh s inner r trust =
      let q = csrf_request r in
      elim (Bool-cases (Csrf.is_safe_method upper r.method)) [
        | inl safe ↦ rw (safe_passes upper (λ q. inner) fresh q safe) refl
        | inr changes ↦ elim trust [
          | inl safe ↦ absurd (ground arith)
          | inr cookie ↦ rw ((dispatch-passed upper (λ q. inner) fresh q changes).1 cookie) refl
        ]
      ]

  validated-charges :
      (api_key : Option Text) (s : RateLimits) (r : ApiRequest) (made now : ℕ)
      → refused r ≡ none
      → (validated int cors api_key call_next s r made now (refused r)).1 ≡ (begin s r made now).1
  unfolding validated rate_limit
  validated-charges api_key s r made now accepted = rw accepted refl

  -- The rate limit is charged before the API key is looked at: a request that passes the CSRF check,
  -- where it is enabled, and the check of the parameters changes the limiters as `begin` does, whatever
  -- key is configured and whatever key it carries.
  pub handle-charges :
      (enable_csrf : Bool) (upper : Text → Text) (fresh : Text) (api_key : Option Text)
      (s : RateLimits) (r : ApiRequest) (made now : ℕ)
      → (enable_csrf ≡ false) ⊎ Trusted upper r
      → refused r ≡ none
      → (handle int cors api_key call_next enable_csrf upper fresh s r made now).1
        ≡ (begin s r made now).1
  unfolding handle
  handle-charges false upper fresh api_key s r made now trust accepted =
      validated-charges api_key s r made now accepted
  handle-charges true upper fresh api_key s r made now (inl e) accepted = absurd (ground arith)
  handle-charges true upper fresh api_key s r made now (inr trust) accepted =
      ap (λ x. x.1)
        (Trusted-passes upper fresh s
          (validated int cors api_key call_next s r made now (refused r)) r trust)
      ∙ validated-charges api_key s r made now accepted
