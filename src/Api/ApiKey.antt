-- ===== src/Api/ApiKey.antt =====
-- `APIKeyMiddleware` of python-glue/unified_ai/api/middleware.py. The environment variable and what
-- `get_secret` finds in the keyring (`none` where it raises) are parameters, and so is the handler.
use unified_ai_orchestrator.Base.{
  Bool, true, false, Option, none, some, List, [], ◌∷◌, ◌≡◌, ◌↔◌, ◌⊎◌, inl, inr, refl,
  if◌then◌else◌, arith, Bool-cases,
}
use unified_ai_orchestrator.Base.Text.{Text, codes, text_eq, text_eq→eq, text_eq_refl, has_text}
use unified_ai_orchestrator.Api.Request.{ApiRequest, extract_api_key, is_public}

-- `_get_api_key`
unfoldable pub get_api_key : Option Text → Option Text → Option Text
get_api_key env secret = if has_text env then env else secret

-- `self.api_key = api_key or self._get_api_key()`
unfoldable pub configured_key : Option Text → Option Text → Option Text → Option Text
unfolding get_api_key
configured_key given env secret = if has_text given then given else get_api_key env secret

-- `provided_key == self.api_key`
same_key : Option Text → Option Text → Bool
same_key none none = true
same_key none (some k) = false
same_key (some p) none = false
same_key (some p) (some k) = text_eq p k

-- `_validate_key`
unfoldable pub validate_key : Option Text → Option Text → Bool
unfolding same_key
validate_key api_key provided_key =
    if has_text api_key
    then (if has_text provided_key then same_key provided_key api_key else false)
    else true

abbrev pub public_paths : List Text
public_paths =
    codes "/health"
    ∷ codes "/metrics"
    ∷ codes "/static"
    ∷ codes "/api/v1/auth/login"
    ∷ codes "/api/v1/auth/refresh"
    ∷ codes "/docs"
    ∷ codes "/openapi.json"
    ∷ []

-- The response of the handler, or the status 401.
pub data KeyResponse (R : Type 0) : Type 0 where
  passed : R → KeyResponse R
  invalid_key : KeyResponse R

-- `dispatch`
unfoldable pub dispatch : {R : Type 0} → Option Text → (ApiRequest → R) → ApiRequest → KeyResponse R
dispatch api_key call_next r =
    if is_public public_paths r.path
    then passed (call_next r)
    else if validate_key api_key (extract_api_key r)
    then passed (call_next r)
    else invalid_key

-- A path that needs no key, no key that is configured, or the configured key.
abbrev pub Allowed : Option Text → ApiRequest → Type 0
Allowed api_key r =
    (is_public public_paths r.path ≡ true)
    ⊎ ((has_text api_key ≡ false) ⊎ ((has_text api_key ≡ true) × (extract_api_key r ≡ api_key)))

validate_key-eq :
    (api_key provided : Option Text)
    → validate_key api_key provided ≡ true
    → (has_text api_key ≡ false) ⊎ ((has_text api_key ≡ true) × (provided ≡ api_key))
unfolding validate_key same_key
validate_key-eq none provided h = inl refl
validate_key-eq (some []) provided h = inl refl
validate_key-eq (some (c ∷ k)) none h = absurd (ground arith)
validate_key-eq (some (c ∷ k)) (some []) h = absurd (ground arith)
validate_key-eq (some (c ∷ k)) (some (d ∷ p)) h =
    inr (refl, ground (arith, text_eq→eq (d ∷ p) (c ∷ k) h))

validate_key-same : (k : Option Text) → validate_key k k ≡ true
unfolding validate_key same_key
validate_key-same none = refl
validate_key-same (some []) = refl
validate_key-same (some (c ∷ k)) = text_eq_refl (c ∷ k)

validate_key-none : (k provided : Option Text) → has_text k ≡ false → validate_key k provided ≡ true
unfolding validate_key
validate_key-none k provided h = ground (arith, h)

-- A request reaches the handler exactly if its path is public, no key is configured (the empty one
-- counts as none), or the key that it carries is the configured one.
pub dispatch-Allowed :
    {R : Type 0} (api_key : Option Text) (call_next : ApiRequest → R) (r : ApiRequest)
    → (dispatch api_key call_next r ≡ passed (call_next r)) ↔ Allowed api_key r
unfolding dispatch
dispatch-Allowed {R} api_key call_next r = elim (Bool-cases (is_public public_paths r.path)) [
  | inl open_path ↦ (λ h. inl open_path, λ a. ground (arith, open_path))
  | inr closed ↦ (
    λ h. inr (validate_key-eq api_key (extract_api_key r) (ground (arith, closed, h))),
    λ a. elim a [
      | inl open_path ↦ ground (arith, open_path)
      | inr keyed ↦ elim keyed [
        | inl no_key ↦ ground (arith, closed, validate_key-none api_key (extract_api_key r) no_key)
        | inr (configured, same) ↦
            let fits : validate_key api_key (extract_api_key r) ≡ true =
              rw same (validate_key-same api_key) in
            ground (arith, closed, fits)
      ]
    ],
  )
]
