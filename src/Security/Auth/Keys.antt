-- ===== src/Security/Auth/Keys.antt =====
-- Who a request that `require_auth` lets through is from.
use unified_ai_orchestrator.Base.{
  ◌≡◌, ◌⊎◌, refl, sym, ap, ℕ, true, false, Option, none, some, [], drop, arith, Bool-cases,
  Option-cases, inl, inr,
}
use unified_ai_orchestrator.Base.Text.{Text, codes, text_eq→eq}
use unified_ai_orchestrator.Base.Dict.{Dict}
use unified_ai_orchestrator.Security.Auth.{
  Value, Reply, value, unauthorized, value_error, is_empty, Request, present, with_default,
  long_token, authenticate_api_key_from_request, api_user, is_valid_key, from_environment, by_key,
  authenticate_key, authenticate_api_key, authenticate_jwt, verify_token, or_next, get_current_user,
  required, require_auth,
}

-- The key that a request carries is the first of: the header `X-API-Key`, a bearer token of more
-- than fifty characters, and the query parameter, where an empty one counts as missing.
abbrev pub Carries : Request → Text → Type 0
Carries r key =
    (r.x_api_key ≡ some key)
    ⊎ (((header : Text) × (r.authorization ≡ some header)
          × (long_token header ≡ true)
          × (key ≡ drop 7 header))
        ⊎ (r.api_key_param ≡ some key))

Carries-key :
    (r : Request) (key : Text) → authenticate_api_key_from_request r ≡ some key → Carries r key
unfolding authenticate_api_key_from_request present with_default
Carries-key r key h = elim (Bool-cases (present r.x_api_key)) [
  | inl given ↦ inl (rw given at h)
  | inr absent ↦ elim (Bool-cases (long_token (with_default r.authorization []))) [
    | inl bearer ↦ elim (Option-cases r.authorization) [
      | inl missing ↦ absurd (ground (arith, missing, bearer))
      | inr (header, sent) ↦
          inr (inl (header, sent, rw sent at bearer, ground (arith, absent, bearer, sent)))
    ]
    | inr other ↦ inr (inr (ground (arith, absent, other)))
  ]
]

-- The user is known by a key: the users table has the hash of the key, or the key is the one of the
-- environment and the user is the fixed one.
abbrev pub KnownBy :
    (Text → Option (Dict Value)) → (Text → Text) → Option Text → Text → Dict Value → Type 0
KnownBy users hash valid_key key u =
    (users (hash key) ≡ some u) ⊎ ((valid_key ≡ some key) × (u ≡ api_user))

from_environment-KnownBy :
    (users : Text → Option (Dict Value)) (hash : Text → Text) (valid_key : Option Text) (key : Text)
    (u : Dict Value)
    → from_environment valid_key key ≡ value u
    → KnownBy users hash valid_key key u
unfolding from_environment is_valid_key
from_environment-KnownBy users hash none key u h = absurd (ground arith)
from_environment-KnownBy users hash (some v) key u h =
    elim (Bool-cases (is_valid_key (some v) key)) [
      | inl same ↦
          inr (ap some (sym (text_eq→eq key v (ground (arith, same)))), ground (arith, same, h))
      | inr other ↦ absurd (ground (arith, other, h))
    ]

or_next-value :
    (a : Reply (Dict Value)) (next : Reply (Option (Dict Value))) (u : Dict Value)
    → or_next a next ≡ value (some u)
    → (a ≡ value u) ⊎ (next ≡ value (some u))
unfolding or_next
or_next-value (value v) next u h = inl (ground arith)
or_next-value unauthorized next u h = inr h
or_next-value value_error next u h = absurd (ground arith)

required-value :
    (a : Reply (Option (Dict Value))) (u : Dict Value)
    → required a ≡ value u
    → (a ≡ value (some u)) × (is_empty u ≡ false)
unfolding required
required-value (value none) u h = absurd (ground arith)
required-value (value (some v)) u h = (ground arith, ground arith)
required-value unauthorized u h = absurd (ground arith)
required-value value_error u h = absurd (ground arith)

module _ (decode : Text → Text → ℕ → Option (Dict Value)) (env : Option Text)
    (users : Text → Option (Dict Value)) (hash : Text → Text) (valid_key : Option Text) where
  authenticate_key-KnownBy :
      (sent : Option Text) (u : Dict Value)
      → authenticate_key users hash valid_key sent ≡ value u
      → (key : Text) × (sent ≡ some key)
        × (is_empty key ≡ false)
        × KnownBy users hash valid_key key u
  unfolding authenticate_key by_key
  authenticate_key-KnownBy none u h = absurd (ground arith)
  authenticate_key-KnownBy (some key) u h = elim (Bool-cases (is_empty key)) [
    | inl blank ↦ absurd (ground (arith, blank, h))
    | inr filled ↦ elim (Option-cases (users (hash key))) [
      | inl unknown ↦ (
        key,
        refl,
        filled,
        from_environment-KnownBy users hash valid_key key u (ground (arith, filled, unknown, h)),
      )
      | inr (v, found) ↦ elim (Bool-cases (is_empty v)) [
        | inl no_entry ↦ (
          key,
          refl,
          filled,
          from_environment-KnownBy users hash valid_key key u
              (ground (arith, filled, found, no_entry, h)),
        )
        | inr entries ↦ (key, refl, filled, inl (ground (arith, filled, found, entries, h)))
      ]
    ]
  ]

  authenticate_api_key-KnownBy :
      (r : Request) (u : Dict Value)
      → authenticate_api_key users hash valid_key r ≡ value u
      → (key : Text) × Carries r key × (is_empty key ≡ false) × KnownBy users hash valid_key key u
  unfolding authenticate_api_key
  authenticate_api_key-KnownBy r u h =
      let (key, sent, filled, known) =
        authenticate_key-KnownBy (authenticate_api_key_from_request r) u h in
      (key, Carries-key r key sent, filled, known)

  authenticate_jwt-token :
      (credentials : Option Text) (now : ℕ) (u : Dict Value)
      → authenticate_jwt decode env credentials now ≡ value u
      → (token : Text) × (credentials ≡ some token)
        × (verify_token decode env token (codes "access") now ≡ value u)
  unfolding authenticate_jwt
  authenticate_jwt-token none now u h = absurd (ground arith)
  authenticate_jwt-token (some token) now u h = (token, refl, h)

  -- When `require_auth` lets a request through as the user `u`, then the dict of `u` is not empty,
  -- and `u` is the payload of the request's credentials, verified as an access token, or the request
  -- carries a key that is not empty and that `u` is known by.
  pub require_auth-known :
      (r : Request) (credentials : Option Text) (now : ℕ) (u : Dict Value)
      → require_auth decode env users hash valid_key r credentials now ≡ value u
      → (is_empty u ≡ false)
        × (((token : Text) × (credentials ≡ some token)
              × (verify_token decode env token (codes "access") now ≡ value u))
            ⊎ ((key : Text) × Carries r key
                × (is_empty key ≡ false)
                × KnownBy users hash valid_key key u))
  unfolding require_auth get_current_user
  require_auth-known r credentials now u h =
      let by_api_key = authenticate_api_key users hash valid_key r in
      let (current, entries) =
        required-value (get_current_user decode env users hash valid_key r credentials now) u h in
      (
        entries,
        elim (or_next-value (authenticate_jwt decode env credentials now)
            (or_next by_api_key (value none)) u current) [
              | inl verified ↦ inl (authenticate_jwt-token credentials now u verified)
              | inr next ↦ elim (or_next-value by_api_key (value none) u next) [
                | inl known ↦ inr (authenticate_api_key-KnownBy r u known)
                | inr nobody ↦ absurd (ground arith)
              ]
            ],
      )
