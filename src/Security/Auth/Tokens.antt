-- ===== src/Security/Auth/Tokens.antt =====
-- The secret, and what a token that was created is verified as.
use unified_ai_orchestrator.Base.{
  ◌≡◌, ◌↔◌, refl, ◌∙◌, ℕ, ◌+◌, true, false, Option, none, some, ltb, if◌then◌else◌, arith,
}
use unified_ai_orchestrator.Base.Text.{Text, codes, text_eq}
use unified_ai_orchestrator.Base.Dict.{Dict, lookup, insert, lookup-insert}
use unified_ai_orchestrator.Context.Compression.{strip, lstrip, is_space}
use unified_ai_orchestrator.Security.Auth.{
  Value, text, time, value, unauthorized, is_empty, placeholder, get_secret_key, stamp,
  refresh_lifetime, lifetime, type_is, checked, signed, create_access_token, create_refresh_token,
  decoded, verify_token,
}

placeholder_is_refused : text_eq (strip placeholder) placeholder ≡ true
unfolding strip lstrip is_space
placeholder_is_refused = refl

no_secret : get_secret_key none ≡ none
unfolding get_secret_key is_empty
no_secret = rw placeholder_is_refused (ground arith)

-- `get_secret_key` returns a key exactly when the variable is set, and the key is then its text
-- without the white space around it, which is neither empty nor the placeholder.
pub get_secret_key-safe :
    (env : Option Text) (key : Text)
    → (get_secret_key env ≡ some key) ↔ (
        (secret : Text) × (env ≡ some secret)
        × (key ≡ strip secret)
        × (is_empty secret ≡ false)
        × (is_empty key ≡ false)
        × (text_eq key placeholder ≡ false))
unfolding get_secret_key
get_secret_key-safe none key =
    (λ h. absurd (ground (arith, no_secret)), λ (secret, e, _, _, _, _). ground arith)
get_secret_key-safe (some secret) key = (
  λ h. (secret, refl, ground arith, ground arith, ground arith, ground arith),
  λ (s, e, k, n, m, p). ground arith,
)

lookup-type :
    (data_given : Dict Value) (expire : ℕ) (token_type : Text)
    → lookup "type" (stamp data_given expire token_type) ≡ some (text token_type)
unfolding stamp
lookup-type data_given expire token_type =
    lookup-insert "type" "type" (text token_type) (insert "exp" (time expire) data_given)

lookup-exp :
    (data_given : Dict Value) (expire : ℕ) (token_type : Text)
    → lookup "exp" (stamp data_given expire token_type) ≡ some (time expire)
unfolding stamp
lookup-exp data_given expire token_type =
    lookup-insert "type" "exp" (text token_type) (insert "exp" (time expire) data_given)
    ∙ lookup-insert "exp" "exp" (time expire) data_given

-- What `jose` documents: a token decodes, with the key that signed it, to its payload, until the
-- payload's time "exp" has passed.
abbrev pub Decodes :
    {T : Type 0} → (Dict Value → Text → T) → (T → Text → ℕ → Option (Dict Value)) → Type 0
Decodes encode decode =
    (payload : Dict Value) (key : Text) (now expire : ℕ)
    → lookup "exp" payload ≡ some (time expire)
    → decode (encode payload key) key now ≡ (if ltb expire now then none else some payload)

module _ {T : Type 0} (encode : Dict Value → Text → T) (decode : T → Text → ℕ → Option (Dict Value))
    (law : Decodes encode decode) (env : Option Text) (data_given : Dict Value) where
  pub signed-key :
      (key_or : Option Text) (payload : Dict Value) {token : T}
      → signed encode key_or payload ≡ some token
      → (key : Text) × (key_or ≡ some key) × (token ≡ encode payload key)
  unfolding signed
  signed-key none payload h = ground arith
  signed-key (some key) payload h = (key, refl, ground arith)

  pub verify-stamp :
      (token_type wanted key : Text) (expire now : ℕ)
      → get_secret_key env ≡ some key
      → verify_token decode env (encode (stamp data_given expire token_type) key) wanted now ≡ (
          if ltb expire now
          then unauthorized
          else if text_eq token_type wanted
          then value (stamp data_given expire token_type)
          else unauthorized)
  unfolding verify_token decoded checked type_is
  verify-stamp token_type wanted key expire now key_is = ground (
    arith,
    key_is,
    lookup-type data_given expire token_type,
    law (stamp data_given expire token_type) key now expire
        (lookup-exp data_given expire token_type),
  )

  -- An access token that was created at the time `start` is verified at the time `now` as an access
  -- token as long as its lifetime, which is the given one or thirty minutes, has not passed. It
  -- gives back the data, with the time and the type put in, and is refused after that.
  pub verify-create_access_token :
      (expires_delta : Option ℕ) (start now : ℕ) {token : T}
      → create_access_token encode env data_given expires_delta start ≡ some token
      → verify_token decode env token (codes "access") now ≡ (
          if ltb (start + lifetime expires_delta) now
          then unauthorized
          else value (stamp data_given (start + lifetime expires_delta) (codes "access")))
  unfolding create_access_token signed
  verify-create_access_token expires_delta start now {token} h =
      let (key, key_is, made) =
        signed-key (get_secret_key env)
          (stamp data_given (start + lifetime expires_delta) (codes "access")) h in
      rw made (
        verify-stamp (codes "access") (codes "access") key (start + lifetime expires_delta) now
          key_is)

  -- A refresh token is never verified as an access token, at no time and with no data in it.
  pub verify-create_refresh_token :
      (start now : ℕ) {token : T}
      → create_refresh_token encode env data_given start ≡ some token
      → verify_token decode env token (codes "access") now ≡ unauthorized
  unfolding create_refresh_token signed
  verify-create_refresh_token start now {token} h =
      let (key, key_is, made) =
        signed-key (get_secret_key env)
          (stamp data_given (start + refresh_lifetime) (codes "refresh")) h in
      rw
        (
          made,
          verify-stamp (codes "refresh") (codes "access") key (start + refresh_lifetime) now key_is,
        )
        (ground arith)
