-- ===== src/Api/AuthRoutes/Login.antt =====
-- Which tokens `login` and `refresh` give, and to whom they are verified.
use unified_ai_orchestrator.Base.{
  ℕ, ◌+◌, ◌≡◌, refl, ap, ◌∙◌, Bool, true, false, Option, none, some, [], ◌∷◌, ltb, if◌then◌else◌,
  arith, Bool-cases, inl, inr,
}
use unified_ai_orchestrator.Base.Text.{Text, codes}
use unified_ai_orchestrator.Base.Dict.{Dict}
use unified_ai_orchestrator.Security.Auth
use unified_ai_orchestrator.Security.Auth.{
  Value, text, time, stamp, refresh_lifetime, access_lifetime, create_access_token,
  create_refresh_token, verify_token, signed, lifetime, get_secret_key,
}
use unified_ai_orchestrator.Security.Auth.Tokens.{
  Decodes, verify-create_access_token, signed-key, verify-stamp,
}
use unified_ai_orchestrator.Storage.Accounts
use unified_ai_orchestrator.Storage.Accounts.{UserInfo}
use unified_ai_orchestrator.Api.AuthRoutes.{
  answered, unauthorized, Server, LoginResponse, token_data, text_of, role_or_user, both, tokens,
  let_in, check_password, for_user, login, or_raised, renewed, by_reply, refresh,
}

-- The claims of a user.
abbrev pub claims_of : UserInfo → Dict Value
claims_of u = token_data u.user_id u.username u.role

module _ {T : Type 0} (encode : Dict Value → Text → T) (env : Option Text) where
  both-some :
      (a b : Option T) (u : UserInfo) {r : LoginResponse T}
      → both encode env a b u ≡ some r
      → (a ≡ some r.access_token) × (b ≡ some r.refresh_token) × (r.user_info ≡ u)
  unfolding both
  both-some none b u {r} h = absurd (ground arith)
  both-some (some a) none u {r} h = absurd (ground arith)
  both-some (some a) (some b) u {r} h = (ground arith, ground arith, ground arith)

  -- The password of the user that has the name was given, and the response is about this user.
  abbrev pub LoggedIn : (Text → Text → Bool) → Text → Text → Server → LoginResponse T → Type 0
  LoggedIn verify_password username password s r =
      (h : Text) × (key_hash : Option Text) × (Accounts.get_user_by_username username s.accounts
        ≡ some (r.user_info, some h, key_hash))
      × (verify_password password h ≡ true)

  module _ (audit_works : Bool) (ip_address : Option Text) where
    let_in-answered :
        (u : UserInfo) (now : ℕ) (o : Option (LoginResponse T)) (s : Server) {r : LoginResponse T}
        → (let_in audit_works ip_address encode env u now o s).0 ≡ answered r
        → o ≡ some r
    unfolding let_in
    let_in-answered u now none s {r} h = absurd (ground arith)
    let_in-answered u now (some q) s {r} h = ground arith

    check_password-answered :
        (verify_password : Text → Text → Bool) (u : UserInfo) (password_hash : Option Text)
        (password : Text) (now : ℕ) (s : Server) {r : LoginResponse T}
        → (check_password audit_works ip_address encode env verify_password u password_hash password
            now s).0
          ≡ answered r
        → (h : Text) × (password_hash ≡ some h)
          × (verify_password password h ≡ true)
          × (tokens encode env u now ≡ some r)
    unfolding check_password
    check_password-answered verify_password u none password now s {r} h = absurd (ground arith)
    check_password-answered verify_password u (some []) password now s {r} h = absurd (ground arith)
    check_password-answered verify_password u (some (c ∷ t)) password now s {r} h =
        elim (Bool-cases (verify_password password (c ∷ t))) [
          | inl fits ↦
              (c ∷ t, refl, fits, let_in-answered u now (tokens encode env u now) s (rw fits at h))
          | inr wrong ↦ absurd (no_answer (rw wrong at h))
        ]
      where
        no_answer : unauthorized ≡ answered r → ⊥
        no_answer e = ground (arith, e)

    for_user-answered :
        (verify_password : Text → Text → Bool) (o : Option (UserInfo × Option Text × Option Text))
        (password : Text) (now : ℕ) (s : Server) {r : LoginResponse T}
        → (for_user audit_works ip_address encode env verify_password o password now s).0
          ≡ answered r
        → (u : UserInfo) × (h : Text) × (key_hash : Option Text) × (o ≡ some (u, some h, key_hash))
          × (verify_password password h ≡ true)
          × (tokens encode env u now ≡ some r)
    unfolding for_user
    for_user-answered verify_password none password now s {r} h = absurd (ground arith)
    for_user-answered verify_password (some (u, password_hash, key_hash)) password now s {r} h =
        let (t, stored, fits, made) =
          check_password-answered verify_password u password_hash password now s h in
        (u, t, key_hash, rw stored refl, fits, made)

    login-answered :
        (verify_password : Text → Text → Bool) (username password : Text) (now : ℕ) (s : Server)
        {r : LoginResponse T}
        → (login audit_works ip_address encode env verify_password username password now s).0
          ≡ answered r
        → LoggedIn verify_password username password s r
          × ((create_access_token encode env (claims_of r.user_info) none now ≡ some r.access_token)
              × (create_refresh_token encode env (claims_of r.user_info) now
                  ≡ some r.refresh_token))
    unfolding login tokens
    login-answered verify_password username password now s {r} answer =
        let (u, h, key_hash, found, fits, made) =
          for_user-answered verify_password (Accounts.get_user_by_username username s.accounts)
            password now s answer in
        let (access, refreshed, same) =
          both-some (create_access_token encode env (claims_of u) none now)
            (create_refresh_token encode env (claims_of u) now) u made in
        ((h, key_hash, rw same found, fits), (rw same access, rw same refreshed))

    module _ (decode : T → Text → ℕ → Option (Dict Value)) (law : Decodes encode decode) where
      -- Who gets the tokens of a login has given the password of the user with this name, and the
      -- access token is verified at any time as this user's, with the role of the table, until thirty
      -- minutes have passed, and is refused after that.
      pub login-verified :
          (verify_password : Text → Text → Bool) (username password : Text) (now later : ℕ)
          (s : Server) {r : LoginResponse T}
          → (login audit_works ip_address encode env verify_password username password now s).0
            ≡ answered r
          → LoggedIn verify_password username password s r
            × (verify_token decode env r.access_token (codes "access") later ≡ (
                if ltb (now + access_lifetime) later
                then Auth.unauthorized
                else Auth.value
                    (stamp (claims_of r.user_info) (now + access_lifetime) (codes "access"))))
      unfolding lifetime
      login-verified verify_password username password now later s {r} answer =
          let (logged, (access, refreshed)) =
            login-answered verify_password username password now s answer in
          (
            logged,
            verify-create_access_token encode decode law env (claims_of r.user_info) none now later
                access,
          )

      renewed-claims :
          (u : UserInfo) (expire later : ℕ)
          → renewed encode env (stamp (claims_of u) expire (codes "refresh")) later
            ≡ or_raised encode env (create_access_token encode env (claims_of u) none later)
      unfolding renewed stamp text_of role_or_user
      renewed-claims u expire later = refl

      refresh-reply :
          (b : Bool) (u : UserInfo) (expire later : ℕ)
          → by_reply encode env
              (if b
                then Auth.unauthorized
                else Auth.value (stamp (claims_of u) expire (codes "refresh")))
              later
            ≡ (if b
                then unauthorized
                else or_raised encode env (create_access_token encode env (claims_of u) none later))
      unfolding by_reply
      refresh-reply true u expire later = refl
      refresh-reply false u expire later = renewed-claims u expire later

      signs :
          (payload : Dict Value) (key : Text)
          → get_secret_key env ≡ some key
          → signed encode (get_secret_key env) payload ≡ some (encode payload key)
      unfolding signed
      signs payload key key_is = rw key_is refl

      -- The refresh token of a login gives, until seven days have passed, a new access token, and after that
      -- it is refused. The new token carries the claims of that login: until thirty minutes after the
      -- refresh it is verified, at any time `used`, as the user's with the role that the table had at
      -- the login, whatever the table holds since, which `refresh` does not read.
      pub refresh-login :
          (verify_password : Text → Text → Bool) (username password : Text) (now later used : ℕ)
          (s : Server) {r : LoginResponse T}
          → (login audit_works ip_address encode env verify_password username password now s).0
            ≡ answered r
          → (t : T) × (create_access_token encode env (claims_of r.user_info) none later ≡ some t)
            × (refresh encode env decode r.refresh_token later
                ≡ (if ltb (now + refresh_lifetime) later then unauthorized else answered t))
            × (verify_token decode env t (codes "access") used ≡ (
                if ltb (later + access_lifetime) used
                then Auth.unauthorized
                else Auth.value
                    (stamp (claims_of r.user_info) (later + access_lifetime) (codes "access"))))
      unfolding refresh create_access_token create_refresh_token or_raised lifetime
      refresh-login verify_password username password now later used s {r} answer =
          let (logged, (access, refreshed)) =
            login-answered verify_password username password now s answer in
          let claims = claims_of r.user_info in
          let payload = stamp claims (now + refresh_lifetime) (codes "refresh") in
          let (key, key_is, made) =
            signed-key encode decode law env claims (get_secret_key env) payload refreshed in
          let t = encode (stamp claims (later + lifetime none) (codes "access")) key in
          let signs_it = signs (stamp claims (later + lifetime none) (codes "access")) key key_is in
          let verified =
            verify-stamp encode decode law env claims (codes "refresh") (codes "refresh") key
              (now + refresh_lifetime) later key_is in
          let over = ltb (now + refresh_lifetime) later in
          (
            t,
            signs_it,
            rw made (
                ap (λ x. by_reply encode env x later) verified
                ∙ refresh-reply over r.user_info (now + refresh_lifetime) later
                ∙ ap (λ o. if over then unauthorized else or_raised encode env o) signs_it),
            verify-create_access_token encode decode law env claims none later used signs_it,
          )
