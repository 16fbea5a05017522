-- ===== src/Api/AuthRoutes/Keys/Owner.antt =====
-- Who can make and revoke which API keys by the routes.
use unified_ai_orchestrator.Base.{
  ℕ, ◌≡◌, ◌≢◌, ◌⊎◌, refl, Bool, true, Option, none, some, [], is_some, if◌then◌else◌, arith, inl,
  inr,
}
use unified_ai_orchestrator.Base.Text.{Text, codes, text_eq, text_eq_refl}
use unified_ai_orchestrator.Base.Dict.{Dict, lookup}
use unified_ai_orchestrator.Base.Rows.{find_first}
use unified_ai_orchestrator.Security.Auth.{Value, text, time}
use unified_ai_orchestrator.Storage.Accounts
use unified_ai_orchestrator.Storage.Accounts.{UserRow, KeyRow, UserInfo, info, is_current}
use unified_ai_orchestrator.Storage.Accounts.Unique.{IsValid}
use unified_ai_orchestrator.Storage.Accounts.Keys.{revoke_api_key-forever}
use unified_ai_orchestrator.Storage.Accounts.Fresh.{create_api_key-authenticates}
use unified_ai_orchestrator.Api.AuthRoutes.{
  answered, raised, Server, text_of, says, acting, log, log_key,
}
use unified_ai_orchestrator.Api.AuthRoutes.Keys.{
  Zone, expiry, create_api_key, key_stored, key_response, revoke_api_key,
}

-- The user acts for itself, or is an administrator.
abbrev pub MayAct : Dict Value → Text → Type 0
MayAct u user_id =
    (text_of (lookup "user_id" u) ≡ some user_id)
    ⊎ ((text_of (lookup "user_id" u) ≢ none) × (text_of (lookup "role" u) ≡ some (codes "admin")))

says_it : (v : Option Value) (wanted : Text) → text_of v ≡ some wanted → says v wanted ≡ true
unfolding text_of says
says_it none wanted h = ground arith
says_it (some (time n)) wanted h = ground arith
says_it (some (text t)) wanted h =
    let e : t ≡ wanted = ground (arith, h) in rw e (text_eq_refl wanted)

is_there : (v : Option Value) → text_of v ≢ none → is_some v ≡ true
unfolding text_of
is_there none h = absurd (h refl)
is_there (some v) h = refl

acting-MayAct :
    (u : Dict Value) (user_id : Text) → MayAct u user_id → acting u user_id ≡ answered tt
unfolding acting
acting-MayAct u user_id (inl own) =
    rw
      (
        is_there (lookup "user_id" u) (λ e. ground (arith, own, e)),
        says_it (lookup "user_id" u) user_id own,
      )
      refl
acting-MayAct u user_id (inr (known, admin)) =
    rw (is_there (lookup "user_id" u) known)
      (ground (arith, says_it (lookup "role" u) (codes "admin") admin))

same_row : (a t : Accounts.Accounts) → some a ≡ some t → a ≡ t
same_row a t h = ground (arith, h)

module _ (audit_works : Bool) (ip_address : Option Text) where
  stored_accounts :
      (key_id api_key : Text) (name : Option Text) (user_id : Text) (expires_at : Option ℕ)
      (u : Dict Value) (now : ℕ) (o : Option Accounts.Accounts) (s : Server) {t : Accounts.Accounts}
      → o ≡ some t
      → (key_stored audit_works ip_address key_id api_key name user_id expires_at u now o
          s).1.accounts
        ≡ t
  unfolding key_stored log log_key
  stored_accounts key_id api_key name user_id expires_at u now none s {t} h = absurd (ground arith)
  stored_accounts key_id api_key name user_id expires_at u now (some a) s {t} h = same_row a t h

  -- What `create_api_key` of the routes stores, for the user itself or by an administrator, is a key that
  -- authenticates its user, at any later time before its `expires_days` have passed on the local clock and
  -- not after, whatever the time zone, if the tables kept their constraints and accept the row, the
  -- user exists, and no user has the hash in the legacy column. Without `expires_days`, or with 0 of
  -- them, it never expires.
  pub create_api_key-works :
      (zone : Zone) (hash : Text → Text) (api_key key_id : Text) (current_user : Dict Value)
      (user_id : Text) (name : Option Text) (expires_days : Option ℕ) (now later : ℕ) (s : Server)
      {t : Accounts.Accounts} {u : UserRow}
      → MayAct current_user user_id
      → IsValid s.accounts
      → Accounts.create_api_key key_id user_id
          (hash api_key)
          name
          (expiry zone expires_days now)
          now
          s.accounts
        ≡ some t
      → find_first (λ v. text_eq v.id user_id) s.accounts.users ≡ some u
      → Accounts.legacy (hash api_key) s.accounts.users ≡ none
      → Accounts.get_user_by_api_key_hash
          (hash api_key)
          later
          (create_api_key audit_works ip_address zone hash api_key key_id current_user user_id name
            expires_days now s).1.accounts
        ≡ (if is_current (expiry zone expires_days now) later then some (info u) else none)
  unfolding create_api_key
  create_api_key-works zone hash api_key key_id current_user user_id name expires_days now later s
        {t} {u} may v stored owned no_legacy =
      let e =
        stored_accounts key_id api_key name user_id (expiry zone expires_days now) current_user now
          (Accounts.create_api_key key_id user_id (hash api_key) name (expiry zone expires_days now)
            now s.accounts)
          s {t = t} stored in
      rw (create_api_key, acting-MayAct current_user user_id may, e)
        (create_api_key-authenticates key_id user_id (hash api_key) name
          (expiry zone expires_days now) now later s.accounts {t = t} {u = u} v stored owned
          no_legacy)

  -- A key that is made without `expires_days` is stored, and its owner gets an error in place of the key.
  pub create_api_key-lost :
      (zone : Zone) (hash : Text → Text) (api_key key_id : Text) (current_user : Dict Value)
      (user_id : Text) (name : Option Text) (now : ℕ) (s : Server) {t : Accounts.Accounts}
      → MayAct current_user user_id
      → Accounts.create_api_key key_id user_id (hash api_key) name none now s.accounts ≡ some t
      → let (answer, s') =
          create_api_key audit_works ip_address zone hash api_key key_id current_user user_id name
            none now s in
        (answer ≡ raised) × (s'.accounts ≡ t)
  unfolding create_api_key expiry key_stored key_response log
  create_api_key-lost zone hash api_key key_id current_user user_id name now s {t} may stored =
      rw (create_api_key, acting-MayAct current_user user_id may, stored) (refl, refl)

  -- Any user can revoke any key: in a request under its own identifier, whoever owns the key, after which
  -- the key authenticates nobody, if the tables kept their constraints and no user has the hash in
  -- the legacy column.
  pub revoke_api_key-any :
      (current_user : Dict Value) (user_id key_id : Text) (now later : ℕ) (s : Server) {k : KeyRow}
      → text_of (lookup "user_id" current_user) ≡ some user_id
      → IsValid s.accounts
      → Accounts.get_api_key key_id s.accounts ≡ some k
      → Accounts.legacy k.key_hash s.accounts.users ≡ none
      → let (answer, s') =
          revoke_api_key audit_works ip_address current_user user_id key_id now s in
        (answer ≡ answered tt)
        × (Accounts.get_user_by_api_key_hash k.key_hash later s'.accounts ≡ none)
  unfolding revoke_api_key log
  revoke_api_key-any current_user user_id key_id now later s {k} own v found no_legacy =
      rw (revoke_api_key, acting-MayAct current_user user_id (inl own))
        (refl, revoke_api_key-forever key_id now later [] s.accounts {k = k} v found no_legacy tt)
