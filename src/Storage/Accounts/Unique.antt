-- ===== src/Storage/Accounts/Unique.antt =====
-- The constraints of the tables, which every operation keeps.
use unified_ai_orchestrator.Base.{
  ℕ, ◌≡◌, true, false, Option, none, some, List, [], ◌∷◌, any, select, not, arith, Bool-cases, inl,
  inr,
}
use unified_ai_orchestrator.Base.Text.{Text, text_eq_sym, same_text_sym}
use unified_ai_orchestrator.Base.Rows.{
  NoClash, NoClash-select, NoClash-snoc, NoClash-map, All_select, All_mono, not-any,
}
use unified_ai_orchestrator.Storage.Accounts.{
  UserRow, KeyRow, Accounts, clash, key_clash, create_user, set_hash, update_user_api_key_hash,
  create_api_key, revoke, revoke_api_key,
}

-- No two users share an id, a name or an email, and no two keys an id or a hash.
pub record IsValid (s : Accounts) : Type 0 where
  pub users_differ : NoClash clash s.users
  pub keys_differ : NoClash key_clash s.api_keys

-- The operations that change the tables, with their arguments.
pub data Change : Type 0 where
  user_created : Text → Text → Option Text → Option Text → Text → Change
  hash_updated : Text → Text → Change
  key_created : Text → Text → Text → Option Text → Option ℕ → ℕ → Change
  key_revoked : Text → ℕ → Change

-- An operation that raises changes nothing.
abbrev pub unless_raised : Accounts → Option Accounts → Accounts
unless_raised s none = s
unless_raised s (some t) = t

abbrev pub change : Change → Accounts → Accounts
change (user_created i name email password role) s = create_user i name email password role s
change (hash_updated i h) s = update_user_api_key_hash i h s
change (key_created i u h name expires now) s =
    unless_raised s (create_api_key i u h name expires now s)
change (key_revoked i now) s = revoke_api_key i now s

abbrev pub changes : List Change → Accounts → Accounts
changes [] s = s
changes (c ∷ cs) s = changes cs (change c s)

clash_sym : (u v : UserRow) → clash u v ≡ clash v u
unfolding clash
clash_sym u v =
    ground (
      arith,
      text_eq_sym u.id v.id,
      text_eq_sym u.username v.username,
      same_text_sym u.email v.email,
    )

clash-set_hash : (i h : Text) (u v : UserRow) → clash (set_hash i h u) (set_hash i h v) ≡ clash u v
unfolding clash set_hash
clash-set_hash i h u v = ground arith

key_clash-revoke :
    (i : Text) (now : ℕ) (k l : KeyRow)
    → key_clash (revoke i now k) (revoke i now l) ≡ key_clash k l
unfolding key_clash revoke
key_clash-revoke i now k l = ground arith

create_user-IsValid :
    (i name : Text) (email password : Option Text) (role : Text) {s : Accounts}
    → IsValid s
    → IsValid (create_user i name email password role s)
unfolding create_user
create_user-IsValid i name email password role {s} v =
    let row : UserRow = record {
      id = i;
      username = name;
      email = email;
      password_hash = password;
      role = role;
      api_key_hash = none;
    } in
    let kept = select (λ u. not (clash u row)) s.users in
    record {
      users_differ =
          NoClash-snoc clash kept row
            (NoClash-select clash (λ u. not (clash u row)) s.users v.users_differ)
            (All_mono (λ u. not (clash u row) ≡ true) (λ u. clash u row ≡ false) kept
              (λ u h. ground arith) (All_select (λ u. not (clash u row)) s.users));
      keys_differ = v.keys_differ;
    }

create_api_key-IsValid :
    (i u h : Text) (name : Option Text) (expires : Option ℕ) (now : ℕ) (s : Accounts)
    → IsValid s
    → IsValid (unless_raised s (create_api_key i u h name expires now s))
unfolding create_api_key
create_api_key-IsValid i u h name expires now s v =
    let row : KeyRow = record {
      id = i;
      user_id = u;
      key_hash = h;
      name = name;
      expires_at = expires;
      created_at = now;
      revoked_at = none;
    } in
    elim (Bool-cases (any (λ k. key_clash k row) s.api_keys)) [
      | inl there ↦ rw there v
      | inr new ↦ rw new (record {
        users_differ = v.users_differ;
        keys_differ =
            NoClash-snoc key_clash s.api_keys row v.keys_differ
              (not-any (λ k. key_clash k row) s.api_keys new);
      })
    ]

pub change-IsValid : (c : Change) (s : Accounts) → IsValid s → IsValid (change c s)
unfolding update_user_api_key_hash revoke_api_key
change-IsValid (user_created i name email password role) s v =
    create_user-IsValid i name email password role v
change-IsValid (hash_updated i h) s v = record {
  users_differ = NoClash-map clash (set_hash i h) s.users (clash-set_hash i h) v.users_differ;
  keys_differ = v.keys_differ;
}
change-IsValid (key_created i u h name expires now) s v =
    create_api_key-IsValid i u h name expires now s v
change-IsValid (key_revoked i now) s v = record {
  users_differ = v.users_differ;
  keys_differ =
      NoClash-map key_clash (revoke i now) s.api_keys (key_clash-revoke i now) v.keys_differ;
}

-- Whatever operations are run, failing or not, tables whose rows kept the constraints (such as empty
-- ones) keep them: no two users share an id, a name or an email, and no two API keys an id or a
-- hash.
pub changes-IsValid : (cs : List Change) (s : Accounts) → IsValid s → IsValid (changes cs s)
changes-IsValid [] s v = v
changes-IsValid (c ∷ cs) s v = changes-IsValid cs (change c s) (change-IsValid c s v)
