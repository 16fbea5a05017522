-- ===== src/Storage/Accounts/Fresh.antt =====
-- What a new API key authenticates.
use unified_ai_orchestrator.Base.{
  ℕ, ◌≡◌, refl, false, Option, none, some, List, [], ◌∷◌, ◌++◌, any, if◌then◌else◌, arith,
  Bool-cases, inl, inr,
}
use unified_ai_orchestrator.Base.Text.{Text, text_eq, text_eq_refl}
use unified_ai_orchestrator.Base.Rows.{find_first}
use unified_ai_orchestrator.Storage.Accounts.{
  UserRow, KeyRow, Accounts, info, key_clash, is_current, is_null, owner, legacy,
  get_user_by_api_key_hash, create_api_key, get_api_key, listed,
}
use unified_ai_orchestrator.Storage.Accounts.Unique.{IsValid, key_created, change-IsValid}
use unified_ai_orchestrator.Storage.Accounts.Listed.{get_user_by_api_key_hash-listed}

found_last :
    (row : KeyRow) (ks : List KeyRow)
    → any (λ k. key_clash k row) ks ≡ false
    → find_first (λ k. text_eq k.id row.id) (ks ++ row ∷ []) ≡ some row
unfolding key_clash
found_last row [] new = rw (text_eq_refl row.id) refl
found_last row (k ∷ ks) new = ground (arith, found_last row ks)

abbrev pub key_row : Text → Text → Text → Option Text → Option ℕ → ℕ → KeyRow
key_row i u h name expires now = record {
  id = i;
  user_id = u;
  key_hash = h;
  name = name;
  expires_at = expires;
  created_at = now;
  revoked_at = none;
}

kept :
    (i user_id h : Text) (name : Option Text) (expires : Option ℕ) (now later : ℕ) (s : Accounts)
    {u : UserRow}
    → IsValid (record s { api_keys = s.api_keys ++ key_row i user_id h name expires now ∷ [] })
    → any (λ k. key_clash k (key_row i user_id h name expires now)) s.api_keys ≡ false
    → find_first (λ v. text_eq v.id user_id) s.users ≡ some u
    → legacy h s.users ≡ none
    → get_user_by_api_key_hash h later
        (record s { api_keys = s.api_keys ++ key_row i user_id h name expires now ∷ [] })
      ≡ (if is_current expires later then some (info u) else none)
unfolding get_api_key owner listed is_null
kept i user_id h name expires now later s {u} v new owned no_legacy =
    let row = key_row i user_id h name expires now in
    get_user_by_api_key_hash-listed i later (record s { api_keys = s.api_keys ++ row ∷ [] })
      {k = row} {u = u} v (found_last row s.api_keys new) owned no_legacy

-- A key that was stored authenticates its user, at any time before it expires, and nobody after.
pub create_api_key-authenticates :
    (i user_id h : Text) (name : Option Text) (expires : Option ℕ) (now later : ℕ) (s : Accounts)
    {t : Accounts} {u : UserRow}
    → IsValid s
    → create_api_key i user_id h name expires now s ≡ some t
    → find_first (λ v. text_eq v.id user_id) s.users ≡ some u
    → legacy h s.users ≡ none
    → get_user_by_api_key_hash h later t
      ≡ (if is_current expires later then some (info u) else none)
unfolding create_api_key
create_api_key-authenticates i user_id h name expires now later s {t} {u} v stored owned no_legacy =
    let row = key_row i user_id h name expires now in
    elim (Bool-cases (any (λ k. key_clash k row) s.api_keys)) [
      | inl there ↦ absurd (ground (arith, there, stored))
      | inr new ↦
          let after : Accounts = record s { api_keys = s.api_keys ++ row ∷ [] } in
          let e : t ≡ after = ground (arith, new, stored) in
          let v' : IsValid after =
            rw new at (change-IsValid (key_created i user_id h name expires now) s v) in
          rw e (kept i user_id h name expires now later s {u = u} v' new owned no_legacy)
    ]
