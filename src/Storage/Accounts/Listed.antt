-- ===== src/Storage/Accounts/Listed.antt =====
-- What authenticates, beside what `list_api_keys` shows.
use unified_ai_orchestrator.Base.{
  ℕ, ◌≡◌, refl, sym, false, none, some, List, [], ◌∷◌, All, if◌then◌else◌, arith, Bool-cases, inl,
  inr,
}
use unified_ai_orchestrator.Base.Text.{Text, text_eq, text_eq_refl}
use unified_ai_orchestrator.Base.Rows.{find_first, NoClash}
use unified_ai_orchestrator.Storage.Accounts.{
  UserRow, KeyRow, Accounts, info, key_clash, is_usable, owner, or_later, joined, legacy,
  get_user_by_api_key_hash, get_api_key, listed,
}
use unified_ai_orchestrator.Storage.Accounts.Unique.{IsValid}
use unified_ai_orchestrator.Storage.Accounts.Keys.{apart_later, not_the_hash}

joined-other :
    (h : Text) (now : ℕ) (us : List UserRow) (ks : List KeyRow)
    → All (λ l. text_eq l.key_hash h ≡ false) ks
    → joined h now us ks ≡ none
unfolding joined
joined-other h now us [] others = refl
joined-other h now us (l ∷ ks) (here, others) = ground (arith, joined-other h now us ks others)

joined-key :
    (i : Text) (now : ℕ) (us : List UserRow) (ks : List KeyRow) (k : KeyRow) (u : UserRow)
    → NoClash key_clash ks
    → find_first (λ l. text_eq l.id i) ks ≡ some k
    → owner k us ≡ some u
    → joined k.key_hash now us ks ≡ (if is_usable k now then some (info u) else none)
unfolding joined or_later
joined-key i now us [] k u differ found owned = absurd (ground arith)
joined-key i now us (x ∷ ks) k u (apart, differ) found owned = elim (Bool-cases (text_eq x.id i)) [
  | inl this ↦
      let e : x ≡ k = ground (arith, this, found) in
      rw (e, text_eq_refl k.key_hash)
        (ground
          (arith, owned, joined-other k.key_hash now us ks (rw (sym e) (apart_later i x ks apart))))
  | inr other ↦
      let found_later : find_first (λ l. text_eq l.id i) ks ≡ some k =
        ground (arith, other, found) in
      ground (
        arith,
        not_the_hash i x ks apart found_later,
        joined-key i now us ks k u differ found_later owned,
      )
]

-- What `list_api_keys` shows as active is what authenticates: at any time, in tables that kept their
-- constraints, the hash of a key whose owner exists, and that no user has in the legacy column,
-- finds the owner if the key is listed as active, and nobody if it is not.
pub get_user_by_api_key_hash-listed :
    (i : Text) (now : ℕ) (s : Accounts) {k : KeyRow} {u : UserRow}
    → IsValid s
    → get_api_key i s ≡ some k
    → owner k s.users ≡ some u
    → legacy k.key_hash s.users ≡ none
    → get_user_by_api_key_hash k.key_hash now s
      ≡ (if (listed now k).is_active then some (info u) else none)
unfolding get_user_by_api_key_hash get_api_key or_later listed is_usable
get_user_by_api_key_hash-listed i now s {k} {u} v found owned no_legacy =
    rw (no_legacy, or_later) (joined-key i now s.users s.api_keys k u v.keys_differ found owned)
