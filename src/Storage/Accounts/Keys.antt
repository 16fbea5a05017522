-- ===== src/Storage/Accounts/Keys.antt =====
-- What never authenticates: keys that were revoked.
use unified_ai_orchestrator.Base.{
  ℕ, ◌≡◌, refl, ◌∙◌, ap, Bool, true, false, Option, none, some, List, [], ◌∷◌, map, any, select,
  All, ◌&&◌, not, arith, Bool-cases, inl, inr,
}
use unified_ai_orchestrator.Base.Text.{
  Text, text_eq, same_text, text_eq_sym, text_eq→eq, text_eq_refl,
}
use unified_ai_orchestrator.Base.Rows.{
  find_first, NoClash, All-select, All-snoc, All_mono, All-map, any-map, any-append, All_find,
}
use unified_ai_orchestrator.Storage.Accounts.{
  UserRow, KeyRow, Accounts, clash, key_clash, is_null, is_usable, or_later, joined, legacy,
  get_user_by_api_key_hash, create_user, set_hash, update_user_api_key_hash, create_api_key, revoke,
  revoke_api_key, get_api_key,
}
use unified_ai_orchestrator.Storage.Accounts.Users.{new_row}
use unified_ai_orchestrator.Storage.Accounts.Unique.{
  IsValid, Change, user_created, hash_updated, key_created, key_revoked, unless_raised, change,
  changes,
}

-- The operation does not write the hash into the legacy column.
abbrev pub Leaves : Text → Change → Type 0
Leaves h (hash_updated i g) = text_eq g h ≡ false
Leaves h (user_created i name email password role) = Unit
Leaves h (key_created i u g name expires now) = Unit
Leaves h (key_revoked i now) = Unit

live : Text → KeyRow → Bool
live h k = text_eq k.key_hash h && is_null k.revoked_at

-- The hash belongs to a key that is revoked, and to no user's legacy column.
record IsDead (h : Text) (s : Accounts) : Type 0 where
  no_live : All (λ k. live h k ≡ false) s.api_keys
  known : any (λ k. text_eq k.key_hash h) s.api_keys ≡ true
  no_legacy : All (λ u. same_text u.api_key_hash (some h) ≡ false) s.users

legacy-none :
    (h : Text) (us : List UserRow)
    → All (λ u. same_text u.api_key_hash (some h) ≡ false) us
    → legacy h us ≡ none
unfolding legacy
legacy-none h [] no_legacy = refl
legacy-none h (u ∷ us) (here, no_legacy) = ground (arith, legacy-none h us no_legacy)

joined-none :
    (h : Text) (now : ℕ) (us : List UserRow) (ks : List KeyRow)
    → All (λ k. live h k ≡ false) ks
    → joined h now us ks ≡ none
unfolding joined live is_usable
joined-none h now us [] no_live = refl
joined-none h now us (k ∷ ks) (here, no_live) = ground (arith, joined-none h now us ks no_live)

IsDead-none :
    (h : Text) (now : ℕ) (s : Accounts) → IsDead h s → get_user_by_api_key_hash h now s ≡ none
unfolding get_user_by_api_key_hash or_later
IsDead-none h now s d =
    rw (legacy-none h s.users d.no_legacy, joined-none h now s.users s.api_keys d.no_live) refl

live-revoke :
    (h i : Text) (now : ℕ) (k : KeyRow) → live h k ≡ false → live h (revoke i now k) ≡ false
unfolding live revoke is_null
live-revoke h i now k dead = ground arith

hash-revoke :
    (h i : Text) (now : ℕ) (k : KeyRow) → text_eq (revoke i now k).key_hash h ≡ text_eq k.key_hash h
unfolding revoke
hash-revoke h i now k = ground arith

legacy-set_hash :
    (h i g : Text) (u : UserRow)
    → text_eq g h ≡ false
    → same_text u.api_key_hash (some h) ≡ false
    → same_text (set_hash i g u).api_key_hash (some h) ≡ false
unfolding set_hash
legacy-set_hash h i g u other none_yet = ground arith

fresh_hash :
    (h : Text) (row : KeyRow) (ks : List KeyRow)
    → any (λ k. text_eq k.key_hash h) ks ≡ true
    → any (λ k. key_clash k row) ks ≡ false
    → text_eq row.key_hash h ≡ false
unfolding key_clash
fresh_hash h row [] known new = absurd (ground arith)
fresh_hash h row (k ∷ ks) known new =
    ground (arith, fresh_hash h row ks, text_eq→eq k.key_hash h, text_eq_sym h row.key_hash)

row_is_dead : (h : Text) (row : KeyRow) → text_eq row.key_hash h ≡ false → live h row ≡ false
unfolding live
row_is_dead h row other = ground arith

created-IsDead :
    (h i u g : Text) (name : Option Text) (expires : Option ℕ) (now : ℕ) (s : Accounts)
    → IsDead h s
    → IsDead h (unless_raised s (create_api_key i u g name expires now s))
unfolding create_api_key
created-IsDead h i u g name expires now s d =
    let row : KeyRow = record {
      id = i;
      user_id = u;
      key_hash = g;
      name = name;
      expires_at = expires;
      created_at = now;
      revoked_at = none;
    } in
    elim (Bool-cases (any (λ k. key_clash k row) s.api_keys)) [
      | inl there ↦ rw there d
      | inr new ↦
          let other : text_eq g h ≡ false = fresh_hash h row s.api_keys d.known new in
          rw new (record {
            no_live =
                All-snoc (λ k. live h k ≡ false) s.api_keys row d.no_live (row_is_dead h row other);
            known = any-append (λ k. text_eq k.key_hash h) s.api_keys (row ∷ []) ∙ rw d.known refl;
            no_legacy = d.no_legacy;
          })
    ]

change-IsDead :
    (h : Text) (c : Change) (s : Accounts) → Leaves h c → IsDead h s → IsDead h (change c s)
unfolding create_user update_user_api_key_hash revoke_api_key
change-IsDead h (user_created i name email password role) s leaves d =
    let row : UserRow = new_row i name email password role in
    record {
      no_live = d.no_live;
      known = d.known;
      no_legacy =
          All-snoc (λ u. same_text u.api_key_hash (some h) ≡ false)
            (select (λ u. not (clash u row)) s.users) row
            (All-select (λ u. same_text u.api_key_hash (some h) ≡ false) (λ u. not (clash u row))
              s.users d.no_legacy)
            refl;
    }
change-IsDead h (hash_updated i g) s leaves d = record {
  no_live = d.no_live;
  known = d.known;
  no_legacy =
      All-map (λ u. same_text u.api_key_hash (some h) ≡ false) (set_hash i g) s.users
        (λ u none_yet. legacy-set_hash h i g u leaves none_yet) d.no_legacy;
}
change-IsDead h (key_created i u g name expires now) s leaves d =
    created-IsDead h i u g name expires now s d
change-IsDead h (key_revoked i now) s leaves d = record {
  no_live =
      All-map (λ k. live h k ≡ false) (revoke i now) s.api_keys (live-revoke h i now) d.no_live;
  known =
      any-map (λ k. text_eq k.key_hash h) (revoke i now) s.api_keys (hash-revoke h i now) ∙ d.known;
  no_legacy = d.no_legacy;
}

changes-IsDead :
    (h : Text) (cs : List Change) (s : Accounts)
    → All (Leaves h) cs
    → IsDead h s
    → IsDead h (changes cs s)
changes-IsDead h [] s leaves d = d
changes-IsDead h (c ∷ cs) s (here, leaves) d =
    changes-IsDead h cs (change c s) leaves (change-IsDead h c s here d)

legacy-All :
    (h : Text) (us : List UserRow)
    → legacy h us ≡ none
    → All (λ u. same_text u.api_key_hash (some h) ≡ false) us
unfolding legacy
legacy-All h [] none_yet = tt
legacy-All h (u ∷ us) none_yet = (ground arith, legacy-All h us (ground arith))

-- A row with the id `i` or another hash than that of `k`.
abbrev Apart : Text → Text → KeyRow → Type 0
Apart i h l = (text_eq l.key_hash h && not (text_eq l.id i)) ≡ false

pub apart_later :
    (i : Text) (x : KeyRow) (ks : List KeyRow)
    → All (λ l. key_clash x l ≡ false) ks
    → All (λ l. text_eq l.key_hash x.key_hash ≡ false) ks
unfolding key_clash
apart_later i x [] apart = tt
apart_later i x (l ∷ ks) (here, apart) =
    (ground (arith, text_eq_sym l.key_hash x.key_hash), apart_later i x ks apart)

pub not_the_hash :
    (i : Text) (x : KeyRow) (ks : List KeyRow) {k : KeyRow}
    → All (λ l. key_clash x l ≡ false) ks
    → find_first (λ l. text_eq l.id i) ks ≡ some k
    → text_eq x.key_hash k.key_hash ≡ false
unfolding key_clash
not_the_hash i x ks {k} apart found =
    let clashes = All_find (λ l. key_clash x l ≡ false) (λ l. text_eq l.id i) ks apart found in
    ground arith

Apart-eq :
    (i : Text) {g h : Text} (ks : List KeyRow) → g ≡ h → All (Apart i g) ks → All (Apart i h) ks
Apart-eq i [] e apart = tt
Apart-eq i (l ∷ ks) e (here, apart) = (ground (arith, e), Apart-eq i ks e apart)

only_one :
    (i : Text) (ks : List KeyRow) {k : KeyRow}
    → NoClash key_clash ks
    → find_first (λ l. text_eq l.id i) ks ≡ some k
    → All (Apart i k.key_hash) ks
only_one i [] differ found = tt
only_one i (x ∷ ks) {k} (apart, differ) found = elim (Bool-cases (text_eq x.id i)) [
  | inl this ↦
      let e : x ≡ k = ground (arith, this, found) in
      (
        ground (arith, this),
        Apart-eq i ks (ap (λ l. l.key_hash) e) (
            All_mono (λ l. text_eq l.key_hash x.key_hash ≡ false) (Apart i x.key_hash) ks
              (λ l h. ground arith) (apart_later i x ks apart)),
      )
  | inr other ↦
      let found_later : find_first (λ l. text_eq l.id i) ks ≡ some k =
        ground (arith, other, found) in
      (ground (arith, not_the_hash i x ks apart found_later), only_one i ks differ found_later)
]

revoke-live :
    (i h : Text) (t : ℕ) (ks : List KeyRow)
    → All (Apart i h) ks
    → All (λ l. live h l ≡ false) (map (revoke i t) ks)
unfolding live revoke is_null
revoke-live i h t [] apart = tt
revoke-live i h t (k ∷ ks) (here, apart) = (ground arith, revoke-live i h t ks apart)

known_hash :
    (i : Text) (ks : List KeyRow) {k : KeyRow}
    → find_first (λ l. text_eq l.id i) ks ≡ some k
    → any (λ l. text_eq l.key_hash k.key_hash) ks ≡ true
known_hash i [] found = absurd (ground arith)
known_hash i (x ∷ ks) {k} found = ground (arith, known_hash i ks {k = k}, text_eq_refl k.key_hash)

-- A key that was revoked never authenticates again: whatever operations follow, at any time, its hash
-- finds no user, if the tables kept their constraints and no user has the hash in the legacy column,
-- then or by a later operation.
pub revoke_api_key-forever :
    (i : Text) (t now : ℕ) (cs : List Change) (s : Accounts) {k : KeyRow}
    → IsValid s
    → get_api_key i s ≡ some k
    → legacy k.key_hash s.users ≡ none
    → All (Leaves k.key_hash) cs
    → get_user_by_api_key_hash k.key_hash now (changes cs (revoke_api_key i t s)) ≡ none
unfolding get_api_key revoke_api_key
revoke_api_key-forever i t now cs s {k} v found no_legacy leaves =
    IsDead-none k.key_hash now (changes cs (revoke_api_key i t s)) (
      changes-IsDead k.key_hash cs (revoke_api_key i t s) leaves (record {
        no_live = revoke-live i k.key_hash t s.api_keys (only_one i s.api_keys v.keys_differ found);
        known =
            any-map (λ l. text_eq l.key_hash k.key_hash) (revoke i t) s.api_keys
              (hash-revoke k.key_hash i t)
            ∙ known_hash i s.api_keys found;
        no_legacy = legacy-All k.key_hash s.users no_legacy;
      }))
