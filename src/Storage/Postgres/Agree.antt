-- ===== src/Storage/Postgres/Agree.antt =====
-- Where the back ends of SQLite and PostgreSQL agree.
use mathlib.Core.Option
use unified_ai_orchestrator.Base.{
  ℕ, ltb, Bool, true, if◌then◌else◌, ◌≡◌, ◌≤◌, ◌/◌, ◌%◌, ◌∙◌, suc, refl, sym, ap, false, Option,
  none, some, List, [], ◌∷◌, ◌++◌, any, select, map, length, not, arith, Bool-cases, Option-cases,
  inl, inr,
}
use unified_ai_orchestrator.Base.Text.{Text, text_eq, same_text}
use unified_ai_orchestrator.Storage.Accounts
use unified_ai_orchestrator.Storage.Accounts.{
  UserRow, KeyRow, clash, key_clash, set_hash, revoke, joined, is_usable, is_current,
}
use unified_ai_orchestrator.Storage.Accounts.Users.{new_row}
use unified_ai_orchestrator.Storage.Accounts.Unique.{
  Change, user_created, hash_updated, key_created, key_revoked, change, changes,
}
use unified_ai_orchestrator.Storage.Postgres

-- The rows of PostgreSQL with their timestamps in seconds, as SQLite stores them.
abbrev pub key_seconds : KeyRow → KeyRow
key_seconds k = record k {
  created_at = k.created_at / 1000;
  revoked_at = Option.map (λ ms. ms / 1000) k.revoked_at;
}

abbrev pub in_seconds : Accounts.Accounts → Accounts.Accounts
in_seconds s = record s { api_keys = map key_seconds s.api_keys }

-- The same operation in SQLite, whose times are in seconds.
abbrev pub at_seconds : Change → Change
at_seconds (user_created i name email password role) = user_created i name email password role
at_seconds (hash_updated i h) = hash_updated i h
at_seconds (key_created i u h name expires ms) = key_created i u h name expires (ms / 1000)
at_seconds (key_revoked i ms) = key_revoked i (ms / 1000)

-- What an operation leaves in PostgreSQL; `none` is an exception.
abbrev pub attempt : Change → Accounts.Accounts → Option Accounts.Accounts
attempt (user_created i name email password role) s =
    Postgres.create_user i name email password role s
attempt (hash_updated i h) s = some (Postgres.update_user_api_key_hash i h s)
attempt (key_created i u h name expires now) s = Postgres.create_api_key i u h name expires now s
attempt (key_revoked i now) s = some (Postgres.revoke_api_key i now s)

-- A user that is created has a new identifier.
abbrev pub IsNew : Change → Accounts.Accounts → Type 0
IsNew (user_created i name email password role) s = any (λ u. text_eq u.id i) s.users ≡ false
IsNew (hash_updated i h) s = Unit
IsNew (key_created i u h name expires now) s = Unit
IsNew (key_revoked i now) s = Unit

no_clash :
    (row : UserRow) (us : List UserRow)
    → any (Postgres.taken row) us ≡ false
    → any (λ u. text_eq u.id row.id) us ≡ false
    → select (λ u. not (clash u row)) us ≡ us
unfolding Postgres.taken clash
no_clash row [] free new = refl
no_clash row (u ∷ us) free new = ground (arith, no_clash row us)

clashes-seconds :
    (row row' : KeyRow) (ks : List KeyRow)
    → row.id ≡ row'.id
    → row.key_hash ≡ row'.key_hash
    → any (λ k. key_clash k row) (map key_seconds ks) ≡ any (λ k. key_clash k row') ks
unfolding key_clash
clashes-seconds row row' [] same_id same_hash = refl
clashes-seconds row row' (k ∷ ks) same_id same_hash =
    rw (same_id, same_hash, clashes-seconds row row' ks same_id same_hash) refl

seconds-snoc :
    (ks : List KeyRow) (row : KeyRow)
    → map key_seconds (ks ++ row ∷ []) ≡ map key_seconds ks ++ key_seconds row ∷ []
seconds-snoc [] row = refl
seconds-snoc (k ∷ ks) row = ap (λ l. key_seconds k ∷ l) (seconds-snoc ks row)

revoke-seconds :
    (i : Text) (ms : ℕ) (ks : List KeyRow)
    → map (revoke i (ms / 1000)) (map key_seconds ks) ≡ map key_seconds (map (revoke i ms) ks)
unfolding revoke
revoke-seconds i ms [] = refl
revoke-seconds i ms (k ∷ ks) = elim (Bool-cases (text_eq k.id i)) [
  | inl it ↦ rw (it, revoke-seconds i ms ks) refl
  | inr other ↦ rw (other, revoke-seconds i ms ks) refl
]

attempt-change :
    (c : Change) (s : Accounts.Accounts) {t : Accounts.Accounts}
    → IsNew c s
    → attempt c s ≡ some t
    → change (at_seconds c) (in_seconds s) ≡ in_seconds t
unfolding Postgres.create_user Accounts.create_user Postgres.create_api_key Accounts.create_api_key
    Postgres.update_user_api_key_hash Accounts.update_user_api_key_hash Postgres.revoke_api_key
    Accounts.revoke_api_key
attempt-change (user_created i name email password role) s {t} new done =
    let row : UserRow = new_row i name email password role in
    elim (Bool-cases (any (Postgres.taken row) s.users)) [
      | inl there ↦ absurd (ground (arith, there, done))
      | inr free ↦ rw (no_clash row s.users free new) (ground (arith, free, new, done))
    ]
attempt-change (hash_updated i h) s {t} new done = ground (arith, done)
attempt-change (key_created i u h name expires ms) s {t} new done =
    let row : KeyRow = record {
      id = i;
      user_id = u;
      key_hash = h;
      name = name;
      expires_at = expires;
      created_at = ms;
      revoked_at = none;
    } in
    let same = clashes-seconds (key_seconds row) row s.api_keys refl refl in
    elim (Bool-cases (any (λ k. key_clash k row) s.api_keys)) [
      | inl there ↦ absurd (ground (arith, there, done))
      | inr free ↦ elim (Bool-cases (any (λ v. text_eq v.id u) s.users)) [
        | inl owned ↦
            let left : record s { api_keys = s.api_keys ++ row ∷ [] } ≡ t =
              ground (arith, free, owned, done) in
            rw (same ∙ free) (
              ap (λ ks. record s { api_keys = ks }) (sym (seconds-snoc s.api_keys row))
              ∙ ap in_seconds left)
        | inr no_owner ↦ absurd (ground (arith, free, no_owner, done))
      ]
    ]
attempt-change (key_revoked i ms) s {t} new done =
    let left : Postgres.revoke_api_key i ms s ≡ t = ground (arith, done) in
    ap (λ ks. record s { api_keys = ks }) (revoke-seconds i ms s.api_keys) ∙ ap in_seconds left

-- A run of operations in PostgreSQL that raises nothing.
abbrev pub attempts : List Change → Accounts.Accounts → Option Accounts.Accounts
attempts [] s = some s
attempts (c ∷ cs) s = elim (attempt c s) [ none ↦ none | some t ↦ attempts cs t ]

-- Each user that a run creates is new at its time.
abbrev pub AllNew : List Change → Accounts.Accounts → Type 0
AllNew [] s = Unit
AllNew (c ∷ cs) s = IsNew c s × ((t : Accounts.Accounts) → attempt c s ≡ some t → AllNew cs t)

-- The back ends are interchangeable on what PostgreSQL accepts: if a run of operations raises nothing
-- in PostgreSQL, and each user that it creates has a new identifier, the same run, with its times in
-- whole seconds, leaves SQLite with the same tables, but for their times, of which it has the whole
-- seconds.
pub attempts-agree :
    (cs : List Change) (s : Accounts.Accounts) {t : Accounts.Accounts}
    → AllNew cs s
    → attempts cs s ≡ some t
    → changes (map at_seconds cs) (in_seconds s) ≡ in_seconds t
attempts-agree [] s {t} new done = ap in_seconds (ground (arith, done))
attempts-agree (c ∷ cs) s {t} (here, new) done = elim (Option-cases (attempt c s)) [
  | inl raised ↦ absurd (ground (arith, raised, done))
  | inr (r, went) ↦
      ap (changes (map at_seconds cs)) (attempt-change c s {t = r} here went)
      ∙ (attempts-agree cs r {t = t} (new r went) (ground (arith, went, done)))
]

-- The row that `fetchrow` gets, where there is only one.
pub record IsFirst (first : List UserRow → Option UserRow) : Type 0 where
  pub first-nil : first [] ≡ none
  pub first-one : (u : UserRow) → first (u ∷ []) ≡ some u

select-one :
    {first : List UserRow → Option UserRow} (law : IsFirst first) (h : Text) (us : List UserRow)
    → length (Postgres.legacy_rows h us) ≤ 1
    → first (Postgres.legacy_rows h us) ≡ Accounts.legacy h us
unfolding Accounts.legacy
select-one law h [] few = law.first-nil
select-one law h (u ∷ us) few = elim (Bool-cases (same_text u.api_key_hash (some h))) [
  | inl its ↦
      let none_left = no_length (Postgres.legacy_rows h us) (ground (arith, its, few)) in
      rw (its, none_left) (law.first-one u)
  | inr other ↦ rw other (select-one law h us (ground (arith, other, few)))
]
  where
    no_length : (rows : List UserRow) → length rows ≤ 0 → rows ≡ []
    no_length [] le = refl
    no_length (r ∷ rows) le = absurd (omega arith)

usable-seconds : (k : KeyRow) (now : ℕ) → is_usable k now ≡ is_usable (key_seconds k) now
unfolding is_usable
usable-seconds k now = ground arith

-- The second that PostgreSQL compares with: the one of the time, or in its second half the next one.
abbrev pub second_of : ℕ → ℕ
second_of ms = if ltb (ms % 1000) 500 then ms / 1000 else suc (ms / 1000)

epoch-second_of : (ms : ℕ) → Postgres.epoch ms ≡ second_of ms
unfolding Postgres.epoch
epoch-second_of ms = ground arith

joined-eq :
    (h : Text) (ms : ℕ) (users : List UserRow) (ks : List KeyRow)
    → Postgres.joined h ms users ks ≡ Accounts.joined h (second_of ms) users (map key_seconds ks)
unfolding Postgres.joined Accounts.joined Accounts.owner
joined-eq h ms users [] = refl
joined-eq h ms users (k ∷ ks) =
    rw (usable-seconds k (Postgres.epoch ms), epoch-second_of ms, joined-eq h ms users ks) refl

-- When the back ends let in the same users: given the same tables but for their times, whole seconds in
-- SQLite, and at most one user with the key's hash in the legacy column, a key finds in PostgreSQL,
-- in the first half of a second, the user that it finds in SQLite in this second, and in the second
-- half the user that it finds in SQLite in the next one, in which it may have expired.
pub get_user_by_api_key_hash-agree :
    (first : List UserRow → Option UserRow) (h : Text) (ms : ℕ) (t : Accounts.Accounts)
    → IsFirst first
    → length (Postgres.legacy_rows h t.users) ≤ 1
    → Postgres.get_user_by_api_key_hash first h ms t ≡ (
        if ltb (ms % 1000) 500
        then Accounts.get_user_by_api_key_hash h (ms / 1000) (in_seconds t)
        else Accounts.get_user_by_api_key_hash h (suc (ms / 1000)) (in_seconds t))
unfolding Postgres.get_user_by_api_key_hash Accounts.get_user_by_api_key_hash
get_user_by_api_key_hash-agree first h ms t law few =
    rw (select-one law h t.users few, joined-eq h ms t.users t.api_keys)
      (by_half (ltb (ms % 1000) 500))
  where
    by_half :
        (b : Bool)
        → Accounts.or_later (Accounts.legacy h t.users) (
            Accounts.joined h
              (if b then ms / 1000 else suc (ms / 1000))
              t.users
              (map key_seconds t.api_keys))
          ≡ (if b
              then Accounts.get_user_by_api_key_hash h (ms / 1000) (in_seconds t)
              else Accounts.get_user_by_api_key_hash h (suc (ms / 1000)) (in_seconds t))
    by_half true = refl
    by_half false = refl
