-- ===== src/Storage/Accounts/Users.antt =====
-- What creating a user does to the other users.
use unified_ai_orchestrator.Base.{
  ◌≡◌, refl, ◌∙◌, ap, Bool, true, false, Option, none, some, List, [], ◌∷◌, ◌++◌, select, All, not,
  if◌then◌else◌, arith, Bool-cases, inl, inr,
}
use unified_ai_orchestrator.Base.Text.{Text, text_eq, text_eq_sym, text_eq→eq, text_eq_refl}
use unified_ai_orchestrator.Base.Rows.{find_first, NoClash}
use unified_ai_orchestrator.Storage.Accounts.{
  UserRow, Accounts, UserInfo, info, clash, create_user, returned, get_user_by_username,
}
use unified_ai_orchestrator.Storage.Accounts.Unique.{IsValid}

-- The row of a user that is found, unless the new row takes its place.
abbrev pub unless_clash : UserRow → Option UserRow → Option UserRow
unless_clash row none = none
unless_clash row (some u) = if clash u row then none else some u

no_other :
    (name : Text) (u : UserRow) (us : List UserRow)
    → All (λ v. clash u v ≡ false) us
    → text_eq u.username name ≡ true
    → find_first (λ v. text_eq v.username name) us ≡ none
unfolding clash
no_other name u [] apart named = refl
no_other name u (v ∷ us) (here, apart) named = ground (
  arith,
  no_other name u us apart named,
  text_eq→eq u.username name named,
  text_eq_sym u.username v.username,
)

none_kept :
    (p q : UserRow → Bool) (us : List UserRow)
    → find_first p us ≡ none
    → find_first p (select q us) ≡ none
none_kept p q [] h = refl
none_kept p q (u ∷ us) h = ground (arith, none_kept p q us)

find-select :
    (name : Text) (row : UserRow) (us : List UserRow)
    → NoClash clash us
    → find_first (λ u. text_eq u.username name) (select (λ u. not (clash u row)) us)
      ≡ unless_clash row (find_first (λ u. text_eq u.username name) us)
find-select name row [] h = refl
find-select name row (u ∷ us) (apart, h) = elim (Bool-cases (text_eq u.username name)) [
  | inr other ↦ elim (Bool-cases (clash u row)) [
    | inl gone ↦ rw (other, gone) (find-select name row us h)
    | inr kept ↦ rw (other, kept, other) (find-select name row us h)
  ]
  | inl named ↦ elim (Bool-cases (clash u row)) [
    | inl gone ↦
        rw (named, gone)
          (none_kept (λ v. text_eq v.username name) (λ v. not (clash v row)) us
            (no_other name u us apart named))
    | inr kept ↦ rw (named, kept, named) refl
  ]
]

find-snoc :
    (p : UserRow → Bool) (us : List UserRow) (row : UserRow)
    → find_first p (us ++ row ∷ [])
      ≡ (elim (find_first p us) [ none ↦ (if p row then some row else none) | some u ↦ some u ])
find-snoc p [] row = refl
find-snoc p (u ∷ us) row = ground (arith, find-snoc p us row)

abbrev pub details : Option UserRow → Option (UserInfo × Option Text × Option Text)
details none = none
details (some u) = some (info u, u.password_hash, u.api_key_hash)

get_user_by_username-details :
    (name : Text) (s : Accounts)
    → get_user_by_username name s ≡ details (find_first (λ u. text_eq u.username name) s.users)
unfolding get_user_by_username returned
get_user_by_username-details name s = by_row (find_first (λ u. text_eq u.username name) s.users)
  where
    by_row :
        (o : Option UserRow)
        → returned (λ u. (info u, u.password_hash, u.api_key_hash)) o ≡ details o
    by_row none = refl
    by_row (some u) = refl

abbrev pub new_row : Text → Text → Option Text → Option Text → Text → UserRow
new_row i name email password role = record {
  id = i;
  username = name;
  email = email;
  password_hash = password;
  role = role;
  api_key_hash = none;
}

-- A row that is found has the name.
abbrev Named : Text → Option UserRow → Type 0
Named wanted none = Unit
Named wanted (some u) = text_eq u.username wanted ≡ true

found-Named :
    (wanted : Text) (us : List UserRow)
    → Named wanted (find_first (λ u. text_eq u.username wanted) us)
found-Named wanted [] = tt
found-Named wanted (u ∷ us) = elim (Bool-cases (text_eq u.username wanted)) [
  | inl named ↦ rw (named, named) refl
  | inr other ↦ rw other (found-Named wanted us)
]

details-if :
    (b : Bool) (o p : Option UserRow)
    → details (if b then o else p) ≡ (if b then details o else details p)
details-if true o p = refl
details-if false o p = refl

last :
    (wanted : Text) (row : UserRow) (o : Option UserRow)
    → Named wanted o
    → (elim (unless_clash row o) [
      | none ↦ (if text_eq row.username wanted then some row else none)
      | some u ↦ some u
    ])
      ≡ (if text_eq row.username wanted then some row else unless_clash row o)
unfolding clash
last wanted row none named = refl
last wanted row (some u) named =
    ground (
      arith,
      text_eq→eq row.username wanted,
      text_eq→eq u.username wanted named,
      text_eq_refl wanted,
    )

-- After `create_user`, in tables that keep their constraints, the new user is found under its name,
-- without an API key, and under any other name the user that was found before, unless that user
-- clashes with the new one (it has the same id or email): then it is gone, and no error was raised.
pub get_user_by_username-create_user :
    (i name : Text) (email password : Option Text) (role wanted : Text) (s : Accounts)
    → IsValid s
    → get_user_by_username wanted (create_user i name email password role s) ≡ (
        if text_eq name wanted
        then details (some (new_row i name email password role))
        else details (
            unless_clash
              (new_row i name email password role)
              (find_first (λ u. text_eq u.username wanted) s.users)))
unfolding create_user
get_user_by_username-create_user i name email password role wanted s v =
    let row : UserRow = new_row i name email password role in
    let kept = select (λ u. not (clash u row)) s.users in
    get_user_by_username-details wanted (create_user i name email password role s)
    ∙ ap details (
        find-snoc (λ u. text_eq u.username wanted) kept row
        ∙ rw (find-select wanted row s.users v.users_differ) (
            last wanted row (find_first (λ u. text_eq u.username wanted) s.users)
              (found-Named wanted s.users)))
    ∙ details-if (text_eq name wanted) (some row)
        (unless_clash row (find_first (λ u. text_eq u.username wanted) s.users))
