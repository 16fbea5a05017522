-- ===== src/Base/Rows.antt =====
-- The rows of a table: the first that fits, and rows of which no two clash.
use Prim.Native.Nat.{ℕ, ◌+◌}
use mathlib.Core.Path.{◌≡◌, refl, sym, ◌∙◌}
use mathlib.Core.Bool.{Bool, true, false, ◌||◌}
use mathlib.Core.Option.{Option, none, some}
use mathlib.Core.Logic.{inl, inr}
use mathlib.Core.List.{List, [], ◌∷◌, ◌++◌, map}
use native.Mathlib.Omega.{arith}
use unified_ai_orchestrator.Base.Tests.{if◌then◌else◌, Bool-cases, ltb}
use unified_ai_orchestrator.Base.Lists.{All, any, select}

module _ {ℓ} {A : Type ℓ} where
  -- The first row that fits.
  abbrev pub find_first : (A → Bool) → List A → Option A
  find_first p [] = none
  find_first p (x ∷ xs) = if p x then some x else find_first p xs

  -- No row clashes with a later one.
  abbrev pub NoClash : (A → A → Bool) → List A → Type 0
  NoClash clash [] = Unit
  NoClash clash (x ∷ xs) = All (λ y. clash x y ≡ false) xs × NoClash clash xs

  pub All-select {κ} :
      (P : A → Type κ) (p : A → Bool) (xs : List A) → All P xs → All P (select p xs)
  All-select P p [] h = tt
  All-select P p (x ∷ xs) (here, h) = elim (Bool-cases (p x)) [
    | inl kept ↦ rw kept (here, All-select P p xs h)
    | inr gone ↦ rw gone (All-select P p xs h)
  ]

  pub NoClash-select :
      (clash : A → A → Bool) (p : A → Bool) (xs : List A)
      → NoClash clash xs
      → NoClash clash (select p xs)
  NoClash-select clash p [] h = tt
  NoClash-select clash p (x ∷ xs) (apart, h) = elim (Bool-cases (p x)) [
    | inl kept ↦
        rw kept (All-select (λ y. clash x y ≡ false) p xs apart, NoClash-select clash p xs h)
    | inr gone ↦ rw gone (NoClash-select clash p xs h)
  ]

  pub All-snoc {κ} : (P : A → Type κ) (xs : List A) (y : A) → All P xs → P y → All P (xs ++ y ∷ [])
  All-snoc P [] y h last = (last, tt)
  All-snoc P (x ∷ xs) y (here, h) last = (here, All-snoc P xs y h last)

  pub NoClash-snoc :
      (clash : A → A → Bool) (xs : List A) (y : A)
      → NoClash clash xs
      → All (λ x. clash x y ≡ false) xs
      → NoClash clash (xs ++ y ∷ [])
  NoClash-snoc clash [] y h apart = (tt, tt)
  NoClash-snoc clash (x ∷ xs) y (later, h) (here, apart) =
      (All-snoc (λ z. clash x z ≡ false) xs y later here, NoClash-snoc clash xs y h apart)

  pub All_select : (p : A → Bool) (xs : List A) → All (λ x. p x ≡ true) (select p xs)
  All_select p [] = tt
  All_select p (x ∷ xs) = elim (Bool-cases (p x)) [
    | inl kept ↦ rw kept (kept, All_select p xs)
    | inr gone ↦ rw gone (All_select p xs)
  ]

  pub All_mono {κ μ} :
      (P : A → Type κ) (Q : A → Type μ) (xs : List A) → ((x : A) → P x → Q x) → All P xs → All Q xs
  All_mono P Q [] f h = tt
  All_mono P Q (x ∷ xs) f (here, h) = (f x here, All_mono P Q xs f h)

  -- Rows that are changed where no clash is read.
  pub All-map {κ} :
      (P : A → Type κ) (g : A → A) (xs : List A)
      → ((x : A) → P x → P (g x))
      → All P xs
      → All P (map g xs)
  All-map P g [] f h = tt
  All-map P g (x ∷ xs) f (here, h) = (f x here, All-map P g xs f h)

  pub NoClash-map :
      (clash : A → A → Bool) (g : A → A) (xs : List A)
      → ((x y : A) → clash (g x) (g y) ≡ clash x y)
      → NoClash clash xs
      → NoClash clash (map g xs)
  NoClash-map clash g [] same h = tt
  NoClash-map clash g (x ∷ xs) same (apart, h) = (later xs apart, NoClash-map clash g xs same h)
    where
      later :
          (ys : List A)
          → All (λ y. clash x y ≡ false) ys
          → All (λ y. clash (g x) y ≡ false) (map g ys)
      later [] h = tt
      later (y ∷ ys) (here, h) = (same x y ∙ here, later ys h)

  pub any-select_no :
      (p q : A → Bool) (xs : List A)
      → ((x : A) → q x ≡ true → p x ≡ false)
      → any p (select q xs) ≡ false
  any-select_no p q [] f = refl
  any-select_no p q (x ∷ xs) f = elim (Bool-cases (q x)) [
    | inl kept ↦ rw (kept, f x kept) (any-select_no p q xs f)
    | inr gone ↦ rw gone (any-select_no p q xs f)
  ]

  pub not-any : (p : A → Bool) (xs : List A) → any p xs ≡ false → All (λ x. p x ≡ false) xs
  not-any p [] h = tt
  not-any p (x ∷ xs) h = (ground arith, not-any p xs (ground arith))

  pub find_first-fits : (p : A → Bool) (xs : List A) {x : A} → find_first p xs ≡ some x → p x ≡ true
  find_first-fits p [] h = ground arith
  find_first-fits p (y ∷ xs) {x} h = elim (Bool-cases (p y)) [
    | inl here ↦ ground (arith, here)
    | inr other ↦ find_first-fits p xs (ground (arith, other))
  ]

  pub any_mono :
      (p q : A → Bool) (xs : List A)
      → ((x : A) → p x ≡ true → q x ≡ true)
      → any p xs ≡ true
      → any q xs ≡ true
  any_mono p q [] f h = ground arith
  any_mono p q (x ∷ xs) f h = elim (Bool-cases (p x)) [
    | inl here ↦ ground (arith, f x here)
    | inr later ↦ ground (arith, any_mono p q xs f (ground (arith, later, h)))
  ]

  pub any-map :
      (p : A → Bool) (g : A → A) (xs : List A)
      → ((x : A) → p (g x) ≡ p x)
      → any p (map g xs) ≡ any p xs
  any-map p g [] same = refl
  any-map p g (x ∷ xs) same = ground (arith, same x, any-map p g xs same)

  pub any-append : (p : A → Bool) (xs ys : List A) → any p (xs ++ ys) ≡ any p xs || any p ys
  any-append p [] ys = refl
  any-append p (x ∷ xs) ys = ground (arith, any-append p xs ys)

  pub find_first-any :
      (p : A → Bool) (xs : List A) {x : A} → find_first p xs ≡ some x → any p xs ≡ true
  find_first-any p [] h = ground arith
  find_first-any p (y ∷ xs) {x} h = ground (arith, find_first-any p xs {x = x})

  pub All_find :
      (P : A → Type 0) (p : A → Bool) (xs : List A) {x : A}
      → All P xs
      → find_first p xs ≡ some x
      → P x
  All_find P p [] h found = absurd (ground arith)
  All_find P p (y ∷ xs) {x} (here, h) found = elim (Bool-cases (p y)) [
    | inl fits ↦ let e : y ≡ x = ground (arith, fits, found) in rw (sym e) here
    | inr other ↦ All_find P p xs h (ground (arith, other, found))
  ]

-- `ORDER BY ... DESC`: a row stands behind the rows that are as new or newer.
abbrev pub insert_newest {ℓ} : {A : Type ℓ} → (A → ℕ) → A → List A → List A
insert_newest at x [] = x ∷ []
insert_newest at x (y ∷ ys) =
    let rest = insert_newest at x ys in if ltb (at y) (at x) then x ∷ y ∷ ys else y ∷ rest

abbrev pub newest_first {ℓ} : {A : Type ℓ} → (A → ℕ) → List A → List A → List A
newest_first at out [] = out
newest_first at out (x ∷ xs) = newest_first at (insert_newest at x out) xs

-- The sum of a column.
abbrev pub sum_of {ℓ} : {A : Type ℓ} → (A → ℕ) → List A → ℕ
sum_of f [] = 0
sum_of f (x ∷ xs) = f x + sum_of f xs

pub sum_of-append {ℓ} :
    {A : Type ℓ} (f : A → ℕ) (xs ys : List A) → sum_of f (xs ++ ys) ≡ sum_of f xs + sum_of f ys
sum_of-append f [] ys = omega arith
sum_of-append f (x ∷ xs) ys = omega (arith, sum_of-append f xs ys)

sum_of-insert {ℓ} :
    {A : Type ℓ} (f at : A → ℕ) (x : A) (ys : List A)
    → sum_of f (insert_newest at x ys) ≡ f x + sum_of f ys
sum_of-insert f at x [] = refl
sum_of-insert f at x (y ∷ ys) = ground (arith, sum_of-insert f at x ys)

pub sum_of-newest_first {ℓ} :
    {A : Type ℓ} (f at : A → ℕ) (out xs : List A)
    → sum_of f (newest_first at out xs) ≡ sum_of f out + sum_of f xs
sum_of-newest_first f at out [] = omega arith
sum_of-newest_first f at out (x ∷ xs) =
    omega (arith, sum_of-newest_first f at (insert_newest at x out) xs, sum_of-insert f at x out)
