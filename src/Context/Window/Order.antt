-- ===== src/Context/Window/Order.antt =====
-- The order and the budget of a truncation.
use native.Mathlib.Nat.{add_assoc}
use unified_ai_orchestrator.Base.{
  ℕ, ◌+◌, ◌-◌, ◌≤◌, ◌<◌, ◌≡◌, refl, sym, ap, ◌∙◌, Bool, not, List, [], ◌∷◌, ◌++◌, reverse, select,
  arith, append-nil, reverse-append, reverse-reverse, Bool-cases, inl, inr, select-append,
}
use unified_ai_orchestrator.Context.Window.{fits, truncate}
use unified_ai_orchestrator.Context.Window.Truncation.{total, systems, newest, truncate-eq}

module _ {A : Type 0} (is_system : A → Bool) (tokens : A → ℕ) (window_size reserved : ℕ) where
  -- The messages that are not of the system, in the order of the list.
  abbrev pub others : List A → List A
  others = select (λ m. not (is_system m))

  -- The next message, if there is one, does not fit behind so many tokens.
  abbrev pub Blocked : List A → ℕ → Type 0
  Blocked [] count = Unit
  Blocked (m ∷ ms) count = window_size < count + tokens m + reserved

  abbrev sum_of : List A → ℕ
  sum_of = total tokens

  abbrev newest_of : List A → ℕ → List A
  newest_of = newest is_system tokens window_size reserved

  abbrev pub systems_of : List A → List A
  systems_of messages = systems is_system tokens window_size reserved messages 0

  newest-others :
      (ms : List A) (count : ℕ)
      → (rest : List A) × (others ms ≡ newest_of ms count ++ rest)
        × Blocked rest (count + sum_of (newest_of ms count))
  unfolding newest total
  newest-others [] count = ([], refl, tt)
  newest-others (m ∷ ms) count = elim (Bool-cases (is_system m)) [
    | inl is_sys ↦ rw (is_sys, newest) (newest-others ms count)
    | inr other ↦ elim (Bool-cases (fits tokens window_size reserved count m)) [
      | inr full ↦ rw (other, full, newest) (m ∷ others ms, refl, ground arith)
      | inl room ↦
          let (rest, e, b) = newest-others ms (count + tokens m) in
          rw (other, room, newest)
            (
              rest,
              ap (◌∷◌ m) e,
              rw (add_assoc count (tokens m) (sum_of (newest_of ms (count + tokens m)))) at b,
            )
    ]
  ]

  total-append : (xs ys : List A) → sum_of (xs ++ ys) ≡ sum_of xs + sum_of ys
  unfolding total
  total-append [] ys = omega arith
  total-append (x ∷ xs) ys = omega (arith, total-append xs ys)

  total-reverse : (xs : List A) → sum_of (reverse xs) ≡ sum_of xs
  unfolding total
  total-reverse [] = refl
  total-reverse (x ∷ xs) =
      ap sum_of (reverse-append (x ∷ []) xs)
      ∙ total-append (reverse xs) (x ∷ [])
      ∙ omega (arith, total-reverse xs)

  newest-budget :
      (ms : List A) (count : ℕ)
      → count ≤ window_size - reserved
      → count + sum_of (newest_of ms count) ≤ window_size - reserved
  unfolding newest total
  newest-budget [] count h = omega arith
  newest-budget (m ∷ ms) count h =
      ground (arith, newest-budget ms count, newest-budget ms (count + tokens m))

  systems-budget :
      (ms : List A) (count : ℕ)
      → count ≤ window_size - reserved
      → count + sum_of (systems is_system tokens window_size reserved ms count)
        ≤ window_size - reserved
  unfolding systems total
  systems-budget [] count h = omega arith
  systems-budget (m ∷ ms) count h =
      ground (arith, systems-budget ms count, systems-budget ms (count + tokens m))

  -- A truncation keeps to its budget: the tokens of what it keeps are at most the window without the
  -- reserved tokens, and 0 if more is reserved than the window holds.
  pub truncate-budget :
      (messages : List A)
      → sum_of (truncate is_system tokens window_size reserved messages) ≤ window_size - reserved
  truncate-budget messages =
      let s = systems_of messages in
      let n = newest_of (reverse messages) (sum_of s) in
      rw
        (
          truncate-eq is_system tokens window_size reserved messages,
          total-append n (reverse s),
          total-reverse s,
        )
        (omega (arith, newest-budget (reverse messages) (sum_of s), systems-budget messages 0))

  others-reverse : (ms : List A) → others (reverse ms) ≡ reverse (others ms)
  others-reverse [] = refl
  others-reverse (m ∷ ms) =
      ap others (reverse-append (m ∷ []) ms)
      ∙ select-append (λ x. not (is_system x)) (reverse ms) (m ∷ [])
      ∙ elim (Bool-cases (is_system m)) [
        | inl is_sys ↦ ground (arith, append-nil (others (reverse ms)), others-reverse ms)
        | inr other ↦ ground (arith, reverse-append (m ∷ []) (others ms), others-reverse ms)
      ]

  -- What a truncation keeps, whatever the messages: of the messages that are not of the system it
  -- keeps a recent part, all that fit (the one before them does not), and drops the older part; of
  -- the system messages it keeps those that fit one after another. But it returns them in the
  -- reverse of their order: the newest first and the system messages last.
  pub truncate-reverses :
      (messages : List A)
      → let s = systems_of messages in
        (older : List A) × (recent : List A) × (others messages ≡ older ++ recent)
        × (truncate is_system tokens window_size reserved messages ≡ reverse (s ++ recent))
        × Blocked (reverse older) (sum_of s + sum_of recent)
  truncate-reverses messages =
      let s = systems_of messages in
      let n = newest_of (reverse messages) (sum_of s) in
      let (rest, e, b) = newest-others (reverse messages) (sum_of s) in
      (
        reverse rest,
        reverse n,
        sym (reverse-reverse (others messages))
            ∙ ap reverse (sym (others-reverse messages) ∙ e)
            ∙ reverse-append n rest,
        truncate-eq is_system tokens window_size reserved messages
            ∙ ap (λ (l : List A). l ++ reverse s) (sym (reverse-reverse n))
            ∙ sym (reverse-append s (reverse n)),
        rw (reverse-reverse rest, total-reverse n) b,
      )

  newest-none : (ms : List A) (count : ℕ) → window_size < reserved → newest_of ms count ≡ []
  unfolding newest
  newest-none [] count h = refl
  newest-none (m ∷ ms) count h = ground (arith, newest-none ms count h)

  systems-none :
      (ms : List A) (count : ℕ)
      → window_size < reserved
      → systems is_system tokens window_size reserved ms count ≡ []
  unfolding systems
  systems-none [] count h = refl
  systems-none (m ∷ ms) count h = ground (arith, systems-none ms count h)

  -- With more reserved than the window holds, a truncation keeps nothing.
  pub truncate-none :
      (messages : List A)
      → window_size < reserved
      → truncate is_system tokens window_size reserved messages ≡ []
  truncate-none messages h =
      truncate-eq is_system tokens window_size reserved messages
      ∙ rw (systems-none messages 0 h) (rw (newest-none (reverse messages) (sum_of []) h))
