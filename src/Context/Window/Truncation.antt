-- ===== src/Context/Window/Truncation.antt =====
-- What the two loops of a truncation compute.
use native.Mathlib.Nat.{add-zero, zero-add, add_assoc}
use unified_ai_orchestrator.Base.{
  ℕ, ◌+◌, ◌≡◌, refl, ap, ap₂, ◌∙◌, Bool, true, false, List, [], ◌∷◌, ◌++◌, reverse, length, select,
  All, arith, append_assoc, append-nil, reverse-append, reverse-reverse, Bool-cases, inl, inr,
  select-append,
}
use unified_ai_orchestrator.Context.Window.{insert_at, fits, keep_system, keep_recent, truncate}

module _ {A : Type 0} where
  pub insert_at-length : (s r : List A) (m : A) → insert_at (length s) m (s ++ r) ≡ s ++ m ∷ r
  unfolding insert_at
  insert_at-length [] r m = refl
  insert_at-length (x ∷ s) r m = ap (◌∷◌ x) (insert_at-length s r m)

  pub select_every : (p : A → Bool) (xs : List A) → All (λ x. p x ≡ true) xs → select p xs ≡ xs
  select_every p [] h = refl
  select_every p (x ∷ xs) h = ground (arith, h.0, select_every p xs h.1)

  pub select_no : (p : A → Bool) (xs : List A) → All (λ x. p x ≡ false) xs → select p xs ≡ []
  select_no p [] h = refl
  select_no p (x ∷ xs) h = ground (arith, h.0, select_no p xs h.1)

-- The tokens of a list of messages.
unfoldable pub total : {A : Type 0} → (A → ℕ) → List A → ℕ
total tokens [] = 0
total tokens (m ∷ ms) = tokens m + total tokens ms

module _ {A : Type 0} (is_system : A → Bool) (tokens : A → ℕ) (window_size reserved : ℕ) where
  -- The system messages that fit one after another, from a count of tokens on.
  unfoldable pub systems : List A → ℕ → List A
  systems [] count = []
  systems (m ∷ ms) count = elim (is_system m) [
    | false ↦ systems ms count
    | true ↦ elim (fits tokens window_size reserved count m) [
      | true ↦ m ∷ systems ms (count + tokens m)
      | false ↦ systems ms count
    ]
  ]

  -- From messages with the newest first: the others, as long as they fit.
  unfoldable pub newest : List A → ℕ → List A
  newest [] count = []
  newest (m ∷ ms) count = elim (is_system m) [
    | true ↦ newest ms count
    | false ↦ elim (fits tokens window_size reserved count m) [
      | true ↦ m ∷ newest ms (count + tokens m)
      | false ↦ []
    ]
  ]

  abbrev AllSystem : List A → Type 0
  AllSystem ms = All (λ m. is_system m ≡ true) ms

  abbrev NoSystem : List A → Type 0
  NoSystem ms = All (λ m. is_system m ≡ false) ms

  systems-AllSystem : (ms : List A) (count : ℕ) → AllSystem (systems ms count)
  unfolding systems
  systems-AllSystem [] count = tt
  systems-AllSystem (m ∷ ms) count =
      ground (arith, systems-AllSystem ms count, systems-AllSystem ms (count + tokens m))

  keep_system_lem :
      (ms kept : List A) (count : ℕ)
      → keep_system is_system tokens window_size reserved ms (kept, count)
        ≡ (kept ++ systems ms count, count + total tokens (systems ms count))
  unfolding keep_system systems total
  keep_system_lem [] kept count = ap (λ (c : List A × ℕ). c) (cc (append-nil kept, add-zero count))
  keep_system_lem (m ∷ ms) kept count = ground (
    arith,
    keep_system_lem ms kept count,
    keep_system_lem ms (kept ++ m ∷ []) (count + tokens m),
    append_assoc kept (m ∷ []) (systems ms (count + tokens m)),
  )

  newest_stop :
      (m : A) (ms : List A) (count : ℕ)
      → is_system m ≡ false
      → fits tokens window_size reserved count m ≡ false
      → newest (m ∷ ms) count ≡ []
  unfolding newest
  newest_stop m ms count other full = rw (other, full, newest)

  newest_take :
      (m : A) (ms : List A) (count : ℕ)
      → is_system m ≡ false
      → fits tokens window_size reserved count m ≡ true
      → newest (m ∷ ms) count ≡ m ∷ newest ms (count + tokens m)
  unfolding newest
  newest_take m ms count other room = rw (other, room, newest)

  keep_recent_take :
      (m : A) (ms s r : List A) (count : ℕ)
      → is_system m ≡ false
      → fits tokens window_size reserved count m ≡ true
      → AllSystem s
      → NoSystem r
      → keep_recent is_system tokens window_size reserved (m ∷ ms) (s ++ r, count)
        ≡ keep_recent is_system tokens window_size reserved ms (s ++ m ∷ r, count + tokens m)
  unfolding keep_recent
  keep_recent_take m ms s r count other room hs hr =
      let only : select is_system (s ++ r) ≡ s =
        select-append is_system s r
        ∙ ap₂ ◌++◌ (select_every is_system s hs) (select_no is_system r hr)
        ∙ append-nil s in
      rw (other, room, keep_recent, only, insert_at-length s r m)

  -- Behind system messages, the loop over the reversed messages puts what it keeps in the order of
  -- the conversation.
  keep_recent_lem :
      (ms s r : List A) (count : ℕ)
      → AllSystem s
      → NoSystem r
      → keep_recent is_system tokens window_size reserved ms (s ++ r, count)
        ≡ (s ++ (reverse (newest ms count) ++ r), count + total tokens (newest ms count))
  unfolding keep_recent newest total
  keep_recent_lem [] s r count hs hr = rw (add-zero count)
  keep_recent_lem (m ∷ ms) s r count hs hr = elim (Bool-cases (is_system m)) [
    | inl is_sys ↦ rw (is_sys, keep_recent, newest) (keep_recent_lem ms s r count hs hr)
    | inr other ↦ elim (Bool-cases (fits tokens window_size reserved count m)) [
      | inr full ↦ rw (other, full, keep_recent, newest_stop m ms count other full, add-zero count)
      | inl room ↦
          let ih = keep_recent_lem ms s (m ∷ r) (count + tokens m) hs (other, hr) in
          let n = newest ms (count + tokens m) in
          let back : reverse (m ∷ n) ++ r ≡ reverse n ++ m ∷ r =
            ap (λ (l : List A). l ++ r) (reverse-append (m ∷ []) n)
            ∙ append_assoc (reverse n) (m ∷ []) r in
          keep_recent_take m ms s r count other room hs hr
          ∙ ih
          ∙ cc
              (newest_take m ms count other room, back, add_assoc count (tokens m) (total tokens n))
    ]
  ]

  -- A truncation keeps the newest messages that fit, newest first, and behind them the system
  -- messages that fit, last first: the reverse of the order of the conversation.
  pub truncate-eq :
      (messages : List A)
      → let s = systems messages 0 in
        truncate is_system tokens window_size reserved messages
        ≡ newest (reverse messages) (total tokens s) ++ reverse s
  unfolding truncate
  truncate-eq messages =
      let s = systems messages 0 in
      let n = newest (reverse messages) (total tokens s) in
      let start : keep_system is_system tokens window_size reserved messages ([], 0)
          ≡ (s ++ [], total tokens s) =
        keep_system_lem messages [] 0 ∙ cc (zero-add (total tokens s), append-nil s) in
      let kept =
        ap (keep_recent is_system tokens window_size reserved (reverse messages)) start
        ∙ keep_recent_lem (reverse messages) s [] (total tokens s) (systems-AllSystem messages 0)
            tt in
      rw kept (
        ap (λ (l : List A). reverse (s ++ l)) (append-nil (reverse n))
        ∙ reverse-append s (reverse n)
        ∙ ap (λ (l : List A). l ++ reverse s) (reverse-reverse n))
