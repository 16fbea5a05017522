-- ===== src/Storage/Audit/Pages.antt =====
-- What the pages of the audit log show together.
use native.Mathlib.Nat.{suc-mul}
use unified_ai_orchestrator.Base.{
  ℕ, zero, suc, ◌+◌, ◌*◌, ◌≤◌, ◌≡◌, refl, sym, ap, ◌∙◌, Option, List, [], ◌∷◌, ◌++◌, select, take,
  drop, length, arith,
}
use unified_ai_orchestrator.Base.Text.{Text}
use unified_ai_orchestrator.Base.Rows.{newest_first}
use unified_ai_orchestrator.Storage.Audit.{AuditRow, AuditTable, fits, get_audit_logs}

module _ {A : Type 0} where
  drop-nil : (o : ℕ) (xs : List A) → xs ≡ [] → drop o xs ≡ []
  drop-nil zero xs e = e
  drop-nil (suc o) [] e = refl
  drop-nil (suc o) (x ∷ xs) e = ground arith

  at : (f : ℕ → List A) (m n : ℕ) → m ≡ n → f m ≡ f n
  at f m n e = ap f e

  drop-drop : (o l : ℕ) (xs : List A) → drop (o + l) xs ≡ drop l (drop o xs)
  drop-drop zero l xs = at (λ n. drop n xs) (0 + l) l (omega arith)
  drop-drop (suc o) l [] = drop-nil (suc o + l) [] refl ∙ sym (drop-nil l [] refl)
  drop-drop (suc o) l (x ∷ xs) =
      at (λ n. drop n (x ∷ xs)) (suc o + l) (suc (o + l)) (omega arith) ∙ drop-drop o l xs

  take-nil : (l : ℕ) (xs : List A) → xs ≡ [] → take l xs ≡ []
  take-nil zero xs e = refl
  take-nil (suc l) [] e = refl
  take-nil (suc l) (x ∷ xs) e = ground arith

  take-take : (l m : ℕ) (xs : List A) → take l xs ++ take m (drop l xs) ≡ take (l + m) xs
  take-take zero m xs = at (λ n. take n xs) m (0 + m) (omega arith)
  take-take (suc l) m [] = take-nil m [] refl ∙ sym (take-nil (suc l + m) [] refl)
  take-take (suc l) m (x ∷ xs) =
      ap (◌∷◌ x) (take-take l m xs)
      ∙ at (λ n. take n (x ∷ xs)) (suc (l + m)) (suc l + m) (omega arith)

-- The pages of `limit` rows each that a reader fetches one after the other.
abbrev pub pages :
    {D : Type 0} → Option Text → Option Text → ℕ → ℕ → ℕ → AuditTable D → List (AuditRow D)
pages user_id event_type limit zero offset s = []
pages user_id event_type limit (suc n) offset s =
    get_audit_logs user_id event_type limit offset s
    ++ pages user_id event_type limit n (offset + limit) s

pages_from :
    {D : Type 0} (user_id event_type : Option Text) (limit n offset : ℕ) (s : AuditTable D)
    → pages user_id event_type limit n offset s
      ≡ get_audit_logs user_id event_type (n * limit) offset s
unfolding get_audit_logs
pages_from user_id event_type limit zero offset s = sym (
    at
      (λ n. take n (
        drop offset
          (newest_first (λ r. r.created_at) [] (select (fits user_id event_type) s.rows))))
      (0 * limit) 0 (omega arith))
pages_from user_id event_type limit (suc n) offset s =
    let found = newest_first (λ r. r.created_at) [] (select (fits user_id event_type) s.rows) in
    ap (λ rest. get_audit_logs user_id event_type limit offset s ++ rest)
      (pages_from user_id event_type limit n (offset + limit) s
        ∙ ap (take (n * limit)) (drop-drop offset limit found))
    ∙ take-take limit (n * limit) (drop offset found)
    ∙ at (λ k. take k (drop offset found)) (limit + n * limit) (suc n * limit)
        (omega (arith, suc-mul n limit))

take_all : {A : Type 0} (k : ℕ) (xs : List A) → length xs ≤ k → take k xs ≡ xs
take_all zero [] h = refl
take_all zero (x ∷ xs) h = absurd (omega arith)
take_all (suc k) [] h = refl
take_all (suc k) (x ∷ xs) h = ap (◌∷◌ x) (take_all k xs (omega arith))

-- Reading the audit log by pages of any size shows every event that fits, once and from the newest to
-- the oldest, if the pages together have room for all of them.
pub pages_complete :
    {D : Type 0} (user_id event_type : Option Text) (limit n : ℕ) (s : AuditTable D)
    → length (newest_first (λ r. r.created_at) [] (select (fits user_id event_type) s.rows))
      ≤ n * limit
    → pages user_id event_type limit n 0 s
      ≡ newest_first (λ r. r.created_at) [] (select (fits user_id event_type) s.rows)
unfolding get_audit_logs
pages_complete user_id event_type limit n s h =
    pages_from user_id event_type limit n 0 s
    ∙ take_all (n * limit)
        (newest_first (λ r. r.created_at) [] (select (fits user_id event_type) s.rows)) h
