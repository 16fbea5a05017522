-- ===== src/Migrations/Complete.antt =====
-- `migrate_up` gets to the end, from wherever an earlier run left the table.
use unified_ai_orchestrator.Base.{
  ◌≡◌, ◌≤◌, ◌<◌, refl, sym, ap, ap₂, ◌∙◌, ℕ, suc, ◌+◌, true, false, Option, none, some, List, [],
  ◌∷◌, ◌++◌, append_assoc, append-nil, map, All, length, leb, max, arith,
}
use unified_ai_orchestrator.Base.Text.{Text}
use unified_ai_orchestrator.Migrations.{
  Migration, Row, Store, done, max_version, nonzero, get_current_version, is_applied, latest,
  target_of, record_version, apply_up, is_next, continue_with, up_loop, migrate_up,
}
use unified_ai_orchestrator.Migrations.Up.{count_up, versions, current-count_up, Succeed}

-- The registered versions are `k + 1`, `k + 2` and so on.
abbrev pub Chained : ℕ → List Migration → Type 0
Chained k [] = Unit
Chained k (m ∷ ms) = (m.version ≡ suc k) × Chained (suc k) ms

abbrev pub row : Migration → Row
row m = (m.version, m.name)

abbrev Below : ℕ → List Row → Type 0
Below c rows = All (λ (r : Row). r.0 ≤ c) rows

not_applied : (c v : ℕ) (rows : List Row) → Below c rows → c < v → is_applied v rows ≡ false
not_applied c v [] below later = refl
not_applied c v ((w, name) ∷ rows) (here, below) later =
    ground (arith, not_applied c v rows below later)

Below-suc : (c : ℕ) (rows : List Row) → Below c rows → Below (suc c) rows
Below-suc c [] below = tt
Below-suc c (r ∷ rows) (here, below) = (omega arith, Below-suc c rows below)

Below-snoc : (c : ℕ) (rows : List Row) (r : Row) → Below c rows → r.0 ≤ c → Below c (rows ++ r ∷ [])
Below-snoc c [] r below last = (last, tt)
Below-snoc c (q ∷ rows) r (here, below) last = (here, Below-snoc c rows r below last)

Below-eq : (c d : ℕ) (rows : List Row) → c ≡ d → Below c rows → Below d rows
Below-eq c d rows e below = rw (sym e) below

Chained-eq : (c d : ℕ) (ms : List Migration) → c ≡ d → Chained c ms → Chained d ms
Chained-eq c d ms e chained = rw (sym e) chained

Chained-Below : (k : ℕ) (ms : List Migration) → Chained k ms → Below (k + length ms) (map row ms)
Chained-Below k [] chained = tt
Chained-Below k (m ∷ ms) (here, chained) = (
  omega (arith, here),
  Below-eq (suc k + length ms) (k + suc (length ms)) (map row ms) (omega arith)
      (Chained-Below (suc k) ms chained),
)

still_applied :
    (r : Row) (rows : List Row) (ms : List Migration)
    → All (λ m. is_applied m.version rows ≡ true) ms
    → All (λ m. is_applied m.version (r ∷ rows) ≡ true) ms
still_applied r rows [] applied = tt
still_applied r rows (m ∷ ms) (here, applied) = (ground arith, still_applied r rows ms applied)

own_rows : (ms : List Migration) → All (λ m. is_applied m.version (map row ms) ≡ true) ms
own_rows [] = tt
own_rows (m ∷ ms) = (ground arith, still_applied (row m) (map row ms) ms (own_rows ms))

versions-Chained :
    (k : ℕ) (ms : List Migration)
    → Chained k ms
    → versions (map row ms) ≡ count_up (suc k) (length ms)
versions-Chained k [] chained = refl
versions-Chained k (m ∷ ms) (here, chained) =
    ap₂ (λ v vs. v ∷ vs) here (versions-Chained (suc k) ms chained)

current-next :
    (k : ℕ) (ms : List Migration)
    → Chained k ms
    → is_next (get_current_version (map row ms)) (suc (k + length ms)) ≡ true
unfolding get_current_version nonzero max_version is_next
current-next k [] chained = refl
current-next k (m ∷ ms) chained =
    rw
      (current-count_up (map row (m ∷ ms)) (suc k) (length ms) (omega arith)
        (versions-Chained k (m ∷ ms) chained))
      (ground arith)

Chained-append :
    (k : ℕ) (pre rest : List Migration)
    → Chained k (pre ++ rest)
    → Chained k pre × Chained (k + length pre) rest
Chained-append k [] rest chained = (tt, Chained-eq k (k + 0) rest (omega arith) chained)
Chained-append k (m ∷ pre) rest (here, chained) =
    let (first, second) = Chained-append (suc k) pre rest chained in
    (
      (here, first),
      Chained-eq (suc k + length pre) (k + suc (length pre)) rest (omega arith) second,
    )

up_to_max :
    (v t : ℕ) (ms : List Migration)
    → All (λ m. leb m.version t ≡ true) ms
    → All (λ m. leb m.version (max v t) ≡ true) ms
up_to_max v t [] below = tt
up_to_max v t (m ∷ ms) (here, below) = (ground arith, up_to_max v t ms below)

latest-ge : (ms : List Migration) → All (λ m. leb m.version (latest ms) ≡ true) ms
unfolding latest
latest-ge [] = tt
latest-ge (m ∷ ms) = (ground arith, up_to_max m.version (latest ms) ms (latest-ge ms))

All-after : (P : Migration → Type 0) (pre rest : List Migration) → All P (pre ++ rest) → All P rest
All-after P [] rest h = h
All-after P (m ∷ pre) rest (here, h) = All-after P pre rest h

module _ {D : Type 0} (run : Text → D → Option D) where
  up_loop-skip :
      (target : ℕ) (before : List Row) (pre rest : List Migration) (current : Option ℕ)
      (s : Store D)
      → All (λ m. is_applied m.version before ≡ true) pre
      → up_loop run target before (pre ++ rest) current s ≡ up_loop run target before rest current s
  unfolding up_loop
  up_loop-skip target before [] rest current s applied = refl
  up_loop-skip target before (m ∷ pre) rest current s (here, applied) =
      ground (arith, here, up_loop-skip target before pre rest current s applied)

  up_loop-completes :
      (target c : ℕ) (before : List Row) (ms : List Migration) (current : Option ℕ) (s : Store D)
      → Succeed run (map (λ m. m.up_sql) ms) s.schema
      → Chained c ms
      → All (λ m. leb m.version target ≡ true) ms
      → Below c before
      → Below c s.applied
      → is_next current (suc c) ≡ true
      → ((up_loop run target before ms current s).0 ≡ done)
        × ((up_loop run target before ms current s).1.applied ≡ s.applied ++ map row ms)
  unfolding up_loop apply_up record_version continue_with
  up_loop-completes target c before [] current s runs chained wanted old present next =
      (refl, sym (append-nil s.applied))
  up_loop-completes target c before (m ∷ ms) current s runs (here, chained) (first, wanted) old
        present next =
      let (after, ran, later) = runs in
      let rows = s.applied ++ row m ∷ [] in
      let (finished, table) =
        up_loop-completes target (suc c) before ms (some m.version)
          (record { schema = after; applied = rows }) later chained wanted (Below-suc c before old)
          (Below-snoc (suc c) s.applied (row m) (Below-suc c s.applied present)
            (omega (arith, here)))
          (ground (arith, here)) in
      let due = not_applied c m.version before old (omega (arith, here)) in
      let fresh = not_applied c m.version s.applied present (omega (arith, here)) in
      let follows : is_next current m.version ≡ true = rw here next in
      rw (first, due, follows, ran, fresh)
        (finished, table ∙ append_assoc s.applied (row m ∷ []) (map row ms))

  -- When the registered versions follow each other, a first part of them is in the table, and the SQL
  -- texts of the others succeed, each on the schema that those before it have left, `migrate_up`
  -- without a target ends with all done, and the table then has the rows of all the registered
  -- migrations, in order.
  pub migrate_up-completes :
      (k : ℕ) (pre rest : List Migration) (s : Store D)
      → Succeed run (map (λ m. m.up_sql) rest) s.schema
      → Chained k (pre ++ rest)
      → s.applied ≡ map row pre
      → ((migrate_up run (pre ++ rest) none s).0 ≡ done)
        × ((migrate_up run (pre ++ rest) none s).1.applied ≡ map row pre ++ map row rest)
  unfolding migrate_up target_of
  migrate_up-completes k pre rest s runs chained e =
      let (first, second) = Chained-append k pre rest chained in
      let target = latest (pre ++ rest) in
      let current = get_current_version s.applied in
      let wanted =
        All-after (λ m. leb m.version target ≡ true) pre rest (latest-ge (pre ++ rest)) in
      let below : Below (k + length pre) s.applied = rw e (Chained-Below k pre first) in
      let applied : All (λ m. is_applied m.version s.applied ≡ true) pre = rw e (own_rows pre) in
      let next : is_next current (suc (k + length pre)) ≡ true = rw e (current-next k pre first) in
      let (finished, table) =
        up_loop-completes target (k + length pre) s.applied rest current s runs second wanted below
          below next in
      rw (up_loop-skip target s.applied pre rest current s applied)
        (finished, table ∙ ap (λ rows. rows ++ map row rest) e)
