-- ===== src/Migrations/Up.antt =====
-- What `migrate_up` leaves in the table of migrations.
use Prim.Native.String.{String}
use unified_ai_orchestrator.Base.{
  ◌≡◌, ◌≤◌, refl, sym, ap, ap₂, ◌∙◌, ℕ, zero, suc, ◌+◌, true, Option, none, some, List, [], ◌∷◌,
  ◌++◌, append_assoc, append-nil, map, All, ◌&&◌, not, leb, arith, Bool-cases, Option-cases, inl,
  inr,
}
use unified_ai_orchestrator.Base.Text.{Text}
use unified_ai_orchestrator.Migrations.{
  Migration, Row, Store, max_version, nonzero, get_current_version, is_applied, target_of,
  record_version, apply_up, is_next, continue_with, up_loop, migrate_up,
}

abbrev pub count_up : ℕ → ℕ → List ℕ
count_up a zero = []
count_up a (suc n) = a ∷ count_up (suc a) n

abbrev pub versions : List Row → List ℕ
versions rows = map (λ (v, name). v) rows

-- The versions in the table follow each other without a gap, from one that is not zero.
abbrev pub Contiguous : List Row → Type 0
Contiguous rows = (a n : ℕ) × (1 ≤ a) × (versions rows ≡ count_up a n)

-- The version that the loop carries is the last one in the table.
abbrev Tracks : Option ℕ → List Row → Type 0
Tracks none rows = rows ≡ []
Tracks (some c) rows = (a n : ℕ) × (1 ≤ a) × (versions rows ≡ count_up a (suc n)) × (c ≡ a + n)

count_up-snoc : (a n : ℕ) → count_up a n ++ (a + n) ∷ [] ≡ count_up a (suc n)
count_up-snoc a zero = ap (λ x. x ∷ []) (omega arith)
count_up-snoc a (suc n) =
    ap (λ l. a ∷ l) (ap (λ x. count_up (suc a) n ++ x ∷ []) (omega arith) ∙ count_up-snoc (suc a) n)

versions-snoc :
    (rows : List Row) (v : ℕ) (name : String)
    → versions (rows ++ (v, name) ∷ []) ≡ versions rows ++ v ∷ []
versions-snoc [] v name = refl
versions-snoc ((w, other) ∷ rows) v name = ap (λ l. w ∷ l) (versions-snoc rows v name)

max_version-count_up :
    (rows : List Row) (a n : ℕ)
    → versions rows ≡ count_up a (suc n)
    → max_version rows ≡ some (a + n)
unfolding max_version
max_version-count_up [] a n h = absurd (ground arith)
max_version-count_up ((w, name) ∷ []) a zero h = ground arith
max_version-count_up ((w, name) ∷ []) a (suc n) h = absurd (ground arith)
max_version-count_up ((w, name) ∷ (x, other) ∷ rows) a zero h = absurd (ground arith)
max_version-count_up ((w, name) ∷ (x, other) ∷ rows) a (suc n) h =
    rw (max_version-count_up ((x, other) ∷ rows) (suc a) n (ground arith)) (ground arith)

empty : (rows : List Row) → versions rows ≡ [] → Tracks (get_current_version rows) rows
unfolding get_current_version nonzero max_version
empty [] e = refl
empty ((v, name) ∷ rows) e = absurd (ground arith)

not_zero : (a n : ℕ) → 1 ≤ a → nonzero (some (a + n)) ≡ some (a + n)
unfolding nonzero
not_zero a n positive = ground arith

pub current-count_up :
    (rows : List Row) (a n : ℕ)
    → 1 ≤ a
    → versions rows ≡ count_up a (suc n)
    → get_current_version rows ≡ some (a + n)
unfolding get_current_version
current-count_up rows a n positive e = rw (max_version-count_up rows a n e) (not_zero a n positive)

Tracks-current : (rows : List Row) → Contiguous rows → Tracks (get_current_version rows) rows
unfolding get_current_version nonzero max_version
Tracks-current rows (a, zero, positive, e) = empty rows e
Tracks-current rows (a, suc n, positive, e) =
    rw (current-count_up rows a n positive e) (a, n, positive, e, refl)

Tracks-Contiguous : (c : Option ℕ) (rows : List Row) → Tracks c rows → Contiguous rows
Tracks-Contiguous none rows h = (1, 0, omega arith, rw h refl)
Tracks-Contiguous (some c) rows (a, n, positive, e, last) = (a, suc n, positive, e)

Tracks-next :
    (c : Option ℕ) (rows : List Row) (v : ℕ) (name : String)
    → Tracks c rows
    → is_next c v ≡ true
    → 1 ≤ v
    → Tracks (some v) (rows ++ (v, name) ∷ [])
unfolding is_next
Tracks-next none rows v name h next positive = (v, 0, positive, rw h refl, omega arith)
Tracks-next (some c) rows v name (a, n, from, e, last) next positive = (
  a,
  suc n,
  from,
  versions-snoc rows v name ∙ ap₂ (λ l x. l ++ x ∷ []) e (ground arith) ∙ count_up-snoc a (suc n),
  ground arith,
)

module _ {D : Type 0} (run : Text → D → Option D) where
  -- The texts succeed one after the other, each on the schema that those before it have left.
  abbrev pub Succeed : List Text → D → Type 0
  Succeed [] d = Unit
  Succeed (sql ∷ texts) d = (after : D) × (run sql d ≡ some after) × Succeed texts after

  -- What a run leaves: the rows that were there, rows added behind them, and no gap.
  abbrev pub Grows : List Row → List Row → Type 0
  Grows before after = (added : List Row) × (after ≡ before ++ added) × Contiguous after

  Grows-refl : (current : Option ℕ) (rows : List Row) → Tracks current rows → Grows rows rows
  Grows-refl current rows tracks =
      ([], sym (append-nil rows), Tracks-Contiguous current rows tracks)

  up_loop-Grows :
      (target : ℕ) (before : List Row) (ms : List Migration) (current : Option ℕ) (s : Store D)
      → All (λ m. 1 ≤ m.version) ms
      → Tracks current s.applied
      → Grows s.applied (up_loop run target before ms current s).1.applied
  unfolding up_loop apply_up record_version continue_with
  up_loop-Grows target before [] current s positive tracks = Grows-refl current s.applied tracks
  up_loop-Grows target before (m ∷ ms) current s (first, positive) tracks =
      elim (Bool-cases (leb m.version target && not (is_applied m.version before))) [
        | inr skipped ↦ rw skipped (up_loop-Grows target before ms current s positive tracks)
        | inl due ↦ elim (Bool-cases (is_next current m.version)) [
          | inr hole ↦ rw (due, hole) (Grows-refl current s.applied tracks)
          | inl next ↦ elim (Option-cases (run m.up_sql s.schema)) [
            | inl raised ↦ rw (due, next, raised) (Grows-refl current s.applied tracks)
            | inr (after, ran) ↦ elim (Bool-cases (is_applied m.version s.applied)) [
              | inl again ↦ rw (due, next, ran, again) (Grows-refl current s.applied tracks)
              | inr fresh ↦
                  let rows = s.applied ++ (m.version, m.name) ∷ [] in
                  let (added, e, contiguous) =
                    up_loop-Grows target before ms (some m.version)
                      (record { schema = after; applied = rows }) positive
                      (Tracks-next current s.applied m.version m.name tracks next first) in
                  rw (due, next, ran, fresh)
                    (
                      (m.version, m.name) ∷ added,
                      e ∙ append_assoc s.applied ((m.version, m.name) ∷ []) added,
                      contiguous,
                    )
            ]
          ]
        ]
      ]

  -- However `migrate_up` ends (with all done, at a gap, or at an error of the database), and whatever
  -- the target: when the versions in the table had no gap and no registered version is zero, the
  -- table keeps its rows, new ones stand behind them, and there is still no gap.
  pub migrate_up-Grows :
      (ms : List Migration) (target_version : Option ℕ) (s : Store D)
      → All (λ m. 1 ≤ m.version) ms
      → Contiguous s.applied
      → Grows s.applied (migrate_up run ms target_version s).1.applied
  unfolding migrate_up
  migrate_up-Grows ms target_version s positive contiguous =
      up_loop-Grows (target_of target_version ms) s.applied ms (get_current_version s.applied) s
        positive (Tracks-current s.applied contiguous)
