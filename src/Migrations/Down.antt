-- ===== src/Migrations/Down.antt =====
-- What `migrate_down` leaves in the table of migrations.
use unified_ai_orchestrator.Base.{
  ◌≡◌, ◌≤◌, refl, ap, ◌∙◌, ℕ, Bool, true, false, Option, some, List, [], ◌∷◌, ◌++◌, reverse,
  reverse-append, any, select, ◌&&◌, ◌||◌, not, ltb, leb, ◌==◌, max, arith, Bool-cases,
  Option-cases, inl, inr, map,
}
use unified_ai_orchestrator.Base.Text.{Text}
use unified_ai_orchestrator.Migrations.Up.{Succeed}
use unified_ai_orchestrator.Migrations.{
  Migration, Row, Store, done, max_version, nonzero, get_current_version, is_applied, remove,
  down_loop, to_rollback, migrate_down,
}

abbrev pub is_registered : ℕ → List Migration → Bool
is_registered v ms = any (λ (m : Migration). m.version == v) ms

is_applied-remove :
    (v w : ℕ) (rows : List Row) → is_applied v (remove w rows) ≡ is_applied v rows && not (w == v)
unfolding remove
is_applied-remove v w [] = refl
is_applied-remove v w ((x, name) ∷ rows) = ground (arith, is_applied-remove v w rows)

registered-append :
    (v : ℕ) (ms ns : List Migration)
    → is_registered v (ms ++ ns) ≡ is_registered v ms || is_registered v ns
registered-append v [] ns = refl
registered-append v (m ∷ ms) ns = ground (arith, registered-append v ms ns)

registered-select :
    (v target current : ℕ) (ms : List Migration)
    → is_registered v (select (λ m. ltb target m.version && leb m.version current) ms)
      ≡ is_registered v ms && (ltb target v && leb v current)
registered-select v target current [] = refl
registered-select v target current (m ∷ ms) = ground (arith, registered-select v target current ms)

registered-reverse :
    (v : ℕ) (ms : List Migration) → is_registered v (reverse ms) ≡ is_registered v ms
registered-reverse v [] = refl
registered-reverse v (m ∷ ms) =
    ap (is_registered v) (reverse-append (m ∷ []) ms)
    ∙ registered-append v (reverse ms) (m ∷ [])
    ∙ ground (arith, registered-reverse v ms)

registered-rollback :
    (v target current : ℕ) (ms : List Migration)
    → is_registered v (to_rollback ms target current)
      ≡ is_registered v ms && (ltb target v && leb v current)
registered-rollback v target current ms =
    registered-select v target current (reverse ms)
    ∙ ap (λ b. b && (ltb target v && leb v current)) (registered-reverse v ms)

applied-max_version :
    (v : ℕ) (rows : List Row)
    → is_applied v rows ≡ true
    → (w : ℕ) × (max_version rows ≡ some w) × (v ≤ w)
unfolding max_version
applied-max_version v [] h = absurd (ground arith)
applied-max_version v ((x, name) ∷ rows) h = elim (Bool-cases (is_applied v rows)) [
  | inl later ↦
      let (w, e, le) = applied-max_version v rows later in (max x w, rw e refl, omega (arith, le))
  | inr here ↦ elim (Option-cases (max_version rows)) [
    | inl last ↦ (x, rw last refl, ground (arith, h, here))
    | inr (w, e) ↦ (max x w, rw e refl, ground (arith, h, here))
  ]
]

applied-max :
    (v : ℕ) (rows : List Row) (current : ℕ)
    → get_current_version rows ≡ some current
    → is_applied v rows ≡ true
    → v ≤ current
unfolding get_current_version nonzero
applied-max v rows current h applied =
    let (w, e, le) = applied-max_version v rows applied in ground (arith, e, le)

module _ {D : Type 0} (run : Text → D → Option D) where
  down_loop-all :
      (v : ℕ) (ms : List Migration) (s : Store D)
      → Succeed run (map (λ m. m.down_sql) ms) s.schema
      → ((down_loop run ms s).0 ≡ done)
        × (is_applied v (down_loop run ms s).1.applied
            ≡ is_applied v s.applied && not (is_registered v ms))
  unfolding down_loop
  down_loop-all v [] s runs = (refl, ground arith)
  down_loop-all v (m ∷ ms) s runs =
      let (after, ran, later) = runs in
      let (finished, left) =
        down_loop-all v ms (record { schema = after; applied = remove m.version s.applied })
          later in
      rw (ran, down_loop) (finished, ground (arith, left, is_applied-remove v m.version s.applied))

  -- When the table's latest version is `current`, and the SQL texts of the registered migrations above
  -- the target, up to `current`, succeed from the last one down, each on the schema that those before
  -- it have left, `migrate_down` ends with all done, and a version is then in the table exactly when
  -- it was there before and is not above the target or is not registered.
  pub migrate_down-completes :
      (ms : List Migration) (target_version current : ℕ) (s : Store D) (v : ℕ)
      → Succeed run (map (λ m. m.down_sql) (to_rollback ms target_version current)) s.schema
      → get_current_version s.applied ≡ some current
      → ((migrate_down run ms target_version s).0 ≡ done)
        × (is_applied v (migrate_down run ms target_version s).1.applied
            ≡ is_applied v s.applied && (leb v target_version || not (is_registered v ms)))
  unfolding migrate_down
  migrate_down-completes ms target_version current s v runs latest =
      let (finished, left) = down_loop-all v (to_rollback ms target_version current) s runs in
      rw (latest, migrate_down)
        (
          finished,
          elim (Bool-cases (is_applied v s.applied)) [
            | inl there ↦
                let low = applied-max v s.applied current latest there in
                ground (arith, left, registered-rollback v target_version current ms)
            | inr absent ↦ ground (arith, left, absent)
          ],
        )

  down_loop-keeps :
      (v : ℕ) (ms : List Migration) (s : Store D)
      → is_registered v ms ≡ false
      → is_applied v (down_loop run ms s).1.applied ≡ is_applied v s.applied
  unfolding down_loop
  down_loop-keeps v [] s other = refl
  down_loop-keeps v (m ∷ ms) s other = elim (Option-cases (run m.down_sql s.schema)) [
    | inl raised ↦ rw (raised, down_loop) refl
    | inr (after, ran) ↦
        rw (ran, down_loop)
          (down_loop-keeps v ms (record { schema = after; applied = remove m.version s.applied })
              (ground (arith, other))
            ∙ is_applied-remove v m.version s.applied
            ∙ ground (arith, other))
  ]

  -- However `migrate_down` ends (with all done, with nothing to roll back, or at an error of the
  -- database), a version that is not above the target is in the table exactly when it was before.
  pub migrate_down-keeps :
      (ms : List Migration) (target_version : ℕ) (s : Store D) (v : ℕ)
      → v ≤ target_version
      → is_applied v (migrate_down run ms target_version s).1.applied ≡ is_applied v s.applied
  unfolding migrate_down
  migrate_down-keeps ms target_version s v low =
      elim (Option-cases (get_current_version s.applied)) [
        | inl nothing ↦ rw (nothing, migrate_down) refl
        | inr (current, latest) ↦
            rw (latest, migrate_down)
              (down_loop-keeps v (to_rollback ms target_version current) s
                (ground (arith, registered-rollback v target_version current ms)))
      ]
