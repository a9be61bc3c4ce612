-- ===== src/Migrations/Again.antt =====
-- persistence/migrations/migration-runner.ts: a start after one that got through applies nothing.
use messaging_gateway.Prelude.{
  String, Option, none, some, true, List, [], ◌∷◌, ◌++◌, ◌≡◌, refl, ap, ◌∙◌, sym, map, str_eq,
  arith, Bool-cases, Option-cases, inl, inr, any-join, str_eq_refl,
}
use messaging_gateway.Migrations.{
  MigrationScript, Database, finished, result_of, has_name, name_of, pending_of, skipped_of,
  apply_migration, apply_all, run,
}

-- With every name recorded nothing is pending.
all_there :
    (available : List MigrationScript) (applied names : List String)
    → ((name : String)
        → has_name name (map name_of (pending_of available applied)) ≡ true
        → has_name name names ≡ true)
    → ((name : String) → has_name name applied ≡ true → has_name name names ≡ true)
    → (pending_of available names ≡ []) × (skipped_of available names ≡ map name_of available)
all_there [] applied names a k = (refl, refl)
all_there (s ∷ available) applied names a k =
    let there : has_name s.name names ≡ true = elim (Bool-cases (has_name s.name applied)) [
      | inl before ↦ k s.name before
      | inr new ↦ a s.name (rw new (ground (arith, str_eq_refl s.name)))
    ] in
    let (none_left, skipped) =
      all_there available applied names
        (λ name h. a name (elim (Bool-cases (has_name s.name applied)) [
          | inl before ↦ rw before h
          | inr new ↦ rw new (ground (arith, h))
        ]))
        k in
    (rw there none_left, rw there (ap (◌∷◌ s.name) skipped))

module _ {S : Type 0} (exec : String → S → Option S) where
  -- What was recorded stays, and every script of a run that is not stopped is recorded.
  record Recorded (scripts : List MigrationScript) (db after : Database S) : Type 0 where
    keeps : (name : String) → has_name name db.recorded ≡ true → has_name name after.recorded ≡ true
    adds :
        (name : String)
        → has_name name (map name_of scripts) ≡ true
        → has_name name after.recorded ≡ true

  apply_migration-records :
      (script : MigrationScript) (db after : Database S)
      → apply_migration exec script db ≡ some after
      → after.recorded ≡ db.recorded ++ (script.name ∷ [])
  unfolding apply_migration
  apply_migration-records script db after e = elim (Option-cases (exec script.sql db.schema)) [
    | inl none_ ↦ absurd (cc (rw (apply_migration, none_) at e))
    | inr (next, run_) ↦ elim (Bool-cases (has_name script.name db.recorded)) [
      | inl there ↦ absurd (cc (rw (apply_migration, run_, there) at e))
      | inr new ↦
          let now : Database S = record {
            schema = next;
            recorded = db.recorded ++ (script.name ∷ []);
          } in
          let is : now ≡ after = cc (rw (apply_migration, run_, new) at e) in rw (sym is) refl
    ]
  ]

  apply_all-Recorded :
      (scripts : List MigrationScript) (db : Database S)
      → (apply_all exec scripts db).1 ≡ none
      → Recorded scripts db (apply_all exec scripts db).0
  unfolding apply_all
  apply_all-Recorded [] db h = record { keeps = λ name k. k; adds = λ name k. absurd (cc k) }
  apply_all-Recorded (script ∷ rest) db h = elim (Option-cases (apply_migration exec script db)) [
    | inl stops ↦ absurd (cc (rw (apply_all, stops) at h))
    | inr (next, e) ↦
        let later = apply_all-Recorded rest next (rw (apply_all, e) at h) in
        let wrote = apply_migration-records script db next e in
        let all_ = λ (name : String).
          ap (has_name name) wrote ∙ any-join (str_eq name) db.recorded (script.name ∷ []) in
        rw (apply_all, e)
          (record {
            keeps = λ name k. later.keeps name (ground (arith, all_ name, k));
            adds = λ name k. elim (Bool-cases (str_eq name script.name)) [
              | inl same ↦ later.keeps name (ground (arith, all_ name, same))
              | inr other ↦ later.adds name (ground (arith, k, other))
            ];
          })
  ]

  not_stopped :
      (pending : List MigrationScript) (skipped : List String) (stopped : Option String)
      (names left : List String)
      → result_of exec pending skipped stopped ≡ finished names left
      → stopped ≡ none
  not_stopped pending skipped none names left h = refl
  not_stopped pending skipped (some name) names left h = absurd (cc h)

  -- A start that got through its scripts leaves nothing to a second one with the same scripts: the database stays
  -- as it is, and every script is skipped.
  pub run_again :
      (available : List MigrationScript) (db : Database S) (names left : List String)
      → (run exec available db).1 ≡ finished names left
      → run exec available (run exec available db).0
        ≡ ((run exec available db).0, finished [] (map name_of available))
  unfolding run apply_all
  run_again available db names left h =
      let pending = pending_of available db.recorded in
      let law = apply_all-Recorded pending db (
        not_stopped pending (skipped_of available db.recorded) (apply_all exec pending db).1 names
          left h) in
      let (nothing, skipped) =
        all_there available db.recorded (apply_all exec pending db).0.recorded law.adds law.keeps in
      rw (run, nothing, skipped) refl
