-- ===== src/Store/Migrate/Records.antt =====
-- What Migrate of internal/store/migrate.go records.
use mathlib.Core.List.{append_assoc, append-nil}
use ermine_tq.Prelude.{
  suc, ◌≡◌, refl, sym, ap, subst, ◌∙◌, Option, none, some, List, [], ◌∷◌, ◌++◌, ℤ, if◌then◌else◌,
  Bool-cases, Option-cases, inl, inr, All, order_by,
}
use ermine_tq.Store.Migrate.{
  Text, Row, Failure, Result, done, failed, Engine, File, Place, rows_of, file_before, has_version,
  parse_migration_name, split_sql, and_then, driver, ensure_migrations_table, applied_versions,
  exec_all, record_migration, end_tx, apply_migration, migrate_file, migrate_files, migrate,
}

-- The row that a file adds, if its version is not applied yet.
abbrev pub added : List Row → Option Row → List Row
added applied none = []
added applied (some (version, desc)) =
    if has_version version applied then [] else (version, desc) ∷ []

-- The rows that the files add, in their order.
abbrev pub pending : List Row → List File → List Row
pending applied [] = []
pending applied (f ∷ fs) = added applied (parse_migration_name f.path) ++ pending applied fs

-- The name of a file gives a version and a description.
abbrev pub IsNamed : File → Type 0
IsNamed f = (row : Row) × (parse_migration_name f.path ≡ some row)

module _ {S : Type 0} where
  -- What holds if a run succeeds.
  abbrev pub Then : {A : Type 0} → Result A × Place S → (A → Place S → Type 0) → Type 0
  Then (done a, p) Q = Q a p
  Then (failed e, p) Q = Unit

  pub Then-done :
      {A : Type 0} (r : Result A × Place S) (Q : A → Place S → Type 0) (a : A)
      → r.0 ≡ done a
      → Then r Q
      → Q a r.1
  Then-done (done b, p) Q a e h = let k : b ≡ a = cc in subst (λ x. Q x p) k h
  Then-done (failed f, p) Q a e h = cc

  module _ (engine : Engine S) where
    and_then-Then :
        {A B : Type 0} (r : Result A × Place S) (f : A → Place S → Result B × Place S)
        (Q : B → Place S → Type 0)
        → Then r (λ a p. Then (f a p) Q)
        → Then (and_then engine r f) Q
    unfolding and_then
    and_then-Then (done a, p) f Q h = h
    and_then-Then (failed e, p) f Q h = tt

    driver-Then :
        {A : Type 0} (e : Failure) (go : Place S → Result A × Place S) (Q : A → Place S → Type 0)
        (p : Place S)
        → Then (go (record p { calls = suc p.calls })) Q
        → Then (driver engine e go p) Q
    unfolding driver
    driver-Then e go Q p h = elim (Bool-cases (engine.fault p.calls)) [
      | inl b ↦ rw b tt
      | inr b ↦ rw b h
    ]

    exec_all-Then :
        (stmts : List Text) (p : Place S)
        → Then (exec_all engine stmts p) (λ _ q. q.migrations ≡ p.migrations)
    unfolding exec_all
    exec_all-Then [] p = refl
    exec_all-Then (stmt ∷ stmts) p = and_then-Then _ _ _ (
        driver-Then _ _ _ p (elim (Option-cases (engine.exec stmt p.content)) [
          | inl e ↦ rw e tt
          | inr (s, e) ↦ rw e (exec_all-Then stmts _)
        ]))

    record_migration-Then :
        (version : ℤ) (desc : Text) (p : Place S)
        → Then
            (record_migration engine version desc p)
            (λ _ q. q.migrations ≡ some (rows_of p.migrations ++ (version, desc) ∷ []))
    unfolding record_migration
    record_migration-Then version desc p =
        driver-Then _ _ _ p (elim (Bool-cases (has_version version (rows_of p.migrations))) [
          | inl b ↦ rw b tt
          | inr b ↦ rw b refl
        ])

    end_tx-Then :
        (before : Place S) (m : Option (List Row)) (r : Result (Unit {0}) × Place S)
        → Then r (λ _ q. q.migrations ≡ m)
        → Then (end_tx engine before r) (λ _ q. q.migrations ≡ m)
    unfolding end_tx
    end_tx-Then before m (done a, p) h = elim (Bool-cases (engine.fault p.calls)) [
      | inl b ↦ rw b tt
      | inr b ↦ rw b h
    ]
    end_tx-Then before m (failed e, p) h = tt

    apply_migration-Then :
        (version : ℤ) (desc content : Text) (p : Place S)
        → Then
            (apply_migration engine version desc content p)
            (λ _ q. q.migrations ≡ some (rows_of p.migrations ++ (version, desc) ∷ []))
    unfolding apply_migration
    apply_migration-Then version desc content p = driver-Then _ _ _ p (
        end_tx-Then _ _ _ (
          and_then-Then _ _ _ (
            after_exec (exec_all engine (split_sql content) _)
              (exec_all-Then (split_sql content) _))))
      where
        after_exec :
            (r : Result (Unit {0}) × Place S)
            → Then r (λ _ q. q.migrations ≡ p.migrations)
            → Then r (λ _ q.
              Then
                (record_migration engine version desc q)
                (λ _ x. x.migrations ≡ some (rows_of p.migrations ++ (version, desc) ∷ [])))
        after_exec (done a, q) h =
            subst
              (λ m.
                Then (record_migration engine version desc q)
                  (λ _ x. x.migrations ≡ some (rows_of m ++ (version, desc) ∷ [])))
              h (record_migration-Then version desc q)
        after_exec (failed e, q) h = tt

    migrate_file-Then :
        (applied : List Row) (row : Option Row) (content : Text) (p : Place S)
        → Then (migrate_file engine applied row content p) (λ _ q.
          (rows_of q.migrations ≡ rows_of p.migrations ++ added applied row)
          × ((r : Row) × (row ≡ some r)))
    unfolding migrate_file
    migrate_file-Then applied none content p = tt
    migrate_file-Then applied (some (version, desc)) content p =
        elim (Bool-cases (has_version version applied)) [
          | inl b ↦ rw b (sym (append-nil (rows_of p.migrations)), (_, refl))
          | inr b ↦ rw b (
              weaken (apply_migration engine version desc content p)
                (apply_migration-Then version desc content p))
        ]
      where
        weaken :
            (r : Result (Unit {0}) × Place S)
            → Then r (λ _ q. q.migrations ≡ some (rows_of p.migrations ++ (version, desc) ∷ []))
            → Then r (λ _ q.
              (rows_of q.migrations ≡ rows_of p.migrations ++ (version, desc) ∷ [])
              × ((s : Row) × (some (version, desc) ≡ some s)))
        weaken (done a, q) h = (ap rows_of h, (_, refl))
        weaken (failed e, q) h = tt

    migrate_files-Then :
        (applied : List Row) (files : List File) (p : Place S)
        → Then (migrate_files engine applied files p) (λ _ q.
          (rows_of q.migrations ≡ rows_of p.migrations ++ pending applied files)
          × All IsNamed files)
    unfolding migrate_files
    migrate_files-Then applied [] p = (sym (append-nil (rows_of p.migrations)), tt)
    migrate_files-Then applied (f ∷ fs) p = and_then-Then _ _ _ (
        first (migrate_file engine applied (parse_migration_name f.path) f.content p)
          (migrate_file-Then applied (parse_migration_name f.path) f.content p)
          (migrate_files-Then applied fs))
      where
        new : List Row
        new = added applied (parse_migration_name f.path)

        last :
            (q : Place S) (r : Result (Unit {0}) × Place S)
            → rows_of q.migrations ≡ rows_of p.migrations ++ new
            → IsNamed f
            → Then r (λ _ x.
              (rows_of x.migrations ≡ rows_of q.migrations ++ pending applied fs) × All IsNamed fs)
            → Then r (λ _ x.
              (rows_of x.migrations ≡ rows_of p.migrations ++ (new ++ pending applied fs))
              × All IsNamed (f ∷ fs))
        last q (done a, x) h n k = (
          k.0
              ∙ (ap (λ l. l ++ pending applied fs) h
                  ∙ append_assoc (rows_of p.migrations) new (pending applied fs)),
          (n, k.1),
        )
        last q (failed e, x) h n k = tt

        first :
            (r : Result (Unit {0}) × Place S)
            → Then r (λ _ q. (rows_of q.migrations ≡ rows_of p.migrations ++ new) × IsNamed f)
            → ((q : Place S)
                → Then (migrate_files engine applied fs q) (λ _ x.
                  (rows_of x.migrations ≡ rows_of q.migrations ++ pending applied fs)
                  × All IsNamed fs))
            → Then r (λ _ q. Then (migrate_files engine applied fs q) (λ _ x.
              (rows_of x.migrations ≡ rows_of p.migrations ++ (new ++ pending applied fs))
              × All IsNamed (f ∷ fs)))
        first (done a, q) h k = last q _ h.0 h.1 (k q)
        first (failed e, q) h k = tt

    pub migrate-Then :
        (files : List File) (p : Place S)
        → Then (migrate engine files p) (λ _ q.
          (rows_of q.migrations
            ≡ rows_of p.migrations ++ pending (rows_of p.migrations) (order_by file_before files))
          × All IsNamed (order_by file_before files))
    unfolding migrate ensure_migrations_table applied_versions
    migrate-Then files p = and_then-Then _ _ _ (
        driver-Then _ _ _ p (
          and_then-Then _ _ _ (
            driver-Then _ _ _ _
              (migrate_files-Then (rows_of p.migrations) (order_by file_before files) _))))

  -- A Migrate that returns no error has read a version and a description from the name of every
  -- file, and has added to schema_migrations, behind the rows that were there, one row for each
  -- file whose version was not there, in the order of the names of the files.
  pub migrate-pending :
      (engine : Engine S) (files : List File) (p : Place S)
      → (migrate engine files p).0 ≡ done tt
      → rows_of (migrate engine files p).1.migrations
        ≡ rows_of p.migrations ++ pending (rows_of p.migrations) (order_by file_before files)
  migrate-pending engine files p h =
      (Then-done (migrate engine files p) _ tt h (migrate-Then engine files p)).0
