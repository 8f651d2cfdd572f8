-- ===== src/Store/Migrate/Reruns.antt =====
-- Migrate of internal/store/migrate.go, run again.
use ermine_tq.Prelude.{
  suc, true, false, ◌≡◌, refl, sym, subst, Option, none, some, List, [], ◌∷◌, ◌++◌, ℤ, Bool-cases,
  inl, inr, arith, All, All-map, order_by,
}
use ermine_tq.Store.Migrate.{
  Text, Row, done, Engine, File, Place, rows_of, file_before, has_version, same_version,
  parse_migration_name, and_then, driver, ensure_migrations_table, applied_versions, migrate_file,
  migrate_files, migrate,
}
use ermine_tq.Store.Migrate.Records.{added, pending, IsNamed, Then-done, migrate-Then}

-- Versions of added rows are known.
has-append_left :
    (v : ℤ) (xs ys : List Row) → has_version v xs ≡ true → has_version v (xs ++ ys) ≡ true
unfolding has_version
has-append_left v [] ys h = let k : false ≡ true = h in cc
has-append_left v ((u, d) ∷ xs) ys h = ground (arith, has-append_left v xs ys)

has-append_right :
    (v : ℤ) (xs ys : List Row) → has_version v ys ≡ true → has_version v (xs ++ ys) ≡ true
unfolding has_version
has-append_right v [] ys h = h
has-append_right v ((u, d) ∷ xs) ys h = ground (arith, has-append_right v xs ys)

has-here : (v : ℤ) (d : Text) (rows : List Row) → has_version v ((v, d) ∷ rows) ≡ true
unfolding has_version
has-here v d rows = ground arith

-- Of the row that a name stands for, the version is known.
abbrev Known : List Row → Option Row → Type 0
Known rows none = Unit
Known rows (some (version, desc)) = has_version version rows ≡ true

Known-added :
    (applied later : List Row) (row : Option Row)
    → Known (applied ++ (added applied row ++ later)) row
unfolding has_version
Known-added applied later none = tt
Known-added applied later (some (version, desc)) = elim (Bool-cases (has_version version applied)) [
  | inl b ↦ rw b (has-append_left version applied later b)
  | inr b ↦
      rw b
        (has-append_right version applied ((version, desc) ∷ later) (has-here version desc later))
]

Known-insert :
    (applied new later : List Row) (row : Option Row)
    → Known (applied ++ later) row
    → Known (applied ++ (new ++ later)) row
unfolding has_version
Known-insert applied new later none h = tt
Known-insert [] new later (some (version, desc)) h = has-append_right version new later h
Known-insert ((u, d) ∷ applied) new later (some (version, desc)) h =
    elim (Bool-cases (same_version u version)) [
      | inl b ↦ rw b refl
      | inr b ↦
          let k : has_version version (applied ++ later) ≡ true = rw b at h in
          rw b (Known-insert applied new later (some (version, desc)) k)
    ]

pending-Known :
    (applied : List Row) (files : List File)
    → All (λ f. Known (applied ++ pending applied files) (parse_migration_name f.path)) files
pending-Known applied [] = tt
pending-Known applied (f ∷ fs) = (
  Known-added applied (pending applied fs) (parse_migration_name f.path),
  All-map _ _
      (λ g h.
        Known-insert applied (added applied (parse_migration_name f.path)) (pending applied fs)
          (parse_migration_name g.path) h)
      fs (pending-Known applied fs),
)

module _ {S : Type 0} (engine : Engine S) where
  skip_file :
      (applied : List Row) (row : Option Row) (content : Text) (p : Place S)
      → (r : Row) × (row ≡ some r)
      → Known applied row
      → migrate_file engine applied row content p ≡ (done tt, p)
  unfolding migrate_file
  skip_file applied none content p n k = let e : none ≡ some n.0 = n.1 in cc
  skip_file applied (some (version, desc)) content p n k = rw k refl

  skip_files :
      (applied : List Row) (files : List File) (p : Place S)
      → All IsNamed files
      → All (λ f. Known applied (parse_migration_name f.path)) files
      → migrate_files engine applied files p ≡ (done tt, p)
  unfolding migrate_files and_then
  skip_files applied [] p n k = refl
  skip_files applied (f ∷ fs) p n k =
      rw (skip_file applied (parse_migration_name f.path) f.content p n.0 k.0)
        (skip_files applied fs p n.1 k.1)

  -- The tables of a place, without the number of calls.
  abbrev IsSame : Place S → Place S → Type 0
  IsSame p q = (q.content ≡ p.content) × (rows_of q.migrations ≡ rows_of p.migrations)

  rerun :
      (files : List File) (p : Place S)
      → All IsNamed (order_by file_before files)
      → All
          (λ f. Known (rows_of p.migrations) (parse_migration_name f.path))
          (order_by file_before files)
      → IsSame p (migrate engine files p).1
  unfolding migrate ensure_migrations_table applied_versions and_then driver
  rerun files p n k = elim (Bool-cases (engine.fault p.calls)) [
    | inl b ↦ rw b (refl, refl)
    | inr b ↦ elim (Bool-cases (engine.fault (suc p.calls))) [
      | inl c ↦ rw (b, c) (refl, refl)
      | inr c ↦
          rw (b, c, skip_files (rows_of p.migrations) (order_by file_before files) _ n k)
            (refl, refl)
    ]
  ]

-- After a Migrate that returned no error, another one with the same files, whatever the driver
-- does then, leaves the tables of the scripts and the rows of schema_migrations as they are.
pub migrate-IsSame :
    {S : Type 0} (engine again : Engine S) (files : List File) (p : Place S)
    → (migrate engine files p).0 ≡ done tt
    → let q = (migrate engine files p).1 in
      ((migrate again files q).1.content ≡ q.content)
      × (rows_of (migrate again files q).1.migrations ≡ rows_of q.migrations)
migrate-IsSame engine again files p h =
    let (e, n) = Then-done (migrate engine files p) _ tt h (migrate-Then engine files p) in
    rerun again files (migrate engine files p).1 n (
      subst
        (λ rows. All (λ f. Known rows (parse_migration_name f.path)) (order_by file_before files))
        (sym e) (pending-Known (rows_of p.migrations) (order_by file_before files)))
