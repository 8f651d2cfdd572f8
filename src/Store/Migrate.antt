-- ===== src/Store/Migrate.antt =====
-- internal/store/migrate.go. Texts are lists of code points. The SQL engine is a parameter, and so
-- are the embedded files.
pub mod Records
pub mod Reruns
use ermine_tq.Prelude.{
  ℕ, suc, Bool, true, false, ◌&&◌, ◌||◌, not, Option, none, some, List, [], ◌∷◌, ◌++◌, ℤ, leb_ℤ,
  ltb, ◌==◌, if◌then◌else◌, order_by,
}
use ermine_tq.Text.Numbers.{atoi, codes}
use ermine_tq.Text.Lines.{trim_space, split, before_pair, ends_in, cut, after_last, trim_suffix}

abbrev pub Text : Type 0
Text = List ℕ

abbrev pub is_blank : Text → Bool
is_blank [] = true
is_blank (c ∷ cs) = false

-- ── Names and scripts ──

abbrev with_version : Option ℤ → Text → Option (ℤ × Text)
with_version none desc = none
with_version (some v) desc = some (v, desc)

abbrev named : Option (Text × Text) → Option (ℤ × Text)
named none = none
named (some (prefix, desc)) = with_version (atoi prefix) desc

-- "dir/NNN_description.sql"
unfoldable pub parse_migration_name : Text → Option (ℤ × Text)
parse_migration_name path = named (cut b'_' (trim_suffix (codes ".sql") (after_last b'/' path)))

abbrev pub bare : Text → Text
bare line = trim_space (before_pair b'-' b'-' line)

-- The buffer when a line has been read, and the statement that the line ends, if it does.
unfoldable pub buffered : Text → Text → Text
buffered buf line =
    let t = bare line in
    if is_blank t then buf else if ends_in b';' t then [] else buf ++ (t ++ 10 ∷ [])

abbrev pub is_statement : Text → Bool
is_statement [] = false
is_statement (c ∷ []) = not (c == b';')
is_statement (c ∷ d ∷ cs) = true

unfoldable pub completed : Text → Text → List Text
completed buf line =
    let t = bare line in
    let stmt = trim_space (buf ++ (t ++ 10 ∷ [])) in
    if not (is_blank t) && (ends_in b';' t && is_statement stmt) then stmt ∷ [] else []

unfoldable pub scan_lines : Text → List Text → List Text
unfolding buffered completed
scan_lines buf [] = let stmt = trim_space buf in if is_blank stmt then [] else stmt ∷ []
scan_lines buf (line ∷ lines) = completed buf line ++ scan_lines (buffered buf line) lines

unfoldable pub split_sql : Text → List Text
unfolding scan_lines
split_sql script = scan_lines [] (split 10 script)

-- ── The database ──

-- One row of schema_migrations.
abbrev pub Row : Type 0
Row = ℤ × Text

abbrev pub same_version : ℤ → ℤ → Bool
same_version a b = leb_ℤ a b && leb_ℤ b a

unfoldable pub has_version : ℤ → List Row → Bool
has_version v [] = false
has_version v ((u, desc) ∷ rows) = same_version u v || has_version v rows

pub data Failure : Type 0 where
  create_table query_versions bad_name begin_tx exec_statement record_row commit : Failure

pub data Result {ℓ} (A : Type ℓ) : Type ℓ where
  done : A → Result A
  failed : Failure → Result A

-- What the SQL engine does with a statement, and the calls of the driver that fail.
pub record Engine (S : Type 0) : Type 0 where
  pub exec : Text → S → Option S
  pub fault : ℕ → Bool

pub record File : Type 0 where
  pub path : Text
  pub content : Text

-- The tables that the scripts make, the table schema_migrations if it is there, and the number of
-- calls of the driver.
pub record Place (S : Type 0) : Type 0 where
  pub content : S
  pub migrations : Option (List Row)
  pub calls : ℕ

abbrev pub rows_of : Option (List Row) → List Row
rows_of none = []
rows_of (some rows) = rows

-- strings order, and the order of the files.
unfoldable pub text_before : Text → Text → Bool
text_before cs [] = false
text_before [] (d ∷ ds) = true
text_before (c ∷ cs) (d ∷ ds) = ltb c d || (c == d && text_before cs ds)

abbrev pub file_before : File → File → Bool
file_before a b = text_before a.path b.path

module _ {S : Type 0} (engine : Engine S) where
  abbrev pub Run : Type 0 → Type 0
  Run A = Place S → Result A × Place S

  unfoldable pub and_then : {A B : Type 0} → Result A × Place S → (A → Run B) → Result B × Place S
  and_then (done a, p) f = f a p
  and_then (failed e, p) f = (failed e, p)

  -- A call of the driver that may fail, and what follows it.
  unfoldable pub driver : {A : Type 0} → Failure → Run A → Run A
  driver e go p =
      let p' = record p { calls = suc p.calls } in
      if engine.fault p.calls then (failed e, p') else go p'

  unfoldable pub ensure_migrations_table : Run (Unit {0})
  ensure_migrations_table =
      driver create_table (λ p. (done tt, record p { migrations = some (rows_of p.migrations) }))

  unfoldable pub applied_versions : Run (List Row)
  applied_versions = driver query_versions (λ p. (done (rows_of p.migrations), p))

  abbrev executed : Option S → Run (Unit {0})
  executed none p = (failed exec_statement, p)
  executed (some s) p = (done tt, record p { content = s })

  unfoldable pub exec_all : List Text → Run (Unit {0})
  exec_all [] p = (done tt, p)
  exec_all (stmt ∷ stmts) p =
      and_then (driver exec_statement (λ q. executed (engine.exec stmt q.content) q) p)
        (λ _. exec_all stmts)

  -- The version is the primary key of schema_migrations.
  unfoldable pub record_migration : ℤ → Text → Run (Unit {0})
  record_migration version desc = driver record_row (λ p.
      if has_version version (rows_of p.migrations)
      then (failed record_row, p)
      else (done tt, record p { migrations = some (rows_of p.migrations ++ (version, desc) ∷ []) }))

  -- The end of a transaction: what failed is rolled back to the tables of `before`.
  unfoldable pub end_tx : Place S → Result (Unit {0}) × Place S → Result (Unit {0}) × Place S
  end_tx before (done a, p) =
      let p' = record p { calls = suc p.calls } in
      if engine.fault p.calls
      then (failed commit, record before { calls = suc p.calls })
      else (done tt, p')
  end_tx before (failed e, p) = (failed e, record before { calls = p.calls })

  unfoldable pub apply_migration : ℤ → Text → Text → Run (Unit {0})
  apply_migration version desc content = driver begin_tx (λ p.
      end_tx p (and_then (exec_all (split_sql content) p) (λ _. record_migration version desc)))

  -- The loop of Migrate, over the sorted files.
  unfoldable pub migrate_file : List Row → Option (ℤ × Text) → Text → Run (Unit {0})
  migrate_file applied none content p = (failed bad_name, p)
  migrate_file applied (some (version, desc)) content p =
      if has_version version applied then (done tt, p) else apply_migration version desc content p

  unfoldable pub migrate_files : List Row → List File → Run (Unit {0})
  migrate_files applied [] p = (done tt, p)
  migrate_files applied (file ∷ files) p =
      and_then (migrate_file applied (parse_migration_name file.path) file.content p)
        (λ _. migrate_files applied files)

  unfoldable pub migrate : List File → Run (Unit {0})
  migrate files p = and_then (ensure_migrations_table p) (λ _ q.
      and_then (applied_versions q) (λ applied. migrate_files applied (order_by file_before files)))
