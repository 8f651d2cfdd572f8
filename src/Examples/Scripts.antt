-- ===== src/Examples/Scripts.antt =====
-- A migration script, and Migrate with it.
use ermine_tq.Prelude.{false, ◌≡◌, refl, none, some, List, [], ◌∷◌, ◌++◌, pos, order_by}
use ermine_tq.Text.Numbers.{codes, digits, unsigned, atoi}
use ermine_tq.Text.Lines.{
  is_space, trim_left, drop_space, trim_right, trim_space, split, before_pair, ends_in, cut,
  after_last, same, trim_suffix,
}
use ermine_tq.Store.Migrate.{
  Text, Engine, File, Place, done, rows_of, file_before, split_sql, scan_lines, buffered, completed,
  parse_migration_name, has_version, and_then, driver, ensure_migrations_table, applied_versions,
  exec_all, record_migration, end_tx, apply_migration, migrate_file, migrate_files, migrate,
}
use ermine_tq.Store.Migrate.Records.{pending, migrate-pending}
use ermine_tq.Store.Migrate.Reruns.{migrate-IsSame}

abbrev a_name : Text
a_name = codes "migrations/001_initial.sql"

-- A statement on two lines, with a comment, and one without its semicolon.
abbrev a_script : Text
a_script = codes "-- first\n  CREATE a -- b\n (c);\n\nDROP d"

name_parses : parse_migration_name a_name ≡ some (pos 1, codes "initial")
unfolding parse_migration_name cut trim_suffix same after_last atoi unsigned digits
name_parses = refl

script_splits : split_sql a_script ≡ codes "CREATE a\n(c);" ∷ codes "DROP d" ∷ []
unfolding split_sql scan_lines buffered completed trim_space trim_left trim_right drop_space
    is_space before_pair ends_in split
script_splits = refl

-- An engine that remembers the statements, and does not fail.
abbrev memory : Engine (List Text)
memory = record { exec = λ stmt done_before. some (done_before ++ stmt ∷ []); fault = λ n. false }

abbrev files : List File
files = record { path = a_name; content = a_script } ∷ []

abbrev nowhere : Place (List Text)
nowhere = record { content = []; migrations = none; calls = 0 }

migrated : (migrate memory files nowhere).0 ≡ done tt
unfolding migrate ensure_migrations_table applied_versions driver and_then migrate_files
    migrate_file apply_migration end_tx exec_all record_migration has_version order_by
    parse_migration_name cut trim_suffix same after_last atoi unsigned digits split_sql scan_lines
    buffered completed trim_space trim_left trim_right drop_space is_space before_pair ends_in split
migrated = refl

migrate-pending_example :
    rows_of (migrate memory files nowhere).1.migrations
    ≡ rows_of nowhere.migrations
      ++ pending (rows_of nowhere.migrations) (order_by file_before files)
migrate-pending_example = migrate-pending memory files nowhere migrated

migrate-IsSame_example :
    ((migrate memory files (migrate memory files nowhere).1).1.content
      ≡ (migrate memory files nowhere).1.content)
    × (rows_of (migrate memory files (migrate memory files nowhere).1).1.migrations
        ≡ rows_of (migrate memory files nowhere).1.migrations)
migrate-IsSame_example = migrate-IsSame memory memory files nowhere migrated
