-- ===== src/Samples/Files.antt =====
-- examples/go/handlers/file_io.go: FileWrite and FileRead.
use ermine_tq.Prelude.{
  ℕ, ◌*◌, Bool, true, false, ◌||◌, ◌++◌, ℤ, pos, leb_ℤ, ltb_ℤ, pos_part, length, if◌then◌else◌,
}
use ermine_tq.Store.Tasks.{take}
use ermine_tq.Text.Numbers.{codes}
use ermine_tq.Text.Decimals.{decimal}
use ermine_tq.Text.Paths.{dot, contains_pair, is_abs, join, dir_of}
use ermine_tq.Samples.{
  Bytes, Outside, FileWriteResult, FileReadResult, Io, ◌>>=◌, ◌>>◌, return, ask, try, guard,
  decoded, is_blank, output_dir, write_output, makes_dirs, opens, writes, stats, reads,
  missing_field, not_relative, mkdir_failed, open_failed, write_failed, stat_failed, read_failed,
}

unfoldable pub escapes : Bytes → Bool
escapes name = contains_pair dot dot name || is_abs name

abbrev pub mode_text : Bool → Bytes
mode_text append = if append then codes "append" else codes "write"

-- The default of max_bytes.
abbrev pub max_of : ℤ → ℤ
max_of n = if leb_ℤ n (pos 0) then pos (64 * 1024) else n

-- The content up to a limit, and whether it was cut.
unfoldable pub cut_to : ℤ → Bytes → Bytes × Bool
cut_to max all =
    if ltb_ℤ max (pos (length all)) then (take (pos_part max) all, true) else (all, false)

abbrev pub bool_text : Bool → Bytes
bool_text b = if b then codes "true" else codes "false"

unfoldable pub read_name : ℕ → Bytes
read_name nano = codes "go_file_read_" ++ (decimal nano ++ codes ".txt")

module _ (o : Outside) where
  unfoldable pub read_log : Bytes → ℕ → Bool → Bytes → Bytes
  read_log path size truncated content =
      codes "=== go_file_read log ===\npath:      "
      ++ (path
          ++ (codes "\nsize:      "
              ++ (decimal size
                  ++ (codes " bytes\nread_at:   "
                      ++ (o.now_text
                          ++ (codes "\ntruncated: "
                              ++ (bool_text truncated
                                  ++ (codes "\n\n--- content ---\n" ++ content))))))))

  unfoldable pub file_write : Bytes → Io FileWriteResult
  file_write payload = do
    p ← decoded (o.decode_write payload)
    guard missing_field (is_blank p.filename)
    guard not_relative (escapes p.filename)
    let path = join output_dir p.filename
    try (makes_dirs (dir_of path)) mkdir_failed (o.makes_dirs (dir_of path))
    try (opens path p.append) open_failed (o.opens path)
    n ← ask (writes path p.content) write_failed (o.writes path p.content)
    return record { path = path; bytes_written = n; mode = mode_text p.append }

  unfoldable pub file_read : Bytes → Io FileReadResult
  file_read payload = do
    p ← decoded (o.decode_read payload)
    guard missing_field (is_blank p.path)
    size ← ask (stats p.path) stat_failed (o.stat_size p.path)
    all ← ask (reads p.path) read_failed (o.reads_file p.path)
    let cut = cut_to (max_of p.max_bytes) all
    path ← write_output o (read_name o.unix_nano) (read_log p.path size cut.1 cut.0)
    return record {
      path = p.path;
      size_bytes = size;
      content = cut.0;
      truncated = cut.1;
      output_file = path;
    }
