-- ===== src/Examples/Samples.antt =====
-- Payloads of the sample handlers, and where they write.
use mathlib.Core.Bool.{true, false}
use ermine_tq.Prelude.{String, List, ◌≡◌, refl, none, some, [], ◌∷◌, pos, All, length}
use ermine_tq.Text.Numbers.{codes}
use ermine_tq.Text.Lines.{split, same}
use ermine_tq.Text.Decimals.{decimal, decimal_of}
use ermine_tq.Text.Paths.{
  join, clean, clean_parts, clean_part, join_parts, is_abs, contains_pair, ends_up, dir_of,
  up_to_last,
}
use ermine_tq.Samples.{
  Outside, makes_dirs, opens, writes, failed, not_relative, file_write, register_defaults, ◌>>=◌,
  ◌>>◌,
}
use ermine_tq.Samples.Files
use ermine_tq.Samples.Confined.{IsConfined, calls_of, calls_of-IsConfined}

-- Everything succeeds, and a payload of go_file_write is the name of the file.
abbrev outside : Outside
outside = record {
  decode_write =
      λ payload. some (record { filename = payload; content = codes "Hello!"; append = false });
  decode_read = λ payload. some (record { path = payload; max_bytes = pos 3 });
  decode_fetch = λ payload. none;
  decode_chat = λ payload. none;
  decode_reply = λ payload. none;
  encode_fetched = λ r. [];
  makes_dirs = λ path. true;
  opens = λ path. true;
  writes = λ path content. some (length content);
  writes_file = λ path content. true;
  stat_size = λ path. some 6;
  reads_file = λ path. some (codes "Hello!");
  builds = λ url. true;
  get = λ url timeout. none;
  post = λ url request. none;
  elapsed_ms = 0;
  unix_nano = 1_700_000_000_000_000_000;
  now_text = [];
}

calls_of-IsConfined_example :
    All IsConfined (calls_of outside file_write (codes "notes//today/./hello.txt"))
calls_of-IsConfined_example =
    calls_of-IsConfined outside file_write (codes "notes//today/./hello.txt")

writes_below :
    calls_of outside file_write (codes "notes//today/./hello.txt")
    ≡ makes_dirs (codes "examples/output/notes/today")
      ∷ opens (codes "examples/output/notes/today/hello.txt") false
      ∷ writes (codes "examples/output/notes/today/hello.txt") (codes "Hello!")
      ∷ []
unfolding Files.file_write Files.escapes ◌>>=◌ ◌>>◌ join clean clean_parts clean_part join_parts
    is_abs contains_pair ends_up split same dir_of up_to_last
writes_below = refl

refuses_parent : (Files.file_write outside (codes "../main.go")).0 ≡ failed not_relative
unfolding Files.file_write Files.escapes ◌>>=◌ ◌>>◌ is_abs contains_pair
refuses_parent = refl

-- The name "." passes the guards and stands for the output directory itself.
writes_directory :
    calls_of outside file_write (codes ".")
    ≡ makes_dirs (codes "examples")
      ∷ opens (codes "examples/output") false
      ∷ writes (codes "examples/output") (codes "Hello!")
      ∷ []
unfolding Files.file_write Files.escapes ◌>>=◌ ◌>>◌ join clean clean_parts clean_part join_parts
    is_abs contains_pair ends_up split same dir_of up_to_last
writes_directory = refl

digits_of_time : decimal 1_700_000_000_000_000_000 ≡ codes "1700000000000000000"
unfolding decimal decimal_of
digits_of_time = refl

registers_four :
    register_defaults {R = List String} (λ type s types. type ∷ types) []
    ≡ "go_ollama_chat" ∷ "go_file_read" ∷ "go_file_write" ∷ "go_http_fetch" ∷ []
unfolding register_defaults
registers_four = refl
