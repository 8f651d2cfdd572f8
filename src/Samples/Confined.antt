-- ===== src/Samples/Confined.antt =====
-- Where the sample handlers write (examples/go/handlers).
use ermine_tq.Prelude.{
  ◌⊎◌, inl, inr, ◌++◌, sym, subst, ℕ, ◌≡◌, refl, ap, ◌∙◌, Bool, true, false, List, [], ◌∷◌, arith,
  All, All-append,
}
use ermine_tq.Text.Numbers.{codes}
use ermine_tq.Text.Lines.{split, same}
use ermine_tq.Text.Decimals.{decimal, decimal-IsDigits}
use ermine_tq.Text.Paths.{
  dir_of, up_to_last, slash, dot, contains_pair, join, clean, clean_parts, clean_part, join_parts,
  is_abs, or_here,
}
use ermine_tq.Text.Paths.Parents.{up_to_last-append, split-up_to_last-IsPlain}
use ermine_tq.Text.Paths.Parts.{
  IsPlain, clean_parts-append, kept-IsElement, split-HasNoSlash, IsElement, kept,
  kept-split-IsElement, clean_parts-split, contains_pair-append,
}
use ermine_tq.Samples.{
  Bytes, Outside, done, failed, Call, makes_dirs, stats, reads, opens, writes, gets, posts, Io,
  HandlerError, guard, ◌>>=◌, ◌>>◌, is_blank, output_dir, write_output, Sample, http_fetch,
  file_write, file_read, ollama_chat,
}
use ermine_tq.Samples.Files
use ermine_tq.Samples.Web

-- The path of something below examples/output, or of examples/output itself.
abbrev pub IsInside : Bytes → Type 0
IsInside path =
    (parts : List Bytes) × (path ≡ join_parts (codes "examples" ∷ codes "output" ∷ parts))
    × All IsElement parts

abbrev pub IsDirInside : Bytes → Type 0
IsDirInside path = (path ≡ codes "examples") ⊎ IsInside path

-- A file that a call creates or changes lies there, and a directory that it makes, or is the directory
-- of examples/output. What a call reads is not confined.
abbrev pub IsConfined : Call → Type 0
IsConfined (opens path append) = IsInside path
IsConfined (writes path content) = IsInside path
IsConfined (makes_dirs path) = IsDirInside path
IsConfined (stats path) = Unit
IsConfined (reads path) = Unit
IsConfined (gets url timeout) = Unit
IsConfined (posts url request) = Unit

join_output :
    (c : ℕ) (cs : Bytes)
    → join output_dir (c ∷ cs)
      ≡ or_here (
          join_parts
            (clean_parts false (codes "examples" ∷ codes "output" ∷ []) (split slash (c ∷ cs))))
unfolding join clean clean_parts clean_part is_abs split same
join_output c cs = refl

or_here-parts :
    (parts : List Bytes)
    → or_here (join_parts (codes "examples" ∷ codes "output" ∷ parts))
      ≡ join_parts (codes "examples" ∷ codes "output" ∷ parts)
unfolding join_parts
or_here-parts parts = refl

join-IsInside :
    (name : Bytes)
    → is_blank name ≡ false
    → contains_pair dot dot name ≡ false
    → IsInside (join output_dir name)
join-IsInside [] b h = cc
join-IsInside (c ∷ cs) b h = (
  kept (split slash (c ∷ cs)),
  join_output c cs
      ∙ ap (λ ps. or_here (join_parts ps)) (clean_parts-split false _ (c ∷ cs) h)
      ∙ or_here-parts (kept (split slash (c ∷ cs))),
  kept-split-IsElement (c ∷ cs) h,
)

-- A path below examples/output has it before the last of the names.
dir_of-output :
    (u : Bytes)
    → clean (codes "examples" ++ slash ∷ codes "output" ++ slash ∷ u)
      ≡ or_here
          (join_parts (clean_parts false (codes "examples" ∷ codes "output" ∷ []) (split slash u)))
unfolding clean clean_parts clean_part is_abs split same
dir_of-output u = refl

-- The directory of a path with names below examples/output.
dir_of-below :
    (rest : Bytes)
    → dir_of (codes "examples" ++ slash ∷ codes "output" ++ slash ∷ rest)
      ≡ clean (codes "examples" ++ slash ∷ codes "output" ++ slash ∷ up_to_last rest)
unfolding dir_of
dir_of-below rest = ap clean (up_to_last-append (codes "examples" ++ slash ∷ codes "output") rest)

below-IsInside :
    (u : Bytes)
    → All IsPlain (split slash u)
    → IsInside (clean (codes "examples" ++ slash ∷ codes "output" ++ slash ∷ u))
below-IsInside u h = (
  kept (split slash u),
  dir_of-output u
      ∙ ap (λ ps. or_here (join_parts ps)) (clean_parts-append false (split slash u) _ h)
      ∙ or_here-parts (kept (split slash u)),
  kept-IsElement (split slash u) h (split-HasNoSlash u),
)

-- The directory of a path inside is inside too, or is examples.
dir_of-IsDirInside :
    (parts : List Bytes)
    → All IsElement parts
    → IsDirInside (dir_of (join_parts (codes "examples" ∷ codes "output" ∷ parts)))
unfolding dir_of join_parts up_to_last same clean clean_parts clean_part is_abs split
dir_of-IsDirInside [] h = inl refl
dir_of-IsDirInside (p ∷ ps) h = inr (
    subst IsInside (sym (dir_of-below (join_parts (p ∷ ps))))
      (below-IsInside (up_to_last (join_parts (p ∷ ps))) (split-up_to_last-IsPlain (p ∷ ps) h)))

inside-IsDirInside : (path : Bytes) → IsInside path → IsDirInside (dir_of path)
inside-IsDirInside path (parts, e, h) =
    subst (λ p. IsDirInside (dir_of p)) (sym e) (dir_of-IsDirInside parts h)

output_dir-IsInside : IsInside output_dir
unfolding join_parts output_dir same
output_dir-IsInside = ([], refl, tt)

-- The calls of a handler, followed through its steps.
abbrev IsSafe {ℓ} : {A : Type ℓ} → Io A → Type 0
IsSafe m = All IsConfined m.1

bind-IsSafe {ℓ κ} :
    {A : Type ℓ} {B : Type κ} (m : Io A) (k : A → Io B)
    → IsSafe m
    → ((a : A) → IsSafe (k a))
    → IsSafe (m >>= k)
unfolding ◌>>=◌
bind-IsSafe (done a, cs) k h next = All-append IsConfined cs (k a).1 h (next a)
bind-IsSafe (failed e, cs) k h next = h

then-IsSafe {ℓ κ} :
    {A : Type ℓ} {B : Type κ} (m : Io A) (k : Io B) → IsSafe m → IsSafe k → IsSafe (m >> k)
unfolding ◌>>◌
then-IsSafe m k h next = bind-IsSafe m _ h (λ a. next)

guard-IsSafe {κ} :
    {B : Type κ} (e : HandlerError) (refused : Bool) (k : Io B)
    → (refused ≡ false → IsSafe k)
    → IsSafe (guard e refused >> k)
unfolding ◌>>◌ ◌>>=◌
guard-IsSafe e true k h = tt
guard-IsSafe e false k h = h refl

module _ (o : Outside) where
  write_output-IsSafe :
      (name content : Bytes)
      → is_blank name ≡ false
      → contains_pair dot dot name ≡ false
      → IsSafe (write_output o name content)
  unfolding write_output
  write_output-IsSafe name content b h =
      then-IsSafe _ _ (inr output_dir-IsInside, tt)
        (then-IsSafe _ _ (join-IsInside name b h, tt) tt)

  file_write-IsSafe : (payload : Bytes) → IsSafe (Files.file_write o payload)
  unfolding Files.file_write Files.escapes
  file_write-IsSafe payload = bind-IsSafe _ _ tt λ p. guard-IsSafe _ _ _ λ named.
      guard-IsSafe _ _ _ λ inside.
        let h = join-IsInside p.filename named (ground arith) in
        then-IsSafe _ _ (inside-IsDirInside _ h, tt)
          (then-IsSafe _ _ (h, tt) (bind-IsSafe _ _ (h, tt) λ n. tt))

  file_read-IsSafe : (payload : Bytes) → IsSafe (Files.file_read o payload)
  unfolding Files.file_read Files.read_name contains_pair
  file_read-IsSafe payload = bind-IsSafe _ _ tt λ p. guard-IsSafe _ _ _ λ named.
      bind-IsSafe _ _ (tt, tt)
        λ size.
          bind-IsSafe _ _ (tt, tt)
            λ all.
              bind-IsSafe _ _
                (write_output-IsSafe _ _ refl
                  (contains_pair-append (decimal o.unix_nano) _ (decimal-IsDigits o.unix_nano)))
                λ path. tt

  http_fetch-IsSafe : (payload : Bytes) → IsSafe (Web.http_fetch o payload)
  unfolding Web.http_fetch Web.fetch_name contains_pair
  http_fetch-IsSafe payload = bind-IsSafe _ _ tt λ p. guard-IsSafe _ _ _ λ named.
      guard-IsSafe _ _ _ λ built.
        bind-IsSafe _ _ (tt, tt)
          λ resp. bind-IsSafe _ _ tt λ body.
            bind-IsSafe _ _
              (write_output-IsSafe _ _ refl
                (contains_pair-append (decimal o.unix_nano) _ (decimal-IsDigits o.unix_nano)))
              λ path. tt

  ollama_chat-IsSafe : (payload : Bytes) → IsSafe (Web.ollama_chat o payload)
  unfolding Web.ollama_chat Web.chat_name contains_pair
  ollama_chat-IsSafe payload = bind-IsSafe _ _ tt λ p. guard-IsSafe _ _ _ λ prompted.
      guard-IsSafe _ _ _ λ built.
        bind-IsSafe _ _ (tt, tt)
          λ resp. guard-IsSafe _ _ _ λ good. bind-IsSafe _ _ tt λ reply.
            bind-IsSafe _ _
              (write_output-IsSafe _ _ refl
                (contains_pair-append (decimal o.unix_nano) _ (decimal-IsDigits o.unix_nano)))
              λ path. tt

  -- The calls that a sample handler makes.
  abbrev pub calls_of : Sample → Bytes → List Call
  calls_of http_fetch payload = (Web.http_fetch o payload).1
  calls_of file_write payload = (Files.file_write o payload).1
  calls_of file_read payload = (Files.file_read o payload).1
  calls_of ollama_chat payload = (Web.ollama_chat o payload).1

  -- Whatever its payload and whatever the file system and the network answer, a sample handler
  -- opens for writing and writes files at no other path than examples/output itself or
  -- examples/output followed by names that are not empty, not "." or "..", and without a slash,
  -- and it makes no other directories than examples and such paths. What it reads is any path.
  pub calls_of-IsConfined : (s : Sample) (payload : Bytes) → All IsConfined (calls_of s payload)
  calls_of-IsConfined http_fetch payload = http_fetch-IsSafe payload
  calls_of-IsConfined file_write payload = file_write-IsSafe payload
  calls_of-IsConfined file_read payload = file_read-IsSafe payload
  calls_of-IsConfined ollama_chat payload = ollama_chat-IsSafe payload
