-- ===== src/Samples.antt =====
-- examples/go/handlers: what the sample handlers share (doc.go, and the helpers of http_fetch.go).
-- A Go string or byte slice is the list of its bytes.
pub mod Files
pub mod Web
pub mod Confined
use ermine_tq.Prelude.{
  ℕ, String, Bool, true, false, Option, none, some, List, [], ◌∷◌, ◌++◌, map, ℤ, if◌then◌else◌,
}
use ermine_tq.Text.Numbers.{codes}
use ermine_tq.Text.Paths.{join}

abbrev pub Bytes : Type 0
Bytes = List ℕ

pub record FileWritePayload : Type 0 where
  pub filename : Bytes
  pub content : Bytes
  pub append : Bool

pub record FileReadPayload : Type 0 where
  pub path : Bytes
  pub max_bytes : ℤ

pub record HttpFetchPayload : Type 0 where
  pub url : Bytes
  pub timeout_secs : ℤ

pub record OllamaChatPayload : Type 0 where
  pub model : Bytes
  pub prompt : Bytes

pub record OllamaChatMessage : Type 0 where
  pub role : Bytes
  pub content : Bytes

pub record OllamaChatRequest : Type 0 where
  pub model : Bytes
  pub messages : List OllamaChatMessage
  pub stream : Bool

pub record OllamaChatApiResponse : Type 0 where
  pub model : Bytes
  pub message : OllamaChatMessage
  pub done : Bool

-- A body breaks off with an error after its bytes, or ends there.
pub record Response : Type 0 where
  pub status_code : ℕ
  pub content_type : Bytes
  pub body : Bytes
  pub breaks_off : Bool

-- The results, each of which is returned as JSON.
pub record FileWriteResult : Type 0 where
  pub path : Bytes
  pub bytes_written : ℕ
  pub mode : Bytes

pub record FileReadResult : Type 0 where
  pub path : Bytes
  pub size_bytes : ℕ
  pub content : Bytes
  pub truncated : Bool
  pub output_file : Bytes

pub record HttpFetchResult : Type 0 where
  pub url : Bytes
  pub status_code : ℕ
  pub content_type : Bytes
  pub body_bytes : ℕ
  pub body_preview : Bytes
  pub elapsed_ms : ℕ
  pub output_file : Bytes

pub record OllamaChatResult : Type 0 where
  pub model : Bytes
  pub prompt : Bytes
  pub response : Bytes
  pub response_preview : Bytes
  pub elapsed_ms : ℕ
  pub output_file : Bytes

-- What the packages encoding/json, os, net/http and time answer.
pub record Outside : Type 0 where
  pub decode_write : Bytes → Option FileWritePayload
  pub decode_read : Bytes → Option FileReadPayload
  pub decode_fetch : Bytes → Option HttpFetchPayload
  pub decode_chat : Bytes → Option OllamaChatPayload
  pub decode_reply : Bytes → Option OllamaChatApiResponse
  pub encode_fetched : HttpFetchResult → Bytes  -- json.MarshalIndent
  pub makes_dirs : Bytes → Bool  -- os.MkdirAll
  pub opens : Bytes → Bool  -- os.OpenFile
  pub writes : Bytes → Bytes → Option ℕ  -- File.WriteString
  pub writes_file : Bytes → Bytes → Bool  -- os.WriteFile
  pub stat_size : Bytes → Option ℕ  -- os.Stat
  pub reads_file : Bytes → Option Bytes  -- os.ReadFile
  pub builds : Bytes → Bool  -- http.NewRequestWithContext with the URL
  pub get : Bytes → ℤ → Option Response  -- client.Do with a timeout in seconds
  pub post : Bytes → OllamaChatRequest → Option Response
  pub elapsed_ms : ℕ
  pub unix_nano : ℕ
  pub now_text : Bytes

pub data HandlerError : Type 0 where
  bad_payload missing_field not_relative mkdir_failed open_failed write_failed : HandlerError
  stat_failed read_failed build_failed request_failed body_failed decode_failed : HandlerError
  bad_status : ℕ → HandlerError

pub data Answer {ℓ} (A : Type ℓ) : Type ℓ where
  done : A → Answer A
  failed : HandlerError → Answer A

-- The calls of the file system and the network, in their order.
pub data Call : Type 0 where
  makes_dirs stats reads : Bytes → Call
  opens : Bytes → Bool → Call
  writes : Bytes → Bytes → Call
  gets : Bytes → ℤ → Call
  posts : Bytes → OllamaChatRequest → Call

abbrev pub Io {ℓ} : Type ℓ → Type ℓ
Io A = Answer A × List Call

unfoldable pub ◌>>=◌ {ℓ κ} : {A : Type ℓ} {B : Type κ} → Io A → (A → Io B) → Io B
◌>>=◌ (done a, cs) k = let (r, ds) = k a in (r, cs ++ ds)
◌>>=◌ (failed e, cs) k = (failed e, cs)

infixl 5 ◌>>=◌ ◌>>◌
unfoldable pub ◌>>◌ {ℓ κ} : {A : Type ℓ} {B : Type κ} → Io A → Io B → Io B
unfolding ◌>>=◌
m >> k = m >>= λ _. k

abbrev pub return {ℓ} : {A : Type ℓ} → A → Io A
return a = (done a, [])

abbrev pub or_failed {ℓ} : {A : Type ℓ} → HandlerError → Option A → Answer A
or_failed e none = failed e
or_failed e (some a) = done a

-- A call and its answer, with the error that the handler makes of a failure.
abbrev pub ask {ℓ} : {A : Type ℓ} → Call → HandlerError → Option A → Io A
ask c e answer = (or_failed e answer, c ∷ [])

abbrev pub try : Call → HandlerError → Bool → Io (Unit {0})
try c e ok = (if ok then done tt else failed e, c ∷ [])

abbrev pub guard : HandlerError → Bool → Io (Unit {0})
guard e refused = (if refused then failed e else done tt, [])

abbrev pub decoded {ℓ} : {A : Type ℓ} → Option A → Io A
decoded p = (or_failed bad_payload p, [])

-- `== ""`
abbrev pub is_blank : Bytes → Bool
is_blank [] = true
is_blank (c ∷ cs) = false

abbrev pub output_dir : Bytes
unfolding join
output_dir = join (codes "examples") (codes "output")

module _ (o : Outside) where
  -- writeOutputText, and writeOutputJSON of encoded data.
  unfoldable pub write_output : Bytes → Bytes → Io Bytes
  write_output name content = do
    try (makes_dirs output_dir) mkdir_failed (o.makes_dirs output_dir)
    let path = join output_dir name
    try (writes path content) write_failed (o.writes_file path content)
    return path

-- doc.go: RegisterDefaults, for any Registrar.
pub data Sample : Type 0 where
  http_fetch file_write file_read ollama_chat : Sample

unfoldable pub register_defaults {ℓ} : {R : Type ℓ} → (String → Sample → R → R) → R → R
register_defaults register r = register "go_ollama_chat" ollama_chat (
    register "go_file_read" file_read
      (register "go_file_write" file_write (register "go_http_fetch" http_fetch r)))
