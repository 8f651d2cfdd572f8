-- ===== src/Samples/Web.antt =====
-- examples/go/handlers: HTTPFetch of http_fetch.go and OllamaChat of ollama.go.
use ermine_tq.Prelude.{
  ℕ, ◌*◌, false, not, ◌&&◌, Option, none, some, [], ◌∷◌, ◌++◌, ℤ, pos, leb_ℤ, ltb, ◌==◌, length,
  if◌then◌else◌,
}
use ermine_tq.Store.Tasks.{take}
use ermine_tq.Text.Numbers.{codes}
use ermine_tq.Text.Decimals.{decimal}
use ermine_tq.Samples.{
  Bytes, Outside, HttpFetchResult, OllamaChatRequest, OllamaChatResult, Response, Io, ◌>>=◌, ◌>>◌,
  return, ask, guard, decoded, or_failed, is_blank, write_output, gets, posts, missing_field,
  build_failed, request_failed, body_failed, decode_failed, bad_status,
}

-- The first bytes of a text, with the three bytes of "…" behind them if there are more.
unfoldable pub preview_of : ℕ → Bytes → Bytes
preview_of n text = if ltb n (length text) then take n text ++ 0xE2 ∷ 0x80 ∷ 0xA6 ∷ [] else text

-- io.ReadAll of an io.LimitReader: what lies beyond the limit is not read.
unfoldable pub read_limited : ℕ → Response → Option Bytes
read_limited n resp =
    if resp.breaks_off && ltb (length resp.body) n then none else some (take n resp.body)

abbrev pub timeout_of : ℤ → ℤ
timeout_of n = if leb_ℤ n (pos 0) then pos 10 else n

unfoldable pub fetch_name : ℕ → Bytes
fetch_name nano = codes "go_http_fetch_" ++ (decimal nano ++ codes ".json")

unfoldable pub chat_name : ℕ → Bytes
chat_name nano = codes "go_ollama_" ++ (decimal nano ++ codes ".txt")

abbrev pub base_url : Bytes
base_url = codes "http://localhost:11434"

abbrev pub model_of : Bytes → Bytes
model_of model = if is_blank model then codes "qwen2.5:3b-instruct" else model

abbrev pub chat_request : Bytes → Bytes → OllamaChatRequest
chat_request model prompt = record {
  model = model;
  messages = record { role = codes "user"; content = prompt } ∷ [];
  stream = false;
}

unfoldable pub chat_log : Bytes → Bytes → ℕ → Bytes → Bytes
chat_log model prompt elapsed response =
    codes "=== go_ollama_chat ===\nmodel:      "
    ++ (model
        ++ (codes "\nprompt:     "
            ++ (prompt
                ++ (codes "\nelapsed_ms: "
                    ++ (decimal elapsed
                        ++ (codes "\n\n--- response ---\n" ++ (response ++ codes "\n")))))))

module _ (o : Outside) where
  unfoldable pub http_fetch : Bytes → Io HttpFetchResult
  http_fetch payload = do
    p ← decoded (o.decode_fetch payload)
    guard missing_field (is_blank p.url)
    let timeout = timeout_of p.timeout_secs
    guard build_failed (not (o.builds p.url))
    resp ← ask (gets p.url timeout) request_failed (o.get p.url timeout)
    body ← (or_failed body_failed (read_limited (64 * 1024) resp), [])
    let result : HttpFetchResult = record {
      url = p.url;
      status_code = resp.status_code;
      content_type = resp.content_type;
      body_bytes = length body;
      body_preview = preview_of 500 body;
      elapsed_ms = o.elapsed_ms;
      output_file = [];
    }
    path ← write_output o (fetch_name o.unix_nano) (o.encode_fetched result)
    return record result { output_file = path }

  unfoldable pub ollama_chat : Bytes → Io OllamaChatResult
  ollama_chat payload = do
    p ← decoded (o.decode_chat payload)
    guard missing_field (is_blank p.prompt)
    let model = model_of p.model
    let url = base_url ++ codes "/api/chat"
    let request = chat_request model p.prompt
    guard build_failed (not (o.builds url))
    resp ← ask (posts url request) request_failed (o.post url request)
    guard (bad_status resp.status_code) (not (resp.status_code == 200))
    reply ← (or_failed decode_failed (o.decode_reply resp.body), [])
    let response = reply.message.content
    path ← write_output o (chat_name o.unix_nano) (chat_log model p.prompt o.elapsed_ms response)
    return record {
      model = reply.model;
      prompt = p.prompt;
      response = response;
      response_preview = preview_of 200 response;
      elapsed_ms = o.elapsed_ms;
      output_file = path;
    }
