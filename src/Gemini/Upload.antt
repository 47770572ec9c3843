-- ===== src/Gemini/Upload.antt =====
-- crates/spike-gemini/src/client.rs: starting a resumable upload, its chunks, and its offset.
pub mod Offsets
use ovayra.Prelude.{
  ℕ, zero, suc, ◌+◌, ◌*◌, ◌%◌, ◌^◌, Bool, false, not, ◌&&◌, Option, none, some, ltb, leb, ◌==◌,
  if◌then◌else◌, Result, ok, err, ok_or, length, parse_u64, Text, bytes, text_eq,
}
use ovayra.Gemini.World.{
  World, Client, Request, Response, start, upload, query, FileState, unspecified, processing,
  active, failed, RemoteFile, FileDto, UploadSession, GeminiClient, GeminiError, invalid_endpoint,
  protocol, chunk_misaligned, http_status, transport, decode, ◌>>=◌, ◌>>◌, pure, raise, lift,
  try_send, sleep,
}
use ovayra.Gemini.Retry.{is_success, is_server_error, transient, retry_delay, retry}

-- `remote_file`
remote_state : Option Text → FileState
remote_state none = unspecified
remote_state (some s) =
    if text_eq s (bytes "PROCESSING")
    then processing
    else if text_eq s (bytes "ACTIVE")
    then active
    else if text_eq s (bytes "FAILED")
    then failed
    else unspecified

unfoldable pub remote_file : FileDto → RemoteFile
unfolding remote_state
remote_file file = record {
  name = file.name;
  uri = file.uri;
  mime_type = file.mime_type;
  state = remote_state file.state;
}

-- `FALLBACK_CHUNK_BYTES`
abbrev pub fallback_chunk_bytes : ℕ
fallback_chunk_bytes = 8 * 1024 * 1024

unfoldable pub chunk_size : UploadSession → ℕ
chunk_size session = elim session.chunk_granularity [ none ↦ fallback_chunk_bytes | some g ↦ g ]

-- `.map(str::parse).transpose()`
parse_granularity : Option Text → Result GeminiError (Option ℕ)
parse_granularity none = ok none
parse_granularity (some value) = elim (parse_u64 value) [
  | none ↦ err protocol
  | some n ↦ ok (some n)
]

abbrev is_zero : Option ℕ → Bool
is_zero none = false
is_zero (some n) = n == 0

-- `response.json().await.map_err(|_| GeminiError::Decode)?`
unfoldable pub decode_body {ℓ} :
    {A : Type ℓ} → (Text → Option A) → Option Text → Result GeminiError A
decode_body f none = err decode
decode_body f (some body) = ok_or decode (f body)

-- the header of `query_offset`
unfoldable pub received_size : Response → Result GeminiError ℕ
received_size response = elim (response.header (bytes "x-goog-upload-size-received")) [
  | none ↦ err protocol
  | some value ↦ ok_or protocol (parse_u64 value)
]

-- `length.is_multiple_of(granularity)`: only 0 is a multiple of 0
unfoldable pub is_multiple_of : ℕ → ℕ → Bool
is_multiple_of n g = if g == 0 then n == 0 else (n % g) == 0

misaligned : Option ℕ → ℕ → Bool
unfolding is_multiple_of
misaligned none n = false
misaligned (some g) n = not (is_multiple_of n g)

module _ (w : World) (c : GeminiClient) where
  unfoldable pub start_upload : Text → Text → ℕ → Client UploadSession
  unfolding parse_granularity
  start_upload display_name mime_type content_length = do
    url ← lift (ok_or invalid_endpoint (w.join_url c.upload_base (bytes "/upload/v1beta/files")))
    response ← retry w c.retry_policy (start url c.api_key display_name mime_type content_length)
    upload_url ← lift (ok_or protocol (response.header (bytes "x-goog-upload-url")))
    session_url ← lift (ok_or protocol (w.parse_url upload_url))
    granularity ←
        lift (parse_granularity (response.header (bytes "x-goog-upload-chunk-granularity")))
    if is_zero granularity
        then raise protocol
        else pure (record { url = session_url; chunk_granularity = granularity })

  unfoldable pub query_offset : UploadSession → Client ℕ
  unfolding received_size
  query_offset session = do
    response ← retry w c.retry_policy (query session.url c.api_key)
    lift (received_size response)

  abbrev pub chunk_request : UploadSession → ℕ → Text → Request
  chunk_request session offset chunk = upload session.url c.api_key (bytes "upload") offset chunk

  -- The server is asked what it has: all of the chunk, none of it (`resume` goes on), or else.
  after_query : UploadSession → ℕ → ℕ → Client (Unit {0}) → Client (Unit {0})
  after_query session offset expected resume = do
    observed ← query_offset session
    if observed == expected
        then pure tt
        else if not (observed == offset)
        then raise protocol
        else resume

  -- One round of `upload_chunk`, by the outcome of `upload_once`; `rest` is the rounds that follow.
  upload_round : UploadSession → ℕ → ℕ → ℕ → Client (Unit {0}) → Option Response → Client (Unit {0})
  unfolding after_query
  upload_round session offset expected attempt rest none = after_query session offset expected rest
  upload_round session offset expected attempt rest (some response) =
      let again : Client (Unit {0}) =
        sleep (retry_delay response attempt c.retry_policy.max_delay) >> rest in
      if is_success response.status
      then pure tt
      else if transient response.status && ltb (attempt + 1) c.retry_policy.max_attempts
      then (if is_server_error response.status
          then after_query session offset expected again
          else again)
      else raise (http_status response.status)

  -- the `for attempt in 0..max_attempts` of `upload_chunk`; the first number is the rounds left
  upload_from : UploadSession → ℕ → ℕ → Text → ℕ → ℕ → Client (Unit {0})
  unfolding upload_round
  upload_from session offset expected chunk zero attempt = raise transport
  upload_from session offset expected chunk (suc left) attempt = do
    outcome ← try_send w (chunk_request session offset chunk)
    upload_round session offset expected attempt
        (upload_from session offset expected chunk left (attempt + 1)) outcome

  -- A length fits in 64 bits, so the conversions of `chunk.len()` cannot fail.
  unfoldable pub upload_chunk : UploadSession → ℕ → Text → Client (Unit {0})
  unfolding misaligned upload_from
  upload_chunk session offset chunk =
      if misaligned session.chunk_granularity (length chunk)
      then raise chunk_misaligned
      else if leb (2 ^ 64) (offset + length chunk)
      then raise protocol
      else upload_from session offset (offset + length chunk) chunk c.retry_policy.max_attempts 0

  unfoldable pub finalize_chunk : UploadSession → ℕ → Text → Client RemoteFile
  unfolding decode_body remote_file
  finalize_chunk session offset chunk = do
    response ←
        retry w c.retry_policy
          (upload session.url c.api_key (bytes "upload, finalize") offset chunk)
    dto ← lift (decode_body w.decode_upload response.body)
    pure (remote_file dto)
