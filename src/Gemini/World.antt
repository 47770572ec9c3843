-- ===== src/Gemini/World.antt =====
-- What the Gemini client (crates/spike-gemini/src) talks to, and the shape of its methods.
--
-- The network, the clock and the JSON and URL libraries are not part of the repository: they are
-- the fields of `World`. A server may answer by everything that has happened so far, so its state
-- is the history of the requests sent and of the waits, the latest first.
use ovayra.Prelude.{ℕ, Bool, Option, List, ◌∷◌, Result, ok, err, ok_or, Text}

-- `FileState` and `RemoteFile` of lib.rs
pub data FileState : Type 0 where
  unspecified processing active failed : FileState

pub record RemoteFile : Type 0 where
  pub name : Text
  pub uri : Text
  pub mime_type : Text
  pub state : FileState

-- `FileDto` of dto.rs
pub record FileDto : Type 0 where
  pub name : Text
  pub uri : Text
  pub mime_type : Text
  pub state : Option Text

-- `GenerateResponse` of dto.rs: for each candidate, the text of each part.
abbrev pub GenerateResponse : Type 0
GenerateResponse = List (List (Option Text))

-- `UploadSession` of session.rs; a parsed URL is its serialization.
pub record UploadSession : Type 0 where
  pub url : Text
  pub chunk_granularity : Option ℕ

pub data GeminiError : Type 0 where
  invalid_endpoint protocol chunk_misaligned : GeminiError
  http_status : ℕ → GeminiError
  transport decode response_too_large poll_timeout remote_failed empty_analysis invalid_checkpoint
        checkpoint :
      GeminiError

-- Durations are in nanoseconds.
pub record RetryPolicy : Type 0 where
  pub max_attempts : ℕ
  pub max_delay : ℕ

pub record PollPolicy : Type 0 where
  pub interval : ℕ
  pub timeout : ℕ

-- `GenerationResult`
pub record GenerationResult : Type 0 where
  pub analysis_nonempty : Bool
  pub response_bytes : ℕ
  pub status : ℕ
  pub model : Text
  pub latency : ℕ

-- `GeminiClient`, less the HTTP library's own handle
pub record GeminiClient : Type 0 where
  pub api_key : Text
  pub api_base : Text
  pub upload_base : Text
  pub retry_policy : RetryPolicy

-- The requests that the client builds, each with the API key that it carries.
pub data Request : Type 0 where
  start : (url key display_name mime_type : Text) → (content_length : ℕ) → Request
  upload : (url key command : Text) → (offset : ℕ) → (chunk : Text) → Request
  query : (url key : Text) → Request
  get_file_request : (url key : Text) → Request
  generate : (url key file_uri mime_type : Text) → Request
  delete : (url key : Text) → Request

-- A header is a text where it is there and printable. The body is absent when reading it fails.
pub record Response : Type 0 where
  pub status : ℕ
  pub header : Text → Option Text
  pub body : Option Text

pub data Event : Type 0 where
  sent : Request → Event
  waited : ℕ → Event

abbrev pub History : Type 0
History = List Event

-- `answer` is `none` where the transport fails.
pub record World : Type 0 where
  pub answer : History → Request → Option Response
  pub now : History → ℕ
  pub parse_url : Text → Option Text
  pub join_url : Text → Text → Option Text
  pub decode_file : Text → Option FileDto
  pub decode_upload : Text → Option FileDto
  pub decode_generate : Text → Option GenerateResponse

-- A method of the client, with the history that it leaves.
abbrev pub Client : Type 0 → Type 0
Client A = History → Result GeminiError A × History

abbrev pub continue : {A B : Type 0} → Result GeminiError A → (A → Client B) → Client B
continue (ok a) f h = f a h
continue (err e) f h = (err e, h)

infixl 5 ◌>>=◌ ◌>>◌
abbrev pub ◌>>=◌ : {A B : Type 0} → Client A → (A → Client B) → Client B
◌>>=◌ m f h = let (r, h') = m h in continue r f h'

abbrev pub ◌>>◌ : {A B : Type 0} → Client A → Client B → Client B
m >> k = m >>= λ _. k

abbrev pub pure : {A : Type 0} → A → Client A
pure a h = (ok a, h)

abbrev pub raise : {A : Type 0} → GeminiError → Client A
raise e h = (err e, h)

abbrev pub lift : {A : Type 0} → Result GeminiError A → Client A
lift r h = (r, h)

-- one request, with its outcome as a value
abbrev pub try_send : World → Request → Client (Option Response)
try_send w r h = (ok (w.answer h r), sent r ∷ h)

-- `.send().await.map_err(|_| GeminiError::Transport)?`
unfoldable pub send : World → Request → Client Response
send w r h = (ok_or transport (w.answer h r), sent r ∷ h)

-- `tokio::time::sleep`
abbrev pub sleep : ℕ → Client (Unit {0})
sleep d h = (ok tt, waited d ∷ h)
