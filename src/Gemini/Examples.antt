-- ===== src/Gemini/Examples.antt =====
-- The theorems of the Gemini client at concrete inputs: servers, a clock and a client.
use ovayra.Prelude.{
  ℕ, zero, suc, ◌+◌, ◌≡◌, refl, sym, subst, inl, inr, true, Option, none, some, [], ◌∷◌, ◌++◌,
  arith, ◌==◌, if◌then◌else◌, ==_iff, Bool-cases, ok, length, parse_u64, trim, Text, bytes,
  is_empty,
}
use ovayra.Gemini.World.{
  World, History, sent, waited, Request, Response, upload, query, UploadSession, GeminiClient,
  PollPolicy, send, generate, RemoteFile, active, GenerationResult,
}
use ovayra.Gemini.Retry.{is_success, retry, transient}
use ovayra.Gemini.Retry.Bounds.{IsRun, retry-Run}
use ovayra.Gemini.Upload.{received_size, upload_chunk, query_offset}
use ovayra.Gemini.Upload.Offsets.{KeepsProtocol, upload_chunk-stores}
use ovayra.Platform.Envelope.{EncryptedRecord, seal, has_key_length}
use ovayra.Platform.Examples.{tagging, tagging-IsAuthenticated, cipher, twelve}
use ovayra.Gemini.Checkpoint.{CheckpointPayload, CheckpointJson, checkpoint, resume_checkpoint}
use ovayra.Gemini.Checkpoint.RoundTrip.{IsJson, resume_checkpoint-checkpoint}
use ovayra.Gemini.Generate.{generate_content, generate_content_sound, Analysed, analysis_nonempty}
use ovayra.Gemini.Poll.{poll_until_ready}
use ovayra.Gemini.Poll.Returns.{KeepsTime, Ends, poll_until_ready-Ends}

abbrev base : Text
base = bytes "https://upload"

abbrev secret : Text
secret = bytes "key"

abbrev client : GeminiClient
client = record {
  api_key = secret;
  api_base = bytes "https://api";
  upload_base = base;
  retry_policy = record { max_attempts = 3; max_delay = 1000000000 };
}

abbrev session : UploadSession
session = record { url = base; chunk_granularity = some 2 }

abbrev no_header : Text → Option Text
no_header _ = none

abbrev reply : ℕ → (Text → Option Text) → Response
reply status header = record { status = status; header = header; body = none }

-- The bytes that a server has which keeps what it is sent, whatever it answers.
unfoldable kept : History → ℕ
kept [] = 0
kept (sent (upload _ _ _ offset chunk) ∷ h) = offset + length chunk
kept (_ ∷ h) = kept h

-- A server that fails after keeping a chunk, and reports four bytes once it has them.
reports_four : ℕ → Option Response
reports_four n = if n == 4 then some (reply 200 (λ _. some (bytes "4"))) else none

unfoldable answers : History → Request → Option Response
unfolding reports_four kept
answers h (upload _ _ _ _ _) = some (reply 500 no_header)
answers h (query _ _) = reports_four (kept h)
answers h _ = none

unfoldable clock : History → ℕ
clock [] = 0
clock (sent r ∷ h) = clock h
clock (waited d ∷ h) = clock h + d

abbrev world : World
world = record {
  answer = answers;
  now = clock;
  parse_url = λ t. some t;
  join_url = λ s t. some (s ++ t);
  decode_file = λ _. none;
  decode_upload = λ _. none;
  decode_generate = λ _. none;
}

world-KeepsTime : KeepsTime world
unfolding clock
world-KeepsTime = record { sends = λ r h. omega arith; waits = λ d h. omega arith }

four_reported : received_size (reply 200 (λ _. some (bytes "4"))) ≡ ok 4
unfolding received_size parse_u64 bytes
four_reported = refl

reports_four_sound :
    (k n : ℕ) (response : Response)
    → reports_four k ≡ some response
    → received_size response ≡ ok n
    → k ≡ n
unfolding reports_four
reports_four_sound k n response h e = elim (Bool-cases (k == 4)) [
  | inl four ↦
      let same : some (reply 200 (λ _. some (bytes "4"))) ≡ some response = rw four at h in
      cc (same, four_reported, e, (==_iff k 4).0 four)
  | inr other ↦ let none_sent : ◌≡◌ {A = Option Response} none (some response) = rw other at h in cc
]

world-KeepsProtocol : KeepsProtocol world client session kept
unfolding answers
world-KeepsProtocol = record {
  accepts = λ h offset chunk response e won. refl;
  reports = λ h response n e won size. reports_four_sound (kept h) n response e size;
}

retry-Run_example :
    IsRun world client.retry_policy
      (query base secret)
      3
      []
      (retry world client.retry_policy (query base secret) []).0
      (retry world client.retry_policy (query base secret) []).1
retry-Run_example = retry-Run world client.retry_policy (query base secret) []

-- the server fails, but has the chunk
abbrev after_upload : History
after_upload =
    sent (query base secret) ∷ sent (upload base secret (bytes "upload") 0 (bytes "data")) ∷ []

upload_runs : upload_chunk world client session 0 (bytes "data") [] ≡ (ok tt, after_upload)
unfolding upload_chunk answers bytes is_success transient query_offset retry send parse_u64
upload_runs = refl

upload_chunk-stores_example : kept after_upload ≡ 0 + length (bytes "data")
upload_chunk-stores_example =
    upload_chunk-stores world client session kept world-KeepsProtocol 0 (bytes "data") []
      after_upload upload_runs

abbrev polling : PollPolicy
polling = record { interval = 2; timeout = 10 }

poll_until_ready-Ends_example :
    Ends world client world-KeepsTime
      (bytes "files/1")
      10
      (poll_until_ready world client 11 (bytes "files/1") polling [])
unfolding clock
poll_until_ready-Ends_example =
    poll_until_ready-Ends world client world-KeepsTime (bytes "files/1") 11 polling [] (omega arith)
      (omega arith)

-- the fields of a payload, one after the other
unfoldable of_payload : CheckpointPayload → Option Text
of_payload p =
    some (p.staged_offset ∷ (elim p.chunk_granularity [ none ↦ 0 | some g ↦ suc g ]) ∷ p.url)

unfoldable to_payload : Text → Option CheckpointPayload
to_payload (offset ∷ zero ∷ url) =
    some (record { url = url; chunk_granularity = none; staged_offset = offset })
to_payload (offset ∷ suc g ∷ url) =
    some (record { url = url; chunk_granularity = some g; staged_offset = offset })
to_payload _ = none

abbrev flat_json : CheckpointJson
flat_json = record { to_vec = of_payload; from_slice = to_payload }

flat_json-reads :
    (p : CheckpointPayload) (o : Option ℕ) (text : Text)
    → p.chunk_granularity ≡ o
    → of_payload p ≡ some text
    → to_payload text ≡ some p
unfolding of_payload to_payload
flat_json-reads p none text g e =
    let wrote : ◌≡◌ {A = Option Text} (some (p.staged_offset ∷ 0 ∷ p.url)) (some text) =
      rw g at e in
    let same : p.staged_offset ∷ 0 ∷ p.url ≡ text = cc in
    subst (λ t. to_payload t ≡ some p) same
      (λ i.
        some (record { url = p.url; chunk_granularity = sym g i; staged_offset = p.staged_offset }))
flat_json-reads p (some k) text g e =
    let wrote : ◌≡◌ {A = Option Text} (some (p.staged_offset ∷ suc k ∷ p.url)) (some text) =
      rw g at e in
    let same : p.staged_offset ∷ suc k ∷ p.url ≡ text = cc in
    subst (λ t. to_payload t ≡ some p) same
      (λ i.
        some (record { url = p.url; chunk_granularity = sym g i; staged_offset = p.staged_offset }))

flat_json-IsJson : IsJson flat_json
flat_json-IsJson = record { reads = λ p e. flat_json-reads p p.chunk_granularity _ refl e }

abbrev saved : EncryptedRecord
saved = record {
  version = 1;
  nonce = twelve;
  ciphertext = bytes "0123456789abcdef" ++ (8 ∷ 3 ∷ base);
}

saved_at_eight : checkpoint world flat_json tagging cipher twelve session 8 ≡ ok saved
unfolding checkpoint tagging seal of_payload has_key_length bytes
saved_at_eight = refl

resume_checkpoint-checkpoint_example :
    resume_checkpoint world flat_json tagging cipher saved
    ≡ ok (record { session = session; staged_offset = 8 })
unfolding bytes
resume_checkpoint-checkpoint_example =
    resume_checkpoint-checkpoint world flat_json flat_json-IsJson tagging tagging-IsAuthenticated
      cipher twelve session 8 saved refl refl saved_at_eight

-- A server that answers everything with a success, and one part of text.
abbrev speaking : World
speaking = record world {
  answer = λ h r. some (record { status = 200; header = no_header; body = some (bytes "{}") });
  decode_generate = λ _. some ((some (bytes "a test video") ∷ []) ∷ []);
}

abbrev remote : RemoteFile
remote = record {
  name = bytes "files/1";
  uri = bytes "https://files/1";
  mime_type = bytes "video/webm";
  state = active;
}

abbrev analysis : GenerationResult
analysis = record {
  analysis_nonempty = true;
  response_bytes = 2;
  status = 200;
  model = bytes "flash";
  latency = 0;
}

abbrev after_analysis : History
after_analysis =
    sent (
      generate (bytes "https://api/v1beta/models/flash:generateContent") secret
        (bytes "https://files/1") (bytes "video/webm"))
    ∷ []

analysis_runs :
    generate_content speaking client remote (bytes "flash") [] ≡ (ok analysis, after_analysis)
unfolding generate_content retry send is_success analysis_nonempty trim is_empty bytes clock
analysis_runs = refl

generate_content_sound_example :
    Analysed speaking client remote (bytes "flash") analysis after_analysis
generate_content_sound_example =
    generate_content_sound speaking client remote (bytes "flash") analysis [] after_analysis
      analysis_runs
