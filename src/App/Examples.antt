-- ===== src/App/Examples.antt =====
-- The theorems of the command's parts at concrete inputs: a note and its URL, a directory of two
-- files, a checkpoint that cannot be read, and an upload in three chunks.
use ovayra.Prelude.{
  ℕ, ◌≤◌, ◌≡◌, refl, true, false, Option, none, some, List, [], ◌∷◌, ◌++◌, arith, ok, length, All,
  is_utf8, Text, bytes, is_empty,
}
use ovayra.Contracts.Ids.{TargetId}
use ovayra.Contracts.Row.{PhaseZeroMatrix}
use ovayra.Contracts.Row.Canonical.{canonical_rows}
use ovayra.Platform.Examples.{twelve}
use ovayra.Platform.Envelope.{EncryptedRecord}
use ovayra.Gemini.World.{World, History, FileDto, UploadSession, GeminiClient, PollPolicy}
use ovayra.Gemini.Checkpoint.{CheckpointJson}
use ovayra.App.Persist.{persisted}
use ovayra.App.Scan.{scan_text}
use ovayra.App.Scan.Urls.{IsClean, scan_text-IsClean}
use ovayra.App.Lint.{
  LintLibraries, FoundFile, Node, folder, plain, entry, no_more, lint_verified, collect_folder,
  collect_nodes, lint_files, VerifiedEvidence, max_total_bytes, max_files,
}
use ovayra.App.Lint.Bounds.{IsVerified, total_size, lint_verified_sound}
use ovayra.App.Gate.{GateLibraries, run_gate}
use ovayra.App.Gate.Accepts.{IsDecided, run_gate-IsDecided}
use ovayra.App.Outcome.{Disk, Local}
use ovayra.App.Resume.{continue_and_finalize}
use ovayra.App.Resume.Chunks.{Ends, continue_and_finalize-Ends}

abbrev note : Text
note = bytes "see https://ovayra.com/docs"

note_passes : scan_text note ≡ ok tt
unfolding scan_text bytes is_empty
note_passes = refl

scan_text-IsClean_example : IsClean note
scan_text-IsClean_example = scan_text-IsClean note note_passes

abbrev libraries : LintLibraries
libraries = record {
  normalize = λ t. t;
  parse_tree = λ _. none;
  located = λ _. [];
  is_evidence = λ _. true;
  is_proof = λ _. false;
  sha256_hex = λ t. t;
}

abbrev file_of : Text → FoundFile
file_of content = record {
  is_regular = true;
  opens = true;
  unchanged_before = true;
  extension = some (bytes "md");
  content = some content;
  unchanged_after = true;
  len_after = length content;
}

abbrev tree : Node
tree = folder true true (
    entry (bytes "notes.md") (plain (file_of note)) (
      entry (bytes "sub") (folder true true (entry (bytes "empty.md") (plain (file_of [])) no_more))
        no_more))

abbrev found : List VerifiedEvidence
found = record { content = note; sha256 = note } ∷ []

tree_passes : lint_verified libraries true (some tree) ≡ ok found
unfolding lint_verified bytes collect_folder collect_nodes lint_files is_empty is_utf8
tree_passes = refl

lint_verified_sound_example :
    All (IsVerified libraries true) found
    × (total_size found ≤ max_total_bytes)
    × (length found ≤ max_files)
lint_verified_sound_example = lint_verified_sound libraries true (some tree) found tree_passes

abbrev gate_libraries : GateLibraries
gate_libraries = record {
  lint = libraries;
  parse_proof = λ _. none;
  error_text = λ _. bytes "missing";
  persists = λ _. persisted;
}

abbrev canonical_matrix : PhaseZeroMatrix
canonical_matrix = record { required = canonical_rows }

-- The gate over no evidence at all.
run_gate-IsDecided_example :
    IsDecided gate_libraries
      (some (folder true true no_more))
      (run_gate gate_libraries (some (folder true true no_more)) (some canonical_matrix))
run_gate-IsDecided_example =
    run_gate-IsDecided gate_libraries (some (folder true true no_more)) (some canonical_matrix)

abbrev clock : History → ℕ
clock _ = 0

abbrev header : Text → Option Text
header _ = some (bytes "2")

abbrev uploaded_file : FileDto
uploaded_file = record {
  name = bytes "files/1";
  uri = bytes "https://files/1";
  mime_type = bytes "video/webm";
  state = some (bytes "ACTIVE");
}

-- A server that answers every request with a success, and every query with two bytes.
abbrev world : World
world = record {
  answer = λ _ _. some (record { status = 200; header = header; body = some [] });
  now = clock;
  parse_url = λ t. some t;
  join_url = λ s t. some (s ++ t);
  decode_file = λ _. some uploaded_file;
  decode_upload = λ _. some uploaded_file;
  decode_generate = λ _. some ((some (bytes "a test video") ∷ []) ∷ []);
}

abbrev client : GeminiClient
client = record {
  api_key = bytes "key";
  api_base = bytes "https://api";
  upload_base = bytes "https://upload";
  retry_policy = record { max_attempts = 3; max_delay = 1000000000 };
}

abbrev session : UploadSession
session = record { url = bytes "https://upload"; chunk_granularity = some 2 }

continue_and_finalize-Ends_example :
    Ends (continue_and_finalize world client 6 session 0 (bytes "media") [])
unfolding bytes
continue_and_finalize-Ends_example =
    continue_and_finalize-Ends world client session 2 refl (omega arith) (bytes "media") 6 0 []
      (omega arith) (omega arith)

abbrev stored : EncryptedRecord
stored = record { version = 1; nonce = twelve; ciphertext = bytes "0123456789abcdef" }

-- Its checkpoints are at two bytes of the session.
abbrev json : CheckpointJson
json = record {
  to_vec = λ _. some [];
  from_slice =
      λ _. some (record { url = session.url; chunk_granularity = some 2; staged_offset = 2 });
}

abbrev local : Local
local = record {
  parse_record = λ _. some stored;
  sha256_hex = λ t. t;
  proof_json = λ _. some (bytes "proof");
  evidence_json = λ _. some (bytes "evidence");
  persists = λ _ _. persisted;
  removes = λ _. true;
  elapsed_ms = 5;
}

abbrev mac : TargetId
mac = record { as_str = bytes "macos-arm64-vt" }

abbrev disk : Disk
disk = record { checkpoint = some (bytes "record"); evidence = none }

abbrev polling : PollPolicy
polling = record { interval = 2; timeout = 10 }
