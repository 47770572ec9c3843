-- ===== src/App/Outcome.antt =====
-- apps/ovayra-spike/src/gemini_orchestration.rs: the outcome of a resumed upload, the evidence that
-- is written of it, and the cleanup of the two files. The state is the client's history and the
-- files on the disk.
pub mod Ends
use ovayra.Prelude.{
  ℕ, ◌-◌, ◌/◌, ◌^◌, min, Bool, true, false, not, Option, none, some, List, [], ◌∷◌, ◌++◌,
  if◌then◌else◌, Result, ok, err, Text, bytes,
}
use ovayra.Contracts.Ids.{gemini, Verdict, fail, TargetId}
use ovayra.Contracts.Proof.{PhaseZeroProof, gemini_resume, gemini_resume_payload}
use ovayra.Contracts.Validate.{validate}
use ovayra.Contracts.Evidence.{
  Value, null, boolean, number, natural, text, Evidence, EvidenceDocument, new_evidence, measure,
  finish, document,
}
use ovayra.Platform.Envelope.{EncryptedRecord}
use ovayra.Gemini.World.{History, GenerationResult}
use ovayra.App.Persist.{Persisted, not_persisted, persisted_unsynced, persisted}

pub data ResumeFailureCategory : Type 0 where
  checkpoint_read checkpoint_decrypt query_failed offset_beyond_input offset_misaligned continuation
        finalization analysis empty_analysis_category remote_cleanup checkpoint_cleanup
        evidence_write :
      ResumeFailureCategory

unfoldable pub category_as_str : ResumeFailureCategory → Text
category_as_str checkpoint_read = bytes "CHECKPOINT_READ"
category_as_str checkpoint_decrypt = bytes "CHECKPOINT_DECRYPT"
category_as_str query_failed = bytes "QUERY_FAILED"
category_as_str offset_beyond_input = bytes "OFFSET_BEYOND_INPUT"
category_as_str offset_misaligned = bytes "OFFSET_MISALIGNED"
category_as_str continuation = bytes "CONTINUATION_FAILED"
category_as_str finalization = bytes "FINALIZATION_FAILED"
category_as_str analysis = bytes "ANALYSIS_FAILED"
category_as_str empty_analysis_category = bytes "EMPTY_ANALYSIS"
category_as_str remote_cleanup = bytes "REMOTE_CLEANUP_FAILED"
category_as_str checkpoint_cleanup = bytes "CHECKPOINT_CLEANUP_FAILED"
category_as_str evidence_write = bytes "EVIDENCE_WRITE_FAILED"

pub record ResumeOutcome : Type 0 where
  pub persisted_hint : ℕ
  pub observed_server_offset : Option ℕ
  pub offset_mismatch : Option Bool
  pub failure_category : Option ResumeFailureCategory

-- The two files: the checkpoint, and the evidence that the run writes.
pub record Disk : Type 0 where
  pub checkpoint : Option Text
  pub evidence : Option Text

-- What the run asks of the file system, of the JSON and digest libraries, and of the clock.
pub record Local : Type 0 where
  pub parse_record : Text → Option EncryptedRecord
  pub sha256_hex : Text → Text
  pub proof_json : PhaseZeroProof → Option Text
  pub evidence_json : EvidenceDocument → Option Text
  pub persists : Disk → Text → Persisted
  pub removes : Disk → Bool
  pub elapsed_ms : ℕ

-- A `ResumeError` is its outcome.
abbrev pub Done : Type 0
Done = Result ResumeOutcome ResumeOutcome × History × Disk

abbrev with_category : ResumeOutcome → ResumeFailureCategory → ResumeOutcome
with_category outcome category = record outcome { failure_category = some category }

-- a serialized `Option`
or_null {ℓ} : {A : Type ℓ} → (A → Value) → Option A → Value
or_null f none = null
or_null f (some a) = f a

-- `evidence.measure(…).map_err(|_| ())?`, one after the other
measure_all : Evidence → List (Text × Value) → Option Evidence
measure_all e [] = some e
measure_all e ((name, value) ∷ rest) =
    let (outcome, e') = measure e name (some value) in
    elim outcome [ ok _ ↦ measure_all e' rest | err _ ↦ none ]

generation_measures : Option GenerationResult → List (Text × Value)
generation_measures none = (bytes "analysis_nonempty", boolean false) ∷ []
generation_measures (some g) =
    (bytes "analysis_nonempty", boolean g.analysis_nonempty)
    ∷ (bytes "response_bytes", number (natural g.response_bytes))
    ∷ (bytes "model", text g.model)
    ∷ (bytes "http_status", number (natural g.status))
    ∷ (bytes "analysis_latency_ms", number (natural (min (g.latency / 1000000) (2 ^ 64 - 1))))
    ∷ []

outcome_measures : ResumeOutcome → (remote_state checkpoint_state : Text) → List (Text × Value)
unfolding or_null category_as_str
outcome_measures o remote_state checkpoint_state =
    (bytes "persisted_hint", number (natural o.persisted_hint))
    ∷ (bytes "observed_server_offset", or_null (λ n. number (natural n)) o.observed_server_offset)
    ∷ (bytes "offset_mismatch", or_null boolean o.offset_mismatch)
    ∷ (bytes "failure_category", or_null (λ c. text (category_as_str c)) o.failure_category)
    ∷ (bytes "remote_cleanup_state", text remote_state)
    ∷ (bytes "checkpoint_cleanup_state", text checkpoint_state)
    ∷ []

not_attempted : Text
not_attempted = bytes "NOT_ATTEMPTED"

retained : Text
retained = bytes "RETAINED_FOR_RECOVERY"

deleted : Text
deleted = bytes "DELETED"

failed_state : Text
failed_state = bytes "FAILED"

-- What became of the checkpoint.
pub data CheckpointCleanup : Type 0 where
  kept removed not_removed : CheckpointCleanup

module _ (local : Local) (target : TargetId) where
  -- whether the write succeeded, and the disk that it leaves
  written : Persisted → Text → Disk → Bool × Disk
  written not_persisted content disk = (false, disk)
  written persisted_unsynced content disk = (false, record disk { evidence = some content })
  written persisted content disk = (true, record disk { evidence = some content })

  -- `write_atomic`
  unfoldable pub write_atomic : Text → Disk → Bool × Disk
  unfolding written
  write_atomic content disk = written (local.persists disk content) content disk

  write_json : Option Text → Disk → Bool × Disk
  unfolding write_atomic
  write_json none disk = (false, disk)
  write_json (some json) disk = write_atomic json disk

  evidence_text : Option Evidence → Verdict → Option Text
  evidence_text none verdict = none
  evidence_text (some e) verdict = elim (document (finish e verdict local.elapsed_ms)) [
    | ok d ↦ local.evidence_json d
    | err _ ↦ none
  ]

  unfoldable pub write_evidence :
      ResumeOutcome
      → Option GenerationResult
      → (remote_state checkpoint_state : Text) → Verdict
      → Disk
      → Bool × Disk
  unfolding measure_all outcome_measures generation_measures evidence_text write_json
  write_evidence outcome generation remote_state checkpoint_state verdict disk =
      write_json
        (evidence_text
          (measure_all (new_evidence gemini target) (
            outcome_measures outcome remote_state checkpoint_state
            ++ generation_measures generation))
          verdict)
        disk

  -- `Err(ResumeError { outcome })`, after the evidence was written or was not
  raised : ResumeOutcome → History → Bool × Disk → Done
  raised outcome h (true, disk) = (err outcome, h, disk)
  raised outcome h (false, disk) = (err (with_category outcome evidence_write), h, disk)

  -- `fail`, with the states that every call of it gives
  unfoldable pub fail_with : ResumeOutcome → ResumeFailureCategory → History → Disk → Done
  unfolding raised write_evidence not_attempted retained
  fail_with outcome category h disk =
      let o = with_category outcome category in
      raised o h (write_evidence o none not_attempted retained fail disk)

  unfoldable pub resume_proof : ResumeOutcome → Text → GenerationResult → PhaseZeroProof
  resume_proof outcome binding g = record {
    schema_version = 2;
    component = gemini_resume;
    row = record { spike = gemini; target = target; session = none; backend = none };
    payload = gemini_resume_payload (record {
      checkpoint_id = binding;
      resumed_offset = outcome.persisted_hint;
      server_offset = elim outcome.observed_server_offset [ none ↦ 0 | some n ↦ n ];
      server_authoritative = elim outcome.offset_mismatch [
        | none ↦ false
        | some mismatch ↦ not mismatch
      ];
      remote_state = bytes "ACTIVE";
      analysis_nonempty = g.analysis_nonempty;
      model = g.model;
      http_status = g.status;
      remote_deleted = true;
      checkpoint_deleted = true;
      retry_policy_observed = true;
    });
  }

  unfoldable pub proof_text : PhaseZeroProof → Option Text
  proof_text p = elim (validate p) [ ok _ ↦ local.proof_json p | err _ ↦ none ]

  proved : ResumeOutcome → History → Bool × Disk → Done
  proved outcome h (true, disk) = (ok outcome, h, disk)
  proved outcome h (false, disk) = (err outcome, h, disk)

  -- The evidence of a run without a failure is the proof; `none` has no digest of the checkpoint.
  finish_passed : ResumeOutcome → Option Text → GenerationResult → History → Disk → Done
  unfolding proved resume_proof proof_text write_json
  finish_passed outcome none g h disk = (err outcome, h, disk)
  finish_passed outcome (some binding) g h disk =
      proved outcome h (write_json (proof_text (resume_proof outcome binding g)) disk)

  -- It is removed only when the remote file is deleted.
  unfoldable pub clean_checkpoint : Bool → Disk → CheckpointCleanup × Disk
  clean_checkpoint false disk = (kept, disk)
  clean_checkpoint true disk =
      if local.removes disk
      then (removed, record disk { checkpoint = none })
      else (not_removed, disk)

  unfoldable pub cleanup_category :
      Result (Unit {0}) GenerationResult → Bool → CheckpointCleanup → Option ResumeFailureCategory
  cleanup_category (err _) remote_deleted cleaned = some analysis
  cleanup_category (ok g) remote_deleted cleaned =
      if not g.analysis_nonempty
      then some empty_analysis_category
      else if not remote_deleted
      then some remote_cleanup
      else elim cleaned [ not_removed ↦ some checkpoint_cleanup | _ ↦ none ]

  checkpoint_state : CheckpointCleanup → Text
  unfolding retained deleted failed_state
  checkpoint_state kept = retained
  checkpoint_state removed = deleted
  checkpoint_state not_removed = failed_state

  result_option : Result (Unit {0}) GenerationResult → Option GenerationResult
  result_option (err _) = none
  result_option (ok g) = some g

  -- From the category on: the proof, or the evidence of a failure.
  conclude :
      ResumeOutcome
      → Option Text
      → Result (Unit {0}) GenerationResult
      → Bool
      → CheckpointCleanup
      → Option ResumeFailureCategory
      → History
      → Disk
      → Done
  unfolding raised write_evidence result_option checkpoint_state finish_passed deleted failed_state
  conclude outcome binding (ok g) remote_deleted cleaned none h disk =
      finish_passed outcome binding g h disk
  conclude outcome binding (err _) remote_deleted cleaned none h disk = (err outcome, h, disk)
  conclude outcome binding analysed remote_deleted cleaned (some category) h disk =
      let o = with_category outcome category in
      raised o h (
        write_evidence o (result_option analysed) (if remote_deleted then deleted else failed_state)
          (checkpoint_state cleaned) fail disk)

  -- After the attempt to delete the remote file.
  unfoldable pub clean_up :
      ResumeOutcome
      → Option Text
      → Result (Unit {0}) GenerationResult
      → Bool
      → History
      → Disk
      → Done
  unfolding clean_checkpoint cleanup_category conclude
  clean_up outcome binding analysed remote_deleted h disk =
      let (cleaned, disk') = clean_checkpoint remote_deleted disk in
      conclude outcome binding analysed remote_deleted cleaned
        (cleanup_category analysed remote_deleted cleaned) h disk'
