-- ===== src/App/Resume.antt =====
-- apps/ovayra-spike/src/gemini_orchestration.rs: resuming a staged upload and analysing the remote
-- file. Polling and the loop over the chunks take fuel, and give `none` where it runs out.
pub mod Chunks
pub mod Cleanup
use ovayra.Prelude.{
  ℕ, zero, suc, ◌+◌, ◌-◌, Bool, true, false, not, ◌&&◌, Option, none, some, ltb, ◌==◌,
  if◌then◌else◌, Result, ok, err, length, take, drop, Text,
}
use ovayra.Contracts.Ids.{TargetId}
use ovayra.Platform.Envelope.{Aead, EncryptedRecord, EnvelopeCipher}
use ovayra.Gemini.World.{
  World, History, UploadSession, RemoteFile, GeminiClient, GeminiError, PollPolicy,
  GenerationResult,
}
use ovayra.Gemini.Upload.{chunk_size, is_multiple_of, query_offset, upload_chunk, finalize_chunk}
use ovayra.Gemini.Generate.{generate_content}
use ovayra.Gemini.Poll.{poll_until_ready, delete_file}
use ovayra.Gemini.Checkpoint.{CheckpointJson, ResumedUpload, resume_checkpoint}
use ovayra.App.Outcome.{
  ResumeFailureCategory, checkpoint_read, checkpoint_decrypt, query_failed, offset_beyond_input,
  offset_misaligned, continuation, finalization, ResumeOutcome, Disk, Local, Done, fail_with,
  clean_up,
}

is_ok {ℓ κ} : {E : Type ℓ} {A : Type κ} → Result E A → Bool
is_ok (ok _) = true
is_ok (err _) = false

-- an outcome of the upload: its category where it fails
abbrev pub Uploaded : Type 0
Uploaded = Option (Result ResumeFailureCategory RemoteFile × History)

abbrev pub Analysed : Type 0
Analysed = Option (Result (Unit {0}) GenerationResult × History)

-- `chunk_granularity().is_some_and(…)`
misplaced : Option ℕ → (observed total : ℕ) → Bool
misplaced none observed total = false
misplaced (some g) observed total = ltb observed total && not (is_multiple_of observed g)

-- the outcome once the server has told its offset
unfoldable pub with_offset : ResumedUpload → ℕ → ResumeOutcome
with_offset resumed observed = record {
  persisted_hint = resumed.staged_offset;
  observed_server_offset = some observed;
  offset_mismatch = some (not (observed == resumed.staged_offset));
  failure_category = none;
}

no_offset : ℕ → ResumeOutcome
no_offset hint = record {
  persisted_hint = hint;
  observed_server_offset = none;
  offset_mismatch = none;
  failure_category = none;
}

-- `read_checkpoint`
unfoldable pub read_checkpoint : Local → Option Text → Option EncryptedRecord
read_checkpoint local none = none
read_checkpoint local (some text) = local.parse_record text

-- the digest of the checkpoint file
unfoldable pub binding_of : Local → Option Text → Option Text
binding_of local none = none
binding_of local (some text) = some (local.sha256_hex text)

module _ (w : World) (c : GeminiClient) where
  -- What follows the loop: `finalize_chunk` on the bytes that are left.
  finalized : Result GeminiError RemoteFile × History → Uploaded
  finalized (ok remote, h) = some (ok remote, h)
  finalized (err _, h) = some (err finalization, h)

  finalize : UploadSession → (input : Text) → ℕ → History → Uploaded
  unfolding finalized
  finalize session input offset h =
      finalized (finalize_chunk w c session offset (drop offset input) h)

  advanced : (total : ℕ) → (ℕ → History → Uploaded) → Result GeminiError ℕ × History → Uploaded
  advanced total next (err _, h) = some (err continuation, h)
  advanced total next (ok offset, h) =
      if ltb total offset then some (err continuation, h) else next offset h

  -- The offset after a chunk: the server's where there is no granularity, and the chunk's end else.
  next_offset : UploadSession → ℕ → History → Result GeminiError ℕ × History
  next_offset session end_offset h = elim session.chunk_granularity [
    | none ↦ query_offset w c session h
    | some _ ↦ (ok end_offset, h)
  ]

  uploaded :
      UploadSession
      → (total end_offset : ℕ) → (ℕ → History → Uploaded)
      → Result GeminiError (Unit {0}) × History
      → Uploaded
  unfolding advanced next_offset
  uploaded session total end_offset next (err _, h) = some (err continuation, h)
  uploaded session total end_offset next (ok _, h) =
      advanced total next (next_offset session end_offset h)

  -- `while total.saturating_sub(offset) > chunk_size`
  unfoldable pub continue_from : ℕ → UploadSession → (input : Text) → ℕ → History → Uploaded
  unfolding uploaded finalize
  continue_from zero session input offset h = none
  continue_from (suc fuel) session input offset h =
      let size = chunk_size session in
      elim (ltb size (length input - offset)) [
        | true ↦
            uploaded session (length input) (offset + size) (continue_from fuel session input)
              (upload_chunk w c session offset (take size (drop offset input)) h)
        | false ↦ finalize session input offset h
      ]

  -- `continue_and_finalize`
  unfoldable pub continue_and_finalize : ℕ → UploadSession → ℕ → (input : Text) → History → Uploaded
  unfolding continue_from
  continue_and_finalize fuel session offset input h = continue_from fuel session input offset h

  generated : Result GeminiError GenerationResult × History → Analysed
  generated (ok g, h) = some (ok g, h)
  generated (err _, h) = some (err tt, h)

  polled : Text → Option (Result GeminiError RemoteFile × History) → Analysed
  unfolding generated
  polled model none = none
  polled model (some (err _, h)) = some (err tt, h)
  polled model (some (ok active, h)) = generated (generate_content w c active model h)

  -- `analyze`
  unfoldable pub analyze : ℕ → RemoteFile → (model : Text) → PollPolicy → History → Analysed
  unfolding polled
  analyze fuel remote model policy h = polled model (poll_until_ready w c fuel remote.name policy h)

  module _ (json : CheckpointJson) (aead : Aead) (cipher : EnvelopeCipher) (local : Local)
      (target : TargetId) where
    -- After the analysis: the remote file is deleted, whatever the analysis gave.
    delete_and_clean : ResumeOutcome → Option Text → RemoteFile → Analysed → Disk → Option Done
    delete_and_clean outcome binding remote none disk = none
    delete_and_clean outcome binding remote (some (analysed, h)) disk =
        let (removed, h') = delete_file w c remote.name h in
        some (clean_up local target outcome binding analysed (is_ok removed) h' disk)

    after_upload :
        ℕ
        → ResumeOutcome
        → Option Text
        → (model : Text) → PollPolicy
        → Disk
        → Uploaded
        → Option Done
    unfolding delete_and_clean is_ok
    after_upload fuel outcome binding model policy disk none = none
    after_upload fuel outcome binding model policy disk (some (err category, h)) =
        some (fail_with local target outcome category h disk)
    after_upload fuel outcome binding model policy disk (some (ok remote, h)) =
        delete_and_clean outcome binding remote (analyze fuel remote model policy h) disk

    after_query :
        ℕ
        → ResumedUpload
        → Option Text
        → (input model : Text) → PollPolicy
        → Disk
        → Result GeminiError ℕ × History
        → Option Done
    unfolding misplaced with_offset no_offset after_upload continue_and_finalize
    after_query fuel resumed binding input model policy disk (err _, h) =
        some (fail_with local target (no_offset resumed.staged_offset) query_failed h disk)
    after_query fuel resumed binding input model policy disk (ok observed, h) =
        let outcome = with_offset resumed observed in
        if ltb (length input) observed
        then some (fail_with local target outcome offset_beyond_input h disk)
        else if misplaced resumed.session.chunk_granularity observed (length input)
        then some (fail_with local target outcome offset_misaligned h disk)
        else after_upload fuel outcome binding model policy disk
            (continue_and_finalize fuel resumed.session observed input h)

    after_decrypt :
        ℕ
        → Option Text
        → (input model : Text) → PollPolicy
        → Disk
        → History
        → Result GeminiError ResumedUpload
        → Option Done
    unfolding no_offset after_query
    after_decrypt fuel binding input model policy disk h (err _) =
        some (fail_with local target (no_offset 0) checkpoint_decrypt h disk)
    after_decrypt fuel binding input model policy disk h (ok resumed) =
        after_query fuel resumed binding input model policy disk
          (query_offset w c resumed.session h)

    after_read :
        ℕ
        → Option Text
        → (input model : Text) → PollPolicy
        → Disk
        → History
        → Option EncryptedRecord
        → Option Done
    unfolding no_offset after_decrypt
    after_read fuel binding input model policy disk h none =
        some (fail_with local target (no_offset 0) checkpoint_read h disk)
    after_read fuel binding input model policy disk h (some r) =
        after_decrypt fuel binding input model policy disk h
          (resume_checkpoint w json aead cipher r)

    -- `resume_analyze_with_evidence`
    unfoldable pub resume_analyze :
        ℕ → (input model : Text) → PollPolicy → History → Disk → Option Done
    unfolding after_read read_checkpoint binding_of
    resume_analyze fuel input model policy h disk =
        after_read fuel (binding_of local disk.checkpoint) input model policy disk h
          (read_checkpoint local disk.checkpoint)
