-- ===== src/App/Resume/Cleanup.antt =====
-- What a resumed run leaves behind, however it ends.
use ovayra.Prelude.{ℕ, ◌≤◌, ◌≡◌, Option, none, some, Result, ok, length, Text}
use ovayra.Contracts.Ids.{TargetId}
use ovayra.Platform.Envelope.{Aead, EncryptedRecord, EnvelopeCipher}
use ovayra.Gemini.World.{World, History, RemoteFile, GeminiClient, PollPolicy, GenerationResult}
use ovayra.Gemini.Upload.{query_offset}
use ovayra.Gemini.Poll.Deletes.{IsDeletion, delete_file_sound}
use ovayra.Gemini.Poll.Deletes.{IsDeletion, delete_file_sound}
use ovayra.Gemini.Checkpoint.{CheckpointJson, ResumedUpload, resume_checkpoint}
use ovayra.App.Outcome.{ResumeOutcome, Disk, Local, Done}
use ovayra.App.Outcome.Ends.{IsEnd}
use ovayra.App.Resume.{analyze, continue_and_finalize, with_offset, read_checkpoint, binding_of}

module _ (w : World) (c : GeminiClient) (json : CheckpointJson) (aead : Aead)
    (cipher : EnvelopeCipher) (local : Local) (target : TargetId) (disk : Disk) (fuel : ℕ)
    (input model : Text) (policy : PollPolicy) (begun : History) where
  -- The upload of the input, in the session of the checkpoint on the disk and from the server's offset
  -- on, that ended with the file `remote`.
  pub record IsUploaded (o : ResumeOutcome) (remote : RemoteFile) (uploaded_at : History)
      : Type 0 where
    pub stored : EncryptedRecord
    pub read : read_checkpoint local disk.checkpoint ≡ some stored
    pub resumed : ResumedUpload
    pub decrypted : resume_checkpoint w json aead cipher stored ≡ ok resumed
    pub observed : ℕ
    pub asked : History
    pub queried : query_offset w c resumed.session begun ≡ (ok observed, asked)
    pub within : observed ≤ length input
    pub outcome : o ≡ with_offset resumed observed
    pub finalized :
        continue_and_finalize w c fuel resumed.session observed input asked
        ≡ some (ok remote, uploaded_at)

  -- The uploaded file was analysed and then deleted, with the last request.
  pub record IsDeleted (o : ResumeOutcome) (analysed : Result (Unit {0}) GenerationResult)
      (h : History) : Type 0 where
    pub remote : RemoteFile
    pub uploaded_at : History
    pub upload : IsUploaded o remote uploaded_at
    pub analysed_at : History
    pub analysis : analyze w c fuel remote model policy uploaded_at ≡ some (analysed, analysed_at)
    pub deletion : IsDeletion w c remote.name h

  abbrev digest : Option Text
  digest = binding_of local disk.checkpoint

  -- A run that comes to an end leaves the disk so.
  abbrev pub Leaves : Option Done → Type 0
  Leaves none = Unit
  Leaves (some d) = IsEnd local target IsDeleted (binding_of local disk.checkpoint) disk d
