-- ===== src/Gemini/Checkpoint.antt =====
-- crates/spike-gemini/src/client.rs: the encrypted checkpoint of an upload, written and resumed.
-- The JSON library is the parameter `CheckpointJson`; a generated nonce is an argument.
pub mod RoundTrip
use ovayra.Prelude.{ℕ, Option, none, some, Result, ok, err, Text, bytes}
use ovayra.Platform.Envelope.{
  Aead, EncryptedRecord, EnvelopeCipher, EnvelopeError, seal, open_record,
}
use ovayra.Gemini.World.{World, UploadSession, GeminiError, invalid_checkpoint}

-- `CheckpointPayload` and `ResumedUpload` of session.rs
pub record CheckpointPayload : Type 0 where
  pub url : Text
  pub chunk_granularity : Option ℕ
  pub staged_offset : ℕ

pub record ResumedUpload : Type 0 where
  pub session : UploadSession
  pub staged_offset : ℕ

pub record CheckpointJson : Type 0 where
  pub to_vec : CheckpointPayload → Option Text
  pub from_slice : Text → Option CheckpointPayload

abbrev pub checkpoint_aad : Text
checkpoint_aad = bytes "ovayra-upload-session-v1"

unfoldable pub payload_of : UploadSession → ℕ → CheckpointPayload
payload_of session staged_offset = record {
  url = session.url;
  chunk_granularity = session.chunk_granularity;
  staged_offset = staged_offset;
}

-- `.map_err(|_| GeminiError::Checkpoint)`
envelope_error : {A : Type 0} → Result EnvelopeError A → Result GeminiError A
envelope_error (ok a) = ok a
envelope_error (err e) = err GeminiError.checkpoint

module _ (w : World) (json : CheckpointJson) (aead : Aead) (cipher : EnvelopeCipher) where
  seal_json : Text → Option Text → Result GeminiError EncryptedRecord
  unfolding envelope_error
  seal_json nonce none = err invalid_checkpoint
  seal_json nonce (some text) = envelope_error (seal aead cipher nonce text checkpoint_aad)

  unfoldable pub checkpoint :
      (nonce : Text) → UploadSession → (staged_offset : ℕ) → Result GeminiError EncryptedRecord
  unfolding seal_json payload_of
  checkpoint nonce session staged_offset =
      seal_json nonce (json.to_vec (payload_of session staged_offset))

  resumed : CheckpointPayload → Option Text → Result GeminiError ResumedUpload
  resumed payload none = err invalid_checkpoint
  resumed payload (some url) = ok (record {
    session = record { url = url; chunk_granularity = payload.chunk_granularity };
    staged_offset = payload.staged_offset;
  })

  resume_payload : Option CheckpointPayload → Result GeminiError ResumedUpload
  unfolding resumed
  resume_payload none = err invalid_checkpoint
  resume_payload (some payload) = resumed payload (w.parse_url payload.url)

  resume_text : Result EnvelopeError Text → Result GeminiError ResumedUpload
  unfolding resume_payload
  resume_text (err e) = err GeminiError.checkpoint
  resume_text (ok text) = resume_payload (json.from_slice text)

  unfoldable pub resume_checkpoint : EncryptedRecord → Result GeminiError ResumedUpload
  unfolding resume_text
  resume_checkpoint r = resume_text (open_record aead cipher r checkpoint_aad)
