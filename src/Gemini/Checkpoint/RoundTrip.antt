-- ===== src/Gemini/Checkpoint/RoundTrip.antt =====
-- A checkpoint resumes what it was written for.
use ovayra.Prelude.{ℕ, ◌≡◌, refl, ◌∙◌, Option, none, some, arith, Result, ok, err, length, Text}
use ovayra.Platform.Envelope.{
  Aead, EncryptedRecord, EnvelopeCipher, EnvelopeError, seal, open_record,
}
use ovayra.Platform.Envelope.RoundTrip.{IsAuthenticated, open_record-seal}
use ovayra.Gemini.World.{World, UploadSession}
use ovayra.Gemini.Checkpoint.{
  CheckpointPayload, CheckpointJson, checkpoint, resume_checkpoint, seal_json, resume_text,
  resume_payload, resumed, envelope_error, payload_of, checkpoint_aad,
}

-- Reading gives back what was written.
pub record IsJson (json : CheckpointJson) : Type 0 where
  pub reads :
      (payload : CheckpointPayload) {text : Text}
      → json.to_vec payload ≡ some text
      → json.from_slice text ≡ some payload

module _ (w : World) (json : CheckpointJson) (is_json : IsJson json) (aead : Aead)
    (law : IsAuthenticated aead) (cipher : EnvelopeCipher) where
  -- With an authenticated cipher, a JSON library that reads what it writes, and a session whose URL
  -- parses to itself, a checkpoint that was written under a nonce of 12 bytes resumes the session and
  -- the staged offset that it was written for.
  pub resume_checkpoint-checkpoint :
      (nonce : Text) (session : UploadSession) (staged_offset : ℕ) (r : EncryptedRecord)
      → length nonce ≡ 12
      → w.parse_url session.url ≡ some session.url
      → checkpoint w json aead cipher nonce session staged_offset ≡ ok r
      → resume_checkpoint w json aead cipher r
        ≡ ok (record { session = session; staged_offset = staged_offset })
  unfolding checkpoint resume_checkpoint seal_json resume_text resume_payload resumed envelope_error
      payload_of
  resume_checkpoint-checkpoint nonce session staged_offset r twelve parses h =
      go (json.to_vec (payload_of session staged_offset)) refl h
    where
      opened :
          (text : Text) (y : Result EnvelopeError EncryptedRecord)
          → seal aead cipher nonce text checkpoint_aad ≡ y
          → envelope_error y ≡ ok r
          → open_record aead cipher r checkpoint_aad ≡ ok text
      opened text (err e) k c = ground arith
      opened text (ok r') k c =
          open_record-seal aead law cipher nonce text checkpoint_aad r twelve (k ∙ cc)

      go :
          (x : Option Text)
          → json.to_vec (payload_of session staged_offset) ≡ x
          → seal_json w json aead cipher nonce x ≡ ok r
          → resume_checkpoint w json aead cipher r
            ≡ ok (record { session = session; staged_offset = staged_offset })
      go none e k = cc
      go (some text) e k =
          rw
            (
              opened text (seal aead cipher nonce text checkpoint_aad) refl k,
              is_json.reads (payload_of session staged_offset) e,
              parses,
            )
            refl
