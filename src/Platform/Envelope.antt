-- ===== src/Platform/Envelope.antt =====
-- crates/spike-platform/src/envelope.rs: sealing and opening a record, and the master key.
--
-- AES-256-GCM is the parameter `Aead`, the secret store is `SecretStore`. A generated nonce or key is
-- an argument.
pub mod RoundTrip
pub mod MasterKey
use ovayra.Platform.SecretStore.{SecretStore, SecretStoreError}
use ovayra.Prelude.{
  ℕ, ◌-◌, ◌*◌, Bool, not, Option, none, some, ltb, ◌==◌, if◌then◌else◌, Result, ok, err, ok_or,
  length, Text, bytes,
}

-- `encrypt` and `decrypt` take the key, the nonce, the text and the associated data.
pub record Aead : Type 0 where
  pub encrypt : (key nonce message associated : Text) → Option Text
  pub decrypt : (key nonce ciphertext associated : Text) → Option Text

pub record EncryptedRecord : Type 0 where
  pub version : ℕ
  pub nonce : Text
  pub ciphertext : Text

pub data EnvelopeError : Type 0 where
  secret_store : SecretStoreError → EnvelopeError
  invalid_key_length unsupported_version invalid_nonce record_too_large authentication :
      EnvelopeError

-- `EnvelopeCipher`
pub record EnvelopeCipher : Type 0 where
  pub key : Text

abbrev pub master_key_service : Text
master_key_service = bytes "com.ovayra.desktop"

abbrev pub max_ciphertext_bytes : ℕ
max_ciphertext_bytes = 16 * 1024

abbrev pub max_plaintext_bytes : ℕ
max_plaintext_bytes = max_ciphertext_bytes - 16

-- `Aes256Gcm::new_from_slice` takes 32 bytes
unfoldable pub has_key_length : Text → Bool
has_key_length key = length key == 32

module _ {S : Type 0} (store : SecretStore S) where
  stored_key : S → Text → Result EnvelopeError EnvelopeCipher × S
  unfolding has_key_length
  stored_key s key =
      if has_key_length key then (ok (record { key = key }), s) else (err invalid_key_length, s)

  created_key : S → Text → Result SecretStoreError S → Result EnvelopeError EnvelopeCipher × S
  created_key s key (err e) = (err (secret_store e), s)
  created_key s key (ok s') = (ok (record { key = key }), s')

  by_secret :
      S
      → (account generated : Text) → Result SecretStoreError (Option Text)
      → Result EnvelopeError EnvelopeCipher × S
  unfolding stored_key created_key
  by_secret s account generated (err e) = (err (secret_store e), s)
  by_secret s account generated (ok (some key)) = stored_key s key
  by_secret s account generated (ok none) =
      created_key s generated (store.set_secret s master_key_service account generated)

  -- The account and the key that is generated if there is none; the store's state comes back.
  unfoldable pub load_or_create :
      S → (account generated : Text) → Result EnvelopeError EnvelopeCipher × S
  unfolding by_secret
  load_or_create s account generated =
      by_secret s account generated (store.get_secret s master_key_service account)

module _ (aead : Aead) where
  -- what `seal` does with the result of `encrypt`
  sealed : Text → Option Text → Result EnvelopeError EncryptedRecord
  sealed nonce none = err authentication
  sealed nonce (some ciphertext) =
      if ltb max_ciphertext_bytes (length ciphertext)
      then err record_too_large
      else ok (record { version = 1; nonce = nonce; ciphertext = ciphertext })

  unfoldable pub seal :
      EnvelopeCipher → (nonce plaintext associated : Text) → Result EnvelopeError EncryptedRecord
  unfolding sealed has_key_length
  seal cipher nonce plaintext associated =
      if ltb max_plaintext_bytes (length plaintext)
      then err record_too_large
      else if not (has_key_length cipher.key)
      then err invalid_key_length
      else sealed nonce (aead.encrypt cipher.key nonce plaintext associated)

  unfoldable pub open_record :
      EnvelopeCipher → EncryptedRecord → (associated : Text) → Result EnvelopeError Text
  unfolding has_key_length
  open_record cipher r associated =
      if not (r.version == 1)
      then err unsupported_version
      else if not (length r.nonce == 12)
      then err invalid_nonce
      else if ltb max_ciphertext_bytes (length r.ciphertext)
      then err record_too_large
      else if not (has_key_length cipher.key)
      then err invalid_key_length
      else ok_or authentication (aead.decrypt cipher.key r.nonce r.ciphertext associated)
