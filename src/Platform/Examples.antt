-- ===== src/Platform/Examples.antt =====
-- The theorems of the envelope at concrete inputs: a cipher that only puts a tag in front.
use ovayra.Prelude.{
  ◌+◌, ◌≡◌, refl, ap, subst, ◌↔◌, inl, inr, true, false, Option, none, some, [], ◌∷◌, ◌++◌, arith,
  ◌==◌, if◌then◌else◌, ==_iff, Bool-cases, ok, length, length-append, Text, bytes,
}
use ovayra.Platform.SecretStore.{MemorySecretStore, memory_store}
use ovayra.Platform.SecretStore.Memory.{memory_store-IsStore}
use ovayra.Platform.Envelope.{
  Aead, EncryptedRecord, EnvelopeCipher, seal, open_record, load_or_create, has_key_length,
}
use ovayra.Platform.Envelope.RoundTrip.{IsAuthenticated, open_record_iff}
use ovayra.Platform.Envelope.MasterKey.{load_or_create_again}

abbrev sixteen : Text
sixteen = bytes "0123456789abcdef"

unfoldable pub strip : Text → Text → Option Text
strip [] c = some c
strip (t ∷ tag) [] = none
strip (t ∷ tag) (x ∷ c) = let rest = strip tag c in if t == x then rest else none

strip-append : (tag m : Text) → strip tag (tag ++ m) ≡ some m
unfolding strip
strip-append [] m = refl
strip-append (t ∷ tag) m = ground (arith, strip-append tag m)

strip_sound : (tag c m : Text) → strip tag c ≡ some m → tag ++ m ≡ c
unfolding strip
strip_sound [] c m h = cc
strip_sound (t ∷ tag) [] m h = cc
strip_sound (t ∷ tag) (x ∷ c) m h = elim (Bool-cases (t == x)) [
  | inl same ↦
      let rest : strip tag c ≡ some m = rw same at h in
      cc ((==_iff t x).0 same, strip_sound tag c m rest)
  | inr other ↦ let none_left : ◌≡◌ {A = Option Text} none (some m) = rw other at h in cc
]

tagged_once :
    (m c : Text)
    → ◌≡◌ {A = Option Text} (some (sixteen ++ m)) (some c)
    → (strip sixteen c ≡ some m) × (length c ≡ length m + 16)
unfolding bytes
tagged_once m c e =
    let same : sixteen ++ m ≡ c = cc in
    (
      subst (λ t. strip sixteen t ≡ some m) same (strip-append sixteen m),
      subst (λ t. length t ≡ length m + 16) same (omega (arith, length-append {0} sixteen m)),
    )

unfoldable pub tagging : Aead
unfolding strip
tagging = record {
  encrypt = λ key nonce message associated. some (sixteen ++ message);
  decrypt = λ key nonce ciphertext associated. strip sixteen ciphertext;
}

pub tagging-IsAuthenticated : IsAuthenticated tagging
unfolding tagging
tagging-IsAuthenticated = record {
  decrypts = λ key nonce message associated e. (tagged_once message _ e).0;
  authentic = λ key nonce ciphertext associated e. ap some (strip_sound sixteen ciphertext _ e);
  tagged = λ key nonce message associated e. (tagged_once message _ e).1;
}

abbrev pub cipher : EnvelopeCipher
cipher = record { key = sixteen ++ sixteen }

abbrev pub twelve : Text
twelve = bytes "0123456789ab"

abbrev sealed_hello : EncryptedRecord
sealed_hello = record { version = 1; nonce = twelve; ciphertext = sixteen ++ bytes "hello" }

open_record_iff_example :
    (open_record tagging cipher sealed_hello (bytes "aad") ≡ ok (bytes "hello")) ↔ (
      (length sealed_hello.nonce ≡ 12)
      × (seal tagging cipher twelve (bytes "hello") (bytes "aad") ≡ ok sealed_hello))
open_record_iff_example =
    open_record_iff tagging tagging-IsAuthenticated cipher sealed_hello (bytes "hello")
      (bytes "aad")

abbrev empty_store : MemorySecretStore
empty_store = record { values = []; poisoned = false }

abbrev filled_store : MemorySecretStore
filled_store = record {
  values = ((bytes "com.ovayra.desktop", bytes "user"), sixteen ++ sixteen) ∷ [];
  poisoned = false;
}

key_created :
    load_or_create memory_store empty_store (bytes "user") (sixteen ++ sixteen)
    ≡ (ok cipher, filled_store)
unfolding load_or_create memory_store
key_created = refl

key_fits : has_key_length (sixteen ++ sixteen) ≡ true
unfolding has_key_length bytes
key_fits = refl

load_or_create_again_example :
    load_or_create memory_store filled_store (bytes "user") [] ≡ (ok cipher, filled_store)
load_or_create_again_example =
    load_or_create_again memory_store memory_store-IsStore (bytes "user") empty_store filled_store
      (sixteen ++ sixteen) [] cipher key_fits key_created
