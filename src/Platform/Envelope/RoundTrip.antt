-- ===== src/Platform/Envelope/RoundTrip.antt =====
-- Opening is the inverse of sealing, and the master key stays the same.
use ovayra.Prelude.{
  ◌+◌, ◌≤◌, ◌≡◌, refl, sym, ap, ◌∙◌, subst, ◌↔◌, true, false, Option, none, some, arith, ltb, ◌==◌,
  ok, ok_or, length, Text,
}
use ovayra.Platform.Envelope.{
  Aead, EncryptedRecord, EnvelopeCipher, seal, open_record, sealed, has_key_length, authentication,
}

-- What AES-256-GCM documents: decryption undoes encryption, it accepts nothing that the same key,
-- nonce and associated data would not encrypt to, and a ciphertext has a tag of 16 bytes.
pub record IsAuthenticated (aead : Aead) : Type 0 where
  pub decrypts :
      (key nonce message associated : Text) {ciphertext : Text}
      → aead.encrypt key nonce message associated ≡ some ciphertext
      → aead.decrypt key nonce ciphertext associated ≡ some message
  pub authentic :
      (key nonce ciphertext associated : Text) {message : Text}
      → aead.decrypt key nonce ciphertext associated ≡ some message
      → aead.encrypt key nonce message associated ≡ some ciphertext
  pub tagged :
      (key nonce message associated : Text) {ciphertext : Text}
      → aead.encrypt key nonce message associated ≡ some ciphertext
      → length ciphertext ≡ length message + 16

module _ (aead : Aead) (law : IsAuthenticated aead) (cipher : EnvelopeCipher) where
  -- A record that a key seals under a nonce: what the check of the text's size leaves.
  abbrev Seals : (nonce plaintext associated : Text) → EncryptedRecord → Type 0
  Seals nonce plaintext associated r =
      (r.version ≡ 1)
      × (r.nonce ≡ nonce)
      × (aead.encrypt cipher.key nonce plaintext associated ≡ some r.ciphertext)
      × (length r.ciphertext ≤ 16384)

  sealed_sound :
      (nonce plaintext associated : Text) (r : EncryptedRecord) (x : Option Text)
      → aead.encrypt cipher.key nonce plaintext associated ≡ x
      → sealed aead nonce x ≡ ok r
      → Seals nonce plaintext associated r
  unfolding sealed
  sealed_sound nonce plaintext associated r none e k = cc
  sealed_sound nonce plaintext associated r (some c) e k = ground arith

  seal_sound :
      (nonce plaintext associated : Text) (r : EncryptedRecord)
      → seal aead cipher nonce plaintext associated ≡ ok r
      → Seals nonce plaintext associated r × (has_key_length cipher.key ≡ true)
  unfolding seal
  seal_sound nonce plaintext associated r h = (
    sealed_sound nonce plaintext associated r (aead.encrypt cipher.key nonce plaintext associated)
        refl (ground arith),
    ground arith,
  )

  decrypted :
      (x : Option Text) (message : Text) → ok_or authentication x ≡ ok message → x ≡ some message
  decrypted none message h = cc
  decrypted (some m) message h = cc

  seal_complete :
      (nonce plaintext associated : Text) (r : EncryptedRecord)
      → Seals nonce plaintext associated r
      → has_key_length cipher.key ≡ true
      → seal aead cipher nonce plaintext associated ≡ ok r
  unfolding seal sealed
  seal_complete nonce plaintext associated r (version, same, encrypted, fits) key =
      let size = law.tagged cipher.key nonce plaintext associated encrypted in
      let short : ltb 16368 (length plaintext) ≡ false = ground arith in
      let room : ltb 16384 (length r.ciphertext) ≡ false = ground arith in
      rw (short, key, encrypted, room)
        (λ i.
          ok (record { version = sym version i; nonce = sym same i; ciphertext = r.ciphertext }))

  -- With an authenticated cipher, a record opens to a text exactly when it is what sealing the text
  -- under the record's nonce, which has 12 bytes, gives: nothing else opens, and what is sealed can be opened.
  pub open_record_iff :
      (r : EncryptedRecord) (plaintext associated : Text)
      → (open_record aead cipher r associated ≡ ok plaintext)
        ↔ ((length r.nonce ≡ 12) × (seal aead cipher r.nonce plaintext associated ≡ ok r))
  unfolding open_record
  open_record_iff r plaintext associated = (forth, back)
    where
      forth :
          open_record aead cipher r associated ≡ ok plaintext
          → (length r.nonce ≡ 12) × (seal aead cipher r.nonce plaintext associated ≡ ok r)
      forth h =
          let opened : aead.decrypt cipher.key r.nonce r.ciphertext associated ≡ some plaintext =
            decrypted (aead.decrypt cipher.key r.nonce r.ciphertext associated) plaintext
              (ground arith) in
          (
            ground arith,
            seal_complete r.nonce plaintext associated r
                (
                  ground arith,
                  refl,
                  law.authentic cipher.key r.nonce r.ciphertext associated opened,
                  ground arith,
                )
                (ground arith),
          )

      back :
          (length r.nonce ≡ 12) × (seal aead cipher r.nonce plaintext associated ≡ ok r)
          → open_record aead cipher r associated ≡ ok plaintext
      back (twelve, h) =
          let ((version, same, encrypted, fits), key) =
            seal_sound r.nonce plaintext associated r h in
          let first : (r.version == 1) ≡ true = ground arith in
          let second : (length r.nonce == 12) ≡ true = ground arith in
          let room : ltb 16384 (length r.ciphertext) ≡ false = ground arith in
          rw
            (
              first,
              second,
              room,
              key,
              law.decrypts cipher.key r.nonce plaintext associated encrypted,
            )
            refl

  pub open_record-seal :
      (nonce plaintext associated : Text) (r : EncryptedRecord)
      → length nonce ≡ 12
      → seal aead cipher nonce plaintext associated ≡ ok r
      → open_record aead cipher r associated ≡ ok plaintext
  open_record-seal nonce plaintext associated r twelve h =
      let ((_, same, _, _), _) = seal_sound nonce plaintext associated r h in
      (open_record_iff r plaintext associated).1 (
        ap length same ∙ twelve,
        subst (λ n. seal aead cipher n plaintext associated ≡ ok r) (sym same) h,
      )
