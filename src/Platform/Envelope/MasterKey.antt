-- ===== src/Platform/Envelope/MasterKey.antt =====
-- The master key that `load_or_create` gives stays the same.
use ovayra.Prelude.{
  ◌≡◌, refl, ap, subst, inl, inr, true, Option, none, some, arith, Bool-cases, Result, ok, err,
  Text,
}
use ovayra.Platform.SecretStore.{SecretStore, SecretStoreError}
use ovayra.Platform.SecretStore.Memory.{IsStore}
use ovayra.Platform.Envelope.{
  EnvelopeCipher, EnvelopeError, load_or_create, by_secret, stored_key, created_key,
  master_key_service, has_key_length, invalid_key_length,
}

module _ {S : Type 0} (store : SecretStore S) (law : IsStore store) (account : Text) where
  abbrev Loaded : Type 0
  Loaded = Result EnvelopeError EnvelopeCipher × S

  loaded_from :
      (s s' : S) (key later : Text) (cipher : EnvelopeCipher)
      → store.get_secret s master_key_service account ≡ ok (some key)
      → stored_key store s key ≡ (ok cipher, s')
      → load_or_create store s account later ≡ (ok cipher, s')
  unfolding load_or_create by_secret
  loaded_from s s' key later cipher e h = rw e h

  stored_key_state :
      (s s' : S) (key : Text) (cipher : EnvelopeCipher)
      → stored_key store s key ≡ (ok cipher, s')
      → s ≡ s'
  unfolding stored_key
  stored_key_state s s' key cipher h = elim (Bool-cases (has_key_length key)) [
    | inl fits ↦
        let e : ◌≡◌ {A = Loaded} (ok (record { key = key }), s) (ok cipher, s') = rw fits at h in
        ap (λ (x : Loaded). x.1) e
    | inr short ↦
        let e : ◌≡◌ {A = Loaded} (err invalid_key_length, s) (ok cipher, s') = rw short at h in
        ap (λ (x : Loaded). x.1) e
  ]

  stored_key_again :
      (s : S) (key : Text)
      → has_key_length key ≡ true
      → stored_key store s key ≡ (ok (record { key = key }), s)
  unfolding stored_key
  stored_key_again s key h = rw h refl

  loaded_again :
      (s s' : S) (generated later : Text) (cipher : EnvelopeCipher)
      (x : Result SecretStoreError (Option Text))
      → store.get_secret s master_key_service account ≡ x
      → has_key_length generated ≡ true
      → by_secret store s account generated x ≡ (ok cipher, s')
      → load_or_create store s' account later ≡ (ok cipher, s')
  unfolding by_secret created_key
  loaded_again s s' generated later cipher (err e) q key h = ground arith
  loaded_again s s' generated later cipher (ok (some found)) q key h =
      subst (λ t. load_or_create store t account later ≡ (ok cipher, s'))
        (stored_key_state s s' found cipher h) (loaded_from s s' found later cipher q h)
  loaded_again s s' generated later cipher (ok none) q key h =
      go (store.set_secret s master_key_service account generated) refl h
    where
      go :
          (y : Result SecretStoreError S)
          → store.set_secret s master_key_service account generated ≡ y
          → created_key store s generated y ≡ (ok cipher, s')
          → load_or_create store s' account later ≡ (ok cipher, s')
      go (err e) k c = ground arith
      go (ok t) k c =
          subst (λ (x : Loaded). load_or_create store x.1 account later ≡ x) c
            (loaded_from t t generated later (record { key = generated })
              (law.kept s t master_key_service account generated k)
              (stored_key_again t generated key))

  -- With a store that keeps its promises and generated keys of 32 bytes, the key that `load_or_create`
  -- returns, whether it was found or created, is returned again by the next call, which leaves the
  -- store as it is.
  pub load_or_create_again :
      (s s' : S) (generated later : Text) (cipher : EnvelopeCipher)
      → has_key_length generated ≡ true
      → load_or_create store s account generated ≡ (ok cipher, s')
      → load_or_create store s' account later ≡ (ok cipher, s')
  unfolding load_or_create
  load_or_create_again s s' generated later cipher key h =
      loaded_again s s' generated later cipher (store.get_secret s master_key_service account) refl
        key h
