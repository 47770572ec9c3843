-- ===== src/Platform/SecretStore/Memory.antt =====
-- What a secret store promises, and that the store in memory keeps it.
use ovayra.Prelude.{
  ◌≡◌, refl, sym, ap, ◌∙◌, inl, inr, true, false, none, some, List, [], ◌∷◌, arith, if◌then◌else◌,
  Bool-cases, &&-true, Result, ok, err, Text, text_eq, text_eq_sound, text_eq_refl,
}
use ovayra.Platform.SecretStore.{
  SecretStore, SecretStoreError, memory_lock, memory_store, MemorySecretStore, lookup, without,
  is_at, value_of,
}

-- A secret that is set is read back, one of another service or account is left as it was, and one
-- that is deleted is gone.
pub record IsStore {S : Type 0} (store : SecretStore S) : Type 0 where
  pub kept :
      (s s' : S) (service account secret : Text)
      → store.set_secret s service account secret ≡ ok s'
      → store.get_secret s' service account ≡ ok (some secret)
  pub others :
      (s s' : S) (service account secret service' account' : Text)
      → store.set_secret s service account secret ≡ ok s'
      → ¬ ((service ≡ service') × (account ≡ account'))
      → store.get_secret s' service' account' ≡ store.get_secret s service' account'
  pub gone :
      (s s' : S) (service account : Text)
      → store.delete_secret s service account ≡ ok s'
      → store.get_secret s' service account ≡ ok none

module _ (service account : Text) where
  is_at_own : (secret : Text) → is_at service account ((service, account), secret) ≡ true
  unfolding is_at
  is_at_own secret = rw (text_eq_refl service, text_eq_refl account) refl

  lookup_first :
      (secret : Text) (values : List ((Text × Text) × Text))
      → lookup service account (((service, account), secret) ∷ values) ≡ some secret
  unfolding lookup value_of
  lookup_first secret values = rw (is_at_own secret) refl

  lookup-without :
      (values : List ((Text × Text) × Text))
      → lookup service account (without service account values) ≡ none
  unfolding lookup without value_of
  lookup-without [] = refl
  lookup-without (e ∷ values) = elim (Bool-cases (is_at service account e)) [
    | inl here ↦ rw here (lookup-without values)
    | inr away ↦ rw (away, away) (lookup-without values)
  ]

  module _ (service' account' : Text)
      (apart : ¬ ((service ≡ service') × (account ≡ account'))) where
    -- an entry that is removed is not the one looked up
    elsewhere :
        (e : (Text × Text) × Text)
        → is_at service account e ≡ true
        → is_at service' account' e ≡ false
    unfolding is_at
    elsewhere e here = elim (Bool-cases (is_at service' account' e)) [
      | inl there ↦
          let (s₁, a₁) = &&-true (text_eq e.0.0 service) (text_eq e.0.1 account) here in
          let (s₂, a₂) = &&-true (text_eq e.0.0 service') (text_eq e.0.1 account') there in
          absurd (
            apart (
              sym (text_eq_sound e.0.0 service s₁) ∙ text_eq_sound e.0.0 service' s₂,
              sym (text_eq_sound e.0.1 account a₁) ∙ text_eq_sound e.0.1 account' a₂,
            ))
      | inr away ↦ away
    ]

    lookup-without_other :
        (values : List ((Text × Text) × Text))
        → lookup service' account' (without service account values)
          ≡ lookup service' account' values
    unfolding lookup without value_of
    lookup-without_other [] = refl
    lookup-without_other (e ∷ values) = elim (Bool-cases (is_at service account e)) [
      | inl here ↦ rw (here, elsewhere e here) (lookup-without_other values)
      | inr away ↦ elim (Bool-cases (is_at service' account' e)) [
        | inl there ↦ rw (away, there) refl
        | inr not_there ↦ rw (away, not_there) (lookup-without_other values)
      ]
    ]

    lookup_after :
        (secret : Text) (values : List ((Text × Text) × Text))
        → lookup service' account' (((service, account), secret) ∷ without service account values)
          ≡ lookup service' account' values
    unfolding lookup value_of
    lookup_after secret values =
        rw (elsewhere ((service, account), secret) (is_at_own secret)) (lookup-without_other values)

-- an update that succeeds finds the lock whole and leaves it so
updated :
    (m m' : MemorySecretStore) (values : List ((Text × Text) × Text))
    → ◌≡◌ {A = Result SecretStoreError MemorySecretStore}
        (if m.poisoned then err memory_lock else ok (record m { values = values }))
        (ok m')
    → (m.poisoned ≡ false) × (m'.poisoned ≡ false) × (m'.values ≡ values)
updated m m' values h = ground arith

-- The store in memory keeps what a secret store promises: a secret that is set is read back, one of
-- another service or account is left as it was, and one that is deleted is gone.
pub memory_store-IsStore : IsStore memory_store
unfolding memory_store
memory_store-IsStore = record {
  kept = λ s s' service account secret h.
      let (_, whole, now) = updated s s' _ h in
      rw (whole, now) (ap ok (lookup_first service account secret _));
  others = λ s s' service account secret service' account' h apart.
      let (old, whole, now) = updated s s' _ h in
      rw (old, whole, now)
        (ap ok (lookup_after service account service' account' apart secret s.values));
  gone = λ s s' service account h.
      let (_, whole, now) = updated s s' _ h in
      rw (whole, now) (ap ok (lookup-without service account s.values));
}
