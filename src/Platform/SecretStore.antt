-- ===== src/Platform/SecretStore.antt =====
-- crates/spike-platform/src/keyring_store.rs: the trait of secret stores, the store of the operating
-- system over the keyring library, and the store in memory.
pub mod Memory
use ovayra.Prelude.{
  Bool, not, ◌&&◌, Option, none, some, List, ◌∷◌, if◌then◌else◌, Result, ok, err, ◌>>=◌, ◌>>◌,
  map_err, find, keep_if, Text, bytes, text_eq,
}

pub data SecretStoreError : Type 0 where
  unavailable locked rejected memory_lock : SecretStoreError

unfoldable pub category : SecretStoreError → Text
category unavailable = bytes "unavailable"
category locked = bytes "locked"
category rejected = bytes "rejected"
category memory_lock = bytes "memory_lock"

-- The trait. A store's state goes in and out; `get_secret` leaves it.
pub record SecretStore (S : Type 0) : Type 0 where
  pub get_secret : S → (service account : Text) → Result SecretStoreError (Option Text)
  pub set_secret : S → (service account secret : Text) → Result SecretStoreError S
  pub delete_secret : S → (service account : Text) → Result SecretStoreError S

-- The errors of the keyring library that the source tells apart.
pub data KeyringError : Type 0 where
  no_default_store not_supported_by_store platform_failure no_storage_access no_entry
        other_failure :
      KeyringError

-- The keyring library: `Entry::new`, and the operations of an entry.
pub record Keyring (S E : Type 0) : Type 0 where
  pub entry : (service account : Text) → Result KeyringError E
  pub read : S → E → Result KeyringError Text
  pub write : S → E → Text → Result KeyringError S
  pub remove : S → E → Result KeyringError S

unfoldable pub map_error : KeyringError → SecretStoreError
map_error no_default_store = unavailable
map_error not_supported_by_store = unavailable
map_error platform_failure = unavailable
map_error no_storage_access = locked
map_error no_entry = rejected
map_error other_failure = rejected

unfoldable pub map_get_result : Result KeyringError Text → Result SecretStoreError (Option Text)
unfolding map_error
map_get_result (ok value) = ok (some value)
map_get_result (err no_entry) = ok none
map_get_result (err error) = err (map_error error)

map_delete_result : {S : Type 0} → S → Result KeyringError S → Result SecretStoreError S
unfolding map_error
map_delete_result s (ok s') = ok s'
map_delete_result s (err no_entry) = ok s
map_delete_result s (err error) = err (map_error error)

-- `OsSecretStore`
module _ {S E : Type 0} (keyring : Keyring S E) where
  unfoldable pub os_store : SecretStore S
  unfolding map_error map_get_result map_delete_result
  os_store = record {
    get_secret = λ s service account. do
      entry ← map_err map_error (keyring.entry service account)
      map_get_result (keyring.read s entry);
    set_secret = λ s service account secret. do
      entry ← map_err map_error (keyring.entry service account)
      map_err map_error (keyring.write s entry secret);
    delete_secret = λ s service account. do
      entry ← map_err map_error (keyring.entry service account)
      map_delete_result s (keyring.remove s entry);
  }

-- `MemorySecretStore`: the map, and whether its lock is poisoned
pub record MemorySecretStore : Type 0 where
  pub values : List ((Text × Text) × Text)
  pub poisoned : Bool

unfoldable pub is_at : Text → Text → (Text × Text) × Text → Bool
is_at service account e = text_eq e.0.0 service && text_eq e.0.1 account

unfoldable pub value_of : Option ((Text × Text) × Text) → Option Text
value_of none = none
value_of (some e) = some e.1

unfoldable pub lookup : Text → Text → List ((Text × Text) × Text) → Option Text
unfolding is_at value_of
lookup service account values = value_of (find (is_at service account) values)

unfoldable pub without : Text → Text → List ((Text × Text) × Text) → List ((Text × Text) × Text)
unfolding is_at
without service account values = keep_if (λ e. not (is_at service account e)) values

unfoldable pub memory_store : SecretStore MemorySecretStore
unfolding lookup without
memory_store = record {
  get_secret = λ m service account.
      if m.poisoned then err memory_lock else ok (lookup service account m.values);
  set_secret = λ m service account secret.
      if m.poisoned
      then err memory_lock
      else ok
          (record m { values = ((service, account), secret) ∷ without service account m.values });
  delete_secret = λ m service account.
      if m.poisoned
      then err memory_lock
      else ok (record m { values = without service account m.values });
}
