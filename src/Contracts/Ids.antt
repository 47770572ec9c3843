-- ===== src/Contracts/Ids.antt =====
-- crates/spike-contracts/src/evidence.rs: the spike, verdict and target identifiers.
use ovayra.Prelude.{
  ℕ, ◌≡◌, Bool, true, List, [], ◌∷◌, Text, bytes, text_eq, text_eq_sound, contains, ◌==◌,
  if◌then◌else◌, Result, ok, err, arith,
}

pub data SpikeId : Type 0 where
  preview media gemini platform distribution : SpikeId

pub data Verdict : Type 0 where
  pass conditional fail skipped : Verdict

-- The derived equality compares discriminants.
spike_index : SpikeId → ℕ
spike_index preview = 0
spike_index media = 1
spike_index gemini = 2
spike_index platform = 3
spike_index distribution = 4

unfoldable pub spike_eq : SpikeId → SpikeId → Bool
unfolding spike_index
spike_eq a b = spike_index a == spike_index b

pub spike_eq_sound : (a b : SpikeId) → spike_eq a b ≡ true → a ≡ b
unfolding spike_eq
spike_eq_sound a b h = ground arith

pub spike_eq_refl : (a : SpikeId) → spike_eq a a ≡ true
unfolding spike_eq
spike_eq_refl a = ground arith

unfoldable pub spike_id_name : SpikeId → Text
spike_id_name preview = bytes "preview"
spike_id_name media = bytes "media"
spike_id_name gemini = bytes "gemini"
spike_id_name platform = bytes "platform"
spike_id_name distribution = bytes "distribution"

-- `TargetId(String)`; outside its module a value comes only from `target_new`.
pub record TargetId : Type 0 where
  pub as_str : Text

abbrev pub supported_targets : List Text
supported_targets =
    bytes "macos-arm64-vt"
    ∷ bytes "windows-x64-mf"
    ∷ bytes "windows-x64-nvidia"
    ∷ bytes "linux-x64-vaapi-wayland"
    ∷ bytes "linux-x64-vaapi-x11"
    ∷ bytes "linux-x64-nvidia"
    ∷ []

-- `TargetId::new`; the error is `TargetIdError::Unsupported`.
unfoldable pub target_new : Text → Result Text TargetId
target_new value =
    if contains supported_targets value then ok (record { as_str = value }) else err value

unfoldable pub target_eq : TargetId → TargetId → Bool
target_eq a b = text_eq a.as_str b.as_str

pub target_eq_sound : (a b : TargetId) → target_eq a b ≡ true → a ≡ b
unfolding target_eq
target_eq_sound a b h = λ i. record { as_str = text_eq_sound a.as_str b.as_str h i }
