-- ===== src/Contracts/Validate.antt =====
-- crates/spike-contracts/src/proof.rs: building a proof record, and its own validation.
use ovayra.Prelude.{
  ℕ, ◌≡◌, refl, ◌↔◌, Bool, true, false, not, ◌||◌, Option, none, some, arith, ◌==◌, if◌then◌else◌,
  Result, ok, err, Text, bytes, text_eq,
}
use ovayra.Contracts.Ids.{preview, media, TargetId}
use ovayra.Contracts.Proof.{
  ProofComponent, preview_proof, media_cpu, media_hardware, media_forced_fallback, gemini_stage,
  gemini_resume, platform_keyring, platform_tray, platform_no_tray, platform_process,
  platform_checkpoint, distribution_ffmpeg, distribution_package, distribution_update, ProofPayload,
  preview_payload, media_cpu_payload, media_hardware_payload, media_forced_fallback_payload,
  gemini_stage_payload, gemini_resume_payload, platform_keyring_payload, platform_tray_payload,
  platform_no_tray_payload, platform_process_payload, platform_checkpoint_payload,
  distribution_ffmpeg_payload, distribution_package_payload, distribution_update_payload,
  PhaseZeroProof, ProofRow, PreviewProof, MediaCpuProof, MediaHardwareProof,
  MediaForcedFallbackProof,
}

-- The JSON error of the third variant comes from the serde library.
pub data ProofError : Type 0 where
  schema : ℕ → ProofError
  component_mismatch : ProofError

-- `phase_zero_session`
unfoldable pub phase_zero_session : TargetId → Option Text
phase_zero_session target =
    if text_eq target.as_str (bytes "macos-arm64-vt")
    then some (bytes "aqua")
    else if text_eq target.as_str (bytes "windows-x64-mf")
        || text_eq target.as_str (bytes "windows-x64-nvidia")
    then some (bytes "windows")
    else if text_eq target.as_str (bytes "linux-x64-vaapi-wayland")
    then some (bytes "wayland")
    else if text_eq target.as_str (bytes "linux-x64-vaapi-x11")
    then some (bytes "x11")
    else none

-- `PhaseZeroProof::record`
unfoldable pub record_proof : ProofComponent → ProofRow → ProofPayload → PhaseZeroProof
record_proof component row payload = record {
  schema_version = 2;
  component = component;
  row = row;
  payload = payload;
}

-- `PhaseZeroProof::preview`
unfoldable pub build_preview : TargetId → Text → PreviewProof → PhaseZeroProof
unfolding phase_zero_session
build_preview target renderer value = record {
  schema_version = 2;
  component = preview_proof;
  row = record {
    spike = preview;
    target = target;
    session = phase_zero_session target;
    backend = none;
  };
  payload = preview_payload (record value { renderer = renderer });
}

media_row : TargetId → Text → ProofRow
media_row target backend = record {
  spike = media;
  target = target;
  session = none;
  backend = some backend;
}

-- `PhaseZeroProof::media_cpu`
unfoldable pub build_media_cpu : TargetId → MediaCpuProof → PhaseZeroProof
unfolding media_row
build_media_cpu target value = record {
  schema_version = 2;
  component = media_cpu;
  row = media_row target (bytes "cpu-fallback");
  payload = media_cpu_payload value;
}

-- `PhaseZeroProof::media_hardware`
unfoldable pub build_media_hardware : TargetId → Text → MediaHardwareProof → PhaseZeroProof
unfolding media_row
build_media_hardware target backend value = record {
  schema_version = 2;
  component = media_hardware;
  row = media_row target backend;
  payload = media_hardware_payload value;
}

-- `PhaseZeroProof::media_forced_fallback`
unfoldable pub build_media_forced_fallback :
    TargetId → Text → MediaForcedFallbackProof → PhaseZeroProof
unfolding media_row
build_media_forced_fallback target backend value = record {
  schema_version = 2;
  component = media_forced_fallback;
  row = media_row target backend;
  payload = media_forced_fallback_payload value;
}

-- the `matches!` of `validate`
pairs_with : ProofComponent → ProofPayload → Bool
pairs_with preview_proof (preview_payload _) = true
pairs_with media_cpu (media_cpu_payload _) = true
pairs_with media_hardware (media_hardware_payload _) = true
pairs_with media_forced_fallback (media_forced_fallback_payload _) = true
pairs_with gemini_stage (gemini_stage_payload _) = true
pairs_with gemini_resume (gemini_resume_payload _) = true
pairs_with platform_keyring (platform_keyring_payload _) = true
pairs_with platform_tray (platform_tray_payload _) = true
pairs_with platform_no_tray (platform_no_tray_payload _) = true
pairs_with platform_process (platform_process_payload _) = true
pairs_with platform_checkpoint (platform_checkpoint_payload _) = true
pairs_with distribution_ffmpeg (distribution_ffmpeg_payload _) = true
pairs_with distribution_package (distribution_package_payload _) = true
pairs_with distribution_update (distribution_update_payload _) = true
pairs_with _ _ = false

-- `PhaseZeroProof::validate`
unfoldable pub validate : PhaseZeroProof → Result ProofError (Unit {0})
unfolding pairs_with
validate proof =
    if not (proof.schema_version == 2)
    then err (schema proof.schema_version)
    else if pairs_with proof.component proof.payload
    then ok tt
    else err component_mismatch

-- The component that a payload's variant is named for.
abbrev pub payload_component : ProofPayload → ProofComponent
payload_component (preview_payload _) = preview_proof
payload_component (media_cpu_payload _) = media_cpu
payload_component (media_hardware_payload _) = media_hardware
payload_component (media_forced_fallback_payload _) = media_forced_fallback
payload_component (gemini_stage_payload _) = gemini_stage
payload_component (gemini_resume_payload _) = gemini_resume
payload_component (platform_keyring_payload _) = platform_keyring
payload_component (platform_tray_payload _) = platform_tray
payload_component (platform_no_tray_payload _) = platform_no_tray
payload_component (platform_process_payload _) = platform_process
payload_component (platform_checkpoint_payload _) = platform_checkpoint
payload_component (distribution_ffmpeg_payload _) = distribution_ffmpeg
payload_component (distribution_package_payload _) = distribution_package
payload_component (distribution_update_payload _) = distribution_update

pairs_with_own : (payload : ProofPayload) → pairs_with (payload_component payload) payload ≡ true
unfolding pairs_with
pairs_with_own (preview_payload _) = refl
pairs_with_own _ = refl

pairs_with_sound :
    (component : ProofComponent) (payload : ProofPayload)
    → pairs_with component payload ≡ true
    → component ≡ payload_component payload
unfolding pairs_with
pairs_with_sound preview_proof (preview_payload _) h = refl
pairs_with_sound component payload h = ground arith

-- A record validates exactly when its schema is version 2 and its component is the one that its
-- payload is named for.
pub validate_iff :
    (proof : PhaseZeroProof)
    → (validate proof ≡ ok tt)
      ↔ ((proof.schema_version ≡ 2) × (proof.component ≡ payload_component proof.payload))
unfolding validate
validate_iff proof = (
  λ h. (ground arith, pairs_with_sound proof.component proof.payload (ground arith)),
  λ h. ground (arith, pairs_with_own proof.payload),
)
