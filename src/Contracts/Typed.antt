-- ===== src/Contracts/Typed.antt =====
-- crates/spike-contracts/src/matrix.rs: the acceptance thresholds for each kind of typed proof.
-- Sums of `u64` counters wrap, as in a build without overflow checks.
use ovayra.Prelude.{
  ◌+◌, ◌%◌, ◌^◌, Bool, false, not, ◌&&◌, Option, none, some, List, [], ◌∷◌, ◌++◌, map, ltb, leb,
  ◌==◌, if◌then◌else◌, Result, ok, err, length, all, Text, bytes, text_eq, text_list_eq, sort,
  option_eq, is_empty, is_ascii_hexdigit,
}
use ovayra.Contracts.Proof.{
  ProofComponent, preview_proof, media_cpu, media_hardware, media_forced_fallback, gemini_stage,
  gemini_resume, platform_keyring, platform_tray, platform_no_tray, platform_process,
  platform_checkpoint, distribution_ffmpeg, distribution_package, distribution_update, ProofPayload,
  preview_payload, media_cpu_payload, media_hardware_payload, media_forced_fallback_payload,
  gemini_stage_payload, gemini_resume_payload, platform_keyring_payload, platform_tray_payload,
  platform_no_tray_payload, platform_process_payload, platform_checkpoint_payload,
  distribution_ffmpeg_payload, distribution_package_payload, distribution_update_payload,
  PhaseZeroProof, PreviewProof, MediaCpuProof, MediaHardwareProof, MediaForcedFallbackProof,
  GeminiStageProof, GeminiResumeProof, DistributionFfmpegProof, ArtifactDigestProof,
  DistributionPackageProof, DistributionUpdateProof, component_as_str,
}
use ovayra.Contracts.Row.{RequiredEvidence, MatrixError, requirement}

-- `sha256`: 64 bytes, each of them a hexadecimal digit
unfoldable pub is_sha256 : Text → Bool
unfolding is_ascii_hexdigit
is_sha256 value = (length value == 64) && all is_ascii_hexdigit value

-- `expected_formats`
unfoldable pub expected_formats : Text → Option (List Text)
expected_formats target =
    if text_eq target (bytes "macos-arm64-vt")
    then some (bytes "app" ∷ bytes "dmg" ∷ [])
    else if text_eq target (bytes "windows-x64-mf")
    then some (bytes "wix" ∷ [])
    else if text_eq target (bytes "linux-x64-vaapi-wayland")
    then some (bytes "appimage" ∷ bytes "deb" ∷ [])
    else none

-- `expected_updater_format`
unfoldable pub expected_updater_format : Text → Option Text
expected_updater_format target =
    if text_eq target (bytes "macos-arm64-vt")
    then some (bytes "app")
    else if text_eq target (bytes "windows-x64-mf")
    then some (bytes "wix")
    else if text_eq target (bytes "linux-x64-vaapi-wayland")
    then some (bytes "appimage")
    else none

-- `exact_artifact_formats`
unfoldable pub exact_artifact_formats : List ArtifactDigestProof → List Text → Bool
exact_artifact_formats artifacts expected =
    text_list_eq (sort (map (λ a. a.format) artifacts)) (sort expected)
    && all (λ a. ltb 0 a.length && is_sha256 a.sha256) artifacts

-- `expected_formats(…).is_some_and(…)`
formats_match : Option (List Text) → List ArtifactDigestProof → Bool
unfolding exact_artifact_formats
formats_match none artifacts = false
formats_match (some expected) artifacts = exact_artifact_formats artifacts expected

-- `package_platform_verified`
package_platform_verified : Text → DistributionPackageProof → Bool
package_platform_verified target value =
    if text_eq target (bytes "macos-arm64-vt")
    then text_eq value.platform_verification (bytes "codesign_notary_staple")
      && option_eq value.notarization (some (bytes "accepted"))
    else if text_eq target (bytes "windows-x64-mf")
    then text_eq value.platform_verification (bytes "authenticode")
      && option_eq value.notarization none
    else if text_eq target (bytes "linux-x64-vaapi-wayland")
    then text_eq value.platform_verification (bytes "minisign") && option_eq value.notarization none
    else false

unfoldable pub preview_ok : PreviewProof → Bool
preview_ok v =
    (v.requested_duration_ms == 120000)
    && leb 120000 v.measured_duration_ms
    && leb 23000 v.milli_fps
    && leb v.milli_fps 25000
    && leb v.p95_ms 100
    && leb v.rss_growth_mib 64
    && ltb 0 v.frames_read
    && ltb 0 v.frames_applied
    && leb ((v.frames_applied + v.frames_dropped) % 2 ^ 64) v.frames_read
    && v.hidden
    && v.restored
    && (v.event_loop_errors == 0)
    && (v.stream_errors == 0)
    && not (is_empty v.renderer)

unfoldable pub media_cpu_ok : MediaCpuProof → Bool
media_cpu_ok v =
    text_eq v.actual_backend (bytes "cpu")
    && leb 10 v.output_duration_seconds
    && text_eq v.video_codec (bytes "vp9")
    && text_eq v.audio_codec (bytes "opus")
    && v.progress_complete
    && is_sha256 v.output_sha256

unfoldable pub media_hardware_ok : RequiredEvidence → MediaHardwareProof → Bool
media_hardware_ok required v =
    option_eq required.backend (some v.requested_backend)
    && text_eq v.actual_backend v.requested_backend
    && leb 10 v.output_duration_seconds
    && is_sha256 v.output_sha256

unfoldable pub media_forced_fallback_ok : RequiredEvidence → MediaForcedFallbackProof → Bool
media_forced_fallback_ok required v =
    option_eq required.backend (some v.requested_backend)
    && (v.cpu_restarts == 1)
    && v.session_quarantined
    && text_eq v.video_codec (bytes "vp9")
    && text_eq v.audio_codec (bytes "opus")
    && is_sha256 v.output_sha256

unfoldable pub gemini_stage_ok : GeminiStageProof → Bool
gemini_stage_ok v =
    not (is_empty v.checkpoint_id)
    && ltb 0 v.staged_offset
    && (v.server_offset == v.staged_offset)
    && v.retry_policy_observed
    && ltb 0 v.chunk_granularity
    && v.encrypted
    && v.plaintext_absent

unfoldable pub gemini_resume_ok : GeminiResumeProof → Bool
gemini_resume_ok v =
    not (is_empty v.checkpoint_id)
    && ltb 0 v.resumed_offset
    && leb v.resumed_offset v.server_offset
    && v.server_authoritative
    && text_eq v.remote_state (bytes "ACTIVE")
    && v.analysis_nonempty
    && text_eq v.model (bytes "gemini-3.1-flash-lite")
    && (v.http_status == 200)
    && v.remote_deleted
    && v.checkpoint_deleted
    && v.retry_policy_observed

distribution_ffmpeg_ok : DistributionFfmpegProof → Bool
distribution_ffmpeg_ok v =
    v.immutable_lock
    && v.source_signature
    && v.sbom
    && v.reproducible
    && v.lgpl_only
    && v.source_correspondence
    && is_sha256 v.source_lock_sha256
    && is_sha256 v.bundle_tree_sha256

distribution_package_ok : RequiredEvidence → DistributionPackageProof → Bool
unfolding formats_match package_platform_verified
distribution_package_ok required v =
    formats_match (expected_formats required.target.as_str) v.artifacts
    && is_sha256 v.source_lock_sha256
    && is_sha256 v.inspection_sha256
    && package_platform_verified required.target.as_str v

distribution_update_ok : RequiredEvidence → DistributionUpdateProof → Bool
unfolding formats_match
distribution_update_ok required v =
    formats_match (expected_formats required.target.as_str) v.artifacts
    && is_sha256 v.manifest_sha256
    && option_eq (expected_updater_format required.target.as_str) (some v.updater_format)
    && text_eq v.signature_verification (bytes "pinned_minisign")
    && text_eq v.tamper_rejection (bytes "updater_and_download")

-- the `match (&proof.component, &proof.proof)`
unfoldable pub typed_ok : RequiredEvidence → ProofComponent → ProofPayload → Bool
unfolding preview_ok media_cpu_ok media_hardware_ok media_forced_fallback_ok gemini_stage_ok
    gemini_resume_ok distribution_ffmpeg_ok distribution_package_ok distribution_update_ok
typed_ok required preview_proof (preview_payload v) = preview_ok v
typed_ok required media_cpu (media_cpu_payload v) = media_cpu_ok v
typed_ok required media_hardware (media_hardware_payload v) = media_hardware_ok required v
typed_ok required media_forced_fallback (media_forced_fallback_payload v) =
    media_forced_fallback_ok required v
typed_ok required gemini_stage (gemini_stage_payload v) = gemini_stage_ok v
typed_ok required gemini_resume (gemini_resume_payload v) = gemini_resume_ok v
typed_ok required platform_keyring (platform_keyring_payload v) =
    v.set_ok && v.get_ok && v.delete_ok && v.missing_after_delete
typed_ok required platform_tray (platform_tray_payload v) = v.hidden && v.restored && v.quit
typed_ok required platform_no_tray (platform_no_tray_payload v) =
    v.accessible && v.warning_shown && v.quit
typed_ok required platform_process (platform_process_payload v) =
    v.parent_dead && v.grandchild_dead && leb v.elapsed_ms 5000
typed_ok required platform_checkpoint (platform_checkpoint_payload v) =
    v.encrypted && v.plaintext_absent
typed_ok required distribution_ffmpeg (distribution_ffmpeg_payload v) = distribution_ffmpeg_ok v
typed_ok required distribution_package (distribution_package_payload v) =
    distribution_package_ok required v
typed_ok required distribution_update (distribution_update_payload v) =
    distribution_update_ok required v
typed_ok _ _ _ = false

-- `validate_typed_proof`
unfoldable pub validate_typed_proof :
    RequiredEvidence → PhaseZeroProof → Result MatrixError (Unit {0})
validate_typed_proof required proof =
    if typed_ok required proof.component proof.payload
    then ok tt
    else err (requirement (bytes "typed " ++ (component_as_str proof.component ++ bytes " proof")))
