-- ===== src/Contracts/Proof.antt =====
-- crates/spike-contracts/src/proof.rs: the schema-v2 proof records.
-- `u64`, `u32`, `u16` and `u8` fields are natural numbers; nothing here computes with them.
use ovayra.Prelude.{
  ℕ, zero, suc, ◌≡◌, refl, sym, ap, ◌∙◌, Bool, true, Option, List, arith, ◌==◌, ==_iff, Text, bytes,
}
use ovayra.Contracts.Ids.{SpikeId, TargetId}

pub data ProofComponent : Type 0 where
  preview_proof media_cpu media_hardware media_forced_fallback gemini_stage gemini_resume
        platform_keyring platform_tray platform_no_tray platform_process platform_checkpoint
        distribution_ffmpeg distribution_package distribution_update :
      ProofComponent

unfoldable pub component_as_str : ProofComponent → Text
component_as_str preview_proof = bytes "preview"
component_as_str media_cpu = bytes "media_cpu"
component_as_str media_hardware = bytes "media_hardware"
component_as_str media_forced_fallback = bytes "media_forced_fallback"
component_as_str gemini_stage = bytes "gemini_stage"
component_as_str gemini_resume = bytes "gemini_resume"
component_as_str platform_keyring = bytes "platform_keyring"
component_as_str platform_tray = bytes "platform_tray"
component_as_str platform_no_tray = bytes "platform_no_tray"
component_as_str platform_process = bytes "platform_process"
component_as_str platform_checkpoint = bytes "platform_checkpoint"
component_as_str distribution_ffmpeg = bytes "distribution_ffmpeg"
component_as_str distribution_package = bytes "distribution_package"
component_as_str distribution_update = bytes "distribution_update"

-- The derived equality compares discriminants.
component_index : ProofComponent → ℕ
component_index preview_proof = 0
component_index media_cpu = 1
component_index media_hardware = 2
component_index media_forced_fallback = 3
component_index gemini_stage = 4
component_index gemini_resume = 5
component_index platform_keyring = 6
component_index platform_tray = 7
component_index platform_no_tray = 8
component_index platform_process = 9
component_index platform_checkpoint = 10
component_index distribution_ffmpeg = 11
component_index distribution_package = 12
component_index distribution_update = 13

unfoldable pub component_eq : ProofComponent → ProofComponent → Bool
unfolding component_index
component_eq a b = component_index a == component_index b

of_index : ℕ → ProofComponent
of_index zero = preview_proof
of_index (suc zero) = media_cpu
of_index (suc (suc zero)) = media_hardware
of_index (suc (suc (suc zero))) = media_forced_fallback
of_index (suc (suc (suc (suc zero)))) = gemini_stage
of_index (suc (suc (suc (suc (suc zero))))) = gemini_resume
of_index (suc (suc (suc (suc (suc (suc zero)))))) = platform_keyring
of_index (suc (suc (suc (suc (suc (suc (suc zero))))))) = platform_tray
of_index (suc (suc (suc (suc (suc (suc (suc (suc zero)))))))) = platform_no_tray
of_index (suc (suc (suc (suc (suc (suc (suc (suc (suc zero))))))))) = platform_process
of_index (suc (suc (suc (suc (suc (suc (suc (suc (suc (suc zero)))))))))) = platform_checkpoint
of_index (suc (suc (suc (suc (suc (suc (suc (suc (suc (suc (suc zero))))))))))) =
    distribution_ffmpeg
of_index (suc (suc (suc (suc (suc (suc (suc (suc (suc (suc (suc (suc zero)))))))))))) =
    distribution_package
of_index _ = distribution_update

of_index-index : (c : ProofComponent) → of_index (component_index c) ≡ c
unfolding of_index component_index
of_index-index preview_proof = refl
of_index-index _ = refl

pub component_eq_sound : (a b : ProofComponent) → component_eq a b ≡ true → a ≡ b
unfolding component_eq
component_eq_sound a b h =
    sym (of_index-index a)
    ∙ ap of_index ((==_iff (component_index a) (component_index b)).0 h)
    ∙ of_index-index b

pub component_eq_refl : (a : ProofComponent) → component_eq a a ≡ true
unfolding component_eq
component_eq_refl a = ground arith

pub record ProofRow : Type 0 where
  pub spike : SpikeId
  pub target : TargetId
  pub session : Option Text
  pub backend : Option Text

pub record PreviewProof : Type 0 where
  pub requested_duration_ms : ℕ
  pub measured_duration_ms : ℕ
  pub milli_fps : ℕ
  pub p95_ms : ℕ
  pub rss_growth_mib : ℕ
  pub frames_read : ℕ
  pub frames_applied : ℕ
  pub frames_dropped : ℕ
  pub hidden : Bool
  pub restored : Bool
  pub event_loop_errors : ℕ
  pub stream_errors : ℕ
  pub renderer : Text

pub record MediaCpuProof : Type 0 where
  pub actual_backend : Text
  pub output_duration_seconds : ℕ
  pub video_codec : Text
  pub audio_codec : Text
  pub progress_complete : Bool
  pub output_sha256 : Text

pub record MediaHardwareProof : Type 0 where
  pub requested_backend : Text
  pub actual_backend : Text
  pub output_duration_seconds : ℕ
  pub output_sha256 : Text

pub record MediaForcedFallbackProof : Type 0 where
  pub requested_backend : Text
  pub cpu_restarts : ℕ
  pub session_quarantined : Bool
  pub video_codec : Text
  pub audio_codec : Text
  pub output_sha256 : Text

pub record GeminiStageProof : Type 0 where
  pub checkpoint_id : Text
  pub staged_offset : ℕ
  pub server_offset : ℕ
  pub retry_policy_observed : Bool
  pub chunk_granularity : ℕ
  pub encrypted : Bool
  pub plaintext_absent : Bool

pub record GeminiResumeProof : Type 0 where
  pub checkpoint_id : Text
  pub resumed_offset : ℕ
  pub server_offset : ℕ
  pub server_authoritative : Bool
  pub remote_state : Text
  pub analysis_nonempty : Bool
  pub model : Text
  pub http_status : ℕ
  pub remote_deleted : Bool
  pub checkpoint_deleted : Bool
  pub retry_policy_observed : Bool

pub record PlatformKeyringProof : Type 0 where
  pub set_ok : Bool
  pub get_ok : Bool
  pub delete_ok : Bool
  pub missing_after_delete : Bool

pub record PlatformTrayProof : Type 0 where
  pub hidden : Bool
  pub restored : Bool
  pub quit : Bool

pub record PlatformNoTrayProof : Type 0 where
  pub accessible : Bool
  pub warning_shown : Bool
  pub quit : Bool

pub record PlatformProcessProof : Type 0 where
  pub parent_dead : Bool
  pub grandchild_dead : Bool
  pub elapsed_ms : ℕ

pub record PlatformCheckpointProof : Type 0 where
  pub encrypted : Bool
  pub plaintext_absent : Bool

pub record DistributionFfmpegProof : Type 0 where
  pub immutable_lock : Bool
  pub source_signature : Bool
  pub sbom : Bool
  pub reproducible : Bool
  pub lgpl_only : Bool
  pub source_correspondence : Bool
  pub source_lock_sha256 : Text
  pub bundle_tree_sha256 : Text

pub record ArtifactDigestProof : Type 0 where
  pub format : Text
  pub sha256 : Text
  pub length : ℕ

pub record DistributionPackageProof : Type 0 where
  pub artifacts : List ArtifactDigestProof
  pub source_lock_sha256 : Text
  pub inspection_sha256 : Text
  pub platform_verification : Text
  pub notarization : Option Text

pub record DistributionUpdateProof : Type 0 where
  pub manifest_sha256 : Text
  pub artifacts : List ArtifactDigestProof
  pub updater_format : Text
  pub signature_verification : Text
  pub tamper_rejection : Text

pub data ProofPayload : Type 0 where
  preview_payload : PreviewProof → ProofPayload
  media_cpu_payload : MediaCpuProof → ProofPayload
  media_hardware_payload : MediaHardwareProof → ProofPayload
  media_forced_fallback_payload : MediaForcedFallbackProof → ProofPayload
  gemini_stage_payload : GeminiStageProof → ProofPayload
  gemini_resume_payload : GeminiResumeProof → ProofPayload
  platform_keyring_payload : PlatformKeyringProof → ProofPayload
  platform_tray_payload : PlatformTrayProof → ProofPayload
  platform_no_tray_payload : PlatformNoTrayProof → ProofPayload
  platform_process_payload : PlatformProcessProof → ProofPayload
  platform_checkpoint_payload : PlatformCheckpointProof → ProofPayload
  distribution_ffmpeg_payload : DistributionFfmpegProof → ProofPayload
  distribution_package_payload : DistributionPackageProof → ProofPayload
  distribution_update_payload : DistributionUpdateProof → ProofPayload

pub record PhaseZeroProof : Type 0 where
  pub schema_version : ℕ
  pub component : ProofComponent
  pub row : ProofRow
  pub payload : ProofPayload
