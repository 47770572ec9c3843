-- ===== src/Contracts/Gate.antt =====
-- crates/spike-contracts/src/matrix.rs: `evaluate_proofs`, the acceptance gate over typed proofs.
pub mod Spec
pub mod Admit
pub mod Keys
pub mod Loops
pub mod Decides
pub mod Relations
use ovayra.Prelude.{
  Bool, true, false, not, ◌&&◌, ◌||◌, Option, none, some, List, [], ◌∷◌, ◌++◌, ltb, ◌==◌,
  if◌then◌else◌, Result, ok, err, ◌>>=◌, ◌>>◌, ok_or, find, Text, bytes, text_eq, option_eq,
  contains,
}
use ovayra.Contracts.Ids.{
  SpikeId, preview, media, gemini, platform, distribution, TargetId, spike_eq, target_eq,
}
use ovayra.Contracts.Proof.{
  ProofComponent, preview_proof, media_cpu, media_hardware, media_forced_fallback, gemini_stage,
  gemini_resume, platform_keyring, platform_tray, platform_no_tray, platform_process,
  platform_checkpoint, distribution_ffmpeg, distribution_package, distribution_update,
  gemini_stage_payload, gemini_resume_payload, distribution_ffmpeg_payload,
  distribution_package_payload, distribution_update_payload, PhaseZeroProof, ProofRow,
  GeminiStageProof, GeminiResumeProof, DistributionFfmpegProof, ArtifactDigestProof,
  DistributionPackageProof, DistributionUpdateProof, component_as_str, component_eq,
}
use ovayra.Contracts.Row.{
  RequiredEvidence, PhaseZeroMatrix, MatrixError, requirement, missing_evidence, unmatched_evidence,
  duplicate_proof_component, required_key, bar,
}
use ovayra.Contracts.Typed.{validate_typed_proof, is_sha256}

-- the closure of `find` in `evaluate_proofs`
unfoldable pub matches_row : ProofRow → RequiredEvidence → Bool
matches_row row required =
    spike_eq required.id row.spike
    && target_eq required.target row.target
    && option_eq required.session row.session
    && option_eq required.backend row.backend

-- `format!("{}|{}", required_key(required), component.as_str())`
unfoldable pub proof_key : RequiredEvidence → ProofComponent → Text
proof_key required component = required_key required ++ (bar ∷ component_as_str component)

components_of : SpikeId → Bool → List ProofComponent
components_of preview cpu = preview_proof ∷ []
components_of media true = media_cpu ∷ []
components_of media false = media_hardware ∷ media_forced_fallback ∷ []
components_of gemini cpu = gemini_stage ∷ gemini_resume ∷ []
components_of platform cpu =
    platform_keyring ∷ platform_tray ∷ platform_no_tray ∷ platform_process ∷ platform_checkpoint
    ∷ []
components_of distribution cpu =
    distribution_ffmpeg ∷ distribution_package ∷ distribution_update ∷ []

-- `required_components`
unfoldable pub required_components : RequiredEvidence → List ProofComponent
unfolding components_of
required_components required =
    components_of required.id (option_eq required.backend (some (bytes "cpu-fallback")))

-- The first loop: each proof has a row, is new, and meets its thresholds. `seen` is the set of the
-- keys inserted so far.
pub admit : List RequiredEvidence → List Text → List PhaseZeroProof → Result MatrixError (List Text)
admit required seen [] = ok seen
admit required seen (proof ∷ rest) = do
  row ← ok_or unmatched_evidence (find (matches_row proof.row) required)
  let key = proof_key row proof.component
  if contains seen key
      then err duplicate_proof_component
      else do validate_typed_proof row proof; admit required (key ∷ seen) rest

-- The second loop: no required component of a row is missing.
require_components :
    List Text → RequiredEvidence → List ProofComponent → Result MatrixError (Unit {0})
require_components seen row [] = ok tt
require_components seen row (component ∷ rest) =
    if contains seen (proof_key row component)
    then require_components seen row rest
    else err (missing_evidence (proof_key row component))

pub require_rows : List Text → List RequiredEvidence → Result MatrixError (Unit {0})
unfolding require_components
require_rows seen [] = ok tt
require_rows seen (row ∷ rest) = do
  require_components seen row (required_components row)
  require_rows seen rest

-- `proofs.iter().find(|proof| proof.component == … && proof.row.target == row.target)`
unfoldable pub find_proof : List PhaseZeroProof → ProofComponent → TargetId → Option PhaseZeroProof
find_proof proofs component target =
    find (λ p. component_eq p.component component && target_eq p.row.target target) proofs

-- the patterns of the `let … else`
unfoldable pub as_stage : Option PhaseZeroProof → Option GeminiStageProof
as_stage none = none
as_stage (some p) = elim p.payload [ gemini_stage_payload v ↦ some v | _ ↦ none ]

unfoldable pub as_resume : Option PhaseZeroProof → Option GeminiResumeProof
as_resume none = none
as_resume (some p) = elim p.payload [ gemini_resume_payload v ↦ some v | _ ↦ none ]

unfoldable pub as_ffmpeg : Option PhaseZeroProof → Option DistributionFfmpegProof
as_ffmpeg none = none
as_ffmpeg (some p) = elim p.payload [ distribution_ffmpeg_payload v ↦ some v | _ ↦ none ]

unfoldable pub as_package : Option PhaseZeroProof → Option DistributionPackageProof
as_package none = none
as_package (some p) = elim p.payload [ distribution_package_payload v ↦ some v | _ ↦ none ]

unfoldable pub as_update : Option PhaseZeroProof → Option DistributionUpdateProof
as_update none = none
as_update (some p) = elim p.payload [ distribution_update_payload v ↦ some v | _ ↦ none ]

unfoldable pub gemini_related : Option GeminiStageProof → Option GeminiResumeProof → Bool
gemini_related (some stage) (some resume) = not (
    not (text_eq stage.checkpoint_id resume.checkpoint_id)
    || ltb resume.resumed_offset stage.staged_offset
    || ltb resume.server_offset resume.resumed_offset
    || not resume.server_authoritative)
gemini_related _ _ = true

-- `Vec<ArtifactDigestProof>` compared with `==`
artifacts_eq : List ArtifactDigestProof → List ArtifactDigestProof → Bool
artifacts_eq [] [] = true
artifacts_eq (a ∷ s) (b ∷ t) =
    text_eq a.format b.format
    && text_eq a.sha256 b.sha256
    && (a.length == b.length)
    && artifacts_eq s t
artifacts_eq _ _ = false

unfoldable pub distribution_related :
    Option DistributionFfmpegProof
    → Option DistributionPackageProof
    → Option DistributionUpdateProof
    → Bool
unfolding artifacts_eq
distribution_related (some ffmpeg) (some package_) (some update) = not (
    not (text_eq ffmpeg.source_lock_sha256 package_.source_lock_sha256)
    || not (artifacts_eq package_.artifacts update.artifacts)
    || not (is_sha256 update.manifest_sha256))
distribution_related _ _ _ = true

-- `validate_gemini_relationships`
pub validate_gemini_relationships :
    List PhaseZeroProof → List RequiredEvidence → Result MatrixError (Unit {0})
unfolding as_stage as_resume
validate_gemini_relationships proofs [] = ok tt
validate_gemini_relationships proofs (row ∷ rest) =
    if spike_eq row.id gemini
      && not (
          gemini_related (as_stage (find_proof proofs gemini_stage row.target))
            (as_resume (find_proof proofs gemini_resume row.target)))
    then err (requirement (bytes "gemini stage/resume relationship"))
    else validate_gemini_relationships proofs rest

-- `validate_distribution_relationships`
pub validate_distribution_relationships :
    List PhaseZeroProof → List RequiredEvidence → Result MatrixError (Unit {0})
unfolding as_ffmpeg as_package as_update
validate_distribution_relationships proofs [] = ok tt
validate_distribution_relationships proofs (row ∷ rest) =
    if spike_eq row.id distribution
      && not (
          distribution_related (as_ffmpeg (find_proof proofs distribution_ffmpeg row.target))
            (as_package (find_proof proofs distribution_package row.target))
            (as_update (find_proof proofs distribution_update row.target)))
    then err (requirement (bytes "distribution proof relationships"))
    else validate_distribution_relationships proofs rest

-- `PhaseZeroMatrix::evaluate_proofs`
unfoldable pub evaluate_proofs :
    PhaseZeroMatrix → List PhaseZeroProof → Result MatrixError (Unit {0})
unfolding admit require_rows validate_distribution_relationships validate_gemini_relationships
evaluate_proofs matrix proofs = do
  seen ← admit matrix.required [] proofs
  require_rows seen matrix.required
  validate_distribution_relationships proofs matrix.required
  validate_gemini_relationships proofs matrix.required
