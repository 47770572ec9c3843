-- ===== src/Contracts/Examples.antt =====
-- The theorems of the contracts at concrete inputs: a Gemini row and its two proofs.
use ovayra.Prelude.{
  ◌≤◌, ◌<◌, ◌≡◌, refl, ◌↔◌, true, false, none, some, List, [], ◌∷◌, Memᴰ, ok, bytes, text_eq,
  option_eq, contains, is_empty,
}
use ovayra.Contracts.Ids.{gemini, TargetId, spike_id_name, spike_eq, target_eq, pass, fail}
use ovayra.Contracts.Proof.{
  ProofComponent, gemini_stage, gemini_resume, gemini_stage_payload, gemini_resume_payload,
  PhaseZeroProof, ProofPayload, GeminiStageProof, GeminiResumeProof, component_eq, component_as_str,
}
use ovayra.Contracts.Typed.{typed_ok, validate_typed_proof}
use ovayra.Contracts.Evidence.{
  null, number, object, natural, field, end, EvidenceDocument, new_evidence, document,
  from_document, from_parts, Evidence, boolean, text,
}
use ovayra.Contracts.Evidence.Redacted.{IsPublishable, from_parts_iff}
use ovayra.Contracts.Evidence.Operations.{
  Call, measured, observed, finished, after_calls, IsClean, recorded, recorded-IsClean,
  document_finished,
}
use ovayra.Contracts.Reports.Checks.{
  measurement, measurement_str, measurement_u64, measurement_bool, meets, is_text, is_number,
  is_true, validate_requirements,
}
use ovayra.Contracts.Reports.{
  evaluate, match_report, validate_required_verdict, is_candidate, has_qualifiers, is_pass,
}
use ovayra.Contracts.Reports.Matching.{IsPassing}
use ovayra.Contracts.Reports.Passes.{evaluate_passes}
use ovayra.Contracts.Row.{RequiredEvidence, PhaseZeroMatrix, validate_matrix, required_key, row_eq}
use ovayra.Contracts.Row.Canonical.{IsPlain, is_plain, is_plain_sound, canonical_rows}
use ovayra.Contracts.Row.Accepts.{validate_matrix_iff}
use ovayra.Contracts.Gate.{
  evaluate_proofs, proof_key, matches_row, required_components, find_proof, as_stage, as_resume,
  gemini_related,
}
use ovayra.Contracts.Gate.Spec.{IsAccepted}
use ovayra.Contracts.Gate.Decides.{evaluate_proofs_iff}
use ovayra.Contracts.Gate.Relations.{gemini_rows_resume}

abbrev mac : TargetId
mac = record { as_str = bytes "macos-arm64-vt" }

abbrev gemini_row : RequiredEvidence
gemini_row = record { id = gemini; target = mac; session = none; backend = none }

abbrev matrix : PhaseZeroMatrix
matrix = record { required = gemini_row ∷ [] }

abbrev stage : GeminiStageProof
stage = record {
  checkpoint_id = bytes "c1";
  staged_offset = 8;
  server_offset = 8;
  retry_policy_observed = true;
  chunk_granularity = 4;
  encrypted = true;
  plaintext_absent = true;
}

abbrev resume : GeminiResumeProof
resume = record {
  checkpoint_id = bytes "c1";
  resumed_offset = 8;
  server_offset = 12;
  server_authoritative = true;
  remote_state = bytes "ACTIVE";
  analysis_nonempty = true;
  model = bytes "gemini-3.1-flash-lite";
  http_status = 200;
  remote_deleted = true;
  checkpoint_deleted = true;
  retry_policy_observed = true;
}

abbrev of_gemini : ProofComponent → ProofPayload → PhaseZeroProof
of_gemini component payload = record {
  schema_version = 2;
  component = component;
  row = record { spike = gemini; target = mac; session = none; backend = none };
  payload = payload;
}

abbrev stage_proof : PhaseZeroProof
stage_proof = of_gemini gemini_stage (gemini_stage_payload stage)

abbrev proofs : List PhaseZeroProof
proofs = stage_proof ∷ of_gemini gemini_resume (gemini_resume_payload resume) ∷ []

gemini_row_plain : is_plain gemini_row ≡ true
unfolding is_plain required_key spike_id_name bytes
gemini_row_plain = refl

gemini_row-IsPlain : IsPlain gemini_row
gemini_row-IsPlain = is_plain_sound gemini_row gemini_row_plain

proofs_accepted : evaluate_proofs matrix proofs ≡ ok tt
unfolding evaluate_proofs typed_ok validate_typed_proof proof_key required_key bytes text_eq
    spike_eq target_eq option_eq contains matches_row required_components find_proof component_eq
    component_as_str spike_id_name as_stage as_resume gemini_related is_empty
proofs_accepted = refl

evaluate_proofs_iff_example :
    (evaluate_proofs matrix proofs ≡ ok tt) ↔ IsAccepted matrix.required proofs
evaluate_proofs_iff_example = evaluate_proofs_iff matrix proofs (gemini_row-IsPlain, tt)

gemini_rows_resume_example :
    (p : PhaseZeroProof) × (q : PhaseZeroProof) × (s : GeminiStageProof) × (r : GeminiResumeProof)
    × Memᴰ p proofs
    × Memᴰ q proofs
    × (p.row.target ≡ mac)
    × (q.row.target ≡ mac)
    × (p.payload ≡ gemini_stage_payload s)
    × (q.payload ≡ gemini_resume_payload r)
    × (s.checkpoint_id ≡ r.checkpoint_id)
    × (0 < s.staged_offset)
    × (s.staged_offset ≤ r.resumed_offset)
    × (r.resumed_offset ≤ r.server_offset)
    × (r.server_authoritative ≡ true)
gemini_rows_resume_example =
    gemini_rows_resume matrix proofs gemini_row (gemini_row-IsPlain, tt) proofs_accepted
      (Memᴰ.head refl) refl

validate_matrix_iff_example : (validate_matrix matrix ≡ ok tt) ↔ (matrix.required ≡ canonical_rows)
validate_matrix_iff_example = validate_matrix_iff matrix

abbrev calls : List Call
calls =
    measured (bytes "fps") (some (object (field (bytes "max") (number (natural 24)) end)))
    ∷ measured (bytes "API_KEY") (some null)
    ∷ observed (bytes "device ready")
    ∷ finished fail 10
    ∷ []

recorded-IsClean_example : IsClean (after_calls (new_evidence gemini mac) calls)
recorded-IsClean_example = recorded-IsClean gemini mac calls

document_finished_example :
    (d : EvidenceDocument) × (document (recorded gemini mac calls pass 20) ≡ ok d)
    × (from_document d ≡ ok (recorded gemini mac calls pass 20))
document_finished_example = document_finished gemini mac calls pass 20

abbrev leaking : EvidenceDocument
leaking = record {
  schema_version = 1;
  spike = gemini;
  target = mac;
  verdict = some pass;
  duration_ms = some 20;
  measurements = (bytes "run", object (field (bytes "upload_url") null end)) ∷ [];
  observations = [];
}

from_parts_iff_example : (from_parts leaking ≡ ok leaking) ↔ IsPublishable leaking
from_parts_iff_example = from_parts_iff leaking

abbrev gemini_report : Evidence
gemini_report = record {
  schema_version = 1;
  spike = gemini;
  target = mac;
  verdict = some pass;
  duration_ms = some 1000;
  measurements =
      (bytes "analysis_nonempty", boolean true)
      ∷ (bytes "checkpoint_cleanup_state", text (bytes "deleted"))
      ∷ (bytes "http_status", number (natural 200))
      ∷ (bytes "model", text (bytes "gemini-3.1-flash-lite"))
      ∷ (bytes "observed_server_offset", number (natural 8))
      ∷ (bytes "offset_mismatch", boolean false)
      ∷ (bytes "remote_cleanup_state", text (bytes "deleted"))
      ∷ [];
  observations = [];
}

report_accepted : evaluate matrix (gemini_report ∷ []) ≡ some (ok tt)
unfolding evaluate match_report validate_required_verdict validate_requirements measurement_str
    measurement_u64 measurement_bool measurement meets is_text is_number is_true is_candidate
    has_qualifiers is_pass row_eq spike_eq target_eq option_eq required_key contains bytes text_eq
    spike_id_name
report_accepted = refl

evaluate_passes_example :
    (report : Evidence) × Memᴰ report (gemini_report ∷ [])
    × IsPassing gemini_row report
    × (validate_requirements gemini_row report ≡ some (ok tt))
evaluate_passes_example =
    evaluate_passes matrix (gemini_report ∷ []) gemini_row (gemini_row-IsPlain, tt) report_accepted
      (Memᴰ.head refl)
