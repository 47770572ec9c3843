-- ===== src/App/Gate.antt =====
-- apps/ovayra-spike/src/gate.rs: the acceptance gate over a directory of evidence, and its report.
-- Reading the matrix file and parsing a proof are library calls in front of the crate's validation.
pub mod Parsed
pub mod Accepts
use ovayra.Prelude.{
  Bool, true, false, not, Option, none, some, List, [], ◌∷◌, ◌++◌, map, Result, ok, err, Text,
  bytes,
}
use ovayra.Contracts.Ids.{SpikeId, preview, media, gemini, platform, distribution}
use ovayra.Contracts.Proof.{component_as_str, PhaseZeroProof}
use ovayra.Contracts.Validate.{validate}
use ovayra.Contracts.Row.{RequiredEvidence, PhaseZeroMatrix, MatrixError, validate_matrix}
use ovayra.Contracts.Gate.{required_components, evaluate_proofs}
use ovayra.App.Persist.{Persisted, not_persisted, persisted_unsynced, persisted}
use ovayra.App.Scan.{Category}
use ovayra.App.Lint.{LintLibraries, Node, VerifiedEvidence, lint_verified}

pub record SourceEvidence : Type 0 where
  pub proof : PhaseZeroProof
  pub sha256 : Text

-- The libraries: the matrix of a file, the proof of a JSON text, an error's text, and whether the
-- report can be written.
pub record GateLibraries : Type 0 where
  pub lint : LintLibraries
  pub parse_proof : Text → Option PhaseZeroProof
  pub error_text : MatrixError → Text
  pub persists : Text → Persisted

-- Whether the gate accepted, the line that it printed, and the report that it wrote.
pub record GateRun : Type 0 where
  pub accepted : Bool
  pub printed : Option Text
  pub report : Option Text

line : Text → Text
line s = s ++ (10 ∷ [])

-- `join(", ")`
joined : List Text → Text
joined [] = []
joined (s ∷ []) = s
joined (s ∷ t ∷ ss) = s ++ (bytes ", " ++ joined (t ∷ ss))

or_dash : Option Text → Text
or_dash none = bytes "-"
or_dash (some s) = s

-- the derived `Debug`
debug_id : SpikeId → Text
debug_id preview = bytes "Preview"
debug_id media = bytes "Media"
debug_id gemini = bytes "Gemini"
debug_id platform = bytes "Platform"
debug_id distribution = bytes "Distribution"

report_row : RequiredEvidence → Text
unfolding line joined or_dash debug_id component_as_str required_components
report_row r = line (
    bytes "| "
    ++ (debug_id r.id
        ++ (bytes " | "
            ++ (r.target.as_str
                ++ (bytes " | "
                    ++ (or_dash r.session
                        ++ (bytes " | "
                            ++ (or_dash r.backend
                                ++ (bytes " | "
                                    ++ (joined (map component_as_str (required_components r))
                                        ++ bytes " |"))))))))))

unfoldable pub concat : List Text → Text
concat [] = []
concat (s ∷ ss) = s ++ concat ss

hash_row : SourceEvidence → Text
unfolding line
hash_row s = line (bytes "| `" ++ (s.sha256 ++ bytes "` |"))

unfoldable pub render_pass_report : PhaseZeroMatrix → List SourceEvidence → Text
unfolding line report_row hash_row concat
render_pass_report matrix sources = concat (
    line (bytes "# Phase 0 Feasibility Report")
    ∷ line []
    ∷ line (bytes "Status: PASS")
    ∷ line []
    ∷ line (bytes "| Spike | Target | Session | Backend | Required components |")
    ∷ line (bytes "| --- | --- | --- | --- | --- |")
    ∷ concat (map report_row matrix.required)
    ∷ line []
    ∷ line (bytes "Evidence inventory (source JSON SHA-256):")
    ∷ line []
    ∷ line (bytes "| Source JSON SHA-256 |")
    ∷ line (bytes "| --- |")
    ∷ concat (map hash_row sources)
    ∷ [])

unfoldable pub render_no_go_report : Text → List SourceEvidence → Text
unfolding line hash_row concat
render_no_go_report reason sources = concat (
    line (bytes "# Phase 0 Feasibility NO-GO")
    ∷ line []
    ∷ line (bytes "Status: NO-GO")
    ∷ line []
    ∷ line (bytes "Gate result: " ++ reason)
    ∷ line []
    ∷ line (
        bytes
          "Locally proven controls: frozen matrix validation, strict evidence schema, bounded redaction lint, and deterministic gate evaluation.")
    ∷ line []
    ∷ line (bytes "Protected evidence not collected:")
    ∷ line []
    ∷ line (bytes "- Six-device preview, hardware media, keyring, tray, and child-process runs.")
    ∷ line (
        bytes
          "- Credentialed Gemini resumable upload, ACTIVE analysis, and remote-file cleanup run.")
    ∷ line
        (bytes "- Native FFmpeg source/keyring/SBOM correspondence and two-clean-build comparison.")
    ∷ line (
        bytes
          "- Native package formats, platform signing, macOS notarization, and update-tamper rejection.")
    ∷ line []
    ∷ line (bytes "Evidence inventory (opaque source hashes only):")
    ∷ line []
    ∷ line (bytes "| Source JSON SHA-256 |")
    ∷ line (bytes "| --- |")
    ∷ concat (map hash_row sources)
    ∷ [])

-- What a run has accepted, printed and left once its report was written, or was not.
unfoldable pub reported : Persisted → (accepted : Bool) → (printed report : Text) → GateRun
reported not_persisted accepted printed report = record {
  accepted = false;
  printed = none;
  report = none;
}
reported persisted_unsynced accepted printed report = record {
  accepted = false;
  printed = none;
  report = some report;
}
reported persisted accepted printed report = record {
  accepted = accepted;
  printed = some printed;
  report = some report;
}

module _ (libs : GateLibraries) where
  -- `write_report_atomic`, and the line printed behind it
  write_report : (accepted : Bool) → (printed : Text) → Text → GateRun
  unfolding reported
  write_report accepted printed report = reported (libs.persists report) accepted printed report

  -- `reject`; the printed line is that of the verdict
  reject : Text → Text → List SourceEvidence → GateRun
  unfolding write_report render_no_go_report
  reject printed reason sources = write_report false printed (render_no_go_report reason sources)

  -- `PhaseZeroProof::from_json`
  proof_of : Text → Option PhaseZeroProof
  proof_of contents = elim (libs.parse_proof contents) [
    | none ↦ none
    | some p ↦ elim (validate p) [ ok _ ↦ some p | err _ ↦ none ]
  ]

  -- the `collect` over the verified evidence
  unfoldable pub sources_of : List VerifiedEvidence → Option (List SourceEvidence)
  unfolding proof_of
  sources_of [] = some []
  sources_of (v ∷ rest) = elim (proof_of v.content) [
    | none ↦ none
    | some p ↦ elim (sources_of rest) [
      | none ↦ none
      | some sources ↦ some (record { proof = p; sha256 = v.sha256 } ∷ sources)
    ]
  ]

  abbrev pub proofs_of : List SourceEvidence → List PhaseZeroProof
  proofs_of sources = map (λ (s : SourceEvidence). s.proof) sources

  decided : PhaseZeroMatrix → List SourceEvidence → Result MatrixError (Unit {0}) → GateRun
  unfolding write_report reject render_pass_report
  decided matrix sources (ok _) =
      write_report true (bytes "PHASE_0_GATE=PASS") (render_pass_report matrix sources)
  decided matrix sources (err e) = reject (bytes "PHASE_0_GATE=NO_GO") (libs.error_text e) sources

  judged : PhaseZeroMatrix → Option (List SourceEvidence) → GateRun
  unfolding decided reject
  judged matrix none = reject (bytes "PHASE_0_GATE=FAIL") (bytes "typed proof parse failed") []
  judged matrix (some sources) = decided matrix sources (evaluate_proofs matrix (proofs_of sources))

  linted : PhaseZeroMatrix → Result Category (List VerifiedEvidence) → GateRun
  unfolding judged sources_of reject
  linted matrix (err _) =
      reject (bytes "PHASE_0_GATE=FAIL")
        (bytes "evidence lint rejected one or more bounded entries") []
  linted matrix (ok verified) = judged matrix (sources_of verified)

  -- `PhaseZeroMatrix::load`
  loaded : Option PhaseZeroMatrix → Option PhaseZeroMatrix
  loaded none = none
  loaded (some matrix) = elim (validate_matrix matrix) [ ok _ ↦ some matrix | err _ ↦ none ]

  started : Option Node → Option PhaseZeroMatrix → GateRun
  unfolding linted reject
  started root none = reject (bytes "PHASE_0_GATE=FAIL") (bytes "matrix validation failed") []
  started root (some matrix) = linted matrix (lint_verified libs.lint false root)

  -- `run`
  unfoldable pub run_gate : Option Node → Option PhaseZeroMatrix → GateRun
  unfolding started loaded
  run_gate root matrix = started root (loaded matrix)
