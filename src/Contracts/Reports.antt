-- ===== src/Contracts/Reports.antt =====
-- crates/spike-contracts/src/matrix.rs: `evaluate`, the gate over evidence reports.
pub mod Checks
pub mod Matching
pub mod Passes
use ovayra.Prelude.{
  Bool, true, false, not, ◌&&◌, Option, none, some, List, [], ◌∷◌, if◌then◌else◌, Result, ok, err,
  ◌>>=◌, ◌>>◌, guard, ok_or, find, any, keep_if, Text, bytes, option_eq, contains,
}
use ovayra.Contracts.Ids.{Verdict, pass, media, spike_eq, target_eq}
use ovayra.Contracts.Evidence.{Evidence}
use ovayra.Contracts.Row.{
  RequiredEvidence, PhaseZeroMatrix, MatrixError, requirement, missing_evidence, unmatched_evidence,
  required_verdict, missing_required_evidence, duplicate_evidence, missing_actual_backend,
  wrong_backend, row_eq, required_key,
}
use ovayra.Contracts.Reports.Checks.{measurement_str, validate_requirements}

unfoldable pub is_pass : Verdict → Bool
is_pass pass = true
is_pass _ = false

-- `validate_required_verdict`
unfoldable pub validate_required_verdict :
    PhaseZeroMatrix → RequiredEvidence → Verdict → Result MatrixError (Unit {0})
unfolding is_pass
validate_required_verdict matrix entry verdict =
    if not (any (λ row. row_eq row entry) matrix.required)
    then err missing_required_evidence
    else if is_pass verdict
    then ok tt
    else err (required_verdict verdict)

-- the closures of `match_report`
unfoldable pub is_candidate : Evidence → RequiredEvidence → Bool
is_candidate report entry = spike_eq entry.id report.spike && target_eq entry.target report.target

unfoldable pub has_qualifiers : Option Text → Option Text → RequiredEvidence → Bool
has_qualifiers session backend entry =
    option_eq entry.session session && option_eq entry.backend backend

is_some : {A : Type 0} → Option A → Bool
is_some none = false
is_some (some _) = true

no_candidates : List RequiredEvidence → Bool
no_candidates [] = true
no_candidates (_ ∷ _) = false

chosen : Evidence → Option RequiredEvidence → Result MatrixError RequiredEvidence
unfolding is_some
chosen report none =
    if spike_eq report.spike media
      && is_some (measurement_str report.measurements (bytes "requested_backend"))
    then err wrong_backend
    else err unmatched_evidence
chosen report (some candidate) =
    if is_some candidate.backend
      && not (is_some (measurement_str report.measurements (bytes "actual_backend")))
    then err missing_actual_backend
    else ok candidate

-- `match_report`
unfoldable pub match_report : PhaseZeroMatrix → Evidence → Result MatrixError RequiredEvidence
unfolding chosen no_candidates
match_report matrix report =
    let session = measurement_str report.measurements (bytes "session") in
    let backend = measurement_str report.measurements (bytes "requested_backend") in
    let candidates = keep_if (is_candidate report) matrix.required in
    if no_candidates candidates
    then err unmatched_evidence
    else chosen report (find (has_qualifiers session backend) candidates)

-- The first loop of `evaluate`: the keys seen, and each report with its row.
abbrev pub Matched : Type 0
Matched = List (RequiredEvidence × Evidence) × List Text

abbrev matched_first : RequiredEvidence → Evidence → Matched → Matched
matched_first row report (matched, seen) = ((row, report) ∷ matched, seen)

pub match_reports : PhaseZeroMatrix → List Text → List Evidence → Result MatrixError Matched
match_reports matrix seen [] = ok ([], seen)
match_reports matrix seen (report ∷ reports) = do
  row ← match_report matrix report
  guard (not (contains seen (required_key row))) duplicate_evidence
  verdict ← ok_or (requirement (bytes "finished verdict")) report.verdict
  validate_required_verdict matrix row verdict
  rest ← match_reports matrix (required_key row ∷ seen) reports
  ok (matched_first row report rest)

-- The second loop; `none` is the panic of a media row without a backend.
check_reports : List (RequiredEvidence × Evidence) → Option (Result MatrixError (Unit {0}))
check_reports [] = some (ok tt)
check_reports ((row, report) ∷ rest) =
    let later = check_reports rest in
    elim (validate_requirements row report) [
      | none ↦ none
      | some (err e) ↦ some (err e)
      | some (ok u) ↦ later
    ]

-- the third loop
require_reports : List Text → List RequiredEvidence → Result MatrixError (Unit {0})
require_reports seen [] = ok tt
require_reports seen (row ∷ rows) =
    let later = require_reports seen rows in
    if contains seen (required_key row) then later else err (missing_evidence (required_key row))

after_matching :
    PhaseZeroMatrix → Result MatrixError Matched → Option (Result MatrixError (Unit {0}))
unfolding check_reports require_reports
after_matching matrix (err e) = some (err e)
after_matching matrix (ok (matched, seen)) = elim (check_reports matched) [
  | none ↦ none
  | some (err e) ↦ some (err e)
  | some (ok u) ↦ some (require_reports seen matrix.required)
]

-- `PhaseZeroMatrix::evaluate`
unfoldable pub evaluate : PhaseZeroMatrix → List Evidence → Option (Result MatrixError (Unit {0}))
unfolding after_matching match_reports
evaluate matrix reports = after_matching matrix (match_reports matrix [] reports)
