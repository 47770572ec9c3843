-- ===== src/Contracts/Reports/Passes.antt =====
-- What the acceptance of evidence reports says of each row of the matrix.
use ovayra.Prelude.{
  ◌≡◌, refl, ap, ◌∙◌, subst, inl, inr, true, false, Option, none, some, List, [], ◌∷◌, Memᴰ, arith,
  Result, ok, err, All, All-mem, Text, contains,
}
use ovayra.Contracts.Evidence.{Evidence}
use ovayra.Contracts.Row.{RequiredEvidence, PhaseZeroMatrix, MatrixError, required_key}
use ovayra.Contracts.Row.Canonical.{IsPlain, required_key-injective}
use ovayra.Contracts.Reports.Checks.{validate_requirements}
use ovayra.Contracts.Reports.{
  Matched, match_reports, check_reports, require_reports, after_matching, evaluate,
}
use ovayra.Contracts.Reports.Matching.{IsPassing, match_reports_sound}

nothing_seen : (key : Text) → contains [] key ≡ false
unfolding contains
nothing_seen key = refl

module _ (matrix : PhaseZeroMatrix) where
  check_reports_sound :
      (matched : List (RequiredEvidence × Evidence)) {row : RequiredEvidence} {report : Evidence}
      → check_reports matched ≡ some (ok tt)
      → Memᴰ (row, report) matched
      → validate_requirements row report ≡ some (ok tt)
  unfolding check_reports
  check_reports_sound [] h m = elim m [ ]
  check_reports_sound ((r, p) ∷ rest) {row} {report} h m =
      go (validate_requirements r p) refl h m
        (λ k m'. check_reports_sound rest {row = row} {report = report} k m')
    where
      go :
          (o : Option (Result MatrixError (Unit {0})))
          → validate_requirements r p ≡ o
          → elim o [ none ↦ none | some (err e) ↦ some (err e) | some (ok u) ↦ check_reports rest ]
            ≡ some (ok tt)
          → Memᴰ (row, report) ((r, p) ∷ rest)
          → (check_reports rest ≡ some (ok tt)
              → Memᴰ (row, report) rest
              → validate_requirements row report ≡ some (ok tt))
          → validate_requirements row report ≡ some (ok tt)
      go none e k m' next = cc
      go (some (err x)) e k m' next = cc
      go (some (ok u)) e k (Memᴰ.head same) next =
          ap (λ (y : RequiredEvidence × Evidence). validate_requirements y.0 y.1) same ∙ e
      go (some (ok u)) e k (Memᴰ.tail m') next = next k m'

  require_reports_sound :
      (seen : List Text) (rows : List RequiredEvidence) {row : RequiredEvidence}
      → require_reports seen rows ≡ ok tt
      → Memᴰ row rows
      → contains seen (required_key row) ≡ true
  unfolding require_reports
  require_reports_sound seen [] h m = elim m [ ]
  require_reports_sound seen (r ∷ rows) {row} h (Memᴰ.head e) = rw e (ground arith)
  require_reports_sound seen (r ∷ rows) {row} h (Memᴰ.tail m) =
      require_reports_sound seen rows {row = row} (ground arith) m

  -- the second and third loops succeed
  checked_and_required :
      (matched : List (RequiredEvidence × Evidence)) (seen : List Text)
      → after_matching matrix (ok (matched, seen)) ≡ some (ok tt)
      → (check_reports matched ≡ some (ok tt)) × (require_reports seen matrix.required ≡ ok tt)
  unfolding after_matching
  checked_and_required matched seen h = go (check_reports matched) h
    where
      go :
          (o : Option (Result MatrixError (Unit {0})))
          → elim o [
            | none ↦ none
            | some (err e) ↦ some (err e)
            | some (ok u) ↦ some (require_reports seen matrix.required)
          ]
            ≡ some (ok tt)
          → (o ≡ some (ok tt)) × (require_reports seen matrix.required ≡ ok tt)
      go none k = cc
      go (some (err e)) k = cc
      go (some (ok tt)) k = (refl, cc)

  matched_row :
      (reports : List Evidence) (row : RequiredEvidence)
      → All IsPlain matrix.required
      → Memᴰ row matrix.required
      → (y : Result MatrixError Matched) → match_reports matrix [] reports ≡ y
      → after_matching matrix y ≡ some (ok tt)
      → (report : Evidence) × Memᴰ report reports
        × IsPassing row report
        × (validate_requirements row report ≡ some (ok tt))
  unfolding after_matching
  matched_row reports row plain m (err e) q h = cc
  matched_row reports row plain m (ok (matched, seen)) q h =
      let (checks, needs) = checked_and_required matched seen h in
      let known = require_reports_sound seen matrix.required {row = row} needs m in
      elim (match_reports_sound matrix [] reports {x = (matched, seen)} q (required_key row)
        known) [
          | inl old ↦ cc (old, nothing_seen (required_key row))
          | inr e ↦
              let other = All-mem IsPlain matrix.required plain e.in_matrix in
              let same : e.row ≡ row =
                required_key-injective row e.row (All-mem IsPlain matrix.required plain m)
                  other.session_named other.backend_named e.named in
              (
                e.report,
                e.given,
                subst (λ r. IsPassing r e.report) same e.passing,
                subst (λ r. validate_requirements r e.report ≡ some (ok tt)) same
                    (check_reports_sound matched {row = e.row} {report = e.report} checks e.listed),
              )
        ]

-- When `evaluate` accepts the reports for a matrix of plain rows, each row has a report among them
-- that names the row, has a pass as its verdict, and meets the requirements of the row.
pub evaluate_passes :
    (matrix : PhaseZeroMatrix) (reports : List Evidence) (row : RequiredEvidence)
    → All IsPlain matrix.required
    → evaluate matrix reports ≡ some (ok tt)
    → Memᴰ row matrix.required
    → (report : Evidence) × Memᴰ report reports
      × IsPassing row report
      × (validate_requirements row report ≡ some (ok tt))
unfolding evaluate
evaluate_passes matrix reports row plain h m =
    matched_row matrix reports row plain m (match_reports matrix [] reports) refl h
