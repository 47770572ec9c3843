-- ===== src/Contracts/Reports/Matching.antt =====
-- What the first loop of `evaluate` finds: each key that it has seen, with its row and report.
use ovayra.Prelude.{
  ◌≡◌, refl, sym, ap, ◌∙◌, subst, ◌⊎◌, inl, inr, Bool, true, not, Option, none, some, List, [], ◌∷◌,
  Memᴰ, arith, Bool-cases, &&-true, Result, ok, err, guard, ok_or, >>=-eq-ok, find, keep_if,
  find_sound, Text, bytes, option_eq_sound, contains, contains-cons,
}
use ovayra.Contracts.Ids.{Verdict, pass, spike_eq_sound, target_eq_sound}
use ovayra.Contracts.Evidence.{Evidence}
use ovayra.Contracts.Row.{
  RequiredEvidence, PhaseZeroMatrix, MatrixError, required_key, requirement, duplicate_evidence,
}
use ovayra.Contracts.Reports.Checks.{measurement_str}
use ovayra.Contracts.Reports.{
  is_pass, validate_required_verdict, is_candidate, has_qualifiers, chosen, no_candidates,
  match_report, Matched, match_reports, unmatched_evidence,
}

-- A report for a row, which passes: it names the row, its verdict is a pass, and its measurements
-- meet the requirements of the row.
pub record IsPassing (row : RequiredEvidence) (report : Evidence) : Type 0 where
  pub same_spike : row.id ≡ report.spike
  pub same_target : row.target ≡ report.target
  pub same_session : row.session ≡ measurement_str report.measurements (bytes "session")
  pub same_backend : row.backend ≡ measurement_str report.measurements (bytes "requested_backend")
  pub passes : report.verdict ≡ some pass

keep_if-mem {ℓ} :
    {A : Type ℓ} (p : A → Bool) (xs : List A) {x : A}
    → Memᴰ x (keep_if p xs)
    → Memᴰ x xs × (p x ≡ true)
keep_if-mem p [] m = elim m [ ]
keep_if-mem p (y ∷ ys) {x} m = elim (Bool-cases (p y)) [
  | inl hit ↦ go (rw hit at m) hit (λ m'. keep_if-mem p ys {x = x} m')
  | inr miss ↦ let (m', e) = keep_if-mem p ys {x = x} (rw miss at m) in (Memᴰ.tail m', e)
]
  where
    go :
        Memᴰ x (y ∷ keep_if p ys)
        → p y ≡ true
        → (Memᴰ x (keep_if p ys) → Memᴰ x ys × (p x ≡ true))
        → Memᴰ x (y ∷ ys) × (p x ≡ true)
    go (Memᴰ.head e) holds rest = (Memᴰ.head e, rw e holds)
    go (Memᴰ.tail m') holds rest = let (m'', e) = rest m' in (Memᴰ.tail m'', e)

module _ (matrix : PhaseZeroMatrix) where
  chosen_sound :
      (report : Evidence) (x : Option RequiredEvidence) {row : RequiredEvidence}
      → chosen report x ≡ ok row
      → x ≡ some row
  unfolding chosen
  chosen_sound report none {row} h = ground arith
  chosen_sound report (some r) {row} h = ground arith

  match_report_sound :
      (report : Evidence) {row : RequiredEvidence}
      → match_report matrix report ≡ ok row
      → Memᴰ row matrix.required
        × (is_candidate report row ≡ true)
        × (has_qualifiers
              (measurement_str report.measurements (bytes "session"))
              (measurement_str report.measurements (bytes "requested_backend"))
              row
            ≡ true)
  unfolding match_report
  match_report_sound report {row} h =
      elim (Bool-cases (no_candidates (keep_if (is_candidate report) matrix.required))) [
        | inl none_there ↦
            let bad : ◌≡◌ {A = Result MatrixError RequiredEvidence} (err unmatched_evidence)
                (ok row) =
              rw none_there at h in
            cc
        | inr some_there ↦
            let test =
              has_qualifiers (measurement_str report.measurements (bytes "session"))
                (measurement_str report.measurements (bytes "requested_backend")) in
            let candidates = keep_if (is_candidate report) matrix.required in
            let c : chosen report (find test candidates) ≡ ok row = rw some_there at h in
            let (m, qualified) =
              find_sound test candidates {x = row} (chosen_sound report (find test candidates) c) in
            let (m', candidate) = keep_if-mem (is_candidate report) matrix.required {x = row} m in
            (m', candidate, qualified)
      ]

  IsPassing-of :
      (row : RequiredEvidence) (report : Evidence)
      → is_candidate report row ≡ true
      → has_qualifiers
          (measurement_str report.measurements (bytes "session"))
          (measurement_str report.measurements (bytes "requested_backend"))
          row
        ≡ true
      → report.verdict ≡ some pass
      → IsPassing row report
  unfolding is_candidate has_qualifiers
  IsPassing-of row report candidate qualified passes =
      let (spikes, targets) = &&-true _ _ candidate in
      let (sessions, backends) = &&-true _ _ qualified in
      record {
        same_spike = spike_eq_sound row.id report.spike spikes;
        same_target = target_eq_sound row.target report.target targets;
        same_session = option_eq_sound row.session _ sessions;
        same_backend = option_eq_sound row.backend _ backends;
        passes = passes;
      }

  verdict_sound :
      (row : RequiredEvidence) (verdict : Verdict)
      → validate_required_verdict matrix row verdict ≡ ok tt
      → verdict ≡ pass
  unfolding validate_required_verdict is_pass
  verdict_sound row verdict h = ground arith

  -- a key that the first loop has seen, with its row and report
  pub record IsEntry (reports : List Evidence) (matched : List (RequiredEvidence × Evidence))
      (key : Text) : Type 0 where
    pub row : RequiredEvidence
    pub report : Evidence
    pub listed : Memᴰ (row, report) matched
    pub named : required_key row ≡ key
    pub in_matrix : Memᴰ row matrix.required
    pub given : Memᴰ report reports
    pub passing : IsPassing row report

  verdict_of :
      (o : Option Verdict) (verdict : Verdict)
      → ok_or (requirement (bytes "finished verdict")) o ≡ ok verdict
      → o ≡ some verdict
  verdict_of none verdict h = cc
  verdict_of (some v) verdict h = cc

  IsEntry-of :
      (seen : List Text) (report : Evidence) (reports : List Evidence) (row : RequiredEvidence)
      (matched : List (RequiredEvidence × Evidence)) (seen' : List Text)
      → Memᴰ row matrix.required
      → IsPassing row report
      → ((key : Text)
          → contains seen' key ≡ true
          → (contains (required_key row ∷ seen) key ≡ true) ⊎ IsEntry reports matched key)
      → (key : Text) → contains seen' key ≡ true
      → (contains seen key ≡ true) ⊎ IsEntry (report ∷ reports) ((row, report) ∷ matched) key
  IsEntry-of seen report reports row matched seen' m passing rest key c = elim (rest key c) [
    | inl known ↦ elim (contains-cons (required_key row) seen key known) [
      | inl own ↦ inr (record {
        row = row;
        report = report;
        listed = Memᴰ.head refl;
        named = own;
        in_matrix = m;
        given = Memᴰ.head refl;
        passing = passing;
      })
      | inr old ↦ inl old
    ]
    | inr e ↦ inr (record {
      row = e.row;
      report = e.report;
      listed = Memᴰ.tail e.listed;
      named = e.named;
      in_matrix = e.in_matrix;
      given = Memᴰ.tail e.given;
      passing = e.passing;
    })
  ]

  pub match_reports_sound :
      (seen : List Text) (reports : List Evidence) {x : Matched}
      → match_reports matrix seen reports ≡ ok x
      → (key : Text) → contains x.1 key ≡ true
      → (contains seen key ≡ true) ⊎ IsEntry reports x.0 key
  unfolding match_reports
  match_reports_sound seen [] {x} h key c =
      let same : ◌≡◌ {A = Matched} ([], seen) x = cc in
      inl (subst (λ (y : Matched). contains y.1 key ≡ true) (sym same) c)
  match_reports_sound seen (report ∷ reports) {x} h key c =
      let (row, matching, h₁) = >>=-eq-ok (match_report matrix report) _ h in
      let (_, fresh, h₂) =
        >>=-eq-ok (guard (not (contains seen (required_key row))) duplicate_evidence) _ h₁ in
      let (verdict, judged, h₃) =
        >>=-eq-ok (ok_or (requirement (bytes "finished verdict")) report.verdict) _ h₂ in
      let (_, passed, h₄) = >>=-eq-ok (validate_required_verdict matrix row verdict) _ h₃ in
      let (rest, tail, last) =
        >>=-eq-ok (match_reports matrix (required_key row ∷ seen) reports) _ h₄ in
      let (m, candidate, qualified) = match_report_sound report {row = row} matching in
      let same : ◌≡◌ {A = Matched} ((row, report) ∷ rest.0, rest.1) x = cc in
      let entry =
        IsEntry-of seen report reports row rest.0 rest.1 m
          (IsPassing-of row report candidate qualified
            (verdict_of report.verdict verdict judged ∙ ap some (verdict_sound row verdict passed)))
          (match_reports_sound (required_key row ∷ seen) reports {x = rest} tail) in
      subst
        (λ (y : Matched).
          contains y.1 key ≡ true → (contains seen key ≡ true) ⊎ IsEntry (report ∷ reports) y.0 key)
        same (entry key) c
