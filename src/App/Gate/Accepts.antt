-- ===== src/App/Gate/Accepts.antt =====
-- What the gate has checked when it accepts.
use ovayra.Prelude.{
  ◌≡◌, refl, sym, ap, subst, ◌≢◌, ◌⊎◌, inl, inr, true, false, Option, none, some, List, [], Result,
  ok, err, Result-cases, all-mem, All, All-of_mem, Text, bytes, text_eq, text_eq_refl,
}
use ovayra.App.Gate.Parsed.{AreParsed, sources_of_sound}
use ovayra.Contracts.Row.{PhaseZeroMatrix, MatrixError, validate_matrix}
use ovayra.Contracts.Row.Canonical.{
  canonical_rows, canonical_plain, IsPlain, is_plain, is_plain_sound,
}
use ovayra.Contracts.Row.Accepts.{validate_matrix_iff}
use ovayra.Contracts.Gate.{evaluate_proofs}
use ovayra.Contracts.Gate.Spec.{IsAccepted}
use ovayra.Contracts.Gate.Decides.{evaluate_proofs_iff}
use ovayra.App.Scan.{Category}
use ovayra.App.Lint.{Node, VerifiedEvidence, lint_verified}
use ovayra.App.Persist.{Persisted, not_persisted, persisted_unsynced, persisted}
use ovayra.App.Gate.{
  reported, SourceEvidence, GateLibraries, GateRun, render_pass_report, write_report, reject,
  sources_of, proofs_of, decided, judged, linted, loaded, started, run_gate, render_no_go_report,
}

canonical_rows-IsPlain : All IsPlain canonical_rows
canonical_rows-IsPlain =
    All-of_mem IsPlain canonical_rows
      (λ r m. is_plain_sound r (all-mem is_plain canonical_rows canonical_plain m))

told_apart : (s t : Text) → text_eq s t ≡ false → s ≢ t
told_apart s t h e =
    let bad : text_eq s t ≡ true = subst (λ x. text_eq s x ≡ true) e (text_eq_refl s) in
    absurd (cc (h, bad))

fail_apart : bytes "PHASE_0_GATE=FAIL" ≢ bytes "PHASE_0_GATE=PASS"
unfolding bytes text_eq
fail_apart = told_apart (bytes "PHASE_0_GATE=FAIL") (bytes "PHASE_0_GATE=PASS") refl

no_go_apart : bytes "PHASE_0_GATE=NO_GO" ≢ bytes "PHASE_0_GATE=PASS"
unfolding bytes text_eq
no_go_apart = told_apart (bytes "PHASE_0_GATE=NO_GO") (bytes "PHASE_0_GATE=PASS") refl

module _ (libs : GateLibraries) (root : Option Node) where
  -- The canonical matrix, and the evidence that was linted, parsed and evaluated against it.
  pub record IsPassed (run : GateRun) : Type 0 where
    pub verified : List VerifiedEvidence
    pub sources : List SourceEvidence
    pub linted_all : lint_verified libs.lint false root ≡ ok verified
    pub parsed_all : AreParsed libs verified sources
    pub evaluated : IsAccepted canonical_rows (proofs_of libs sources)
    pub accepting : run.accepted ≡ true
    pub passing_report :
        run.report ≡ some (render_pass_report (record { required = canonical_rows }) sources)

  -- Neither accepted nor reported as passed on the line that is printed.
  pub record IsRejected (run : GateRun) : Type 0 where
    pub not_accepted : run.accepted ≡ false
    pub not_printed : run.printed ≢ some (bytes "PHASE_0_GATE=PASS")

  -- the two ends of a run
  abbrev pub IsDecided : GateRun → Type 0
  IsDecided run = IsRejected run ⊎ IsPassed run

  reported-IsRejected :
      (p : Persisted) (printed report : Text)
      → printed ≢ bytes "PHASE_0_GATE=PASS"
      → IsRejected (reported p false printed report)
  unfolding reported
  reported-IsRejected not_persisted printed report apart = record {
    not_accepted = refl;
    not_printed = λ e. cc e;
  }
  reported-IsRejected persisted_unsynced printed report apart = record {
    not_accepted = refl;
    not_printed = λ e. cc e;
  }
  reported-IsRejected persisted printed report apart = record {
    not_accepted = refl;
    not_printed = λ e. apart (cc e);
  }

  reject-IsDecided :
      (printed reason : Text) (sources : List SourceEvidence)
      → printed ≢ bytes "PHASE_0_GATE=PASS"
      → IsDecided (reject libs printed reason sources)
  unfolding reject write_report
  reject-IsDecided printed reason sources apart = inl (
      reported-IsRejected (libs.persists (render_no_go_report reason sources)) printed
        (render_no_go_report reason sources) apart)

  reported-IsDecided :
      (p : Persisted) (report : Text)
      → IsPassed (reported persisted true (bytes "PHASE_0_GATE=PASS") report)
      → IsDecided (reported p true (bytes "PHASE_0_GATE=PASS") report)
  unfolding reported
  reported-IsDecided not_persisted report passed =
      inl (record { not_accepted = refl; not_printed = λ e. cc e })
  reported-IsDecided persisted_unsynced report passed =
      inl (record { not_accepted = refl; not_printed = λ e. cc e })
  reported-IsDecided persisted report passed = inr passed

  decided-IsDecided :
      (matrix : PhaseZeroMatrix) (verified : List VerifiedEvidence) (sources : List SourceEvidence)
      (r : Result MatrixError (Unit {0}))
      → matrix.required ≡ canonical_rows
      → lint_verified libs.lint false root ≡ ok verified
      → sources_of libs verified ≡ some sources
      → evaluate_proofs matrix (proofs_of libs sources) ≡ r
      → IsDecided (decided libs matrix sources r)
  unfolding decided write_report reported
  decided-IsDecided matrix verified sources (ok u) canonical lint parse e =
      let same : render_pass_report matrix sources
          ≡ render_pass_report (record { required = canonical_rows }) sources =
        ap (λ rows. render_pass_report (record { required = rows }) sources) canonical in
      let accepted : IsAccepted matrix.required (proofs_of libs sources) =
        (evaluate_proofs_iff matrix (proofs_of libs sources)
            (subst (All IsPlain) (sym canonical) canonical_rows-IsPlain)).0
          e in
      reported-IsDecided (libs.persists (render_pass_report matrix sources))
        (render_pass_report matrix sources)
        (record {
          verified = verified;
          sources = sources;
          linted_all = lint;
          parsed_all = sources_of_sound libs verified sources parse;
          evaluated = subst (λ rows. IsAccepted rows (proofs_of libs sources)) canonical accepted;
          accepting = refl;
          passing_report = ap some same;
        })
  decided-IsDecided matrix verified sources (err x) canonical lint parse e =
      reject-IsDecided _ (libs.error_text x) sources no_go_apart

  judged-IsDecided :
      (matrix : PhaseZeroMatrix) (verified : List VerifiedEvidence)
      (sources : Option (List SourceEvidence))
      → matrix.required ≡ canonical_rows
      → lint_verified libs.lint false root ≡ ok verified
      → sources_of libs verified ≡ sources
      → IsDecided (judged libs matrix sources)
  unfolding judged
  judged-IsDecided matrix verified none canonical lint parse = reject-IsDecided _ _ [] fail_apart
  judged-IsDecided matrix verified (some sources) canonical lint parse =
      decided-IsDecided matrix verified sources (evaluate_proofs matrix (proofs_of libs sources))
        canonical lint parse refl

  linted-IsDecided :
      (matrix : PhaseZeroMatrix) (r : Result Category (List VerifiedEvidence))
      → matrix.required ≡ canonical_rows
      → lint_verified libs.lint false root ≡ r
      → IsDecided (linted libs matrix r)
  unfolding linted
  linted-IsDecided matrix (err x) canonical lint = reject-IsDecided _ _ [] fail_apart
  linted-IsDecided matrix (ok verified) canonical lint =
      judged-IsDecided matrix verified (sources_of libs verified) canonical lint refl

  loaded_sound :
      (read : Option PhaseZeroMatrix) (matrix : PhaseZeroMatrix)
      → loaded libs read ≡ some matrix
      → matrix.required ≡ canonical_rows
  unfolding loaded
  loaded_sound none matrix h = cc h
  loaded_sound (some m) matrix h = elim (Result-cases (validate_matrix m)) [
    | inl (u, valid) ↦
        let k : some m ≡ some matrix = rw (loaded, valid) at h in
        let same : m ≡ matrix = cc k in
        subst (λ (x : PhaseZeroMatrix). x.required ≡ canonical_rows) same
          ((validate_matrix_iff m).0 valid)
    | inr (e, invalid) ↦
        let bad : ◌≡◌ {A = Option PhaseZeroMatrix} none (some matrix) = rw (loaded, invalid) at h in
        absurd (cc bad)
  ]

  started-IsDecided :
      (matrix : Option PhaseZeroMatrix)
      → ((m : PhaseZeroMatrix) → matrix ≡ some m → m.required ≡ canonical_rows)
      → IsDecided (started libs root matrix)
  unfolding started
  started-IsDecided none canonical = reject-IsDecided _ _ [] fail_apart
  started-IsDecided (some m) canonical =
      linted-IsDecided m (lint_verified libs.lint false root) (canonical m refl) refl

  -- A run of the gate has one of two ends. Either it does not accept and does not print that the gate
  -- passed; or it accepts, and then it has linted the whole directory. Every file that the lint
  -- returned parses as a proof of version 2 with the component of its payload, and these proofs, one
  -- for each file, meet the specification of acceptance over the canonical matrix, whatever matrix
  -- file was given. The report that it leaves is the passing one over those proofs and the digests of
  -- their files.
  pub run_gate-IsDecided : (read : Option PhaseZeroMatrix) → IsDecided (run_gate libs root read)
  unfolding run_gate
  run_gate-IsDecided read = started-IsDecided (loaded libs read) (loaded_sound read)
