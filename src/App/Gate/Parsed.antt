-- ===== src/App/Gate/Parsed.antt =====
-- The proofs that are read from the files.
use ovayra.Prelude.{
  ◌≡◌, refl, subst, inl, inr, Option, none, some, List, [], ◌∷◌, Option-cases, Result-cases, Text,
}
use ovayra.App.Lint.{VerifiedEvidence}
use ovayra.Contracts.Proof.{PhaseZeroProof}
use ovayra.Contracts.Validate.{validate, payload_component, validate_iff}
use ovayra.App.Gate.{proof_of, SourceEvidence, GateLibraries, sources_of}

-- One source for each file, in order: the proof that its content parses as, which is of version 2
-- with the component of its payload, and the digest of the file.
abbrev pub AreParsed : GateLibraries → List VerifiedEvidence → List SourceEvidence → Type 0
AreParsed libs [] [] = Unit
AreParsed libs (v ∷ vs) (s ∷ ss) =
    (libs.parse_proof v.content ≡ some s.proof)
    × (s.proof.schema_version ≡ 2)
    × (s.proof.component ≡ payload_component s.proof.payload)
    × (s.sha256 ≡ v.sha256)
    × AreParsed libs vs ss
AreParsed libs _ _ = ⊥

proof_of_sound :
    (libs : GateLibraries) (content : Text) (p : PhaseZeroProof)
    → proof_of libs content ≡ some p
    → (libs.parse_proof content ≡ some p)
      × (p.schema_version ≡ 2)
      × (p.component ≡ payload_component p.payload)
unfolding proof_of
proof_of_sound libs content p h = elim (Option-cases (libs.parse_proof content)) [
  | inl absent ↦
      let bad : ◌≡◌ {A = Option PhaseZeroProof} none (some p) = rw (proof_of, absent) at h in
      absurd (cc bad)
  | inr (q, there) ↦ elim (Result-cases (validate q)) [
    | inl (u, valid) ↦
        let k : some q ≡ some p = rw (proof_of, there, valid) at h in
        let same : q ≡ p = cc k in
        let (version, component) = (validate_iff q).0 valid in
        subst
          (λ (x : PhaseZeroProof).
            (libs.parse_proof content ≡ some x)
            × (x.schema_version ≡ 2)
            × (x.component ≡ payload_component x.payload))
          same (there, version, component)
    | inr (e, invalid) ↦
        let bad : ◌≡◌ {A = Option PhaseZeroProof} none (some p) =
          rw (proof_of, there, invalid) at h in
        absurd (cc bad)
  ]
]

pub sources_of_sound :
    (libs : GateLibraries) (vs : List VerifiedEvidence) (ss : List SourceEvidence)
    → sources_of libs vs ≡ some ss
    → AreParsed libs vs ss
unfolding sources_of
sources_of_sound libs [] [] h = tt
sources_of_sound libs [] (s ∷ ss) h = cc h
sources_of_sound libs (v ∷ vs) ss h = elim (Option-cases (proof_of libs v.content)) [
  | inl absent ↦
      let bad : ◌≡◌ {A = Option (List SourceEvidence)} none (some ss) =
        rw (sources_of, absent) at h in
      absurd (cc bad)
  | inr (p, there) ↦ elim (Option-cases (sources_of libs vs)) [
    | inl missing ↦
        let bad : ◌≡◌ {A = Option (List SourceEvidence)} none (some ss) =
          rw (sources_of, there, missing) at h in
        absurd (cc bad)
    | inr (rest, others) ↦
        let k : some (record { proof = p; sha256 = v.sha256 } ∷ rest) ≡ some ss =
          rw (sources_of, there, others) at h in
        let same : record { proof = p; sha256 = v.sha256 } ∷ rest ≡ ss = cc k in
        let (parsed, version, component) = proof_of_sound libs v.content p there in
        subst (AreParsed libs (v ∷ vs)) same
          (parsed, version, component, refl, sources_of_sound libs vs rest others)
  ]
]
