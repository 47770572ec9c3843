-- ===== src/Contracts/Gate/Spec.antt =====
-- What the acceptance gate promises, written without its key strings and its loops.
use ovayra.Prelude.{
  ◌≡◌, ap, subst, inl, inr, true, false, some, List, [], ◌∷◌, Memᴰ, arith, Bool-cases, &&-true,
  find, find_sound, All, text_eq_refl, option_eq_sound, option_eq_refl,
}
use ovayra.Contracts.Ids.{
  gemini, distribution, spike_eq_sound, spike_eq_refl, target_eq, target_eq_sound,
}
use ovayra.Contracts.Proof.{
  ProofComponent, PhaseZeroProof, gemini_stage, gemini_resume, distribution_ffmpeg,
  distribution_package, distribution_update,
}
use ovayra.Contracts.Row.{RequiredEvidence}
use ovayra.Contracts.Typed.{typed_ok}
use ovayra.Contracts.Gate.{
  matches_row, required_components, find_proof, gemini_related, distribution_related, as_stage,
  as_resume, as_ffmpeg, as_package, as_update,
}

-- The matrix row that a proof names.
abbrev pub row_of : PhaseZeroProof → RequiredEvidence
row_of proof = record {
  id = proof.row.spike;
  target = proof.row.target;
  session = proof.row.session;
  backend = proof.row.backend;
}

-- The proof names a row of the matrix, and meets the thresholds of its component in that row.
abbrev pub IsAdmitted : List RequiredEvidence → PhaseZeroProof → Type 0
IsAdmitted required proof =
    Memᴰ (row_of proof) required × (typed_ok (row_of proof) proof.component proof.payload ≡ true)

abbrev pub IsOther : PhaseZeroProof → PhaseZeroProof → Type 0
IsOther p q = ¬ ((row_of q ≡ row_of p) × (q.component ≡ p.component))

-- No two proofs are for the same component of the same row.
abbrev pub IsDistinct : List PhaseZeroProof → Type 0
IsDistinct [] = Unit
IsDistinct (p ∷ ps) = All (IsOther p) ps × IsDistinct ps

-- Every required component of every row has a proof.
abbrev pub IsComplete : List RequiredEvidence → List PhaseZeroProof → Type 0
IsComplete required proofs =
    (row : RequiredEvidence)
    → Memᴰ row required
    → (component : ProofComponent) → Memᴰ component (required_components row)
    → (proof : PhaseZeroProof) × Memᴰ proof proofs
      × (row_of proof ≡ row)
      × (proof.component ≡ component)

-- The first stage and resume proofs of a Gemini row's target agree with each other.
abbrev pub GeminiAgrees : List PhaseZeroProof → RequiredEvidence → Type 0
GeminiAgrees proofs row =
    row.id ≡ gemini
    → gemini_related (as_stage (find_proof proofs gemini_stage row.target))
        (as_resume (find_proof proofs gemini_resume row.target))
      ≡ true

-- So do the first three proofs of a distribution row's target.
abbrev pub DistributionAgrees : List PhaseZeroProof → RequiredEvidence → Type 0
DistributionAgrees proofs row =
    row.id ≡ distribution
    → distribution_related (as_ffmpeg (find_proof proofs distribution_ffmpeg row.target))
        (as_package (find_proof proofs distribution_package row.target))
        (as_update (find_proof proofs distribution_update row.target))
      ≡ true

pub record IsAccepted (required : List RequiredEvidence) (proofs : List PhaseZeroProof)
    : Type 0 where
  pub admitted : All (IsAdmitted required) proofs
  pub distinct : IsDistinct proofs
  pub complete : IsComplete required proofs
  pub distribution_agrees : All (DistributionAgrees proofs) required
  pub gemini_agrees : All (GeminiAgrees proofs) required

-- A row matches a proof exactly when it is the row that the proof names.
pub matches_row_sound :
    (proof : PhaseZeroProof) (row : RequiredEvidence)
    → matches_row proof.row row ≡ true
    → row ≡ row_of proof
unfolding matches_row
matches_row_sound proof row h =
    let (h₃, backend) = &&-true _ _ h in
    let (h₂, session) = &&-true _ _ h₃ in
    let (h₁, target) = &&-true _ _ h₂ in
    λ i. record {
      id = spike_eq_sound row.id proof.row.spike h₁ i;
      target = target_eq_sound row.target proof.row.target target i;
      session = option_eq_sound row.session proof.row.session session i;
      backend = option_eq_sound row.backend proof.row.backend backend i;
    }

pub matches_row_own : (proof : PhaseZeroProof) → matches_row proof.row (row_of proof) ≡ true
unfolding matches_row target_eq
matches_row_own proof = ground (
  arith,
  spike_eq_refl proof.row.spike,
  text_eq_refl proof.row.target.as_str,
  option_eq_refl proof.row.session,
  option_eq_refl proof.row.backend,
)

module _ (proof : PhaseZeroProof) where
  pub find-row_sound :
      (required : List RequiredEvidence) {row : RequiredEvidence}
      → find (matches_row proof.row) required ≡ some row
      → Memᴰ (row_of proof) required × (row ≡ row_of proof)
  find-row_sound required {row} h =
      let (m, test) = find_sound (matches_row proof.row) required {x = row} h in
      let same = matches_row_sound proof row test in (subst (λ r. Memᴰ r required) same m, same)

  pub find-row_complete :
      (required : List RequiredEvidence)
      → Memᴰ (row_of proof) required
      → find (matches_row proof.row) required ≡ some (row_of proof)
  find-row_complete [] m = elim m [ ]
  find-row_complete (r ∷ rs) m = elim (Bool-cases (matches_row proof.row r)) [
    | inl hit ↦ rw hit (ap some (matches_row_sound proof r hit))
    | inr miss ↦ rw miss (find-row_complete rs (later m miss))
  ]
    where
      later :
          Memᴰ (row_of proof) (r ∷ rs) → matches_row proof.row r ≡ false → Memᴰ (row_of proof) rs
      later (Memᴰ.head e) miss =
          cc (miss, subst (λ x. matches_row proof.row x ≡ true) e (matches_row_own proof))
      later (Memᴰ.tail m') miss = m'
