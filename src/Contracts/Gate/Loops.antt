-- ===== src/Contracts/Gate/Loops.antt =====
-- The loops of `evaluate_proofs` after the first: what each accepts.
use ovayra.Prelude.{
  ◌≡◌, refl, inl, inr, true, List, [], ◌∷◌, arith, Bool-cases, ok, >>=-eq-ok, All, Text, contains,
}
use ovayra.Contracts.Ids.{SpikeId, gemini, distribution, spike_eq, spike_eq_sound, spike_eq_refl}
use ovayra.Contracts.Gate.{validate_gemini_relationships, validate_distribution_relationships}
use ovayra.Contracts.Gate.Spec.{GeminiAgrees, DistributionAgrees}
use ovayra.Contracts.Proof.{ProofComponent}
use ovayra.Contracts.Row.{RequiredEvidence}
use ovayra.Contracts.Gate.{
  proof_key, required_components, require_components, require_rows, PhaseZeroProof,
}

require_components_sound :
    (seen : List Text) (row : RequiredEvidence) (cs : List ProofComponent)
    → require_components seen row cs ≡ ok tt
    → All (λ c. contains seen (proof_key row c) ≡ true) cs
unfolding require_components
require_components_sound seen row [] h = tt
require_components_sound seen row (c ∷ cs) h =
    (ground arith, require_components_sound seen row cs (ground arith))

require_components_complete :
    (seen : List Text) (row : RequiredEvidence) (cs : List ProofComponent)
    → All (λ c. contains seen (proof_key row c) ≡ true) cs
    → require_components seen row cs ≡ ok tt
unfolding require_components
require_components_complete seen row [] h = refl
require_components_complete seen row (c ∷ cs) h =
    rw h.0 (require_components_complete seen row cs h.1)

abbrev pub IsCovered : List Text → RequiredEvidence → Type 0
IsCovered seen row = All (λ c. contains seen (proof_key row c) ≡ true) (required_components row)

pub require_rows_sound :
    (seen : List Text) (rows : List RequiredEvidence)
    → require_rows seen rows ≡ ok tt
    → All (IsCovered seen) rows
unfolding require_rows
require_rows_sound seen [] h = tt
require_rows_sound seen (row ∷ rows) h =
    let (_, first, rest) =
      >>=-eq-ok (require_components seen row (required_components row))
        (λ _. require_rows seen rows) h in
    (
      require_components_sound seen row (required_components row) first,
      require_rows_sound seen rows rest,
    )

pub require_rows_complete :
    (seen : List Text) (rows : List RequiredEvidence)
    → All (IsCovered seen) rows
    → require_rows seen rows ≡ ok tt
unfolding require_rows
require_rows_complete seen [] h = refl
require_rows_complete seen (row ∷ rows) h =
    rw (require_components_complete seen row (required_components row) h.0)
      (require_rows_complete seen rows h.1)

spike_test : (a b : SpikeId) → a ≡ b → spike_eq a b ≡ true
spike_test a b e = rw e (spike_eq_refl b)

module _ (proofs : List PhaseZeroProof) where
  pub gemini_relationships_sound :
      (rows : List RequiredEvidence)
      → validate_gemini_relationships proofs rows ≡ ok tt
      → All (GeminiAgrees proofs) rows
  unfolding validate_gemini_relationships
  gemini_relationships_sound [] h = tt
  gemini_relationships_sound (row ∷ rows) h = (
    λ e. ground (arith, spike_test row.id gemini e),
    gemini_relationships_sound rows (ground arith),
  )

  pub gemini_relationships_complete :
      (rows : List RequiredEvidence)
      → All (GeminiAgrees proofs) rows
      → validate_gemini_relationships proofs rows ≡ ok tt
  unfolding validate_gemini_relationships
  gemini_relationships_complete [] h = refl
  gemini_relationships_complete (row ∷ rows) h = elim (Bool-cases (spike_eq row.id gemini)) [
    | inl is ↦
        rw (is, h.0 (spike_eq_sound row.id gemini is)) (gemini_relationships_complete rows h.1)
    | inr not_is ↦ rw not_is (gemini_relationships_complete rows h.1)
  ]

  pub distribution_relationships_sound :
      (rows : List RequiredEvidence)
      → validate_distribution_relationships proofs rows ≡ ok tt
      → All (DistributionAgrees proofs) rows
  unfolding validate_distribution_relationships
  distribution_relationships_sound [] h = tt
  distribution_relationships_sound (row ∷ rows) h = (
    λ e. ground (arith, spike_test row.id distribution e),
    distribution_relationships_sound rows (ground arith),
  )

  pub distribution_relationships_complete :
      (rows : List RequiredEvidence)
      → All (DistributionAgrees proofs) rows
      → validate_distribution_relationships proofs rows ≡ ok tt
  unfolding validate_distribution_relationships
  distribution_relationships_complete [] h = refl
  distribution_relationships_complete (row ∷ rows) h =
      elim (Bool-cases (spike_eq row.id distribution)) [
        | inl is ↦
            rw (is, h.0 (spike_eq_sound row.id distribution is))
              (distribution_relationships_complete rows h.1)
        | inr not_is ↦ rw not_is (distribution_relationships_complete rows h.1)
      ]
