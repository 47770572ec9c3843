-- ===== src/Contracts/Gate/Decides.antt =====
-- `evaluate_proofs` accepts exactly the proof sets of its specification.
use ovayra.Prelude.{
  ◌≡◌, refl, subst, ◌↔◌, inl, inr, true, false, List, [], ok, ◌>>=◌, ◌>>◌, >>=-eq-ok, All, All-mem,
  All-of_mem, Text, contains,
}
use ovayra.Contracts.Proof.{PhaseZeroProof}
use ovayra.Contracts.Row.{RequiredEvidence, PhaseZeroMatrix}
use ovayra.Contracts.Row.Canonical.{IsPlain}
use ovayra.Contracts.Gate.{
  proof_key, required_components, admit, require_rows, validate_gemini_relationships,
  validate_distribution_relationships, evaluate_proofs,
}
use ovayra.Contracts.Gate.Spec.{row_of, IsAdmitted, IsComplete, IsAccepted}
use ovayra.Contracts.Gate.Admit.{
  key_of, keys_onto, admit_sound, admit_complete, contains-keys_onto, contains-keys_onto_mem,
}
use ovayra.Contracts.Gate.Keys.{proof_key-injective, IsFresh-of_IsDistinct, IsDistinct-of_IsFresh}
use ovayra.Contracts.Gate.Loops.{
  IsCovered, require_rows_sound, require_rows_complete, gemini_relationships_sound,
  gemini_relationships_complete, distribution_relationships_sound,
  distribution_relationships_complete,
}

not_in_empty : (key : Text) → contains [] key ≡ false
unfolding contains
not_in_empty key = refl

module _ (required : List RequiredEvidence) (plain : All IsPlain required)
    (proofs : List PhaseZeroProof) where
  -- a covered component was inserted for a proof of that row and component
  IsComplete-of_IsCovered :
      All (IsAdmitted required) proofs
      → All (IsCovered (keys_onto [] proofs)) required
      → IsComplete required proofs
  IsComplete-of_IsCovered admitted covered row m component c =
      elim (contains-keys_onto [] proofs (proof_key row component) inserted) [
        | inl old ↦ cc (old, not_in_empty (proof_key row component))
        | inr (p, mp, e) ↦
            let (rows, components) =
              proof_key-injective (row_of p) row p.component component
                (All-mem IsPlain required plain
                  (All-mem (IsAdmitted required) proofs admitted mp).0)
                (All-mem IsPlain required plain m) e in
            (p, mp, rows, components)
      ]
    where
      inserted : contains (keys_onto [] proofs) (proof_key row component) ≡ true
      inserted =
          All-mem (λ d. contains (keys_onto [] proofs) (proof_key row d) ≡ true)
            (required_components row) (All-mem (IsCovered (keys_onto [] proofs)) required covered m)
            c

  IsCovered-of_IsComplete :
      IsComplete required proofs → All (IsCovered (keys_onto [] proofs)) required
  IsCovered-of_IsComplete complete = All-of_mem (IsCovered (keys_onto [] proofs)) required λ row m.
      All-of_mem _ (required_components row) λ component c.
        let (p, mp, rows, components) = complete row m component c in
        subst (λ k. contains (keys_onto [] proofs) k ≡ true)
          (λ i. proof_key (rows i) (components i)) (contains-keys_onto_mem [] proofs {p = p} mp)

  rows_sound :
      (do
        seen ← admit required [] proofs
        require_rows seen required
        validate_distribution_relationships proofs required
        validate_gemini_relationships proofs required)
        ≡ ok tt
      → IsAccepted required proofs
  rows_sound h =
      let (seen, first, h₁) = >>=-eq-ok (admit required [] proofs) _ h in
      let (_, second, h₂) = >>=-eq-ok (require_rows seen required) _ h₁ in
      let (_, third, fourth) =
        >>=-eq-ok (validate_distribution_relationships proofs required) _ h₂ in
      let (admitted, fresh, keys) = admit_sound required [] proofs {seen' = seen} first in
      let covered = require_rows_sound seen required second in
      record {
        admitted = admitted;
        distinct = (IsDistinct-of_IsFresh [] proofs fresh).1;
        complete =
            IsComplete-of_IsCovered admitted (subst (λ s. All (IsCovered s) required) keys covered);
        distribution_agrees = distribution_relationships_sound proofs required third;
        gemini_agrees = gemini_relationships_sound proofs required fourth;
      }

  rows_complete :
      IsAccepted required proofs
      → (do
        seen ← admit required [] proofs
        require_rows seen required
        validate_distribution_relationships proofs required
        validate_gemini_relationships proofs required)
        ≡ ok tt
  rows_complete a =
      rw
        (
          admit_complete required [] proofs a.admitted (
              IsFresh-of_IsDistinct required plain [] proofs a.admitted
                (All-of_mem _ proofs (λ p m. not_in_empty (key_of p))) a.distinct),
          require_rows_complete (keys_onto [] proofs) required (IsCovered-of_IsComplete a.complete),
          distribution_relationships_complete proofs required a.distribution_agrees,
        )
        (gemini_relationships_complete proofs required a.gemini_agrees)

-- Over a matrix of plain rows, the gate accepts a list of proofs exactly when each proof names a
-- row of the matrix and meets the thresholds of its component, no two proofs are for the same
-- component of the same row, every required component of every row has a proof, and the Gemini and
-- distribution proofs of each row agree with each other.
pub evaluate_proofs_iff :
    (matrix : PhaseZeroMatrix) (proofs : List PhaseZeroProof)
    → All IsPlain matrix.required
    → (evaluate_proofs matrix proofs ≡ ok tt) ↔ IsAccepted matrix.required proofs
unfolding evaluate_proofs
evaluate_proofs_iff matrix proofs plain =
    (rows_sound matrix.required plain proofs, rows_complete matrix.required plain proofs)
