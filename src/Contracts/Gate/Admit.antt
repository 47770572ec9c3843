-- ===== src/Contracts/Gate/Admit.antt =====
-- The first loop of `evaluate_proofs`: what it accepts, and the set of keys that it leaves.
use ovayra.Prelude.{
  ◌≡◌, refl, sym, ap, ◌∙◌, ◌↔◌, ◌⊎◌, inl, inr, true, false, none, some, List, [], ◌∷◌, Memᴰ, arith,
  if◌then◌else◌, Option-cases, Result, ok, err, ◌>>◌, find, All, Text, contains, contains-cons,
  contains_head, contains_tail,
}
use ovayra.Contracts.Proof.{PhaseZeroProof}
use ovayra.Contracts.Row.{
  RequiredEvidence, MatrixError, unmatched_evidence, duplicate_proof_component,
}
use ovayra.Contracts.Typed.{typed_ok, validate_typed_proof}
use ovayra.Contracts.Gate.{matches_row, proof_key, admit}
use ovayra.Contracts.Gate.Spec.{row_of, IsAdmitted, find-row_sound, find-row_complete}

abbrev pub key_of : PhaseZeroProof → Text
key_of proof = proof_key (row_of proof) proof.component

abbrev pub keys_onto : List Text → List PhaseZeroProof → List Text
keys_onto seen [] = seen
keys_onto seen (p ∷ ps) = keys_onto (key_of p ∷ seen) ps

-- No key of the list is in the set before its proof is reached.
abbrev pub IsFresh : List Text → List PhaseZeroProof → Type 0
IsFresh seen [] = Unit
IsFresh seen (p ∷ ps) = (contains seen (key_of p) ≡ false) × IsFresh (key_of p ∷ seen) ps

validate_typed_proof_iff :
    (row : RequiredEvidence) (proof : PhaseZeroProof)
    → (validate_typed_proof row proof ≡ ok tt) ↔ (typed_ok row proof.component proof.payload ≡ true)
unfolding validate_typed_proof
validate_typed_proof_iff row proof = (λ h. ground arith, λ h. ground arith)

module _ (required : List RequiredEvidence) where
  -- what the loop does with a proof that names a row
  abbrev after_find :
      List Text → PhaseZeroProof → List PhaseZeroProof → Result MatrixError (List Text)
  after_find seen p rest =
      if contains seen (key_of p)
      then err duplicate_proof_component
      else do validate_typed_proof (row_of p) p; admit required (key_of p ∷ seen) rest

  admit_found :
      (seen : List Text) (p : PhaseZeroProof) (rest : List PhaseZeroProof)
      → find (matches_row p.row) required ≡ some (row_of p)
      → admit required seen (p ∷ rest) ≡ after_find seen p rest
  unfolding admit
  admit_found seen p rest e = rw e

  admit_lost :
      (seen : List Text) (p : PhaseZeroProof) (rest : List PhaseZeroProof)
      → find (matches_row p.row) required ≡ none
      → admit required seen (p ∷ rest) ≡ err unmatched_evidence
  unfolding admit
  admit_lost seen p rest e = rw e

  admit_step_sound :
      (seen : List Text) (p : PhaseZeroProof) (rest : List PhaseZeroProof) {seen' : List Text}
      → admit required seen (p ∷ rest) ≡ ok seen'
      → IsAdmitted required p
        × (contains seen (key_of p) ≡ false)
        × (admit required (key_of p ∷ seen) rest ≡ ok seen')
  admit_step_sound seen p rest {seen'} h = elim (Option-cases (find (matches_row p.row) required)) [
    | inl lost ↦ cc (admit_lost seen p rest lost)
    | inr (row, found) ↦
        let (m, same) = find-row_sound p required found in
        let h' : after_find seen p rest ≡ ok seen' =
          sym (admit_found seen p rest (found ∙ ap some same)) ∙ h in
        let checked = validate_typed_proof_iff (row_of p) p in
        ((m, ground (arith, checked)), ground arith, ground (arith, checked))
  ]

  pub admit_sound :
      (seen : List Text) (proofs : List PhaseZeroProof) {seen' : List Text}
      → admit required seen proofs ≡ ok seen'
      → All (IsAdmitted required) proofs × IsFresh seen proofs × (seen' ≡ keys_onto seen proofs)
  unfolding admit
  admit_sound seen [] h = (tt, tt, cc)
  admit_sound seen (p ∷ rest) {seen'} h =
      let (ok_p, new, tail) = admit_step_sound seen p rest {seen' = seen'} h in
      let (oks, fresh, keys) = admit_sound (key_of p ∷ seen) rest {seen' = seen'} tail in
      ((ok_p, oks), (new, fresh), keys)

  pub admit_complete :
      (seen : List Text) (proofs : List PhaseZeroProof)
      → All (IsAdmitted required) proofs
      → IsFresh seen proofs
      → admit required seen proofs ≡ ok (keys_onto seen proofs)
  unfolding admit
  admit_complete seen [] oks fresh = refl
  admit_complete seen (p ∷ rest) oks fresh =
      admit_found seen p rest (find-row_complete p required oks.0.0)
      ∙ rw (fresh.0, (validate_typed_proof_iff (row_of p) p).1 oks.0.1)
          (admit_complete (key_of p ∷ seen) rest oks.1 fresh.1)

-- What the set holds at the end: what it held before, and the keys of the proofs.
pub contains-keys_onto :
    (seen : List Text) (proofs : List PhaseZeroProof) (key : Text)
    → contains (keys_onto seen proofs) key ≡ true
    → (contains seen key ≡ true) ⊎ ((p : PhaseZeroProof) × Memᴰ p proofs × (key_of p ≡ key))
contains-keys_onto seen [] key h = inl h
contains-keys_onto seen (p ∷ ps) key h = elim (contains-keys_onto (key_of p ∷ seen) ps key h) [
  | inl first ↦ elim (contains-cons (key_of p) seen key first) [
    | inl e ↦ inr (p, Memᴰ.head refl, e)
    | inr old ↦ inl old
  ]
  | inr (q, m, e) ↦ inr (q, Memᴰ.tail m, e)
]

contains-keys_onto_old :
    (seen : List Text) (proofs : List PhaseZeroProof) (key : Text)
    → contains seen key ≡ true
    → contains (keys_onto seen proofs) key ≡ true
contains-keys_onto_old seen [] key h = h
contains-keys_onto_old seen (p ∷ ps) key h =
    contains-keys_onto_old (key_of p ∷ seen) ps key (contains_tail (key_of p) seen key h)

pub contains-keys_onto_mem :
    (seen : List Text) (proofs : List PhaseZeroProof) {p : PhaseZeroProof}
    → Memᴰ p proofs
    → contains (keys_onto seen proofs) (key_of p) ≡ true
contains-keys_onto_mem seen [] m = elim m [ ]
contains-keys_onto_mem seen (q ∷ qs) {p} (Memᴰ.head e) =
    rw e (contains-keys_onto_old (key_of q ∷ seen) qs (key_of q) (contains_head (key_of q) seen))
contains-keys_onto_mem seen (q ∷ qs) (Memᴰ.tail m) = contains-keys_onto_mem (key_of q ∷ seen) qs m
