-- ===== src/Contracts/Gate/Keys.antt =====
-- The key of a proof determines its row and its component, over a matrix of plain rows.
use ovayra.Prelude.{
  ◌≡◌, refl, sym, ap, subst, inl, inr, true, false, List, [], ◌∷◌, ◌++◌, Memᴰ, arith, All, All-mem,
  All-of_mem, not_true, Text, bytes, contains, contains-cons, contains_head, contains_tail,
}
use ovayra.Contracts.Proof.{ProofComponent, component_as_str, PhaseZeroProof}
use ovayra.Contracts.Row.{RequiredEvidence, bar, required_key}
use ovayra.Contracts.Row.Canonical.{bars, bars-append, IsPlain, required_key-injective}
use ovayra.Contracts.Gate.{proof_key}
use ovayra.Contracts.Gate.Spec.{row_of, IsAdmitted, IsOther, IsDistinct}
use ovayra.Contracts.Gate.Admit.{key_of, IsFresh}

-- A text is cut at its last `|` in one way.
split_at_last_bar :
    (a b r s : Text) → bars r ≡ 0 → bars s ≡ 0 → a ++ (bar ∷ r) ≡ b ++ (bar ∷ s) → (a ≡ b) × (r ≡ s)
unfolding bars
split_at_last_bar [] [] r s hr hs e = (refl, cc)
split_at_last_bar [] (d ∷ b) r s hr hs e =
    let t : r ≡ b ++ (bar ∷ s) = cc in absurd (omega (arith, ap bars t, bars-append b (bar ∷ s)))
split_at_last_bar (c ∷ a) [] r s hr hs e =
    let t : a ++ (bar ∷ r) ≡ s = cc in absurd (omega (arith, ap bars t, bars-append a (bar ∷ r)))
split_at_last_bar (c ∷ a) (d ∷ b) r s hr hs e =
    let (same, rest) = split_at_last_bar a b r s hr hs (cc) in (cc same, rest)

component_bars : (c : ProofComponent) → bars (component_as_str c) ≡ 0
unfolding bars component_as_str bytes
component_bars c = ground arith

component_as_str-injective :
    (c d : ProofComponent) → component_as_str c ≡ component_as_str d → c ≡ d
unfolding component_as_str bytes
component_as_str-injective c d h = ground arith

pub proof_key-injective :
    (row other : RequiredEvidence) (c d : ProofComponent)
    → IsPlain row
    → IsPlain other
    → proof_key row c ≡ proof_key other d
    → (row ≡ other) × (c ≡ d)
unfolding proof_key
proof_key-injective row other c d plain plain' e =
    let (keys, names) =
      split_at_last_bar (required_key row) (required_key other) (component_as_str c)
        (component_as_str d) (component_bars c) (component_bars d) e in
    (
      required_key-injective other row plain' plain.session_named plain.backend_named keys,
      component_as_str-injective c d names,
    )

module _ (required : List RequiredEvidence) (plain : All IsPlain required) where
  key_of-injective :
      (p q : PhaseZeroProof)
      → IsAdmitted required p
      → IsAdmitted required q
      → key_of p ≡ key_of q
      → (row_of p ≡ row_of q) × (p.component ≡ q.component)
  key_of-injective p q admitted admitted' e =
      proof_key-injective (row_of p) (row_of q) p.component q.component
        (All-mem IsPlain required plain admitted.0) (All-mem IsPlain required plain admitted'.0) e

  pub IsFresh-of_IsDistinct :
      (seen : List Text) (proofs : List PhaseZeroProof)
      → All (IsAdmitted required) proofs
      → All (λ p. contains seen (key_of p) ≡ false) proofs
      → IsDistinct proofs
      → IsFresh seen proofs
  IsFresh-of_IsDistinct seen [] oks new d = tt
  IsFresh-of_IsDistinct seen (p ∷ ps) oks new d =
      (new.0, IsFresh-of_IsDistinct (key_of p ∷ seen) ps oks.1 (All-of_mem _ ps later) d.1)
    where
      later : (q : PhaseZeroProof) → Memᴰ q ps → contains (key_of p ∷ seen) (key_of q) ≡ false
      later q m = not_true (contains (key_of p ∷ seen) (key_of q)) λ h.
          elim (contains-cons (key_of p) seen (key_of q) h) [
            | inl e ↦
                let (rows, components) =
                  key_of-injective p q oks.0 (All-mem (IsAdmitted required) ps oks.1 m) e in
                All-mem (IsOther p) ps d.0 m (sym rows, sym components)
            | inr old ↦ cc (old, All-mem (λ x. contains seen (key_of x) ≡ false) ps new.1 m)
          ]

abbrev IsNew : List Text → PhaseZeroProof → Type 0
IsNew seen p = contains seen (key_of p) ≡ false

pub IsDistinct-of_IsFresh :
    (seen : List Text) (proofs : List PhaseZeroProof)
    → IsFresh seen proofs
    → All (IsNew seen) proofs × IsDistinct proofs
IsDistinct-of_IsFresh seen [] fresh = (tt, tt)
IsDistinct-of_IsFresh seen (p ∷ ps) fresh =
    let (new, distinct) = IsDistinct-of_IsFresh (key_of p ∷ seen) ps fresh.1 in
    (
      (
        fresh.0,
        All-of_mem (IsNew seen) ps (λ q m. not_true _ (λ h. cc (
          contains_tail (key_of p) seen (key_of q) h,
          All-mem (IsNew (key_of p ∷ seen)) ps new m,
        ))),
      ),
      (
        All-of_mem (IsOther p) ps
            (λ q m same. other q (All-mem (IsNew (key_of p ∷ seen)) ps new m) same),
        distinct,
      ),
    )
  where
    other : (q : PhaseZeroProof) → IsNew (key_of p ∷ seen) q → IsOther p q
    other q n same =
        let e : key_of q ≡ key_of p = λ i. proof_key (same.0 i) (same.1 i) in
        cc (
          subst (λ k. contains (key_of p ∷ seen) k ≡ true) (sym e) (contains_head (key_of p) seen),
          n,
        )
