-- ===== src/Contracts/Gate/Relations.antt =====
-- What an accepted set of proofs says of one row: the Gemini resume and the distribution proofs.
use ovayra.Prelude.{
  ◌≤◌, ◌<◌, ◌≡◌, refl, sym, ap, ◌∙◌, subst, inl, inr, Bool, true, false, ◌&&◌, some, List, [], ◌∷◌,
  Memᴰ, arith, Bool-cases, &&-true, ok, find, find_sound, All, All-mem, text_eq_sound, text_eq_refl,
}
use ovayra.Contracts.Ids.{target_eq, target_eq_sound}
use ovayra.Contracts.Proof.{
  ProofComponent, PhaseZeroProof, ProofPayload, component_eq, component_eq_sound, component_eq_refl,
  gemini_stage, gemini_resume, gemini_stage_payload, gemini_resume_payload, GeminiStageProof,
  GeminiResumeProof,
}
use ovayra.Contracts.Row.{RequiredEvidence}
use ovayra.Contracts.Typed.{typed_ok, gemini_stage_ok, gemini_resume_ok}
use ovayra.Contracts.Gate.{
  find_proof, required_components, PhaseZeroMatrix, as_resume, as_stage, gemini, gemini_related,
  evaluate_proofs,
}
use mathlib.Core.Path.{ap₂}
use ovayra.Contracts.Row.Canonical.{IsPlain}
use ovayra.Contracts.Gate.Decides.{evaluate_proofs_iff}
use ovayra.Contracts.Gate.Spec.{GeminiAgrees, row_of, IsAdmitted, IsAccepted}

-- `find` succeeds where some item passes.
find_mem {ℓ} :
    {A : Type ℓ} (p : A → Bool) (xs : List A) {x : A}
    → Memᴰ x xs
    → p x ≡ true
    → (y : A) × (find p xs ≡ some y)
find_mem p [] m h = elim m [ ]
find_mem p (y ∷ ys) {x} m h = elim (Bool-cases (p y)) [
  | inl hit ↦ (y, rw hit)
  | inr miss ↦ let (z, e) = find_mem p ys {x = x} (later m miss) h in (z, rw miss e)
]
  where
    later : Memᴰ x (y ∷ ys) → p y ≡ false → Memᴰ x ys
    later (Memᴰ.head e) miss = cc (miss, h, e)
    later (Memᴰ.tail m') miss = m'

stage_payload :
    (row : RequiredEvidence) (payload : ProofPayload)
    → typed_ok row gemini_stage payload ≡ true
    → (v : GeminiStageProof) × (payload ≡ gemini_stage_payload v) × (gemini_stage_ok v ≡ true)
unfolding typed_ok
stage_payload row (gemini_stage_payload v) h = (v, refl, h)
stage_payload row payload h = cc

resume_payload :
    (row : RequiredEvidence) (payload : ProofPayload)
    → typed_ok row gemini_resume payload ≡ true
    → (v : GeminiResumeProof) × (payload ≡ gemini_resume_payload v) × (gemini_resume_ok v ≡ true)
unfolding typed_ok
resume_payload row (gemini_resume_payload v) h = (v, refl, h)
resume_payload row payload h = cc

module _ (required : List RequiredEvidence) (proofs : List PhaseZeroProof)
    (a : IsAccepted required proofs) (row : RequiredEvidence) (m : Memᴰ row required) where
  -- The relationship checks find a proof of each required component, for the row's target.
  found :
      (c : ProofComponent)
      → Memᴰ c (required_components row)
      → (p : PhaseZeroProof) × (find_proof proofs c row.target ≡ some p)
        × Memᴰ p proofs
        × (p.component ≡ c)
        × (p.row.target ≡ row.target)
        × IsAdmitted required p
  unfolding find_proof target_eq
  found c mc =
      let (q, mq, rows, components) = a.complete row m c mc in
      let test =
        λ (p : PhaseZeroProof). component_eq p.component c && target_eq p.row.target row.target in
      let (p, e) = find_mem test proofs {x = q} mq (passes q rows components) in
      let (mp, h) = find_sound test proofs {x = p} e in
      let (hc, ht) = &&-true (component_eq p.component c) (target_eq p.row.target row.target) h in
      (
        p,
        e,
        mp,
        component_eq_sound p.component c hc,
        target_eq_sound p.row.target row.target ht,
        All-mem (IsAdmitted required) proofs a.admitted mp,
      )
    where
      passes :
          (q : PhaseZeroProof)
          → row_of q ≡ row
          → q.component ≡ c
          → (component_eq q.component c && target_eq q.row.target row.target) ≡ true
      passes q rows components =
          rw (components, component_eq_refl c, ap (λ (r : RequiredEvidence). r.target) rows)
            (text_eq_refl row.target.as_str)

gemini_components :
    (row : RequiredEvidence)
    → row.id ≡ gemini
    → required_components row ≡ gemini_stage ∷ gemini_resume ∷ []
unfolding required_components
gemini_components row e = ground arith

stage_of :
    (p : PhaseZeroProof) (s : GeminiStageProof)
    → p.payload ≡ gemini_stage_payload s
    → as_stage (some p) ≡ some s
unfolding as_stage
stage_of p s e = rw (e, as_stage)

resume_of :
    (p : PhaseZeroProof) (r : GeminiResumeProof)
    → p.payload ≡ gemini_resume_payload r
    → as_resume (some p) ≡ some r
unfolding as_resume
resume_of p r e = rw (e, as_resume)

gemini_related_sound :
    (s : GeminiStageProof) (r : GeminiResumeProof)
    → gemini_stage_ok s ≡ true
    → gemini_related (some s) (some r) ≡ true
    → (s.checkpoint_id ≡ r.checkpoint_id)
      × (0 < s.staged_offset)
      × (s.staged_offset ≤ r.resumed_offset)
      × (r.resumed_offset ≤ r.server_offset)
      × (r.server_authoritative ≡ true)
unfolding gemini_related gemini_stage_ok
gemini_related_sound s r hs h = (
  text_eq_sound s.checkpoint_id r.checkpoint_id (ground arith),
  ground arith,
  ground arith,
  ground arith,
  ground arith,
)

-- In an accepted set of proofs over a matrix of plain rows, every Gemini row has a stage proof and a
-- resume proof for its target that share one checkpoint: the upload resumes at or behind the staged offset, which is not 0, the
-- server has received at least what was resumed, and the server's offset was authoritative.
pub gemini_rows_resume :
    (matrix : PhaseZeroMatrix) (proofs : List PhaseZeroProof) (row : RequiredEvidence)
    → All IsPlain matrix.required
    → evaluate_proofs matrix proofs ≡ ok tt
    → Memᴰ row matrix.required
    → row.id ≡ gemini
    → (stage : PhaseZeroProof) × (resume : PhaseZeroProof) × (s : GeminiStageProof)
      × (r : GeminiResumeProof) × Memᴰ stage proofs
      × Memᴰ resume proofs
      × (stage.row.target ≡ row.target)
      × (resume.row.target ≡ row.target)
      × (stage.payload ≡ gemini_stage_payload s)
      × (resume.payload ≡ gemini_resume_payload r)
      × (s.checkpoint_id ≡ r.checkpoint_id)
      × (0 < s.staged_offset)
      × (s.staged_offset ≤ r.resumed_offset)
      × (r.resumed_offset ≤ r.server_offset)
      × (r.server_authoritative ≡ true)
gemini_rows_resume matrix proofs row plain accepted m is_gemini =
    let a = (evaluate_proofs_iff matrix proofs plain).0 accepted in
    let components = gemini_components row is_gemini in
    let (p, fp, mp, cp, tp, ap_) =
      found matrix.required proofs a row m gemini_stage
        (subst (Memᴰ gemini_stage) (sym components) (Memᴰ.head refl)) in
    let (q, fq, mq, cq, tq, aq) =
      found matrix.required proofs a row m gemini_resume
        (subst (Memᴰ gemini_resume) (sym components) (Memᴰ.tail (Memᴰ.head refl))) in
    let (s, es, hs) =
      stage_payload (row_of p) p.payload
        (subst (λ c. typed_ok (row_of p) c p.payload ≡ true) cp ap_.1) in
    let (r, er, hr) =
      resume_payload (row_of q) q.payload
        (subst (λ c. typed_ok (row_of q) c q.payload ≡ true) cq aq.1) in
    let agree = All-mem (GeminiAgrees proofs) matrix.required a.gemini_agrees m is_gemini in
    let related : gemini_related (some s) (some r) ≡ true =
      sym
        (ap₂ gemini_related (ap as_stage fp ∙ stage_of p s es) (ap as_resume fq ∙ resume_of q r er))
      ∙ agree in
    let (same, staged, resumed, received, authority) = gemini_related_sound s r hs related in
    (p, q, s, r, mp, mq, tp, tq, es, er, same, staged, resumed, received, authority)
