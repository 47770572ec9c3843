-- ===== src/Contracts/Evidence/Operations.antt =====
-- Recording keeps a record free of forbidden markers, so that a finished record can be written.
use ovayra.Prelude.{
  ℕ, ◌≡◌, refl, ap, ◌∙◌, subst, inl, inr, Option, List, [], ◌∷◌, Bool-cases, Result, ok, err,
  >>=-eq-ok, All, All-append, Text, text_eq, text_lt,
}
use ovayra.Contracts.Ids.{SpikeId, Verdict, TargetId}
use ovayra.Contracts.Evidence.{
  Value, contains_forbidden_marker, EvidenceError, validate_field_name, validate_measurement_value,
  Evidence, EvidenceDocument, new_evidence, insert, serialized, checked_value, stored, measure,
  observe_evidence, finish, from_parts, parts_of, document, from_document, of_parts,
}
use ovayra.Contracts.Evidence.Redacted.{
  names_of, IsAllowed, names_of_measurements, IsRedacted, All-split, field_name_sound, value_sound,
  IsPublishable, from_parts_iff,
}

-- A call that changes a record.
pub data Call : Type 0 where
  measured : Text → Option Value → Call
  observed : Text → Call
  finished : Verdict → ℕ → Call

-- the record after a call, whatever the call returned
unfoldable pub after_call : Evidence → Call → Evidence
after_call e (measured name value) = (measure e name value).1
after_call e (observed observation) = (observe_evidence e observation).1
after_call e (finished verdict duration_ms) = finish e verdict duration_ms

unfoldable pub after_calls : Evidence → List Call → Evidence
after_calls e [] = e
after_calls e (call ∷ calls) = after_calls (after_call e call) calls

abbrev pub IsClean : Evidence → Type 0
IsClean e = (e.schema_version ≡ 1) × IsRedacted e.measurements e.observations

insert-IsAllowed :
    (name : Text) (v : Value) (ms : List (Text × Value))
    → IsAllowed name
    → All IsAllowed (names_of v)
    → All IsAllowed (names_of_measurements ms)
    → All IsAllowed (names_of_measurements (insert name v ms))
unfolding insert names_of_measurements
insert-IsAllowed name v [] a av h = (a, All-append IsAllowed (names_of v) [] av tt)
insert-IsAllowed name v ((n, v') ∷ ms) a av (an, h) = elim (Bool-cases (text_eq name n)) [
  | inl same ↦ rw same (
    a,
    All-append IsAllowed (names_of v) (names_of_measurements ms) av
        (All-split (names_of v') (names_of_measurements ms) h).1,
  )
  | inr other ↦ elim (Bool-cases (text_lt name n)) [
    | inl before ↦ rw (other, before) (a, All-append IsAllowed (names_of v) _ av (an, h))
    | inr behind ↦
        let (hv, hm) = All-split (names_of v') (names_of_measurements ms) h in
        rw (other, behind)
          (an, All-append IsAllowed (names_of v') _ hv (insert-IsAllowed name v ms a av hm))
  ]
]

checked_value_sound :
    (name : Text) (to_value : Option Value) (v : Value)
    → checked_value name to_value ≡ ok v
    → IsAllowed name × All IsAllowed (names_of v)
unfolding checked_value
checked_value_sound name to_value v h =
    let (_, allowed, h₁) = >>=-eq-ok (validate_field_name name) _ h in
    let (x, from, h₂) = >>=-eq-ok (serialized to_value) _ h₁ in
    let (_, valid, last) = >>=-eq-ok (validate_measurement_value x) _ h₂ in
    let same : x ≡ v = cc in
    (
      field_name_sound name allowed,
      subst (λ y. All IsAllowed (names_of y)) same (value_sound x valid),
    )

measure-IsClean :
    (e : Evidence) (name : Text) (to_value : Option Value)
    → IsClean e
    → IsClean (measure e name to_value).1
unfolding measure stored
measure-IsClean e name to_value (version, (ms, os)) = go (checked_value name to_value) refl
  where
    go :
        (x : Result EvidenceError Value)
        → checked_value name to_value ≡ x
        → IsClean (stored e name x).1
    go (err error) k = (version, (ms, os))
    go (ok v) k =
        let (a, av) = checked_value_sound name to_value v k in
        (version, (insert-IsAllowed name v e.measurements a av ms, os))

observe-IsClean :
    (e : Evidence) (observation : Text) → IsClean e → IsClean (observe_evidence e observation).1
unfolding observe_evidence
observe-IsClean e observation (version, (ms, os)) =
    elim (Bool-cases (contains_forbidden_marker observation)) [
      | inl marked ↦ rw marked (version, (ms, os))
      | inr allowed ↦
          rw allowed
            (version, (ms, All-append IsAllowed e.observations (observation ∷ []) os (allowed, tt)))
    ]

after_call-IsClean : (e : Evidence) (call : Call) → IsClean e → IsClean (after_call e call)
unfolding after_call finish
after_call-IsClean e (measured name value) h = measure-IsClean e name value h
after_call-IsClean e (observed observation) h = observe-IsClean e observation h
after_call-IsClean e (finished verdict duration_ms) h = h

after_calls-IsClean : (e : Evidence) (calls : List Call) → IsClean e → IsClean (after_calls e calls)
unfolding after_calls
after_calls-IsClean e [] h = h
after_calls-IsClean e (call ∷ calls) h =
    after_calls-IsClean (after_call e call) calls (after_call-IsClean e call h)

-- Whatever is measured and observed on a new record, and however often it is finished, accepted or
-- not, the record holds no forbidden marker in a name or an observation.
pub recorded-IsClean :
    (spike : SpikeId) (target : TargetId) (calls : List Call)
    → IsClean (after_calls (new_evidence spike target) calls)
unfolding new_evidence names_of_measurements
recorded-IsClean spike target calls =
    after_calls-IsClean (new_evidence spike target) calls (refl, (tt, tt))

-- a new record after some calls, finished
abbrev pub recorded : SpikeId → TargetId → List Call → Verdict → ℕ → Evidence
recorded spike target calls verdict duration_ms =
    finish (after_calls (new_evidence spike target) calls) verdict duration_ms

document_of :
    (e : Evidence) → from_parts (parts_of e) ≡ ok (parts_of e) → document e ≡ ok (parts_of e)
unfolding document
document_of e h = h

from_document_at : (d : EvidenceDocument) → from_parts d ≡ ok d → from_document d ≡ ok (of_parts d)
unfolding from_document
from_document_at d h = rw h refl

of_parts-parts_of : (e : Evidence) → of_parts (parts_of e) ≡ e
unfolding of_parts parts_of
of_parts-parts_of e = refl

recorded-IsPublishable :
    (e : Evidence) (verdict : Verdict) (duration_ms : ℕ)
    → IsClean e
    → IsPublishable (parts_of (finish e verdict duration_ms))
unfolding parts_of finish
recorded-IsPublishable e verdict duration_ms (version, (ms, os)) = record {
  version = version;
  judged = λ h. cc;
  timed = λ h. cc;
  redacted = (ms, os);
}

-- A record that is finished after any calls can be written as a document, and the document reads
-- back as the record.
pub document_finished :
    (spike : SpikeId) (target : TargetId) (calls : List Call) (verdict : Verdict) (duration_ms : ℕ)
    → (d : EvidenceDocument) × (document (recorded spike target calls verdict duration_ms) ≡ ok d)
      × (from_document d ≡ ok (recorded spike target calls verdict duration_ms))
document_finished spike target calls verdict duration_ms =
    let e = recorded spike target calls verdict duration_ms in
    let written = (from_parts_iff (parts_of e)).1 (
      recorded-IsPublishable (after_calls (new_evidence spike target) calls) verdict duration_ms
        (recorded-IsClean spike target calls)) in
    (
      parts_of e,
      document_of e written,
      from_document_at (parts_of e) written ∙ ap ok (of_parts-parts_of e),
    )
