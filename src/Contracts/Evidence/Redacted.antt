-- ===== src/Contracts/Evidence/Redacted.antt =====
-- What validation finds: no forbidden marker in any name, at any depth, or in any observation.
use ovayra.Prelude.{
  ◌≡◌, refl, ◌≢◌, ◌↔◌, inl, inr, false, ◌||◌, Option, none, some, List, [], ◌∷◌, ◌++◌, arith, ◌==◌,
  ==_iff, Bool-cases, Result, ok, err, ◌>>◌, >>=-eq-ok, All, All-append, Text,
}
use ovayra.Contracts.Evidence.{
  Value, Values, Fields, null, boolean, number, text, array, object, nil, cons, end, field,
  contains_forbidden_marker, validate_field_name, validate_measurement_value, validate_values,
  validate_fields, EvidenceDocument, from_parts, validate_measurements, validate_observations,
  is_none, EvidenceError, unsupported_schema_version, unfinished,
}

-- The names of all objects in a value, at any depth.
unfoldable mutual
  pub names_of : Value → List Text
  names_of (array values) = names_of_values values
  names_of (object fields) = names_of_fields fields
  names_of _ = []

  pub names_of_values : Values → List Text
  names_of_values nil = []
  names_of_values (cons value values) = names_of value ++ names_of_values values

  pub names_of_fields : Fields → List Text
  names_of_fields end = []
  names_of_fields (field name value fields) = name ∷ (names_of value ++ names_of_fields fields)

abbrev pub IsAllowed : Text → Type 0
IsAllowed t = contains_forbidden_marker t ≡ false

unfoldable pub names_of_measurements : List (Text × Value) → List Text
unfolding names_of
names_of_measurements [] = []
names_of_measurements ((name, value) ∷ rest) = name ∷ (names_of value ++ names_of_measurements rest)

-- Nothing in the measurements' names, in the names inside their values, or in the observations holds
-- a forbidden marker.
abbrev pub IsRedacted : List (Text × Value) → List Text → Type 0
IsRedacted measurements observations =
    All IsAllowed (names_of_measurements measurements) × All IsAllowed observations

pub All-split : (xs ys : List Text) → All IsAllowed (xs ++ ys) → All IsAllowed xs × All IsAllowed ys
All-split [] ys h = (tt, h)
All-split (x ∷ xs) ys (a, h) = let (l, r) = All-split xs ys h in ((a, l), r)

pub field_name_sound : (name : Text) → validate_field_name name ≡ ok tt → IsAllowed name
unfolding validate_field_name
field_name_sound name h = ground arith

field_name_complete : (name : Text) → IsAllowed name → validate_field_name name ≡ ok tt
unfolding validate_field_name
field_name_complete name h = rw h refl

mutual
  unfolding validate_measurement_value names_of

  pub value_sound : (v : Value) → validate_measurement_value v ≡ ok tt → All IsAllowed (names_of v)
  value_sound (array values) h = values_sound values h
  value_sound (object fields) h = fields_sound fields h
  value_sound _ h = tt

  values_sound : (vs : Values) → validate_values vs ≡ ok tt → All IsAllowed (names_of_values vs)
  values_sound nil h = tt
  values_sound (cons v vs) h =
      let (_, first, rest) = >>=-eq-ok (validate_measurement_value v) (λ _. validate_values vs) h in
      All-append IsAllowed (names_of v) (names_of_values vs) (value_sound v first)
        (values_sound vs rest)

  fields_sound : (fs : Fields) → validate_fields fs ≡ ok tt → All IsAllowed (names_of_fields fs)
  fields_sound end h = tt
  fields_sound (field name v fs) h =
      let (_, allowed, h₁) =
        >>=-eq-ok (validate_field_name name)
          (λ _. validate_measurement_value v >> validate_fields fs) h in
      let (_, first, rest) =
        >>=-eq-ok (validate_measurement_value v) (λ _. validate_fields fs) h₁ in
      (
        field_name_sound name allowed,
        All-append IsAllowed (names_of v) (names_of_fields fs) (value_sound v first)
            (fields_sound fs rest),
      )

mutual
  unfolding validate_measurement_value names_of

  value_complete : (v : Value) → All IsAllowed (names_of v) → validate_measurement_value v ≡ ok tt
  value_complete (array values) h = values_complete values h
  value_complete (object fields) h = fields_complete fields h
  value_complete null h = refl
  value_complete (boolean _) h = refl
  value_complete (number _) h = refl
  value_complete (text _) h = refl

  values_complete : (vs : Values) → All IsAllowed (names_of_values vs) → validate_values vs ≡ ok tt
  values_complete nil h = refl
  values_complete (cons v vs) h =
      let (first, rest) = All-split (names_of v) (names_of_values vs) h in
      rw (value_complete v first) (values_complete vs rest)

  fields_complete : (fs : Fields) → All IsAllowed (names_of_fields fs) → validate_fields fs ≡ ok tt
  fields_complete end h = refl
  fields_complete (field name v fs) (allowed, h) =
      let (first, rest) = All-split (names_of v) (names_of_fields fs) h in
      rw (field_name_complete name allowed, value_complete v first) (fields_complete fs rest)

measurements_sound :
    (ms : List (Text × Value))
    → validate_measurements ms ≡ ok tt
    → All IsAllowed (names_of_measurements ms)
unfolding validate_measurements names_of_measurements
measurements_sound [] h = tt
measurements_sound ((name, v) ∷ ms) h =
    let (_, allowed, h₁) =
      >>=-eq-ok (validate_field_name name)
        (λ _. validate_measurement_value v >> validate_measurements ms) h in
    let (_, first, rest) =
      >>=-eq-ok (validate_measurement_value v) (λ _. validate_measurements ms) h₁ in
    (
      field_name_sound name allowed,
      All-append IsAllowed (names_of v) (names_of_measurements ms) (value_sound v first)
          (measurements_sound ms rest),
    )

measurements_complete :
    (ms : List (Text × Value))
    → All IsAllowed (names_of_measurements ms)
    → validate_measurements ms ≡ ok tt
unfolding validate_measurements names_of_measurements
measurements_complete [] h = refl
measurements_complete ((name, v) ∷ ms) (allowed, h) =
    let (first, rest) = All-split (names_of v) (names_of_measurements ms) h in
    rw (field_name_complete name allowed, value_complete v first) (measurements_complete ms rest)

observations_sound : (os : List Text) → validate_observations os ≡ ok tt → All IsAllowed os
unfolding validate_observations
observations_sound [] h = tt
observations_sound (o ∷ os) h = (ground arith, observations_sound os (ground arith))

observations_complete : (os : List Text) → All IsAllowed os → validate_observations os ≡ ok tt
unfolding validate_observations
observations_complete [] h = refl
observations_complete (o ∷ os) (allowed, h) = rw allowed (observations_complete os h)

-- A document that can be written and read: version 1, finished, and redacted.
pub record IsPublishable (d : EvidenceDocument) : Type 0 where
  pub version : d.schema_version ≡ 1
  pub judged : d.verdict ≢ none
  pub timed : d.duration_ms ≢ none
  pub redacted : IsRedacted d.measurements d.observations

present : {A : Type 0} (o : Option A) → (is_none o ≡ false) ↔ (o ≢ none)
unfolding is_none
present none = (λ h. cc, λ h. absurd (h refl))
present (some a) = (λ h e. cc, λ h. refl)

from_parts_sound : (d d' : EvidenceDocument) → from_parts d ≡ ok d' → IsPublishable d × (d ≡ d')
unfolding from_parts
from_parts_sound d d' h = elim (Bool-cases (d.schema_version == 1)) [
  | inr other ↦
      let bad : ◌≡◌ {A = Result EvidenceError EvidenceDocument}
          (err (unsupported_schema_version d.schema_version)) (ok d') =
        rw other at h in
      cc
  | inl one ↦ elim (Bool-cases (is_none d.verdict || is_none d.duration_ms)) [
    | inl open_end ↦
        let bad : ◌≡◌ {A = Result EvidenceError EvidenceDocument} (err unfinished) (ok d') =
          rw (one, open_end) at h in
        cc
    | inr finished ↦
        let tail : (validate_measurements d.measurements
              >> (validate_observations d.observations >> ok d))
            ≡ ok d' =
          rw (one, finished) at h in
        let (_, measured, h₁) = >>=-eq-ok (validate_measurements d.measurements) _ tail in
        let (_, observed, last) = >>=-eq-ok (validate_observations d.observations) _ h₁ in
        (
          record {
            version = (==_iff d.schema_version 1).0 one;
            judged = (present d.verdict).0 (ground arith);
            timed = (present d.duration_ms).0 (ground arith);
            redacted = (
              measurements_sound d.measurements measured,
              observations_sound d.observations observed,
            );
          },
          cc,
        )
  ]
]

from_parts_complete : (d : EvidenceDocument) → IsPublishable d → from_parts d ≡ ok d
unfolding from_parts
from_parts_complete d p =
    rw
      (
        (==_iff d.schema_version 1).1 p.version,
        (present d.verdict).1 p.judged,
        (present d.duration_ms).1 p.timed,
        measurements_complete d.measurements p.redacted.0,
        observations_complete d.observations p.redacted.1,
      )
      refl

-- Documents are written and read exactly if they are of version 1, have a verdict and a duration, and
-- hold no forbidden marker in the name of a measurement, in a name at any depth of its value, or in
-- an observation; they are then left as they are.
pub from_parts_iff : (d : EvidenceDocument) → (from_parts d ≡ ok d) ↔ IsPublishable d
from_parts_iff d = (λ h. (from_parts_sound d d h).0, from_parts_complete d)
