-- ===== src/Contracts/Evidence.antt =====
-- crates/spike-contracts/src/evidence.rs: evidence records, and the markers that they must not hold.
--
-- A JSON value is that of serde_json; an object's fields and the measurements stand in the order of
-- their names, as in a `BTreeMap`. Turning a value into JSON and printing a document are library calls.
pub mod Redacted
pub mod Operations
use ovayra.Prelude.{
  ℕ, Bool, true, false, not, ◌||◌, Option, none, some, List, [], ◌∷◌, ◌++◌, ◌==◌, if◌then◌else◌,
  Result, ok, err, ◌>>=◌, ◌>>◌, any, Text, bytes, text_eq, text_lt, has_infix, to_ascii_lowercase,
}
use ovayra.Contracts.Ids.{SpikeId, Verdict, TargetId}

-- `serde_json::Number`: a natural number, a negative one (`negative n` is -(n + 1)), or a decimal text
pub data Number : Type 0 where
  natural negative : ℕ → Number
  decimal : Text → Number

mutual
  -- `serde_json::Value`
  pub data Value : Type 0 where
    null : Value
    boolean : Bool → Value
    number : Number → Value
    text : Text → Value
    array : Values → Value
    object : Fields → Value

  pub data Values : Type 0 where
    nil : Values
    cons : Value → Values → Values

  pub data Fields : Type 0 where
    end : Fields
    field : Text → Value → Fields → Fields

-- `FORBIDDEN`
abbrev pub forbidden : List Text
forbidden =
    bytes "api_key"
    ∷ bytes "token"
    ∷ bytes "secret"
    ∷ bytes "password"
    ∷ bytes "upload_url"
    ∷ bytes "prompt"
    ∷ bytes "result"
    ∷ bytes "media_path"
    ∷ bytes "file_name"
    ∷ []

unfoldable pub contains_forbidden_marker : Text → Bool
contains_forbidden_marker value = any (has_infix (to_ascii_lowercase value)) forbidden

-- The variant for errors of serde_json has its own error left out.
pub data EvidenceError : Type 0 where
  sensitive_field sensitive_observation : Text → EvidenceError
  unfinished : EvidenceError
  unsupported_schema_version : ℕ → EvidenceError
  json : EvidenceError

unfoldable pub validate_field_name : Text → Result EvidenceError (Unit {0})
validate_field_name name =
    if contains_forbidden_marker name then err (sensitive_field name) else ok tt

-- `validate_measurement_value`, with its two loops
mutual
  pub validate_measurement_value : Value → Result EvidenceError (Unit {0})
  validate_measurement_value (array values) = validate_values values
  validate_measurement_value (object fields) = validate_fields fields
  validate_measurement_value _ = ok tt

  validate_values : Values → Result EvidenceError (Unit {0})
  validate_values nil = ok tt
  validate_values (cons value values) = validate_measurement_value value >> validate_values values

  validate_fields : Fields → Result EvidenceError (Unit {0})
  validate_fields end = ok tt
  validate_fields (field name value fields) =
      validate_field_name name >> (validate_measurement_value value >> validate_fields fields)

-- `Evidence`; `EvidenceDocument` has the same fields
pub record Evidence : Type 0 where
  pub schema_version : ℕ
  pub spike : SpikeId
  pub target : TargetId
  pub verdict : Option Verdict
  pub duration_ms : Option ℕ
  pub measurements : List (Text × Value)
  pub observations : List Text

pub record EvidenceDocument : Type 0 where
  pub schema_version : ℕ
  pub spike : SpikeId
  pub target : TargetId
  pub verdict : Option Verdict
  pub duration_ms : Option ℕ
  pub measurements : List (Text × Value)
  pub observations : List Text

-- `Evidence::new`
unfoldable pub new_evidence : SpikeId → TargetId → Evidence
new_evidence spike target = record {
  schema_version = 1;
  spike = spike;
  target = target;
  verdict = none;
  duration_ms = none;
  measurements = [];
  observations = [];
}

-- `BTreeMap::insert`
unfoldable pub insert : Text → Value → List (Text × Value) → List (Text × Value)
insert name value [] = (name, value) ∷ []
insert name value ((n, v) ∷ rest) =
    let later = insert name value rest in
    if text_eq name n
    then (name, value) ∷ rest
    else if text_lt name n
    then (name, value) ∷ (n, v) ∷ rest
    else (n, v) ∷ later

-- `serde_json::to_value(value)?`
abbrev pub serialized : Option Value → Result EvidenceError Value
serialized none = err json
serialized (some value) = ok value

-- `measure` gives the value to store, and the record is changed only if that succeeds.
checked_value : Text → Option Value → Result EvidenceError Value
checked_value name to_value = do
  validate_field_name name
  value ← serialized to_value
  validate_measurement_value value
  ok value

stored : Evidence → Text → Result EvidenceError Value → Result EvidenceError (Unit {0}) × Evidence
stored e name (err error) = (err error, e)
stored e name (ok value) = (ok tt, record e { measurements = insert name value e.measurements })

-- `Evidence::measure`; the last argument is what the library makes of the value
unfoldable pub measure : Evidence → Text → Option Value → Result EvidenceError (Unit {0}) × Evidence
unfolding stored checked_value
measure e name to_value = stored e name (checked_value name to_value)

-- `Evidence::observe`
unfoldable pub observe_evidence : Evidence → Text → Result EvidenceError (Unit {0}) × Evidence
observe_evidence e observation =
    if contains_forbidden_marker observation
    then (err (sensitive_observation observation), e)
    else (ok tt, record e { observations = e.observations ++ (observation ∷ []) })

-- `Evidence::finish`
unfoldable pub finish : Evidence → Verdict → ℕ → Evidence
finish e verdict duration_ms = record e { verdict = some verdict; duration_ms = some duration_ms }

validate_measurements : List (Text × Value) → Result EvidenceError (Unit {0})
validate_measurements [] = ok tt
validate_measurements ((name, value) ∷ rest) =
    validate_field_name name >> (validate_measurement_value value >> validate_measurements rest)

validate_observations : List Text → Result EvidenceError (Unit {0})
validate_observations [] = ok tt
validate_observations (observation ∷ rest) =
    if contains_forbidden_marker observation
    then err (sensitive_observation observation)
    else validate_observations rest

is_none : {A : Type 0} → Option A → Bool
is_none none = true
is_none (some _) = false

-- `Evidence::from_parts`; the parts are those of a document
unfoldable pub from_parts : EvidenceDocument → Result EvidenceError EvidenceDocument
unfolding validate_measurements validate_observations is_none
from_parts d =
    if not (d.schema_version == 1)
    then err (unsupported_schema_version d.schema_version)
    else if is_none d.verdict || is_none d.duration_ms
    then err unfinished
    else (validate_measurements d.measurements >> (validate_observations d.observations >> ok d))

-- the fields of a record, as a document, and back
unfoldable pub parts_of : Evidence → EvidenceDocument
parts_of e = record {
  schema_version = e.schema_version;
  spike = e.spike;
  target = e.target;
  verdict = e.verdict;
  duration_ms = e.duration_ms;
  measurements = e.measurements;
  observations = e.observations;
}

unfoldable pub of_parts : EvidenceDocument → Evidence
of_parts d = record {
  schema_version = d.schema_version;
  spike = d.spike;
  target = d.target;
  verdict = d.verdict;
  duration_ms = d.duration_ms;
  measurements = d.measurements;
  observations = d.observations;
}

-- `Evidence::document`
unfoldable pub document : Evidence → Result EvidenceError EvidenceDocument
unfolding parts_of from_parts
document e = from_parts (parts_of e)

-- `Evidence::from_document`
unfoldable pub from_document : EvidenceDocument → Result EvidenceError Evidence
unfolding of_parts from_parts
from_document d = do checked ← from_parts d; ok (of_parts checked)
