-- ===== src/Contracts/Row.antt =====
-- crates/spike-contracts/src/matrix.rs: the rows of the evidence matrix, their keys, and the
-- validation that fixes the matrix to the canonical one. TOML parsing (`from_toml`) and reading
-- the file (`load`) are library calls in front of `validate_matrix`.
pub mod Canonical
pub mod Accepts
use ovayra.Prelude.{
  ℕ, String, Bool, true, false, not, ◌&&◌, ◌||◌, Option, none, some, List, [], ◌∷◌, ◌++◌, map,
  if◌then◌else◌, Result, ok, err, ◌>>=◌, ◌>>◌, any, keep_if, Text, bytes, text_eq, text_list_eq,
  text_lt, option_eq, contains, is_empty,
}
use ovayra.Contracts.Ids.{SpikeId, Verdict, TargetId, spike_eq, target_eq, spike_id_name}

pub record RequiredEvidence : Type 0 where
  pub id : SpikeId
  pub target : TargetId
  pub session : Option Text
  pub backend : Option Text

pub record PhaseZeroMatrix : Type 0 where
  pub required : List RequiredEvidence

-- The variants that carry a library's own error (`Toml`, `Io`) are left out.
pub data MatrixError : Type 0 where
  empty : MatrixError
  empty_qualifier : MatrixError
  duplicate : MatrixError
  missing_required_entries : List Text → MatrixError
  unsupported_required_entries : List Text → MatrixError
  required_verdict : Verdict → MatrixError
  missing_required_evidence : MatrixError
  missing_evidence : Text → MatrixError
  unmatched_evidence : MatrixError
  duplicate_evidence : MatrixError
  missing_actual_backend : MatrixError
  wrong_backend : MatrixError
  requirement : Text → MatrixError
  canonical_order : MatrixError
  duplicate_proof_component : MatrixError

-- `unwrap_or("")`
abbrev pub or_empty : Option Text → Text
or_empty none = []
or_empty (some s) = s

-- the byte `|`
abbrev pub bar : ℕ
bar = 124

unfoldable pub matrix_key : Text → Text → Option Text → Option Text → Text
matrix_key id target session backend =
    id ++ (bar ∷ (target ++ (bar ∷ (or_empty session ++ (bar ∷ or_empty backend)))))

unfoldable pub required_key : RequiredEvidence → Text
unfolding matrix_key
required_key entry =
    matrix_key (spike_id_name entry.id) entry.target.as_str entry.session entry.backend

-- The derived equality of `RequiredEvidence`, and of the tuples that `validate` inserts.
unfoldable pub row_eq : RequiredEvidence → RequiredEvidence → Bool
row_eq a b =
    spike_eq a.id b.id
    && (target_eq a.target b.target
        && (option_eq a.session b.session && option_eq a.backend b.backend))

abbrev entry :
    String → String → Option String → Option String → Text × Text × Option Text × Option Text
entry id target session backend = (bytes id, bytes target, to_text session, to_text backend)
  where
    to_text : Option String → Option Text
    to_text none = none
    to_text (some s) = some (bytes s)

-- `CANONICAL_REQUIRED`
unfoldable pub canonical_required : List (Text × Text × Option Text × Option Text)
canonical_required =
    entry "preview" "macos-arm64-vt" (some "aqua") none
    ∷ entry "media" "macos-arm64-vt" none (some "videotoolbox")
    ∷ entry "media" "macos-arm64-vt" none (some "cpu-fallback")
    ∷ entry "platform" "macos-arm64-vt" (some "aqua") none
    ∷ entry "gemini" "macos-arm64-vt" none none
    ∷ entry "distribution" "macos-arm64-vt" none none
    ∷ entry "preview" "windows-x64-mf" (some "windows") none
    ∷ entry "media" "windows-x64-mf" none (some "d3d11va-mf")
    ∷ entry "media" "windows-x64-mf" none (some "cpu-fallback")
    ∷ entry "platform" "windows-x64-mf" (some "windows") none
    ∷ entry "gemini" "windows-x64-mf" none none
    ∷ entry "distribution" "windows-x64-mf" none none
    ∷ entry "preview" "windows-x64-nvidia" (some "windows") none
    ∷ entry "media" "windows-x64-nvidia" none (some "nvenc-nvdec")
    ∷ entry "media" "windows-x64-nvidia" none (some "cpu-fallback")
    ∷ entry "platform" "windows-x64-nvidia" (some "windows") none
    ∷ entry "gemini" "windows-x64-nvidia" none none
    ∷ entry "preview" "linux-x64-vaapi-wayland" (some "wayland") none
    ∷ entry "media" "linux-x64-vaapi-wayland" none (some "vaapi")
    ∷ entry "media" "linux-x64-vaapi-wayland" none (some "cpu-fallback")
    ∷ entry "platform" "linux-x64-vaapi-wayland" (some "wayland") none
    ∷ entry "gemini" "linux-x64-vaapi-wayland" none none
    ∷ entry "distribution" "linux-x64-vaapi-wayland" none none
    ∷ entry "preview" "linux-x64-vaapi-x11" (some "x11") none
    ∷ entry "media" "linux-x64-vaapi-x11" none (some "vaapi")
    ∷ entry "media" "linux-x64-vaapi-x11" none (some "cpu-fallback")
    ∷ entry "platform" "linux-x64-vaapi-x11" (some "x11") none
    ∷ entry "gemini" "linux-x64-vaapi-x11" none none
    ∷ entry "preview" "linux-x64-nvidia" none none
    ∷ entry "media" "linux-x64-nvidia" none (some "nvenc-nvdec")
    ∷ entry "media" "linux-x64-nvidia" none (some "cpu-fallback")
    ∷ entry "platform" "linux-x64-nvidia" none none
    ∷ entry "gemini" "linux-x64-nvidia" none none
    ∷ []

unfoldable pub expected_keys : List Text
unfolding matrix_key canonical_required
expected_keys =
    map (λ (e : Text × Text × Option Text × Option Text). matrix_key e.0 e.1 e.2 e.3)
      canonical_required

-- A `BTreeSet<String>` in its iteration order: byte-wise ascending, without repetition.
set_insert : Text → List Text → List Text
unfolding text_lt
set_insert t [] = t ∷ []
set_insert t (s ∷ ss) =
    if text_lt t s then t ∷ s ∷ ss else if text_eq t s then s ∷ ss else s ∷ set_insert t ss

set_of : List Text → List Text
unfolding set_insert
set_of [] = []
set_of (t ∷ ts) = set_insert t (set_of ts)

difference : List Text → List Text → List Text
difference xs ys = keep_if (λ x. not (contains ys x)) xs

unfoldable pub is_empty_text : Option Text → Bool
is_empty_text none = false
is_empty_text (some s) = is_empty s

-- the loop of `validate` over the rows; `seen` is the set `entries`
check_entries : List RequiredEvidence → List RequiredEvidence → Result MatrixError (Unit {0})
unfolding is_empty_text
check_entries seen [] = ok tt
check_entries seen (e ∷ rest) =
    if is_empty_text e.session || is_empty_text e.backend
    then err empty_qualifier
    else if any (row_eq e) seen
    then err duplicate
    else check_entries (e ∷ seen) rest

no_entries : List Text → Bool
no_entries [] = true
no_entries (_ ∷ _) = false

-- the comparison of `validate` with the canonical keys
check_keys : List Text → List Text → Result MatrixError (Unit {0})
unfolding difference set_of no_entries text_list_eq
check_keys expected actual =
    let missing = difference (set_of expected) (set_of actual) in
    let unsupported = difference (set_of actual) (set_of expected) in
    if not (no_entries missing)
    then err (missing_required_entries missing)
    else if not (no_entries unsupported)
    then err (unsupported_required_entries unsupported)
    else if not (text_list_eq actual expected)
    then err canonical_order
    else ok tt

pub validate_rows : List RequiredEvidence → Result MatrixError (Unit {0})
unfolding check_entries check_keys
validate_rows [] = err empty
validate_rows (e ∷ rest) = do
  check_entries [] (e ∷ rest)
  check_keys expected_keys (map required_key (e ∷ rest))

-- `PhaseZeroMatrix::validate`
unfoldable pub validate_matrix : PhaseZeroMatrix → Result MatrixError (Unit {0})
unfolding validate_rows
validate_matrix matrix = validate_rows matrix.required
