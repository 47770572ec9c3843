-- ===== src/Contracts/Reports/Checks.antt =====
-- crates/spike-contracts/src/matrix.rs: the thresholds for the measurements of a report.
use ovayra.Prelude.{
  ℕ, suc, Bool, false, not, ◌&&◌, ◌||◌, Option, none, some, List, [], ◌∷◌, ltb, leb, ◌==◌,
  if◌then◌else◌, Result, ok, err, length, all, Text, bytes, text_eq, contains, starts_with,
}
use ovayra.Contracts.Ids.{preview, media, gemini, platform, distribution}
use ovayra.Contracts.Evidence.{
  Value, boolean, number, text, array, natural, Values, nil, cons, Evidence,
}
use ovayra.Contracts.Row.{RequiredEvidence, MatrixError, requirement, wrong_backend}
use ovayra.Contracts.Typed.{is_sha256}

abbrev pub Measurements : Type 0
Measurements = List (Text × Value)

-- `BTreeMap::get`
unfoldable pub measurement : Measurements → Text → Option Value
measurement [] name = none
measurement ((n, v) ∷ rest) name =
    let later = measurement rest name in if text_eq n name then some v else later

-- `Value::as_str`, `as_u64`, `as_bool`, `as_array`
as_str : Option Value → Option Text
as_str (some (text t)) = some t
as_str _ = none

as_u64 : Option Value → Option ℕ
as_u64 (some (number (natural n))) = some n
as_u64 _ = none

as_bool : Option Value → Option Bool
as_bool (some (boolean b)) = some b
as_bool _ = none

as_array : Option Value → Option Values
as_array (some (array vs)) = some vs
as_array _ = none

unfoldable pub measurement_str : Measurements → Text → Option Text
unfolding as_str
measurement_str ms name = as_str (measurement ms name)

unfoldable pub measurement_u64 : Measurements → Text → Option ℕ
unfolding as_u64
measurement_u64 ms name = as_u64 (measurement ms name)

unfoldable pub measurement_bool : Measurements → Text → Option Bool
unfolding as_bool
measurement_bool ms name = as_bool (measurement ms name)

-- `is_some_and`, `== Some(…)`
unfoldable pub meets : {A : Type 0} → Option A → (A → Bool) → Bool
meets none p = false
meets (some a) p = p a

unfoldable pub is_text : Measurements → Text → Text → Bool
unfolding meets
is_text ms name value = meets (measurement_str ms name) (text_eq value)

unfoldable pub is_number : Measurements → Text → (ℕ → Bool) → Bool
unfolding meets
is_number ms name p = meets (measurement_u64 ms name) p

unfoldable pub is_true : Measurements → Text → Bool
unfolding meets
is_true ms name = meets (measurement_bool ms name) (λ b. b)

-- the condition of `validate_preview`
unfoldable pub preview_valid : Evidence → Bool
unfolding meets
preview_valid report =
    let ms = report.measurements in
    is_number ms (bytes "observed_milli_fps") (λ v. leb 23000 v && leb v 25000)
    && is_number ms (bytes "requested_duration_seconds") (λ v. v == 120)
    && is_number ms (bytes "measured_elapsed_ms") (leb 120000)
    && meets report.duration_ms (leb 120000)
    && is_number ms (bytes "frames_read") (ltb 0)
    && is_number ms (bytes "frames_applied") (ltb 0)
    && is_true ms (bytes "automation_hide")
    && is_true ms (bytes "automation_restore")
    && is_number ms (bytes "p95_ms") (λ v. leb v 100)
    && is_number ms (bytes "rss_growth_mib") (λ v. leb v 64)
    && is_true ms (bytes "rss_samples_complete")
    && is_number ms (bytes "event_loop_errors") (λ v. v == 0)
    && is_number ms (bytes "preview_stream_errors") (λ v. v == 0)

abbrev require : Bool → Text → Result MatrixError (Unit {0})
require valid name = if valid then ok tt else err (requirement name)

is_fallback : Text → Bool
is_fallback backend = text_eq backend (bytes "cpu-fallback")

-- `validate_media` for a row with a backend
media_checked : Text → Measurements → Result MatrixError (Unit {0})
unfolding is_fallback meets
media_checked backend ms =
    if not
      (is_text ms (bytes "actual_backend") (if is_fallback backend then bytes "cpu" else backend))
    then err wrong_backend
    else if not (meets (measurement_str ms (bytes "content_sha256")) is_sha256)
    then err (requirement (bytes "media content SHA-256"))
    else if is_fallback backend
        && not (
            is_text ms (bytes "video_codec") (bytes "vp9")
            && is_text ms (bytes "audio_codec") (bytes "opus")
            && is_number ms (bytes "media_duration_seconds") (leb 10))
    then err (requirement (bytes "CPU fallback VP9/Opus WebM"))
    else ok tt

-- `validate_media`; `none` is the failed `expect`
validate_media : RequiredEvidence → Evidence → Option (Result MatrixError (Unit {0}))
unfolding media_checked
validate_media required report = elim required.backend [
  | none ↦ none
  | some backend ↦ some (media_checked backend report.measurements)
]

-- the condition of `validate_gemini`
gemini_valid : Measurements → Bool
unfolding meets
gemini_valid ms =
    is_number ms (bytes "observed_server_offset") (ltb 0)
    && meets (measurement_bool ms (bytes "offset_mismatch")) not
    && is_true ms (bytes "analysis_nonempty")
    && is_text ms (bytes "remote_cleanup_state") (bytes "deleted")
    && is_text ms (bytes "checkpoint_cleanup_state") (bytes "deleted")
    && is_text ms (bytes "model") (bytes "gemini-3.1-flash-lite")
    && is_number ms (bytes "http_status") (λ v. v == 200)

-- the condition of `validate_platform`
platform_valid : Text → Measurements → Bool
platform_valid target ms =
    all (λ name. is_text ms name (bytes "pass"))
      (bytes "write_status"
        ∷ bytes "read_status"
        ∷ bytes "cleanup_status"
        ∷ bytes "tray_status"
        ∷ bytes "process_group_status"
        ∷ [])
    && is_number ms (bytes "child_tree_elapsed_ms") (λ v. leb v 5000)
    && (not (starts_with target (bytes "linux-"))
        || (is_text ms (bytes "forced_no_tray_status") (bytes "window-accessible")
            && is_true ms (bytes "no_tray_warning_shown")))

-- the texts of an array; what is no text is passed over
texts_of : Values → List Text
unfolding as_str
texts_of nil = []
texts_of (cons value values) =
    let later = texts_of values in elim (as_str (some value)) [ none ↦ later | some t ↦ t ∷ later ]

-- how many elements the `BTreeSet` of the texts has
distinct : List Text → ℕ
distinct [] = 0
distinct (t ∷ ts) = if contains ts t then distinct ts else suc (distinct ts)

reported_formats : Text → Option (List Text)
reported_formats target =
    if text_eq target (bytes "macos-arm64-vt")
    then some (bytes "app" ∷ bytes "dmg" ∷ [])
    else if text_eq target (bytes "windows-x64-mf")
    then some (bytes "msi" ∷ [])
    else if text_eq target (bytes "linux-x64-vaapi-wayland")
    then some (bytes "appimage" ∷ bytes "deb" ∷ [])
    else none

same_formats : List Text → Values → Bool
unfolding texts_of distinct
same_formats expected values =
    (distinct (texts_of values) == length expected)
    && all (λ t. contains (texts_of values) t) expected

-- `package_formats`
package_formats : Measurements → Text → Bool
unfolding reported_formats same_formats as_array meets
package_formats ms target =
    meets (reported_formats target) λ expected.
      meets (as_array (measurement ms (bytes "package_formats"))) (same_formats expected)

-- the condition of `validate_distribution`
distribution_valid : Text → Measurements → Bool
unfolding package_formats
distribution_valid target ms =
    is_text ms (bytes "bundle_validation") (bytes "pass")
    && is_text ms (bytes "license_policy") (bytes "LGPL-only")
    && is_text ms (bytes "source_correspondence") (bytes "pass")
    && is_text ms (bytes "sbom_status") (bytes "pass")
    && is_text ms (bytes "ffmpeg_keyring_status") (bytes "pass")
    && is_text ms (bytes "native_double_build") (bytes "pass")
    && is_text ms (bytes "platform_signature") (bytes "pass")
    && is_true ms (bytes "update_tamper_rejected")
    && package_formats ms target
    && (not (text_eq target (bytes "macos-arm64-vt"))
        || is_text ms (bytes "notarization") (bytes "pass"))

-- `validate_requirements`
unfoldable pub validate_requirements :
    RequiredEvidence → Evidence → Option (Result MatrixError (Unit {0}))
unfolding validate_media gemini_valid platform_valid distribution_valid
validate_requirements required report = elim required.id [
  | preview ↦ some (require (preview_valid report) (bytes "preview thresholds"))
  | media ↦ validate_media required report
  | gemini ↦ some (
      require (gemini_valid report.measurements)
        (bytes "Gemini resume, ACTIVE analysis, and cleanup"))
  | platform ↦ some (
      require (platform_valid required.target.as_str report.measurements)
        (bytes "keyring, tray, or process-group proof"))
  | distribution ↦ some (
      require (distribution_valid required.target.as_str report.measurements)
        (bytes "native package, signature, source, SBOM, or double-build proof"))
]
