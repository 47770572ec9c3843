-- ===== src/Media/Probe.antt =====
-- crates/spike-media/src/cpu_fallback.rs: what FFprobe reports of an output.
--
-- Reading JSON and floating-point numbers are parameters: `F64` with its parser, and `is_positive` for
-- the test that a duration is finite and above 0.
pub mod Accepts
use ovayra.Prelude.{
  ℕ, ◌*◌, ◌^◌, Bool, false, not, ◌&&◌, Option, none, some, List, ◌==◌, if◌then◌else◌, Result, ok,
  ◌>>=◌, ◌>>◌, guard, ok_or, map_err, find, any, is_utf8, Text, bytes, text_eq, option_eq,
}
use ovayra.Media.Child.{
  Child, ChildCollectionError, ChildOutput, collect_child, spawn, read, timed_out, stdout_limit,
  runtime,
}

pub data FfprobeError : Type 0 where
  spawn_error timed_out_error output_limit collect_error failed malformed_json zero_bytes not_webm
        missing_stream incompatible_streams invalid_duration :
      FfprobeError

abbrev pub Probed : Type 0 → Type 0
Probed A = Result FfprobeError A

-- `FfprobeReport`
pub record FfprobeReport (F64 : Type 0) : Type 0 where
  pub container : Text
  pub duration_seconds : F64
  pub video_codec : Option Text
  pub audio_codec : Option Text
  pub video_pixel_format : Option Text

pub record ProbeStream : Type 0 where
  pub codec_name : Text
  pub codec_type : Text
  pub pix_fmt : Option Text

pub record ProbeFormat : Type 0 where
  pub format_name : Text
  pub duration : Text

pub record ProbeDocument : Type 0 where
  pub format : ProbeFormat
  pub streams : List ProbeStream

-- A JSON value as `validate_any_json` looks at it: the string at `/format/duration`, and the string
-- at `codec_type` of each element of `streams`, where that is an array.
pub record AnyDocument : Type 0 where
  pub duration : Option Text
  pub codec_types : Option (List (Option Text))

pub record ProbeLibraries : Type 1 where
  pub F64 : Type 0
  pub parse_f64 : Text → Option F64
  pub is_positive : F64 → Bool
  pub from_str : Text → Option ProbeDocument
  pub from_str_any : Text → Option AnyDocument

-- `FfprobeError::from_collection`
unfoldable pub from_collection : ChildCollectionError → FfprobeError
from_collection spawn = spawn_error
from_collection read = collect_error
from_collection runtime = collect_error
from_collection timed_out = timed_out_error
from_collection stdout_limit = output_limit

abbrev pub of_type : Text → ProbeStream → Bool
of_type kind stream = text_eq stream.codec_type kind

-- the codecs and the pixel format of the WebM fallback
unfoldable pub is_webm_pair : ProbeStream → ProbeStream → Bool
unfolding text_eq option_eq
is_webm_pair video audio =
    text_eq video.codec_name (bytes "vp9")
    && option_eq video.pix_fmt (some (bytes "yuv420p"))
    && text_eq audio.codec_name (bytes "opus")

-- the codecs of the fixture
unfoldable pub is_fixture_pair : ProbeStream → ProbeStream → Bool
unfolding text_eq
is_fixture_pair video audio =
    text_eq video.codec_name (bytes "h264") && text_eq audio.codec_name (bytes "aac")

module _ (libs : ProbeLibraries) where
  -- `parse().ok().filter(…)`
  unfoldable pub positive_duration : Text → Option libs.F64
  positive_duration text = elim (libs.parse_f64 text) [
    | none ↦ none
    | some d ↦ if libs.is_positive d then some d else none
  ]

  report_of : ProbeDocument → libs.F64 → ProbeStream → ProbeStream → FfprobeReport libs.F64
  report_of document seconds video audio = record {
    container = document.format.format_name;
    duration_seconds = seconds;
    video_codec = some video.codec_name;
    audio_codec = some audio.codec_name;
    video_pixel_format = video.pix_fmt;
  }

  -- What the two readers share, from the duration on; the parameter is the test of the codecs.
  read_streams :
      (ProbeStream → ProbeStream → Bool) → ProbeDocument → Probed (FfprobeReport libs.F64)
  unfolding positive_duration report_of text_eq
  read_streams is_pair document = do
    seconds ← ok_or invalid_duration (positive_duration document.format.duration)
    video ← ok_or missing_stream (find (of_type (bytes "video")) document.streams)
    audio ← ok_or missing_stream (find (of_type (bytes "audio")) document.streams)
    guard (is_pair video audio) incompatible_streams
    ok (report_of document seconds video audio)

  -- `from_json`
  unfoldable pub from_json : Text → (output_bytes : ℕ) → Probed (FfprobeReport libs.F64)
  unfolding read_streams is_webm_pair
  from_json input output_bytes = do
    guard (not (output_bytes == 0)) zero_bytes
    document ← ok_or malformed_json (libs.from_str input)
    guard (text_eq document.format.format_name (bytes "matroska,webm")) not_webm
    read_streams is_webm_pair document

  -- `from_h264_aac_json`
  unfoldable pub from_h264_aac_json : Text → (output_bytes : ℕ) → Probed (FfprobeReport libs.F64)
  unfolding read_streams is_fixture_pair
  from_h264_aac_json input output_bytes = do
    guard (not (output_bytes == 0)) zero_bytes
    document ← ok_or malformed_json (libs.from_str input)
    read_streams is_fixture_pair document

  -- `from_child_output`
  unfoldable pub from_child_output :
      (succeeded : Bool) → Text → (output_bytes : ℕ) → Probed (FfprobeReport libs.F64)
  unfolding from_json is_utf8
  from_child_output succeeded stdout output_bytes = do
    guard succeeded failed
    guard (is_utf8 stdout) malformed_json
    from_json stdout output_bytes

  has_video : Option (List (Option Text)) → Bool
  unfolding option_eq
  has_video none = false
  has_video (some types) = any (λ kind. option_eq kind (some (bytes "video"))) types

  -- `validate_any_json`
  unfoldable pub validate_any_json : Text → (output_bytes : ℕ) → Probed (Unit {0})
  unfolding positive_duration has_video
  validate_any_json input output_bytes = do
    guard (not (output_bytes == 0)) zero_bytes
    document ← ok_or malformed_json (libs.from_str_any input)
    text ← ok_or invalid_duration document.duration
    seconds ← ok_or invalid_duration (positive_duration text)
    guard (has_video document.codec_types) missing_stream

  -- The bounded run of FFprobe; the size is the output's, where its metadata can be read.
  probe : Child → Probed ChildOutput
  unfolding collect_child from_collection
  probe child = map_err from_collection (collect_child child (5 * 10 ^ 9) (64 * 1024) (16 * 1024))

  -- `read`
  unfoldable pub read_report : Option ℕ → Child → Probed (FfprobeReport libs.F64)
  unfolding probe from_child_output
  read_report size child = do
    output_bytes ← ok_or spawn_error size
    process ← probe child
    from_child_output process.success process.stdout output_bytes

  -- `read_h264_aac`
  unfoldable pub read_h264_aac : Option ℕ → Child → Probed (FfprobeReport libs.F64)
  unfolding probe from_h264_aac_json is_utf8
  read_h264_aac size child = do
    output_bytes ← ok_or spawn_error size
    process ← probe child
    guard process.success failed
    guard (is_utf8 process.stdout) malformed_json
    from_h264_aac_json process.stdout output_bytes

  -- `validate_any`
  unfoldable pub validate_any : Option ℕ → Child → Probed (Unit {0})
  unfolding probe validate_any_json is_utf8
  validate_any size child = do
    output_bytes ← ok_or spawn_error size
    process ← probe child
    guard process.success failed
    guard (is_utf8 process.stdout) malformed_json
    validate_any_json process.stdout output_bytes
