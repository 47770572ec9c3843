-- ===== src/Media/Plan.antt =====
-- crates/spike-media/src/capability.rs: `HardwarePlan`, the command lines of a backend's self-test,
-- of its fixture and of the transcode. A path is its bytes; `none` is the panic of the CPU backend.
pub mod Backed
use ovayra.Prelude.{
  ℕ, Bool, true, false, not, ◌&&◌, ◌||◌, Option, none, some, List, [], ◌∷◌, ◌++◌, ltb, ◌==◌,
  if◌then◌else◌, length, drop, all, Text, bytes, text_eq, contains, starts_with,
}
use ovayra.Media.Backend.{Backend, video_toolbox, d3d11va_mf, nvenc_nvdec, vaapi, cpu, is_cpu}
use ovayra.Media.Inventory.{Inventory, InventoryKind, hwaccel, decoder, encoder, filter, has}

abbrev pub fixture_name : Text
fixture_name = bytes "synthetic-h264-aac.mp4"

abbrev pub default_device : Text
default_device = bytes "/dev/dri/renderD128"

abbrev pub forced_failure_device : Text
forced_failure_device = bytes "__ovayra_definitely_invalid_hardware_device__"

pub record HardwarePlan : Type 0 where
  pub backend : Backend
  pub args : List Text

null_sink : List Text
unfolding bytes
null_sink = bytes "-c:a" ∷ bytes "copy" ∷ bytes "-f" ∷ bytes "null" ∷ bytes "-" ∷ []

self_test_args : Backend → Option (List Text)
unfolding null_sink
self_test_args video_toolbox = some (
    bytes "-hwaccel"
    ∷ bytes "videotoolbox"
    ∷ bytes "-i"
    ∷ fixture_name
    ∷ bytes "-vf"
    ∷ bytes "scale=1280:720"
    ∷ bytes "-c:v"
    ∷ bytes "h264_videotoolbox"
    ∷ null_sink)
self_test_args d3d11va_mf = some (
    bytes "-hwaccel"
    ∷ bytes "d3d11va"
    ∷ bytes "-i"
    ∷ fixture_name
    ∷ bytes "-vf"
    ∷ bytes "scale=1280:720"
    ∷ bytes "-c:v"
    ∷ bytes "h264_mf"
    ∷ bytes "-hw_encoding"
    ∷ bytes "1"
    ∷ bytes "-pix_fmt"
    ∷ bytes "nv12"
    ∷ null_sink)
self_test_args nvenc_nvdec = some (
    bytes "-hwaccel"
    ∷ bytes "cuda"
    ∷ bytes "-hwaccel_output_format"
    ∷ bytes "cuda"
    ∷ bytes "-i"
    ∷ fixture_name
    ∷ bytes "-c:v"
    ∷ bytes "h264_nvenc"
    ∷ null_sink)
self_test_args vaapi = some (
    bytes "-vaapi_device"
    ∷ default_device
    ∷ bytes "-hwaccel"
    ∷ bytes "vaapi"
    ∷ bytes "-hwaccel_output_format"
    ∷ bytes "vaapi"
    ∷ bytes "-i"
    ∷ fixture_name
    ∷ bytes "-vf"
    ∷ bytes "scale_vaapi=w=1280:h=720"
    ∷ bytes "-c:v"
    ∷ bytes "h264_vaapi"
    ∷ null_sink)
self_test_args cpu = none

with_args : Backend → Option (List Text) → Option HardwarePlan
with_args b none = none
with_args b (some args) = some (record { backend = b; args = args })

unfoldable pub self_test : Backend → Option HardwarePlan
unfolding with_args self_test_args
self_test b = with_args b (self_test_args b)

unfoldable pub is_vaapi : Backend → Bool
is_vaapi vaapi = true
is_vaapi _ = false

unfoldable pub device_or_default : Option Text → Text
device_or_default none = default_device
device_or_default (some device) = device

-- the device options of `transcode_args`
unfoldable pub device_args : Backend → Option Text → List Text
unfolding is_vaapi device_or_default
device_args b device =
    if is_vaapi b then bytes "-vaapi_device" ∷ device_or_default device ∷ [] else elim device [
      | none ↦ []
      | some d ↦ if is_cpu b then [] else bytes "-hwaccel_device" ∷ d ∷ []
    ]

-- the arguments of the self-test that a transcode leaves out
unfoldable pub is_left_out : Text → Bool
unfolding text_eq bytes
is_left_out a =
    contains (bytes "-vaapi_device" ∷ default_device ∷ bytes "-f" ∷ bytes "null" ∷ bytes "-" ∷ []) a

-- `for argument in self.args`
unfoldable pub rewrite_args : Text → List Text → List Text
unfolding is_left_out
rewrite_args input [] = []
rewrite_args input (a ∷ args) =
    let rest = rewrite_args input args in
    if is_left_out a then rest else if text_eq a fixture_name then input ∷ rest else a ∷ rest

-- What follows a path that is equal to it as a `Path`: slashes, and components `.`. The Boolean is
-- whether a slash comes just before.
unfoldable pub same_path_tail : Bool → Text → Bool
same_path_tail after_slash [] = true
same_path_tail after_slash (c ∷ s) =
    ((c == 47) && same_path_tail true s) || (after_slash && (c == 46) && same_path_tail false s)

-- `device == Path::new(FORCED_FAILURE_DEVICE)`
unfoldable pub is_forced_failure : Option Text → Bool
unfolding same_path_tail
is_forced_failure none = false
is_forced_failure (some device) =
    starts_with device forced_failure_device
    && same_path_tail false (drop (length forced_failure_device) device)

unfoldable pub forced_args : Option Text → List Text
unfolding is_forced_failure
forced_args device =
    if is_forced_failure device then bytes "-ovayra_forced_hardware_failure" ∷ [] else []

unfoldable pub transcode_args : HardwarePlan → Text → Text → Option Text → List Text
unfolding device_args rewrite_args forced_args
transcode_args plan input output device =
    bytes "-y"
    ∷ (device_args plan.backend device
        ++ (rewrite_args input plan.args
            ++ (bytes "-t" ∷ bytes "10" ∷ (forced_args device ++ (output ∷ [])))))

fixture_encoder : Backend → Option (List Text)
fixture_encoder video_toolbox =
    some (bytes "-c:v" ∷ bytes "h264_videotoolbox" ∷ bytes "-pix_fmt" ∷ bytes "yuv420p" ∷ [])
fixture_encoder d3d11va_mf = some (
    bytes "-c:v"
    ∷ bytes "h264_mf"
    ∷ bytes "-hw_encoding"
    ∷ bytes "1"
    ∷ bytes "-pix_fmt"
    ∷ bytes "nv12"
    ∷ [])
fixture_encoder nvenc_nvdec =
    some (bytes "-c:v" ∷ bytes "h264_nvenc" ∷ bytes "-pix_fmt" ∷ bytes "yuv420p" ∷ [])
fixture_encoder vaapi =
    some (bytes "-vf" ∷ bytes "format=nv12,hwupload" ∷ bytes "-c:v" ∷ bytes "h264_vaapi" ∷ [])
fixture_encoder cpu = none

fixture_device : Backend → Option Text → List Text
unfolding is_vaapi device_or_default
fixture_device b device =
    if is_vaapi b then bytes "-vaapi_device" ∷ device_or_default device ∷ [] else []

fixture_sources : List Text
fixture_sources =
    bytes "-f"
    ∷ bytes "lavfi"
    ∷ bytes "-i"
    ∷ bytes "testsrc2=size=1280x720:rate=30"
    ∷ bytes "-f"
    ∷ bytes "lavfi"
    ∷ bytes "-i"
    ∷ bytes "sine=frequency=1000:sample_rate=48000"
    ∷ bytes "-t"
    ∷ bytes "10"
    ∷ []

unfoldable pub fixture_args : HardwarePlan → Text → Option Text → Option (List Text)
unfolding fixture_encoder fixture_device fixture_sources
fixture_args plan output device = elim (fixture_encoder plan.backend) [
  | none ↦ none
  | some codec ↦ some (
      bytes "-y"
      ∷ bytes "-nostdin"
      ∷ (fixture_device plan.backend device
          ++ (fixture_sources ++ (codec ++ (bytes "-c:a" ∷ bytes "aac" ∷ output ∷ [])))))
]

unfoldable pub required_components : Backend → List (InventoryKind × Text)
required_components video_toolbox =
    (hwaccel, bytes "videotoolbox")
    ∷ (decoder, bytes "h264")
    ∷ (encoder, bytes "h264_videotoolbox")
    ∷ (filter, bytes "scale")
    ∷ []
required_components d3d11va_mf =
    (hwaccel, bytes "d3d11va")
    ∷ (decoder, bytes "h264")
    ∷ (encoder, bytes "h264_mf")
    ∷ (filter, bytes "scale")
    ∷ []
required_components nvenc_nvdec =
    (hwaccel, bytes "cuda") ∷ (decoder, bytes "h264") ∷ (encoder, bytes "h264_nvenc") ∷ []
required_components vaapi =
    (hwaccel, bytes "vaapi")
    ∷ (decoder, bytes "h264")
    ∷ (encoder, bytes "h264_vaapi")
    ∷ (filter, bytes "scale_vaapi")
    ∷ []
required_components cpu = []

unfoldable pub is_available : HardwarePlan → Inventory → Bool → ℕ → Bool
unfolding required_components
is_available plan inventory exited_successfully output_frames =
    not (is_cpu plan.backend)
    && all (λ (r : InventoryKind × Text). has inventory r.0 r.1) (required_components plan.backend)
    && exited_successfully
    && ltb 0 output_frames
