-- ===== src/Media/Arguments.antt =====
-- crates/spike-media/src/cpu_fallback.rs: the arguments of FFmpeg, for the synthetic input and for a
-- file.
use ovayra.Prelude.{ℕ, List, [], ◌∷◌, ◌++◌, Text, bytes}

abbrev encoding_arguments : List Text
encoding_arguments =
    bytes "-c:v"
    ∷ bytes "libvpx-vp9"
    ∷ bytes "-deadline"
    ∷ bytes "realtime"
    ∷ bytes "-cpu-used"
    ∷ bytes "4"
    ∷ bytes "-b:v"
    ∷ bytes "600k"
    ∷ bytes "-pix_fmt"
    ∷ bytes "yuv420p"
    ∷ bytes "-c:a"
    ∷ bytes "libopus"
    ∷ bytes "-b:a"
    ∷ bytes "64k"
    ∷ bytes "-ac"
    ∷ bytes "1"
    ∷ bytes "-f"
    ∷ bytes "webm"
    ∷ bytes "-progress"
    ∷ bytes "pipe:1"
    ∷ bytes "-nostats"
    ∷ []

-- `ffmpeg_arguments`; `decimal` prints a number
unfoldable pub ffmpeg_arguments : (decimal : ℕ → Text) → (output : Text) → ℕ → List Text
ffmpeg_arguments decimal output seconds =
    (bytes "-y"
      ∷ bytes "-hide_banner"
      ∷ bytes "-nostdin"
      ∷ bytes "-f"
      ∷ bytes "lavfi"
      ∷ bytes "-i"
      ∷ bytes "testsrc2=size=640x360:rate=24"
      ∷ bytes "-f"
      ∷ bytes "lavfi"
      ∷ bytes "-i"
      ∷ bytes "sine=frequency=1000:sample_rate=48000"
      ∷ bytes "-t"
      ∷ decimal seconds
      ∷ bytes "-map"
      ∷ bytes "0:v:0"
      ∷ bytes "-map"
      ∷ bytes "1:a:0"
      ∷ encoding_arguments)
    ++ (output ∷ [])

-- `ffmpeg_input_arguments`
unfoldable pub ffmpeg_input_arguments : (decimal : ℕ → Text) → (input output : Text) → ℕ → List Text
ffmpeg_input_arguments decimal input output seconds =
    (bytes "-y"
      ∷ bytes "-hide_banner"
      ∷ bytes "-nostdin"
      ∷ bytes "-i"
      ∷ input
      ∷ bytes "-t"
      ∷ decimal seconds
      ∷ bytes "-map"
      ∷ bytes "0:v:0"
      ∷ bytes "-map"
      ∷ bytes "0:a:0"
      ∷ encoding_arguments)
    ++ (output ∷ [])
