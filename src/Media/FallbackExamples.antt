-- ===== src/Media/FallbackExamples.antt =====
-- The theorems of the CPU fallback at concrete inputs: runs of two programs.
use ovayra.Prelude.{
  ℕ, ◌+◌, ◌/◌, ◌≡◌, refl, ◌↔◌, true, false, Option, none, some, List, [], ◌∷◌, ◌++◌, ltb, ok,
  parse_u64, is_utf8, trim, Text, bytes, text_eq,
}
use ovayra.Media.Progress.{Std, finish_line, emit}
use ovayra.Media.Child.{Child, ChildOutput, collect_child}
use ovayra.Media.Child.Whole.{IsCollected, collect_child_iff}
use ovayra.Media.Probe.{FfprobeReport, ProbeDocument, ProbeLibraries, read_report}
use ovayra.Media.Probe.Accepts.{IsReported, read_report_sound}
use ovayra.Media.Arguments.{ffmpeg_arguments}
use ovayra.Media.Fallback.{CpuFallback, new, Speeds, CpuFallbackOutput, generate}
use ovayra.Media.Fallback.Averaged.{IsGenerated, generate_sound}

-- A program that writes these reads and ends at once.
abbrev writing : List (Option Text) → Child
writing reads = record {
  runtime_built = true;
  spawned = true;
  has_stdout = true;
  has_stderr = true;
  exceeds = λ _. false;
  waited = some true;
  progress_first = true;
  stdout = reads;
  stderr = some (bytes "warning") ∷ [];
}

abbrev answer : ChildOutput
answer = record { success = true; stdout = bytes "{}" }

collect_child_iff_example :
    (collect_child (writing (some (bytes "{") ∷ some (bytes "}") ∷ [])) 5 2 16 ≡ ok answer)
    ↔ IsCollected (writing (some (bytes "{") ∷ some (bytes "}") ∷ [])) 5 2 16 answer
collect_child_iff_example =
    collect_child_iff (writing (some (bytes "{") ∷ some (bytes "}") ∷ [])) 5 2 16 answer

abbrev document : ProbeDocument
document = record {
  format = record { format_name = bytes "matroska,webm"; duration = bytes "3" };
  streams =
      record {
        codec_name = bytes "vp9";
        codec_type = bytes "video";
        pix_fmt = some (bytes "yuv420p");
      }
      ∷ record { codec_name = bytes "opus"; codec_type = bytes "audio"; pix_fmt = none }
      ∷ [];
}

-- Numbers are whole, and every text is the document.
abbrev whole : ProbeLibraries
whole = record {
  F64 = ℕ;
  parse_f64 = parse_u64;
  is_positive = λ d. ltb 0 d;
  from_str = λ _. some document;
  from_str_any = λ _. none;
}

abbrev report : FfprobeReport ℕ
report = record {
  container = bytes "matroska,webm";
  duration_seconds = 3;
  video_codec = some (bytes "vp9");
  audio_codec = some (bytes "opus");
  video_pixel_format = some (bytes "yuv420p");
}

report_read : read_report whole (some 9) (writing (some (bytes "{}") ∷ [])) ≡ ok report
unfolding read_report bytes parse_u64
report_read = refl

read_report_sound_example : IsReported whole (some 9) (writing (some (bytes "{}") ∷ [])) report
read_report_sound_example =
    read_report_sound whole (some 9) (writing (some (bytes "{}") ∷ [])) report report_read

abbrev std : Std
std = record {
  F64 = ℕ;
  parse_f64 = parse_u64;
  is_finite = λ _. true;
  is_sign_negative = λ _. false;
  from_utf8_lossy = λ t. t;
}

abbrev speeds : Speeds ℕ
speeds = record { none_yet = 0; plus = λ a b. a + b; over = λ a n. a / n }

-- Two blocks of progress, cut within a line.
abbrev progress_reads : List (Option Text)
progress_reads =
    some (bytes "speed=2x" ++ (10 ∷ bytes "progress=conti"))
    ∷ some (bytes "nue" ++ (10 ∷ (bytes "speed=4x" ++ (10 ∷ (bytes "progress=end" ++ (10 ∷ []))))))
    ∷ []

run : Text → List Text → Child
run program [] = writing []
run program (a ∷ []) = writing (some (bytes "ffmpeg version 8.1.2") ∷ [])
run program (a ∷ b ∷ arguments) = writing progress_reads

abbrev arguments : List Text
arguments = ffmpeg_arguments (λ _. bytes "3") (bytes "out.webm") 3

abbrev generated : CpuFallbackOutput ℕ
generated = record { average_speed = some 3; ffmpeg_build_id = bytes "ffmpeg version 8.1.2" }

abbrev fallback : CpuFallback
fallback = new (bytes "ffmpeg") (bytes "ffprobe")

generation_runs : generate std speeds run fallback arguments 3 ≡ ok generated
unfolding generate run new ffmpeg_arguments bytes finish_line text_eq is_utf8 emit trim parse_u64
generation_runs = refl

generate_sound_example : IsGenerated std speeds run fallback arguments 3 generated
generate_sound_example =
    generate_sound std speeds run fallback arguments 3 generated generation_runs
