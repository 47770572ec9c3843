-- ===== src/Media/Fallback.antt =====
-- crates/spike-media/src/cpu_fallback.rs: the synthetic WebM and the transcode on the CPU.
--
-- Arithmetic on speeds is the parameter `Speeds`, over the numbers of the progress parser. Times are in
-- nanoseconds. A run of a program with its arguments is a `Child`.
pub mod Drained
pub mod Counted
pub mod Averaged
use ovayra.Prelude.{
  ℕ, ◌+◌, ◌-◌, ◌*◌, ◌^◌, min, Bool, true, false, not, ◌&&◌, ◌||◌, Option, none, some, List, [], ◌∷◌,
  ltb, leb, ◌==◌, if◌then◌else◌, Result, ok, err, ◌>>=◌, ◌>>◌, guard, ok_or, map_err, length, find,
  lines, Text, bytes, is_empty,
}
use ovayra.Media.Progress.{
  Std, ProgressEvent, ProgressError, ProgressParser, fresh, push, saturating_add,
}
use ovayra.Media.Arguments.{ffmpeg_arguments, ffmpeg_input_arguments}
use ovayra.Media.Child.{
  Reads, Child, ChildCollectionError, collect_child, spawn, read, timed_out, stdout_limit, runtime,
}

-- `CpuFallback`, with its two timeouts
pub record CpuFallback : Type 0 where
  pub ffmpeg : Text
  pub ffprobe : Text
  pub generation : ℕ
  pub utility : ℕ

unfoldable pub new : (ffmpeg ffprobe : Text) → CpuFallback
new ffmpeg ffprobe = record {
  ffmpeg = ffmpeg;
  ffprobe = ffprobe;
  generation = 600 * 10 ^ 9;
  utility = 5 * 10 ^ 9;
}

unfoldable pub with_timeouts : CpuFallback → (generation utility : ℕ) → CpuFallback
with_timeouts fallback generation utility = record fallback {
  generation = generation;
  utility = utility;
}

-- `panicked` is the end of the program where a count of speeds is not a `u32`.
pub data CpuFallbackError : Type 0 where
  invalid_requested_duration spawn_error failed timed_out_error output_limit collect_error
        empty_build_id build_id_failed progress_incomplete panicked :
      CpuFallbackError
  progress : ProgressError → CpuFallbackError

abbrev pub Generated : Type 0 → Type 0
Generated A = Result CpuFallbackError A

-- `CpuFallbackError::from_collection`
unfoldable pub from_collection : ChildCollectionError → CpuFallbackError
from_collection spawn = spawn_error
from_collection read = collect_error
from_collection runtime = collect_error
from_collection timed_out = timed_out_error
from_collection stdout_limit = output_limit

-- `Duration::MAX`
abbrev max_duration : ℕ
max_duration = (2 ^ 64 - 1) * 10 ^ 9 + 999999999

unfoldable pub generation_timeout : CpuFallback → ℕ → ℕ
generation_timeout fallback seconds =
    min (min (min (seconds * 10 ^ 9 + 15 * 10 ^ 9) max_duration) (600 * 10 ^ 9)) fallback.generation

-- Arithmetic on the numbers of a progress event: 0, the sum, and the quotient by a count.
pub record Speeds (F64 : Type 0) : Type 0 where
  pub none_yet : F64
  pub plus : F64 → F64 → F64
  pub over : F64 → ℕ → F64

-- `ProgressSummary`
pub record ProgressSummary (F64 : Type 0) : Type 0 where
  pub speed_sum : F64
  pub speed_count : ℕ
  pub saw_finished : Bool

pub data GenerationDrainError : Type 0 where
  drain_io : GenerationDrainError
  drain_progress_error : ProgressError → GenerationDrainError

-- `CpuFallbackOutput`
pub record CpuFallbackOutput (F64 : Type 0) : Type 0 where
  pub average_speed : Option F64
  pub ffmpeg_build_id : Text

-- `GenerationOutput`
pub record GenerationOutput (F64 : Type 0) : Type 0 where
  pub success : Bool
  pub progress : ProgressSummary F64

module _ (std : Std) (speeds : Speeds std.F64) where
  abbrev pub no_progress : ProgressSummary std.F64
  no_progress = record { speed_sum = speeds.none_yet; speed_count = 0; saw_finished = false }

  add_speed : Option std.F64 → ProgressSummary std.F64 → ProgressSummary std.F64
  unfolding saturating_add
  add_speed none summary = summary
  add_speed (some speed) summary = record summary {
    speed_sum = speeds.plus summary.speed_sum speed;
    speed_count = saturating_add summary.speed_count 1;
  }

  -- `ProgressSummary::record`
  unfoldable pub record_event :
      ProgressSummary std.F64 → ProgressEvent std.F64 → ProgressSummary std.F64
  unfolding add_speed
  record_event summary event =
      let summary' = add_speed event.speed summary in
      record summary' { saw_finished = summary'.saw_finished || event.finished }

  unfoldable pub record_events :
      ProgressSummary std.F64 → List (ProgressEvent std.F64) → ProgressSummary std.F64
  unfolding record_event
  record_events summary [] = summary
  record_events summary (event ∷ events) = record_events (record_event summary event) events

  -- the mean of a number of speeds, which must be a `u32`
  unfoldable pub mean : (total : std.F64) → (count : ℕ) → Generated (Option std.F64)
  mean total count = do
    guard (ltb count (2 ^ 32)) panicked
    ok (if count == 0 then none else some (speeds.over total count))

  -- `ProgressSummary::average_speed`
  unfoldable pub average_speed : ProgressSummary std.F64 → Generated (Option std.F64)
  unfolding mean
  average_speed summary = mean summary.speed_sum summary.speed_count

  abbrev pub Drained : Type 0
  Drained = Result GenerationDrainError (ProgressSummary std.F64)

  -- What the loop of `drain_progress` does with a push: an error ends it, and events are recorded.
  after_push :
      (ProgressParser → ProgressSummary std.F64 → Drained)
      → ProgressSummary std.F64
      → Result ProgressError (List (ProgressEvent std.F64)) × ProgressParser
      → Drained
  unfolding record_events
  after_push next summary (err e, parser) = err (drain_progress_error e)
  after_push next summary (ok events, parser) = next parser (record_events summary events)

  pub drain_from : ProgressParser → ProgressSummary std.F64 → Reads → Drained
  unfolding after_push push
  drain_from parser summary [] = ok summary
  drain_from parser summary (none ∷ reads) = err drain_io
  drain_from parser summary (some [] ∷ reads) = ok summary
  drain_from parser summary (some (c ∷ s) ∷ reads) =
      after_push (λ parser' summary'. drain_from parser' summary' reads) summary
        (push std parser (c ∷ s))

  unfoldable pub drain_progress : Reads → Result GenerationDrainError (ProgressSummary std.F64)
  unfolding drain_from
  drain_progress reads = drain_from fresh no_progress reads

  -- `drain_discard`
  drains : Reads → Bool
  drains [] = true
  drains (none ∷ reads) = false
  drains (some [] ∷ reads) = true
  drains (some (_ ∷ _) ∷ reads) = drains reads

  is_waited : Option Bool → Bool
  is_waited none = false
  is_waited (some _) = true

  -- the `match` on what was joined
  joined :
      Child
      → Result GenerationDrainError (ProgressSummary std.F64)
      → Generated (GenerationOutput std.F64)
  unfolding drains is_waited
  joined child (err drain_io) = err collect_error
  joined child (err (drain_progress_error e)) = err (
      if child.progress_first || (is_waited child.waited && drains child.stderr)
      then progress e
      else collect_error)
  joined child (ok summary) = do
    status ← ok_or collect_error child.waited
    guard (drains child.stderr) collect_error
    ok (record { success = status; progress = summary })

  -- `collect_generation` and `collect_generation_async`
  unfoldable pub collect_generation : Child → (timeout : ℕ) → Generated (GenerationOutput std.F64)
  unfolding joined drain_progress
  collect_generation child timeout = do
    guard child.runtime_built collect_error
    guard child.spawned spawn_error
    guard (child.has_stdout && child.has_stderr) collect_error
    guard (not (child.exceeds timeout)) timed_out_error
    joined child (drain_progress child.stdout)

  -- the first line that is not empty, where it is short
  build_line : Text → Option Text
  unfolding lines is_empty
  build_line output = elim (find (λ line. not (is_empty line)) (lines output)) [
    | none ↦ none
    | some line ↦ if leb (length line) 256 then some line else none
  ]

  -- `ffmpeg_build_id`
  unfoldable pub ffmpeg_build_id : CpuFallback → Child → Generated Text
  unfolding collect_child from_collection build_line
  ffmpeg_build_id fallback child = do
    output ← map_err from_collection (collect_child child fallback.utility (8 * 1024) (8 * 1024))
    guard output.success build_id_failed
    ok_or empty_build_id (build_line (std.from_utf8_lossy output.stdout))

  -- the speeds that some events report
  unfoldable pub speeds_of : List (ProgressEvent std.F64) → List std.F64
  speeds_of [] = []
  speeds_of (event ∷ events) = elim event.speed [
    | none ↦ speeds_of events
    | some speed ↦ speed ∷ speeds_of events
  ]

  unfoldable pub sum_from : std.F64 → List std.F64 → std.F64
  sum_from total [] = total
  sum_from total (speed ∷ rest) = sum_from (speeds.plus total speed) rest

  -- `average_speed_from_progress`; an error of the parser is the error returned
  unfoldable pub average_speed_from_progress : Text → Generated (Option std.F64)
  unfolding push speeds_of sum_from mean
  average_speed_from_progress input = do
    events ← map_err progress (push std fresh input).0
    mean (sum_from speeds.none_yet (speeds_of events)) (length (speeds_of events))

  module _ (run : Text → List Text → Child) where
    -- What `generate_synthetic` and `transcode_synthetic_input` do with their arguments.
    unfoldable pub generate : CpuFallback → List Text → ℕ → Generated (CpuFallbackOutput std.F64)
    unfolding generation_timeout collect_generation average_speed ffmpeg_build_id
    generate fallback arguments seconds = do
      guard (not (seconds == 0)) invalid_requested_duration
      process ←
          collect_generation (run fallback.ffmpeg arguments) (generation_timeout fallback seconds)
      guard process.success failed
      guard process.progress.saw_finished progress_incomplete
      average ← average_speed process.progress
      build_id ← ffmpeg_build_id fallback (run fallback.ffmpeg (bytes "-version" ∷ []))
      ok (record { average_speed = average; ffmpeg_build_id = build_id })

    unfoldable pub generate_synthetic :
        (decimal : ℕ → Text)
        → CpuFallback
        → (output : Text) → ℕ
        → Generated (CpuFallbackOutput std.F64)
    unfolding generate ffmpeg_arguments
    generate_synthetic decimal fallback output seconds =
        generate fallback (ffmpeg_arguments decimal output seconds) seconds

    unfoldable pub transcode_synthetic_input :
        (decimal : ℕ → Text)
        → CpuFallback
        → (input output : Text) → ℕ
        → Generated (CpuFallbackOutput std.F64)
    unfolding generate ffmpeg_input_arguments
    transcode_synthetic_input decimal fallback input output seconds =
        generate fallback (ffmpeg_input_arguments decimal input output seconds) seconds
