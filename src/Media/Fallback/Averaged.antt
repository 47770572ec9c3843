-- ===== src/Media/Fallback/Averaged.antt =====
-- What a generation that succeeds has read of its program's progress.
use ovayra.Prelude.{
  ℕ, ◌+◌, ◌-◌, ◌*◌, ◌^◌, ◌≤◌, min, ◌≡◌, refl, sym, ap, ◌∙◌, subst, inl, inr, true, false, not, ◌&&◌,
  Option, none, some, List, [], ◌∷◌, Memᴰ, arith, ltb, leb, ◌==◌, ltb→lt, leb→le, Bool-cases,
  Option-cases, ok, err, ok_or, map_err, >>=-eq-ok, ok_or-eq-ok, map_err-eq-ok, guarded, length,
  find, find_sound, lines, Text, bytes, is_empty,
}
use ovayra.Media.Progress.{Std, ProgressEvent, fresh, push}
use ovayra.Media.Child.{Child, ChildOutput, collect_child}
use ovayra.Media.Child.Whole.{all_read}
use ovayra.Media.Fallback.{
  CpuFallback, generation_timeout, Speeds, ProgressSummary, CpuFallbackOutput, GenerationOutput,
  no_progress, record_events, average_speed, mean, Drained, drain_progress, joined,
  collect_generation, build_line, ffmpeg_build_id, from_collection, speeds_of, sum_from,
  average_speed_from_progress, generate, drain_progress_error, drain_io, drains,
}
use ovayra.Media.Fallback.Drained.{IsDrained, drain_from_sound}
use ovayra.Media.Fallback.Counted.{
  IsCounted, has_finished, finished-record_events, record_events-IsCounted,
}

module _ (std : Std) (speeds : Speeds std.F64) where
  -- The whole output of a child whose status is known, and the summary of its events.
  pub record IsJoined (child : Child) (timeout : ℕ) (o : GenerationOutput std.F64) : Type 0 where
    pub in_time : child.exceeds timeout ≡ false
    pub waited : child.waited ≡ some o.success
    pub output : Text
    pub whole : all_read child.stdout ≡ some output
    pub drained : IsDrained std speeds fresh (no_progress std speeds) output o.progress

  joined_sound :
      (child : Child) (d : Drained std speeds) (o : GenerationOutput std.F64)
      → joined std speeds child d ≡ ok o
      → (d ≡ ok o.progress) × (child.waited ≡ some o.success)
  unfolding joined
  joined_sound child (err drain_io) o h = cc h
  joined_sound child (err (drain_progress_error e)) o h = cc h
  joined_sound child (ok summary) o h =
      let (status, waited, h1) = >>=-eq-ok (ok_or _ child.waited) _ h in
      let (read, h2) = guarded (drains std speeds child.stderr) _ _ h1 in
      let same : ◌≡◌ {A = GenerationOutput std.F64}
          (record { success = status; progress = summary }) o =
        cc h2 in
      (
        ap (λ (x : GenerationOutput std.F64). ok x.progress) same,
        ok_or-eq-ok _ child.waited waited
            ∙ ap (λ (x : GenerationOutput std.F64). some x.success) same,
      )

  collect_generation_sound :
      (child : Child) (timeout : ℕ) (o : GenerationOutput std.F64)
      → collect_generation std speeds child timeout ≡ ok o
      → IsJoined child timeout o
  unfolding collect_generation drain_progress
  collect_generation_sound child timeout o h =
      let (built, h1) = guarded child.runtime_built _ _ h in
      let (started, h2) = guarded child.spawned _ _ h1 in
      let (pipes, h3) = guarded (child.has_stdout && child.has_stderr) _ _ h2 in
      let (in_time, h4) = guarded (not (child.exceeds timeout)) _ _ h3 in
      let (drained, waited) = joined_sound child (drain_progress std speeds child.stdout) o h4 in
      let (output, whole, events) =
        drain_from_sound std speeds fresh (no_progress std speeds) o.progress child.stdout
          drained in
      record {
        in_time = ground arith;
        waited = waited;
        output = output;
        whole = whole;
        drained = events;
      }

  mean_small :
      (total : std.F64) (count : ℕ) (a : Option std.F64)
      → mean std speeds total (min count (2 ^ 64 - 1)) ≡ ok a
      → mean std speeds total count ≡ ok a
  unfolding mean
  mean_small total count a h =
      let (fits, _) = guarded (ltb (min count (2 ^ 64 - 1)) (2 ^ 32)) _ _ h in
      let small = ltb→lt (min count (2 ^ 64 - 1)) (2 ^ 32) fits in
      let same : min count (2 ^ 64 - 1) ≡ count = omega (arith, small) in
      subst (λ k. mean std speeds total k ≡ ok a) same h

  average_speed_sound :
      (output : Text) (r : ProgressSummary std.F64) (a : Option std.F64)
      → IsDrained std speeds fresh (no_progress std speeds) output r
      → average_speed std speeds r ≡ ok a
      → average_speed_from_progress std speeds output ≡ ok a
  unfolding average_speed average_speed_from_progress
  average_speed_sound output r a (events, parsed, recorded) h =
      let counted =
        record_events-IsCounted std speeds (no_progress std speeds) 0 speeds.none_yet events
          (omega arith, refl) in
      let (count, sum) =
        subst
          (λ x.
            IsCounted std speeds x (0 + length (speeds_of std speeds events))
              (sum_from std speeds speeds.none_yet (speeds_of std speeds events)))
          recorded counted in
      let plain : 0 + length (speeds_of std speeds events) ≡ length (speeds_of std speeds events) =
        omega arith in
      let averaged : mean std speeds
            (sum_from std speeds speeds.none_yet (speeds_of std speeds events))
            (min (length (speeds_of std speeds events)) (2 ^ 64 - 1))
          ≡ ok a =
        rw (← plain) (rw (sum, count) at h) in
      rw parsed (
        mean_small (sum_from std speeds speeds.none_yet (speeds_of std speeds events))
          (length (speeds_of std speeds events)) a averaged)

  build_line_sound :
      (output line : Text)
      → build_line std speeds output ≡ some line
      → Memᴰ line (lines output) × (is_empty line ≡ false) × (length line ≤ 256)
  unfolding build_line
  build_line_sound output line h =
      elim (Option-cases (find (λ line. not (is_empty line)) (lines output))) [
        | inl absent ↦
            let bad : ◌≡◌ {A = Option Text} none (some line) = rw (build_line, absent) at h in
            absurd (cc bad)
        | inr (l, there) ↦ elim (Bool-cases (leb (length l) 256)) [
          | inl short ↦
              let same : some l ≡ some line = rw (build_line, there, short) at h in
              let eq : l ≡ line = cc same in
              let (member, filled) =
                find_sound (λ line. not (is_empty line)) (lines output) there in
              subst (λ (x : Text). Memᴰ x (lines output) × (is_empty x ≡ false) × (length x ≤ 256))
                eq (member, ground arith, leb→le (length l) 256 short)
          | inr long ↦
              let bad : ◌≡◌ {A = Option Text} none (some line) =
                rw (build_line, there, long) at h in
              absurd (cc bad)
        ]
      ]

  module _ (run : Text → List Text → Child) where
    -- What a generation has seen of the two runs of its program: `output` is all that the first wrote,
    -- `events` is what the parser makes of it, and `version` is what the second wrote.
    pub record IsGenerated (fallback : CpuFallback) (arguments : List Text) (seconds : ℕ)
        (out : CpuFallbackOutput std.F64) : Type 0 where
      pub positive : (seconds == 0) ≡ false
      pub in_time :
          (run fallback.ffmpeg arguments).exceeds (generation_timeout fallback seconds) ≡ false
      pub exited : (run fallback.ffmpeg arguments).waited ≡ some true
      pub output : Text
      pub whole : all_read (run fallback.ffmpeg arguments).stdout ≡ some output
      pub events : List (ProgressEvent std.F64)
      pub parsed : (push std fresh output).0 ≡ ok events
      pub finished : has_finished std speeds events ≡ true
      pub averaged : average_speed_from_progress std speeds output ≡ ok out.average_speed
      pub version : ChildOutput
      pub version_read :
          collect_child
            (run fallback.ffmpeg (bytes "-version" ∷ []))
            fallback.utility
            (8 * 1024)
            (8 * 1024)
          ≡ ok version
      pub version_exited : version.success ≡ true
      pub identified : Memᴰ out.ffmpeg_build_id (lines (std.from_utf8_lossy version.stdout))
      pub named : (is_empty out.ffmpeg_build_id ≡ false) × (length out.ffmpeg_build_id ≤ 256)

    -- A generation that succeeds was asked for a positive duration. Its program ended in time and with
    -- a success; all that the program wrote parses, pushed at once, as progress with a last event, and
    -- the average speed is the one of all of it. The build identity is a line of what the program
    -- wrote of its version, not empty and of at most 256 bytes.
    pub generate_sound :
        (fallback : CpuFallback) (arguments : List Text) (seconds : ℕ)
        (out : CpuFallbackOutput std.F64)
        → generate std speeds run fallback arguments seconds ≡ ok out
        → IsGenerated fallback arguments seconds out
    unfolding generate ffmpeg_build_id
    generate_sound fallback arguments seconds out h =
        let child = run fallback.ffmpeg arguments in
        let probed = run fallback.ffmpeg (bytes "-version" ∷ []) in
        let (positive, h1) = guarded (not (seconds == 0)) _ _ h in
        let (process, collected, h2) =
          >>=-eq-ok (collect_generation std speeds child (generation_timeout fallback seconds)) _
            h1 in
        let (success, h3) = guarded process.success _ _ h2 in
        let (saw, h4) = guarded process.progress.saw_finished _ _ h3 in
        let (average, averaged, h5) = >>=-eq-ok (average_speed std speeds process.progress) _ h4 in
        let (build_id, identified, h6) =
          >>=-eq-ok (ffmpeg_build_id std speeds fallback probed) _ h5 in
        let same : ◌≡◌ {A = CpuFallbackOutput std.F64}
            (record { average_speed = average; ffmpeg_build_id = build_id }) out =
          cc h6 in
        let (version, read, k1) =
          >>=-eq-ok
            (map_err from_collection (collect_child probed fallback.utility (8 * 1024) (8 * 1024)))
            _ identified in
        let (version_exited, k2) = guarded version.success _ _ k1 in
        let (member, filled, short) =
          build_line_sound (std.from_utf8_lossy version.stdout) build_id
            (ok_or-eq-ok _ (build_line std speeds (std.from_utf8_lossy version.stdout)) k2) in
        let run_of =
          collect_generation_sound child (generation_timeout fallback seconds) process collected in
        let (events, parsed, recorded) = run_of.drained in
        let last : (record_events std speeds (no_progress std speeds) events).saw_finished ≡ true =
          ap (λ (x : ProgressSummary std.F64). x.saw_finished) recorded ∙ saw in
        subst (IsGenerated fallback arguments seconds) same (record {
          positive = ground arith;
          in_time = run_of.in_time;
          exited = run_of.waited ∙ ap some success;
          output = run_of.output;
          whole = run_of.whole;
          events = events;
          parsed = parsed;
          finished = sym (finished-record_events std speeds (no_progress std speeds) events) ∙ last;
          averaged =
              average_speed_sound run_of.output process.progress average run_of.drained averaged;
          version = version;
          version_read =
              map_err-eq-ok from_collection
                (collect_child probed fallback.utility (8 * 1024) (8 * 1024)) read;
          version_exited = version_exited;
          identified = member;
          named = (filled, short);
        })
