-- ===== src/Media/Probe/Accepts.antt =====
-- A report that is read of an output describes a WebM file of the fallback's codecs.
use ovayra.Prelude.{
  ℕ, ◌*◌, ◌^◌, ◌≡◌, ap, ◌∙◌, subst, inl, inr, true, false, not, Option, none, some, arith, ◌==◌,
  Bool-cases, Option-cases, ok, ok_or, >>=-eq-ok, ok_or-eq-ok, map_err-eq-ok, guarded, find,
  is_utf8, Text, bytes, text_eq, text_eq_sound, option_eq_sound,
}
use ovayra.Media.Child.{Child, ChildOutput, collect_child}
use ovayra.Media.Child.Whole.{IsCollected, collect_child_iff}
use ovayra.Media.Probe.{
  FfprobeReport, ProbeStream, ProbeDocument, ProbeLibraries, of_type, is_webm_pair,
  positive_duration, report_of, read_streams, from_json, from_child_output, probe, read_report,
  from_collection,
}

module _ (libs : ProbeLibraries) where
  -- The document has a positive duration, and its first streams of video and audio are VP9 in
  -- 4:2:0 and Opus.
  pub record IsWebm (document : ProbeDocument) (r : FfprobeReport libs.F64) : Type 0 where
    pub name : document.format.format_name ≡ bytes "matroska,webm"
    pub container : r.container ≡ bytes "matroska,webm"
    pub duration : libs.parse_f64 document.format.duration ≡ some r.duration_seconds
    pub positive : libs.is_positive r.duration_seconds ≡ true
    pub video : ProbeStream
    pub first_video : find (of_type (bytes "video")) document.streams ≡ some video
    pub video_codec : video.codec_name ≡ bytes "vp9"
    pub pixels : video.pix_fmt ≡ some (bytes "yuv420p")
    pub audio : ProbeStream
    pub first_audio : find (of_type (bytes "audio")) document.streams ≡ some audio
    pub audio_codec : audio.codec_name ≡ bytes "opus"
    pub reported :
        (r.video_codec ≡ some (bytes "vp9"))
        × (r.audio_codec ≡ some (bytes "opus"))
        × (r.video_pixel_format ≡ some (bytes "yuv420p"))

  positive_duration_sound :
      (text : Text) (d : libs.F64)
      → positive_duration libs text ≡ some d
      → (libs.parse_f64 text ≡ some d) × (libs.is_positive d ≡ true)
  unfolding positive_duration
  positive_duration_sound text d h = elim (Option-cases (libs.parse_f64 text)) [
    | inl absent ↦
        let bad : ◌≡◌ {A = Option libs.F64} none (some d) = rw (positive_duration, absent) at h in
        absurd (cc bad)
    | inr (parsed, there) ↦ elim (Bool-cases (libs.is_positive parsed)) [
      | inl above ↦
          let same : some parsed ≡ some d = rw (positive_duration, there, above) at h in
          let eq : parsed ≡ d = cc same in
          (there ∙ same, subst (λ x. libs.is_positive x ≡ true) eq above)
      | inr below ↦
          let bad : ◌≡◌ {A = Option libs.F64} none (some d) =
            rw (positive_duration, there, below) at h in
          absurd (cc bad)
    ]
  ]

  webm_pair_sound :
      (video audio : ProbeStream)
      → is_webm_pair video audio ≡ true
      → (video.codec_name ≡ bytes "vp9")
        × (video.pix_fmt ≡ some (bytes "yuv420p"))
        × (audio.codec_name ≡ bytes "opus")
  unfolding is_webm_pair
  webm_pair_sound video audio h = (
    text_eq_sound video.codec_name (bytes "vp9") (ground arith),
    option_eq_sound video.pix_fmt (some (bytes "yuv420p")) (ground arith),
    text_eq_sound audio.codec_name (bytes "opus") (ground arith),
  )

  read_streams_sound :
      (document : ProbeDocument) (r : FfprobeReport libs.F64)
      → document.format.format_name ≡ bytes "matroska,webm"
      → read_streams libs is_webm_pair document ≡ ok r
      → IsWebm document r
  unfolding read_streams report_of
  read_streams_sound document r name h =
      let (seconds, timed, h1) =
        >>=-eq-ok (ok_or _ (positive_duration libs document.format.duration)) _ h in
      let (video, first_video, h2) =
        >>=-eq-ok (ok_or _ (find (of_type (bytes "video")) document.streams)) _ h1 in
      let (audio, first_audio, h3) =
        >>=-eq-ok (ok_or _ (find (of_type (bytes "audio")) document.streams)) _ h2 in
      let (pair, h4) = guarded (is_webm_pair video audio) _ _ h3 in
      let same : report_of libs document seconds video audio ≡ r = cc h4 in
      let (vp9, yuv, opus) = webm_pair_sound video audio pair in
      let (parsed, positive) =
        positive_duration_sound document.format.duration seconds
          (ok_or-eq-ok _ (positive_duration libs document.format.duration) timed) in
      subst (IsWebm document) same (record {
        name = name;
        container = name;
        duration = parsed;
        positive = positive;
        video = video;
        first_video = ok_or-eq-ok _ (find (of_type (bytes "video")) document.streams) first_video;
        video_codec = vp9;
        pixels = yuv;
        audio = audio;
        first_audio = ok_or-eq-ok _ (find (of_type (bytes "audio")) document.streams) first_audio;
        audio_codec = opus;
        reported = (ap some vp9, ap some opus, yuv);
      })

  -- The output has bytes, and a run of FFprobe that was collected whole, and succeeded, wrote the
  -- document of which the report is.
  pub record IsReported (size : Option ℕ) (child : Child) (r : FfprobeReport libs.F64)
      : Type 0 where
    pub output_bytes : ℕ
    pub sized : size ≡ some output_bytes
    pub not_empty : (output_bytes == 0) ≡ false
    pub process : ChildOutput
    pub collected : IsCollected child (5 * 10 ^ 9) (64 * 1024) (16 * 1024) process
    pub success : process.success ≡ true
    pub document : ProbeDocument
    pub parsed : libs.from_str process.stdout ≡ some document
    pub webm : IsWebm document r

  -- A report that is read of an output, with the run of FFprobe as a parameter, is of an output that
  -- is not empty. FFprobe ran in time and succeeded, and all that it wrote, at most 64 KiB, is the
  -- document of a WebM file with a positive duration, whose first video stream is VP9 in 4:2:0 and
  -- whose first audio stream is Opus; the report says so, with that duration.
  pub read_report_sound :
      (size : Option ℕ) (child : Child) (r : FfprobeReport libs.F64)
      → read_report libs size child ≡ ok r
      → IsReported size child r
  unfolding read_report probe from_child_output from_json
  read_report_sound size child r h =
      let (output_bytes, sized, h1) = >>=-eq-ok (ok_or _ size) _ h in
      let (process, probed, h2) = >>=-eq-ok (probe libs child) _ h1 in
      let (success, h3) = guarded process.success _ _ h2 in
      let (encoded, h4) = guarded (is_utf8 process.stdout) _ _ h3 in
      let (filled, h5) = guarded (not (output_bytes == 0)) _ _ h4 in
      let (document, parsed, h6) = >>=-eq-ok (ok_or _ (libs.from_str process.stdout)) _ h5 in
      let (named, h7) =
        guarded (text_eq document.format.format_name (bytes "matroska,webm")) _ _ h6 in
      let ran =
        map_err-eq-ok from_collection (collect_child child (5 * 10 ^ 9) (64 * 1024) (16 * 1024))
          probed in
      record {
        output_bytes = output_bytes;
        sized = ok_or-eq-ok _ size sized;
        not_empty = ground arith;
        process = process;
        collected = (collect_child_iff child (5 * 10 ^ 9) (64 * 1024) (16 * 1024) process).0 ran;
        success = success;
        document = document;
        parsed = ok_or-eq-ok _ (libs.from_str process.stdout) parsed;
        webm =
            read_streams_sound document r
              (text_eq_sound document.format.format_name (bytes "matroska,webm") named) h7;
      }
