-- ===== src/Media/Backend.antt =====
-- crates/spike-media/src/capability.rs: the backends, the downgrade codes and the process-wide
-- quarantine of failed hardware.
use Prim.Native.Nat.{bit_and, bit_or}
use ovayra.Prelude.{
  ℕ, zero, suc, ◌<◌, ◌≡◌, refl, sym, ap, ◌∙◌, ◌≢◌, ◌↔◌, ◌⊎◌, inl, inr, Bool, true, false, not, ◌&&◌,
  ◌||◌, Option, none, some, arith, ltb, ◌==◌, if◌then◌else◌, ==_iff, Bool-cases, Result, ok, err,
  not_true, Text, bytes, text_eq,
}

pub data Backend : Type 0 where
  video_toolbox d3d11va_mf nvenc_nvdec vaapi cpu : Backend

unfoldable pub backend_as_str : Backend → Text
backend_as_str video_toolbox = bytes "videotoolbox"
backend_as_str d3d11va_mf = bytes "d3d11va-mf"
backend_as_str nvenc_nvdec = bytes "nvenc-nvdec"
backend_as_str vaapi = bytes "vaapi"
backend_as_str cpu = bytes "cpu"

unfoldable pub is_cpu : Backend → Bool
is_cpu cpu = true
is_cpu _ = false

-- `FromStr for Backend`
unfoldable pub backend_from_str : Text → Result Text Backend
backend_from_str value =
    if text_eq value (bytes "videotoolbox")
    then ok video_toolbox
    else if text_eq value (bytes "d3d11va-mf")
    then ok d3d11va_mf
    else if text_eq value (bytes "nvenc-nvdec")
    then ok nvenc_nvdec
    else if text_eq value (bytes "vaapi")
    then ok vaapi
    else if text_eq value (bytes "cpu")
    then ok cpu
    else err (bytes "expected videotoolbox, d3d11va-mf, nvenc-nvdec, vaapi, or cpu")

pub data DowngradeCode : Type 0 where
  probe_failed_code spawn_failed_code timed_out_code non_zero_exit_code missing_frames_code
        invalid_ffprobe_code failed_code hardware_quarantined_code :
      DowngradeCode

unfoldable pub code_as_str : DowngradeCode → Text
code_as_str probe_failed_code = bytes "probe_failed"
code_as_str spawn_failed_code = bytes "spawn_failed"
code_as_str timed_out_code = bytes "timed_out"
code_as_str non_zero_exit_code = bytes "nonzero_exit"
code_as_str missing_frames_code = bytes "missing_frames"
code_as_str invalid_ffprobe_code = bytes "invalid_ffprobe"
code_as_str failed_code = bytes "failed"
code_as_str hardware_quarantined_code = bytes "hardware_quarantined"

pub data AttemptOutcome : Type 0 where
  succeeded probe_failed spawn_failed timed_out non_zero_exit missing_frames invalid_ffprobe :
      AttemptOutcome
  failed : Text → AttemptOutcome

-- `AttemptOutcome::downgrade_code`
unfoldable pub outcome_code : AttemptOutcome → Option DowngradeCode
outcome_code succeeded = none
outcome_code probe_failed = some probe_failed_code
outcome_code spawn_failed = some spawn_failed_code
outcome_code timed_out = some timed_out_code
outcome_code non_zero_exit = some non_zero_exit_code
outcome_code missing_frames = some missing_frames_code
outcome_code invalid_ffprobe = some invalid_ffprobe_code
outcome_code (failed _) = some failed_code

backend_bit : Backend → ℕ
backend_bit video_toolbox = 1
backend_bit d3d11va_mf = 2
backend_bit nvenc_nvdec = 4
backend_bit vaapi = 8
backend_bit cpu = 0

-- `QUARANTINED_HARDWARE`, an `AtomicU8`, is passed along as a number.
unfoldable pub is_quarantined : ℕ → Backend → Bool
unfolding backend_bit
is_quarantined word backend = not (bit_and word (backend_bit backend) == 0)

unfoldable pub quarantine : ℕ → Backend → ℕ
unfolding backend_bit
quarantine word backend = bit_or word (backend_bit backend)

-- Every word and every backend, by evaluation.
every_word : (ℕ → Bool) → ℕ → Bool
every_word test zero = true
every_word test (suc top) = test top && every_word test top

every_word_sound :
    (test : ℕ → Bool) (top word : ℕ) → word < top → every_word test top ≡ true → test word ≡ true
unfolding every_word
every_word_sound test zero word small passed = absurd (omega arith)
every_word_sound test (suc top) word small passed = ground (arith, every_word_sound test top word)

-- the derived equality of `Backend`, by the place of the variant
backend_index : Backend → ℕ
backend_index video_toolbox = 0
backend_index d3d11va_mf = 1
backend_index nvenc_nvdec = 2
backend_index vaapi = 3
backend_index cpu = 4

backend_eq : Backend → Backend → Bool
unfolding backend_index
backend_eq a b = backend_index a == backend_index b

of_index : ℕ → Backend
of_index zero = video_toolbox
of_index (suc zero) = d3d11va_mf
of_index (suc (suc zero)) = nvenc_nvdec
of_index (suc (suc (suc zero))) = vaapi
of_index _ = cpu

of_index-index : (b : Backend) → of_index (backend_index b) ≡ b
unfolding of_index backend_index
of_index-index video_toolbox = refl
of_index-index _ = refl

backend_eq_iff : (a b : Backend) → (backend_eq a b ≡ true) ↔ (a ≡ b)
unfolding backend_eq
backend_eq_iff a b = (
  λ h.
      sym (of_index-index a)
      ∙ ap of_index ((==_iff (backend_index a) (backend_index b)).0 h)
      ∙ of_index-index b,
  λ e. (==_iff (backend_index a) (backend_index b)).1 (ap backend_index e),
)

-- After quarantining `a`, a word has the bit of `b` exactly if it had it, or `b` is `a`.
adds_one : Backend → Backend → ℕ → Bool
unfolding backend_eq
adds_one a b word =
    let now = is_quarantined (quarantine word a) b in
    let before = is_quarantined word b || (backend_eq a b && not (is_cpu b)) in
    ((now && before) || (not now && not before))
    && ltb (quarantine word a) 16
    && not (is_quarantined word cpu)

adds_one_table : (a b : Backend) → every_word (adds_one a b) 16 ≡ true
unfolding every_word adds_one is_cpu quarantine is_quarantined backend_eq
adds_one_table video_toolbox b = ground arith
adds_one_table d3d11va_mf b = ground arith
adds_one_table nvenc_nvdec b = ground arith
adds_one_table vaapi b = ground arith
adds_one_table cpu b = ground arith

marked_after :
    (word : ℕ) (a b : Backend)
    → word < 16
    → (is_quarantined (quarantine word a) b
        ≡ (is_quarantined word b || (backend_eq a b && not (is_cpu b))))
      × (is_quarantined word cpu ≡ false)
      × (quarantine word a < 16)
unfolding adds_one
marked_after word a b small =
    let t : adds_one a b word ≡ true =
      every_word_sound (adds_one a b) 16 word small (adds_one_table a b) in
    (ground arith, ground arith, ground arith)

only_cpu : (b : Backend) → b ≢ cpu → is_cpu b ≡ false
unfolding is_cpu
only_cpu cpu other = absurd (other refl)
only_cpu _ other = refl

-- Another backend keeps its mark.
pub is_quarantined-other :
    (word : ℕ) (a b : Backend)
    → word < 16
    → a ≢ b
    → is_quarantined (quarantine word a) b ≡ is_quarantined word b
is_quarantined-other word a b small apart =
    let (marks, _, _) = marked_after word a b small in
    let differ : backend_eq a b ≡ false =
      not_true (backend_eq a b) (λ same. apart ((backend_eq_iff a b).0 same)) in
    ground arith

pub is_quarantined-own :
    (word : ℕ) (a : Backend)
    → word < 16
    → is_cpu a ≡ false
    → is_quarantined (quarantine word a) a ≡ true
is_quarantined-own word a small hardware =
    let (marks, _, _) = marked_after word a a small in
    let same : backend_eq a a ≡ true = (backend_eq_iff a a).1 refl in ground arith

both_true : (a b : Bool) → (a && not b) ≡ true → (a ≡ true) × (b ≡ false)
both_true a b h = (ground arith, ground arith)

not_cpu : (b : Backend) → is_cpu b ≡ false → b ≢ cpu
unfolding is_cpu
not_cpu b hardware e = let bad : true ≡ is_cpu b = ap is_cpu (sym e) in absurd (cc (bad, hardware))

-- In a word of four bits, after a backend was quarantined, a backend is marked exactly if it was
-- marked before or is the one that was quarantined and not the CPU. The CPU is not marked, and the
-- word stays within its four bits.
pub is_quarantined-quarantine :
    (word : ℕ) (a b : Backend)
    → word < 16
    → ((is_quarantined (quarantine word a) b ≡ true)
        ↔ ((is_quarantined word b ≡ true) ⊎ ((a ≡ b) × (b ≢ cpu))))
      × (is_quarantined word cpu ≡ false)
      × (quarantine word a < 16)
is_quarantined-quarantine word a b small =
    let (marks, never, fits) = marked_after word a b small in
    (
      (
        λ now. elim (Bool-cases (is_quarantined word b)) [
          | inl before ↦ inl before
          | inr unmarked ↦
              let (same, hardware) = both_true (backend_eq a b) (is_cpu b) (ground arith) in
              inr ((backend_eq_iff a b).0 same, not_cpu b hardware)
        ],
        λ why. elim why [
          | inl before ↦ ground arith
          | inr (same, hardware) ↦
              let equal : backend_eq a b ≡ true = (backend_eq_iff a b).1 same in
              let other : is_cpu b ≡ false = only_cpu b hardware in ground arith
        ],
      ),
      never,
      fits,
    )
