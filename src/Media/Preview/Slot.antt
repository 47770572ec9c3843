-- ===== src/Media/Preview/Slot.antt =====
-- Frames are counted: each one published is taken, dropped, or still pending.
use ovayra.Prelude.{
  ℕ, suc, ◌+◌, ◌*◌, ◌%◌, ◌^◌, ◌<◌, ◌≡◌, refl, sym, ap, ◌↔◌, inl, inr, Option, none, some, List, [],
  ◌∷◌, arith, ltb, ◌==◌, ltb→lt, ==_iff, Bool-cases, Option-cases, Result, ok, err, length, Text,
}
use ovayra.Media.Preview.{
  Frame, LatestFrame, publish, take_frame, drop_if, FrameError, rgba, rgba_of, byte_count,
  checked_mul, incorrect_byte_count,
}

-- What the reader and the window do with the slot, in any order.
pub data Use : Type 0 where
  publishing : Frame → Use
  taking : Use

unfoldable pub taken : Option Frame → List Frame → List Frame
taken none frames = frames
taken (some f) frames = f ∷ frames

-- The slot after some uses, and the frames taken from it.
unfoldable pub use_all : LatestFrame → List Use → LatestFrame × List Frame
unfolding taken
use_all slot [] = (slot, [])
use_all slot (publishing f ∷ uses) = use_all (publish slot f) uses
use_all slot (taking ∷ uses) =
    let (frame, after) = take_frame slot in
    let (last, frames) = use_all after uses in (last, taken frame frames)

abbrev pub published : List Use → ℕ
published [] = 0
published (publishing _ ∷ uses) = suc (published uses)
published (taking ∷ uses) = published uses

abbrev pub pending : Option Frame → ℕ
pending none = 0
pending (some _) = 1

-- What the counter says after some uses of a slot.
abbrev pub IsCounted : Option Frame → ℕ → List Use → LatestFrame × List Frame → Type 0
IsCounted before dropped uses (slot, frames) =
    (lost : ℕ) × (slot.dropped ≡ (dropped + lost) % 2 ^ 64)
    × (lost + length frames + pending slot.frame ≡ published uses + pending before)

counts :
    (before : Option Frame) (dropped : ℕ) (uses : List Use)
    → dropped < 2 ^ 64
    → IsCounted before dropped uses (use_all (record { frame = before; dropped = dropped }) uses)
unfolding use_all publish take_frame drop_if taken
counts before n [] small = (0, omega arith, omega arith)
counts none n (publishing f ∷ uses) small =
    let (lost, d, c) = counts (some f) n uses small in (lost, d, omega (arith, c))
counts (some g) n (publishing f ∷ uses) small =
    let (lost, d, c) = counts (some f) ((n + 1) % 2 ^ 64) uses (omega arith) in
    (suc lost, omega (arith, d), omega (arith, c))
counts none n (taking ∷ uses) small =
    let (lost, d, c) = counts none n uses small in (lost, d, omega (arith, c))
counts (some g) n (taking ∷ uses) small =
    let (lost, d, c) = counts none n uses small in (lost, d, omega (arith, c))

-- Every frame published to a slot whose counter fits 64 bits, and the one pending before, is taken,
-- pending or dropped: the counter has advanced by the number of those dropped, modulo 2 ^ 64.
pub use_all-IsCounted :
    (slot : LatestFrame) (uses : List Use)
    → slot.dropped < 2 ^ 64
    → IsCounted slot.frame slot.dropped uses (use_all slot uses)
use_all-IsCounted slot uses small = counts slot.frame slot.dropped uses small

rgba_of_sound :
    (width height : ℕ) (content : Text) (sequence now : ℕ) (x : Option ℕ) {f : Frame}
    → rgba_of width height content sequence now x ≡ ok f
    → x ≡ some (length content)
unfolding rgba_of
rgba_of_sound width height content sequence now none {f} h = cc
rgba_of_sound width height content sequence now (some n) {f} h =
    elim (Bool-cases (length content == n)) [
      | inl same ↦ ap some (sym ((==_iff (length content) n).0 same))
      | inr other ↦
          let bad : ◌≡◌ {A = Result FrameError Frame}
              (err (incorrect_byte_count n (length content))) (ok f) =
            rw other at h in
          cc
    ]

checked_mul_iff : (a b n : ℕ) → (checked_mul a b ≡ some n) ↔ ((n ≡ a * b) × (a * b < 2 ^ 64))
unfolding checked_mul
checked_mul_iff a b n = elim (Bool-cases (ltb (a * b) (2 ^ 64))) [
  | inl fits ↦ rw fits (λ h. (cc, ltb→lt (a * b) (2 ^ 64) fits), λ (e, _). cc)
  | inr over ↦ rw over (λ h. cc, λ (e, fits). absurd (ground arith))
]

byte_count_iff :
    (width height n : ℕ)
    → (byte_count width height ≡ some n)
      ↔ ((n ≡ width * height * 4) × (width * height * 4 < 2 ^ 64))
unfolding byte_count
byte_count_iff width height n = elim (Option-cases (checked_mul width height)) [
  | inl over ↦
      rw (byte_count, over)
        (
          λ h. cc,
          λ (e, fits).
              let whole =
                (checked_mul_iff width height (width * height)).1 (refl, omega (arith, fits)) in
              cc,
        )
  | inr (pixels, e) ↦
      let (count, _) = (checked_mul_iff width height pixels).0 e in
      rw (byte_count, e)
        (
          λ h.
              let (total, fits) = (checked_mul_iff pixels 4 n).0 h in
              (omega (arith, count, total), omega (arith, count, fits)),
          λ (total, fits).
              (checked_mul_iff pixels 4 n).1
                (omega (arith, count, total), omega (arith, count, fits)),
        )
]

-- A frame is built exactly from as many bytes as its size takes, where that number fits 64 bits.
pub rgba_iff :
    (width height : ℕ) (content : Text) (sequence now : ℕ)
    → ((f : Frame) × (rgba width height content sequence now ≡ ok f))
      ↔ ((length content ≡ width * height * 4) × (width * height * 4 < 2 ^ 64))
unfolding rgba rgba_of
rgba_iff width height content sequence now = (
  λ (f, h).
      (byte_count_iff width height (length content)).0
        (rgba_of_sound width height content sequence now (byte_count width height) h),
  λ (same, fits).
      let e = (byte_count_iff width height (length content)).1 (same, fits) in
      (
        record {
          width = width;
          height = height;
          content = content;
          sequence = sequence;
          enqueued_at = now;
        },
        rw (e, rgba_of, (==_iff (length content) (length content)).1 refl) refl,
      ),
)
