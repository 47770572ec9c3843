-- ===== src/Media/Preview.antt =====
-- crates/spike-media/src/preview.rs: frames, the one-slot transport, and reading frames off a pipe.
--
-- `usize` has 64 bits. The slot and its counter are passed along; a lock that a panic poisoned ends
-- the program and is left out. A pipe is the parameter `Pipe`.
pub mod Slot
pub mod Reads
use ovayra.Prelude.{
  ℕ, zero, suc, ◌+◌, ◌-◌, ◌*◌, ◌%◌, ◌^◌, Bool, true, false, not, Option, none, some, [], ◌∷◌, ◌++◌,
  ltb, ◌==◌, if◌then◌else◌, Result, ok, err, length, Text,
}

pub record Frame : Type 0 where
  pub width : ℕ
  pub height : ℕ
  pub content : Text
  pub sequence : ℕ
  pub enqueued_at : ℕ

pub data FrameError : Type 0 where
  dimension_overflow : (width height : ℕ) → FrameError
  incorrect_byte_count : (expected actual : ℕ) → FrameError

-- `usize::checked_mul`
unfoldable pub checked_mul : ℕ → ℕ → Option ℕ
checked_mul a b = if ltb (a * b) (2 ^ 64) then some (a * b) else none

-- `checked_mul(height).and_then(…)`
unfoldable pub byte_count : ℕ → ℕ → Option ℕ
unfolding checked_mul
byte_count width height = elim (checked_mul width height) [
  | none ↦ none
  | some pixels ↦ checked_mul pixels 4
]

rgba_of : ℕ → ℕ → Text → ℕ → ℕ → Option ℕ → Result FrameError Frame
rgba_of width height content sequence now none = err (dimension_overflow width height)
rgba_of width height content sequence now (some expected) =
    if not (length content == expected)
    then err (incorrect_byte_count expected (length content))
    else ok (record {
      width = width;
      height = height;
      content = content;
      sequence = sequence;
      enqueued_at = now;
    })

-- `Frame::rgba`; `now` is the clock
unfoldable pub rgba : (width height : ℕ) → Text → (sequence now : ℕ) → Result FrameError Frame
unfolding rgba_of byte_count
rgba width height content sequence now =
    rgba_of width height content sequence now (byte_count width height)

-- `LatestFrame`
pub record LatestFrame : Type 0 where
  pub frame : Option Frame
  pub dropped : ℕ

-- `Default`
abbrev pub empty_slot : LatestFrame
empty_slot = record { frame = none; dropped = 0 }

drop_if : Option Frame → ℕ → ℕ
drop_if none dropped = dropped
drop_if (some _) dropped = (dropped + 1) % 2 ^ 64

-- `publish`; the counter wraps, as `fetch_add` does
unfoldable pub publish : LatestFrame → Frame → LatestFrame
unfolding drop_if
publish slot f = record { frame = some f; dropped = drop_if slot.frame slot.dropped }

-- `take`
unfoldable pub take_frame : LatestFrame → Option Frame × LatestFrame
take_frame slot = (slot.frame, record slot { frame = none })

-- `LatestFrame::is_empty`
unfoldable pub slot_is_empty : LatestFrame → Bool
slot_is_empty slot = elim slot.frame [ none ↦ true | some _ ↦ false ]

-- What one read gives, or that the run was cancelled while it waited; no bytes are the end.
pub data ReadOutcome : Type 0 where
  got : Text → ReadOutcome
  read_failed read_cancelled : ReadOutcome

-- A read takes the room in the buffer.
pub record Pipe (S : Type 0) : Type 0 where
  pub read : S → (room : ℕ) → ReadOutcome × S

-- The variants for starting the process and its pipes, and of `FrameError`, belong to the runner.
pub data PreviewError : Type 0 where
  output cancelled : PreviewError
  partial_frame : (received : ℕ) → PreviewError

-- `PREVIEW_FRAME_BYTES`
abbrev pub preview_frame_bytes : ℕ
preview_frame_bytes = 640 * 360 * 4

module _ {S : Type 0} (pipe : Pipe S) where
  -- a frame, or `none` at the end of the stream; without result if the fuel runs out
  abbrev pub FrameRead : Type 0
  FrameRead = Option (Result PreviewError (Option Text) × S)

  at_end : (received : ℕ) → S → FrameRead
  at_end received s =
      if received == 0 then some (ok none, s) else some (err (partial_frame received), s)

  -- `next` is the reads that follow
  after_read : Text → (Text → S → FrameRead) → ReadOutcome × S → FrameRead
  unfolding at_end
  after_read frame next (read_failed, s) = some (err output, s)
  after_read frame next (read_cancelled, s) = some (err cancelled, s)
  after_read frame next (got [], s) = at_end (length frame) s
  after_read frame next (got (c ∷ chunk), s) = next (frame ++ (c ∷ chunk)) s

  -- The `while` of `read_frame`; `frame` is the bytes received.
  read_from : (fuel size : ℕ) → Text → S → FrameRead
  unfolding after_read
  read_from zero size frame s = none
  read_from (suc fuel) size frame s =
      if ltb (length frame) size
      then after_read frame (read_from fuel size) (pipe.read s (size - length frame))
      else some (ok (some frame), s)

  -- `read_frame`, with the size of a frame
  unfoldable pub read_frame : (fuel size : ℕ) → S → FrameRead
  unfolding read_from
  read_frame fuel size s = read_from fuel size [] s
