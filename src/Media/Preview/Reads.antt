-- ===== src/Media/Preview/Reads.antt =====
-- Reading a frame ends, and a frame that is read has its full size.
use ovayra.Prelude.{
  ℕ, zero, suc, ◌-◌, ◌≤◌, ◌<◌, ◌≡◌, refl, inl, inr, none, some, [], ◌∷◌, ◌++◌, arith, ltb, ◌==◌,
  Bool-cases, ok, length, length-append, Text,
}
use ovayra.Media.Preview.{
  ReadOutcome, got, read_failed, read_cancelled, Pipe, FrameRead, at_end, after_read, read_from,
  read_frame,
}

-- A read gives no more than there is room for.
pub record IsBoundedPipe {S : Type 0} (pipe : Pipe S) : Type 0 where
  pub fits :
      (s s' : S) (room : ℕ) (chunk : Text)
      → pipe.read s room ≡ (got chunk, s')
      → length chunk ≤ room

module _ {S : Type 0} (pipe : Pipe S) (law : IsBoundedPipe pipe) where
  -- What a finished read says; an unfinished one says nothing true.
  abbrev pub IsWhole : ℕ → FrameRead pipe → Type 0
  IsWhole size none = ⊥
  IsWhole size (some (ok (some frame), s)) = length frame ≡ size
  IsWhole size (some _) = Unit

  IsWhole-at_end : (size received : ℕ) (s : S) → IsWhole size (at_end pipe received s)
  unfolding at_end
  IsWhole-at_end size received s = elim (Bool-cases (received == 0)) [
    | inl e ↦ rw e tt
    | inr e ↦ rw e tt
  ]

  IsWhole-after_read :
      (size : ℕ) (frame : Text) (next : Text → S → FrameRead pipe) (x : ReadOutcome × S)
      → ((c : ℕ) (chunk : Text) (s : S)
          → x ≡ (got (c ∷ chunk), s)
          → IsWhole size (next (frame ++ (c ∷ chunk)) s))
      → IsWhole size (after_read pipe frame next x)
  unfolding after_read
  IsWhole-after_read size frame next (read_failed, s) rest = tt
  IsWhole-after_read size frame next (read_cancelled, s) rest = tt
  IsWhole-after_read size frame next (got [], s) rest = IsWhole-at_end size (length frame) s
  IsWhole-after_read size frame next (got (c ∷ chunk), s) rest = rest c chunk s refl

  IsWhole-read_from :
      (fuel size : ℕ) (frame : Text) (s : S)
      → length frame ≤ size
      → size - length frame < fuel
      → IsWhole size (read_from pipe fuel size frame s)
  unfolding read_from
  IsWhole-read_from zero size frame s within enough = absurd (omega arith)
  IsWhole-read_from (suc fuel) size frame s within enough =
      elim (Bool-cases (ltb (length frame) size)) [
        | inr full ↦ rw full (ground arith)
        | inl room ↦ rw room (
            IsWhole-after_read size frame (read_from pipe fuel size)
              (pipe.read s (size - length frame))
              (λ c chunk s' e.
                let small = law.fits s s' (size - length frame) (c ∷ chunk) e in
                IsWhole-read_from fuel size (frame ++ (c ∷ chunk)) s'
                  (omega (arith, length-append {0} frame (c ∷ chunk), small))
                  (omega (arith, length-append {0} frame (c ∷ chunk), small))))
      ]

  -- With a pipe that gives no more than there is room for, reading a frame ends within as many reads
  -- as a frame has bytes, and one: with a frame of exactly the size asked for, the end of the stream,
  -- or an error.
  pub read_frame-IsWhole :
      (fuel size : ℕ) (s : S) → size < fuel → IsWhole size (read_frame pipe fuel size s)
  unfolding read_frame
  read_frame-IsWhole fuel size s enough =
      IsWhole-read_from fuel size [] s (omega arith) (omega arith)
