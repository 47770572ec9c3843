-- ===== src/Prelude/Unicode.antt =====
-- What the program uses of Rust's UTF-8 strings: validity, and trimming by white space.
use Prim.Native.Nat.{ℕ, zero, suc}
use mathlib.Core.Bool.{Bool, true, false, ◌&&◌, ◌||◌}
use mathlib.Core.List.{List, [], ◌∷◌, reverse}
use mathlib.Core.Option.{Option, none, some}
use ovayra.Prelude.Tests.{if◌then◌else◌, ltb, leb, ◌==◌}
use ovayra.Prelude.Texts.{Text}

unfoldable pub between : ℕ → ℕ → ℕ → Bool
between lo hi c = leb lo c && leb c hi

-- What a leading byte asks for: how many bytes follow, and the range of the first of them.
unfoldable pub lead : ℕ → Option (ℕ × ℕ × ℕ)
unfolding between
lead c =
    if ltb c 0x80
    then some (0, 0, 0)
    else if between 0xc2 0xdf c
    then some (1, 0x80, 0xbf)
    else if c == 0xe0
    then some (2, 0xa0, 0xbf)
    else if c == 0xed
    then some (2, 0x80, 0x9f)
    else if between 0xe1 0xef c
    then some (2, 0x80, 0xbf)
    else if c == 0xf0
    then some (3, 0x90, 0xbf)
    else if between 0xf1 0xf3 c
    then some (3, 0x80, 0xbf)
    else if c == 0xf4
    then some (3, 0x80, 0x8f)
    else none

unfoldable pub utf8_from : ℕ → ℕ → ℕ → Text → Bool
unfolding lead between
utf8_from zero lo hi [] = true
utf8_from (suc k) lo hi [] = false
utf8_from zero lo hi (c ∷ s) = elim (lead c) [
  | none ↦ false
  | some (k, lo', hi') ↦ utf8_from k lo' hi' s
]
utf8_from (suc k) lo hi (c ∷ s) = between lo hi c && utf8_from k 0x80 0xbf s

-- `String::from_utf8` succeeds
unfoldable pub is_utf8 : Text → Bool
unfolding utf8_from
is_utf8 = utf8_from 0 0 0

-- `char::is_whitespace` on the character that a text starts with: the bytes that it takes, or 0
unfoldable pub space_width : Text → ℕ
unfolding between
space_width [] = 0
space_width (c ∷ []) = if between 9 13 c || (c == 32) then 1 else 0
space_width (c ∷ d ∷ []) =
    if between 9 13 c || (c == 32)
    then 1
    else if (c == 0xc2) && ((d == 0x85) || (d == 0xa0))
    then 2
    else 0
space_width (c ∷ d ∷ e ∷ s) =
    if between 9 13 c || (c == 32)
    then 1
    else if (c == 0xc2) && ((d == 0x85) || (d == 0xa0))
    then 2
    else if ((c == 0xe1) && (d == 0x9a) && (e == 0x80))
        || ((c == 0xe2)
            && (d == 0x80)
            && (between 0x80 0x8a e || (e == 0xa8) || (e == 0xa9) || (e == 0xaf)))
        || ((c == 0xe2) && (d == 0x81) && (e == 0x9f))
        || ((c == 0xe3) && (d == 0x80) && (e == 0x80))
    then 3
    else 0

-- the same, on a reversed text that ends with the character
space_width_rev : Text → ℕ
unfolding between space_width
space_width_rev [] = 0
space_width_rev (c ∷ []) = space_width (c ∷ [])
space_width_rev (d ∷ c ∷ []) =
    if between 9 13 d || (d == 32) then 1 else if space_width (c ∷ d ∷ []) == 2 then 2 else 0
space_width_rev (e ∷ d ∷ c ∷ s) =
    if between 9 13 e || (e == 32)
    then 1
    else if space_width (d ∷ e ∷ []) == 2
    then 2
    else if space_width (c ∷ d ∷ e ∷ []) == 3
    then 3
    else 0

-- Drops the bytes still to be skipped, then a run of white space.
trim_by : (Text → ℕ) → ℕ → Text → Text
trim_by width k [] = []
trim_by width zero (c ∷ s) = elim (width (c ∷ s)) [ zero ↦ c ∷ s | suc k ↦ trim_by width k s ]
trim_by width (suc k) (c ∷ s) = trim_by width k s

-- `str::trim_start`
unfoldable pub trim_start : Text → Text
unfolding trim_by space_width
trim_start s = trim_by space_width 0 s

-- `str::trim`
unfoldable pub trim : Text → Text
unfolding trim_by space_width space_width_rev
trim s = reverse (trim_by space_width_rev 0 (reverse (trim_by space_width 0 s)))

-- `str::split_whitespace`: the runs of bytes between white space. The current run is kept reversed,
-- and the first number counts the bytes of a space that are still to be skipped.
end_run : Text → List Text → List Text
end_run [] rest = rest
end_run (c ∷ run) rest = reverse (c ∷ run) ∷ rest

split_runs : ℕ → Text → Text → List Text
unfolding end_run space_width
split_runs k run [] = end_run run []
split_runs (suc k) run (c ∷ s) = split_runs k run s
split_runs zero run (c ∷ s) = elim (space_width (c ∷ s)) [
  | zero ↦ split_runs 0 (c ∷ run) s
  | suc k ↦ end_run run (split_runs k [] s)
]

unfoldable pub split_whitespace : Text → List Text
unfolding split_runs
split_whitespace s = split_runs 0 [] s
