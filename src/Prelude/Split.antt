-- ===== src/Prelude/Split.antt =====
-- The ways in which the program takes Rust's texts apart: lines, prefixes, suffixes, separators.
use Prim.Native.Nat.{ℕ, ◌-◌}
use mathlib.Core.Bool.{Bool, true, false, ◌&&◌}
use mathlib.Core.List.{List, [], ◌∷◌, reverse}
use mathlib.Core.Option.{Option, none, some}
use ovayra.Prelude.Tests.{if◌then◌else◌, leb, ◌==◌}
use ovayra.Prelude.Lists.{length, drop}
use ovayra.Prelude.Texts.{Text, text_eq, starts_with}

-- `str::ends_with`
unfoldable pub ends_with : Text → Text → Bool
unfolding text_eq
ends_with s t = leb (length t) (length s) && text_eq (drop (length s - length t) s) t

-- `str::strip_prefix`
unfoldable pub strip_prefix : Text → Text → Option Text
unfolding starts_with
strip_prefix s t = if starts_with s t then some (drop (length t) s) else none

without_return : Text → Text
without_return [] = []
without_return (c ∷ run) = if c == 13 then run else c ∷ run

-- The current line is kept reversed.
lines_from : Text → Text → List Text
unfolding without_return
lines_from [] [] = []
lines_from (c ∷ run) [] = reverse (c ∷ run) ∷ []
lines_from run (c ∷ s) = elim (c == 10) [
  | true ↦ reverse (without_return run) ∷ lines_from [] s
  | false ↦ lines_from (c ∷ run) s
]

-- `str::lines`
unfoldable pub lines : Text → List Text
unfolding lines_from
lines s = lines_from [] s

split_from : ℕ → Text → Text → List Text
split_from sep run [] = reverse run ∷ []
split_from sep run (c ∷ s) = elim (c == sep) [
  | true ↦ reverse run ∷ split_from sep [] s
  | false ↦ split_from sep (c ∷ run) s
]

-- `str::split` at a byte
unfoldable pub split_at : ℕ → Text → List Text
unfolding split_from
split_at sep s = split_from sep [] s

once_from : Text → Text → Text → Option (Text × Text)
unfolding starts_with
once_from sep run [] = if starts_with [] sep then some (reverse run, []) else none
once_from sep run (c ∷ s) = elim (starts_with (c ∷ s) sep) [
  | true ↦ some (reverse run, drop (length sep) (c ∷ s))
  | false ↦ once_from sep (c ∷ run) s
]

-- `str::split_once`
unfoldable pub split_once : Text → Text → Option (Text × Text)
unfolding once_from
split_once sep s = once_from sep [] s
