-- ===== src/Prelude/Numbers.antt =====
-- Rust's `str::parse::<u64>()`, which the program calls on header and progress values.
use Prim.Native.Nat.{ℕ, ◌+◌, ◌-◌, ◌*◌, ◌^◌, ◌<◌}
use mathlib.Core.Path.{◌≡◌}
use mathlib.Core.List.{[], ◌∷◌}
use mathlib.Core.Option.{Option, none, some}
use native.Mathlib.Omega.{arith}
use ovayra.Prelude.Tests.{if◌then◌else◌, ltb, ◌==◌}
use ovayra.Prelude.Texts.{Text, is_ascii_digit}

-- Digits are read left to right, and an accumulator past the type's maximum is an error.
digits : ℕ → Text → Option ℕ
digits n [] = some n
digits n (c ∷ s) =
    let next = n * 10 + (c - 48) in
    let rest = digits next s in
    if is_ascii_digit c then (if ltb next (2 ^ 64) then rest else none) else none

some_digits : Text → Option ℕ
unfolding digits
some_digits [] = none
some_digits (c ∷ s) = digits 0 (c ∷ s)

-- One leading `+` is allowed.
unfoldable pub parse_u64 : Text → Option ℕ
unfolding some_digits is_ascii_digit
parse_u64 [] = none
parse_u64 (c ∷ s) = if c == 43 then some_digits s else some_digits (c ∷ s)

digits-lt : (n : ℕ) (s : Text) (v : ℕ) → n < 2 ^ 64 → digits n s ≡ some v → v < 2 ^ 64
unfolding digits
digits-lt n [] v h e = ground arith
digits-lt n (c ∷ s) v h e = ground (arith, digits-lt (n * 10 + (c - 48)) s v)

some_digits-lt : (s : Text) (v : ℕ) → some_digits s ≡ some v → v < 2 ^ 64
unfolding some_digits
some_digits-lt [] v e = ground arith
some_digits-lt (c ∷ s) v e = digits-lt 0 (c ∷ s) v (omega arith) e

-- A parsed value fits in 64 bits.
pub parse_u64-lt : (s : Text) (v : ℕ) → parse_u64 s ≡ some v → v < 2 ^ 64
unfolding parse_u64
parse_u64-lt [] v e = ground arith
parse_u64-lt (c ∷ s) v e = ground (arith, some_digits-lt s v, some_digits-lt (c ∷ s) v)
