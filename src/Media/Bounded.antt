-- ===== src/Media/Bounded.antt =====
-- crates/spike-media/src/capability.rs: cutting a text at a character boundary, as `bound_reason`
-- and `InventoryOutput::new` do with their two limits.
pub mod Boundary
use ovayra.Prelude.{
  ℕ, zero, suc, ◌+◌, ◌-◌, ◌≤◌, inl, inr, [], ◌∷◌, arith, ltb, leb, if◌then◌else◌, Bool-cases,
  length, take, Text,
}

-- `char::len_utf8` of the character that begins with a byte
unfoldable pub char_width : ℕ → ℕ
char_width c = if ltb c 0x80 then 1 else if ltb c 0xe0 then 2 else if ltb c 0xf0 then 3 else 4

-- The loop over `char_indices`. `skip` counts the bytes that remain of the current character; the
-- result is `end`, the last boundary that is within the limit.
unfoldable pub cut_end : ℕ → ℕ → ℕ → ℕ → Text → ℕ
unfolding char_width
cut_end limit index end skip [] = end
cut_end limit index end (suc skip) (c ∷ s) = cut_end limit (index + 1) end skip s
cut_end limit index end zero (c ∷ s) =
    let next = index + char_width c in
    let rest = cut_end limit (index + 1) next (char_width c - 1) s in
    if ltb limit next then end else rest

unfoldable pub cut_text : ℕ → Text → Text
unfolding cut_end
cut_text limit s = if leb (length s) limit then s else take (cut_end limit 0 0 0 s) s

pub cut_end-le :
    (limit index end skip : ℕ) (s : Text) → end ≤ limit → cut_end limit index end skip s ≤ limit
unfolding cut_end
cut_end-le limit index end skip [] h = h
cut_end-le limit index end (suc skip) (c ∷ s) h = cut_end-le limit (index + 1) end skip s h
cut_end-le limit index end zero (c ∷ s) h = elim (Bool-cases (ltb limit (index + char_width c))) [
  | inl over ↦ rw over h
  | inr fits ↦
      rw fits
        (cut_end-le limit (index + 1) (index + char_width c) (char_width c - 1) s (ground arith))
]
