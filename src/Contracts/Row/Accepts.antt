-- ===== src/Contracts/Row/Accepts.antt =====
-- `validate` accepts the canonical matrix and no other.
use ovayra.Prelude.{
  ◌≡◌, refl, ◌∙◌, ◌↔◌, true, false, List, [], ◌∷◌, map, arith, &&-true, ok, >>=-eq-ok, all, All,
  Text, text_list_eq_sound,
}
use ovayra.Contracts.Row.{
  RequiredEvidence, PhaseZeroMatrix, required_key, expected_keys, check_entries, check_keys,
  is_empty_text, validate_rows, validate_matrix,
}
use ovayra.Contracts.Row.Canonical.{
  is_plain, is_plain_sound, required_key-injective, canonical_rows, canonical_plain, canonical_keys,
  canonical_validates,
}

abbrev IsNamed : RequiredEvidence → Type 0
IsNamed row = (is_empty_text row.session ≡ false) × (is_empty_text row.backend ≡ false)

check_entries-IsNamed :
    (seen rows : List RequiredEvidence) → check_entries seen rows ≡ ok tt → All IsNamed rows
unfolding check_entries
check_entries-IsNamed seen [] h = tt
check_entries-IsNamed seen (e ∷ rest) h =
    (ground arith, check_entries-IsNamed (e ∷ seen) rest (ground arith))

check_keys_sound :
    (expected actual : List Text) → check_keys expected actual ≡ ok tt → actual ≡ expected
unfolding check_keys
check_keys_sound expected actual h = text_list_eq_sound actual expected (ground arith)

rows_of_keys :
    (rows others : List RequiredEvidence)
    → all is_plain others ≡ true
    → All IsNamed rows
    → map required_key rows ≡ map required_key others
    → rows ≡ others
rows_of_keys [] [] plain named e = refl
rows_of_keys [] (o ∷ os) plain named e = cc
rows_of_keys (r ∷ rs) [] plain named e = cc
rows_of_keys (r ∷ rs) (o ∷ os) plain named e =
    let (first, rest) = &&-true (is_plain o) (all is_plain os) plain in
    let same : r ≡ o =
      required_key-injective o r (is_plain_sound o first) named.0.0 named.0.1 (cc) in
    cc (same, rows_of_keys rs os rest named.1 (cc))

validate_rows_sound :
    (rows : List RequiredEvidence) → validate_rows rows ≡ ok tt → rows ≡ canonical_rows
unfolding validate_rows
validate_rows_sound [] h = cc
validate_rows_sound (e ∷ rest) h =
    let (_, entries, keys) =
      >>=-eq-ok (check_entries [] (e ∷ rest))
        (λ _. check_keys expected_keys (map required_key (e ∷ rest))) h in
    rows_of_keys (e ∷ rest) canonical_rows canonical_plain
      (check_entries-IsNamed [] (e ∷ rest) entries)
      (check_keys_sound expected_keys (map required_key (e ∷ rest)) keys ∙ canonical_keys)

-- A matrix validates exactly when its rows are the canonical rows, in the canonical order.
pub validate_matrix_iff :
    (matrix : PhaseZeroMatrix)
    → (validate_matrix matrix ≡ ok tt) ↔ (matrix.required ≡ canonical_rows)
unfolding validate_matrix
validate_matrix_iff matrix = (validate_rows_sound matrix.required, λ e. rw e canonical_validates)
