-- ===== src/Release/Bundle/Checksums.antt =====
-- What the checksums of a bundle guarantee when they are accepted.
use ovayra.Prelude.{
  ◌≡◌, refl, sym, ap, ◌∙◌, subst, inl, inr, Bool, true, false, ◌||◌, Option, none, some, List, [],
  ◌∷◌, arith, if◌then◌else◌, Bool-cases, ok, ok_or, >>=-eq-ok, ok_or-eq-ok, guarded, All, All-mem,
  All-of_mem, lines, not_true, Text, text_eq, text_eq_sound, text_eq_iff, contains,
}
use ovayra.Release.Manifest.{get}
use ovayra.Release.Buildconf.{Policed}
use ovayra.Release.Bundle.{
  Bundle, sums_path, present, parse_sums, require_listed, without, check_sum, check_files,
  none_left, validate_checksums,
}

get-without :
    (k : Text) (sums : List (Text × Text)) (path : Text)
    → get (without k sums) path ≡ (if text_eq k path then none else get sums path)
unfolding get without
get-without k [] path = elim (Bool-cases (text_eq k path)) [
  | inl same ↦ rw same refl
  | inr other ↦ rw other refl
]
get-without k ((key, v) ∷ sums) path = elim (Bool-cases (text_eq key k)) [
  | inl gone ↦
      let e : key ≡ k = text_eq_sound key k gone in
      rw gone (
        get-without k sums path ∙ elim (Bool-cases (text_eq k path)) [
          | inl same ↦ rw same refl
          | inr other ↦ rw (other, e, other) refl
        ])
  | inr stays ↦ elim (Bool-cases (text_eq key path)) [
    | inl here ↦
        let e : key ≡ path = text_eq_sound key path here in
        let other : text_eq k path ≡ false = not_true (text_eq k path) (λ same.
          let back : text_eq key k ≡ true =
            (text_eq_iff key k).1 (e ∙ sym (text_eq_sound k path same)) in
          absurd (cc (back, stays))) in
        rw (stays, here, other) refl
    | inr later ↦ rw (stays, later) (get-without k sums path)
  ]
]

-- The digest of a file in the sums and on the disk.
abbrev pub HasDigest : Bundle → List (Text × Text) → Text → Type 0
HasDigest b sums file =
    (digest : Text) × (get sums file ≡ some digest) × (b.sha256_file file ≡ some digest)

check_sum_sound :
    (b : Bundle) (file : Text) (sums rest : List (Text × Text))
    → check_sum b file sums ≡ ok rest
    → HasDigest b sums file × (rest ≡ without file sums)
unfolding check_sum
check_sum_sound b file sums rest h =
    let (expected, listed, h1) = >>=-eq-ok (ok_or _ (get sums file)) _ h in
    let (actual, read, h2) = >>=-eq-ok (ok_or _ (b.sha256_file file)) _ h1 in
    let (same, h3) = guarded (text_eq actual expected) _ _ h2 in
    let e : actual ≡ expected = text_eq_sound actual expected same in
    (
      (
        expected,
        ok_or-eq-ok _ (get sums file) listed,
        ok_or-eq-ok _ (b.sha256_file file) read ∙ ap some e,
      ),
      cc h3,
    )

HasDigest-without :
    (b : Bundle) (k file : Text) (sums : List (Text × Text))
    → HasDigest b (without k sums) file
    → HasDigest b sums file
HasDigest-without b k file sums (digest, listed, read) = elim (Bool-cases (text_eq k file)) [
  | inl same ↦
      let bad : ◌≡◌ {A = Option Text} none (some digest) =
        rw (get-without k sums file, same) at listed in
      cc
  | inr other ↦ (digest, rw (get-without k sums file, other) at listed, read)
]

-- A file other than the sums themselves has its digest.
abbrev pub IsSummed : Bundle → List (Text × Text) → Text → Type 0
IsSummed b sums file = text_eq file sums_path ≡ false → HasDigest b sums file

-- One step of the loop: the entries that are left, and what it checked.
check_step :
    (b : Bundle) (file : Text) (sums rest : List (Text × Text))
    → (if text_eq file sums_path then ok sums else check_sum b file sums) ≡ ok rest
    → IsSummed b sums file
      × ((other : Text) → HasDigest b rest other → HasDigest b sums other)
      × ((path : Text) → text_eq file path ≡ false → get rest path ≡ get sums path)
check_step b file sums rest h = elim (Bool-cases (text_eq file sums_path)) [
  | inl own ↦
      let k : ◌≡◌ {A = Policed (List (Text × Text))} (ok sums) (ok rest) = rw own at h in
      let same : sums ≡ rest = cc k in
      (λ no_own. absurd (cc (own, no_own)), λ other d. rw same d, λ path e. rw same refl)
  | inr other_file ↦
      let (digest, same) = check_sum_sound b file sums rest (rw other_file at h) in
      (
        λ _. digest,
        λ other d. HasDigest-without b file other sums (subst (λ s. HasDigest b s other) same d),
        λ path e. rw (same, get-without file sums path, e) refl,
      )
]

check_files_sound :
    (b : Bundle) (files : List Text) (sums rest : List (Text × Text))
    → check_files b files sums ≡ ok rest
    → All (IsSummed b sums) files
      × ((path : Text) → contains files path ≡ false → get rest path ≡ get sums path)
unfolding check_files contains
check_files_sound b [] sums rest h = let same : sums ≡ rest = cc h in (tt, λ path e. rw same refl)
check_files_sound b (file ∷ files) sums rest h =
    let (mid, first, h1) =
      >>=-eq-ok (if text_eq file sums_path then ok sums else check_sum b file sums) _ h in
    let (summed, back, others) = check_step b file sums mid first in
    let (all_summed, keys) = check_files_sound b files mid rest h1 in
    (
      (
        summed,
        All-of_mem (IsSummed b sums) files
            (λ f m not_own. back f (All-mem (IsSummed b mid) files all_summed m not_own)),
      ),
      λ path e. keys path (ground arith) ∙ others path (ground arith),
    )

require_listed_sound :
    (paths : List Text) (sums : List (Text × Text))
    → require_listed paths sums ≡ ok tt
    → All (λ path. (text_eq path sums_path || present (get sums path)) ≡ true) paths
unfolding require_listed
require_listed_sound [] sums h = tt
require_listed_sound (path ∷ paths) sums h =
    let (here, rest) = guarded (text_eq path sums_path || present (get sums path)) _ _ h in
    (here, require_listed_sound paths sums rest)

none_left_sound : (sums : List (Text × Text)) → none_left sums ≡ ok tt → sums ≡ []
unfolding none_left
none_left_sound [] h = refl
none_left_sound (s ∷ sums) h = cc

-- An entry that is still there is left.
no_entry :
    (sums rest : List (Text × Text)) (path : Text)
    → present (get sums path) ≡ true
    → rest ≡ []
    → get rest path ≡ get sums path
    → ⊥
unfolding present get
no_entry sums rest path there left same =
    let gone : none ≡ get sums path = rw left at same in
    let bad : present (get sums path) ≡ false = rw (← gone) refl in absurd (cc (there, bad))

not_false : (b : Bool) → (b ≡ false → ⊥) → b ≡ true
not_false true h = refl
not_false false h = absurd (h refl)

-- When the checksums are accepted, every file of the bundle but the sums themselves is listed with
-- the digest that the file has, and every required path but the sums' own is a file of the bundle.
pub validate_checksums_sound :
    (b : Bundle) (required files : List Text)
    → validate_checksums b required files ≡ ok tt
    → ((manifest : Text) × (sums : List (Text × Text)) × (b.read_to_string sums_path
          ≡ some manifest)
        × (parse_sums (lines manifest) [] ≡ ok sums)
        × All (IsSummed b sums) files)
      × All (λ path. text_eq path sums_path ≡ false → contains files path ≡ true) required
unfolding validate_checksums
validate_checksums_sound b required files h =
    let (manifest, read, h1) = >>=-eq-ok (ok_or _ (b.read_to_string sums_path)) _ h in
    let (sums, parsed, h2) = >>=-eq-ok (parse_sums (lines manifest) []) _ h1 in
    let (u, listed, h3) = >>=-eq-ok (require_listed required sums) _ h2 in
    let (rest, checked, h4) = >>=-eq-ok (check_files b files sums) _ h3 in
    let (summed, keys) = check_files_sound b files sums rest checked in
    let left : rest ≡ [] = none_left_sound rest h4 in
    (
      (manifest, sums, ok_or-eq-ok _ (b.read_to_string sums_path) read, parsed, summed),
      All-of_mem (λ path. text_eq path sums_path ≡ false → contains files path ≡ true) required
          (λ path m not_own.
            let k : (text_eq path sums_path || present (get sums path)) ≡ true =
              All-mem (λ path. (text_eq path sums_path || present (get sums path)) ≡ true) required
                (require_listed_sound required sums listed) m in
            let listed_path : present (get sums path) ≡ true = rw not_own at k in
            not_false (contains files path)
              (λ gone. absurd (no_entry sums rest path listed_path left (keys path gone)))),
    )
