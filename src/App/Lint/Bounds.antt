-- ===== src/App/Lint/Bounds.antt =====
-- What a lint that accepts has checked, and its bounds.
use ovayra.Prelude.{
  ℕ, suc, ◌+◌, ◌≤◌, ◌≡◌, refl, subst, ◌⊎◌, inl, inr, Bool, true, false, not, ◌&&◌, ◌||◌, Option,
  List, [], ◌∷◌, arith, leb, ◌==◌, leb→le, Bool-cases, &&-true, Result, ok, ok_or, >>=-eq-ok,
  guarded, length, any, All, is_utf8, not_true, Text,
}
use ovayra.App.Scan.{Category}
use ovayra.App.Lint.{
  LintLibraries, FoundFile, Node, Path_, max_file_bytes, max_files, max_total_bytes, lint_contents,
  unsafe_name, lint_file, collect_root, VerifiedEvidence, verified_if, lint_files, lint_verified,
  is_gitkeep, is_json,
}

abbrev pub total_size : List VerifiedEvidence → ℕ
total_size [] = 0
total_size (v ∷ vs) = length v.content + total_size vs

module _ (libs : LintLibraries) (text_mode : Bool) where
  -- A content that was read whole, within its limit, as a text that passes.
  pub record IsLinted (content : Text) : Type 0 where
    pub fits : length content ≤ max_file_bytes
    pub encoded : is_utf8 content ≡ true
    pub no_zero : any (λ c. c == 0) content ≡ false
    pub passed : lint_contents libs text_mode content ≡ ok tt

  abbrev pub IsVerified : VerifiedEvidence → Type 0
  IsVerified v = IsLinted v.content × (v.sha256 ≡ libs.sha256_hex v.content)

  lint_file_sound :
      (path : Path_) (file : FoundFile) (content : Text)
      → lint_file libs text_mode path file ≡ ok content
      → (content ≡ []) ⊎ IsLinted content
  unfolding lint_file
  lint_file_sound path file content h = elim (Bool-cases (not text_mode && is_gitkeep libs path)) [
    | inl kept ↦
        let e : ◌≡◌ {A = Result Category Text} (ok []) (ok content) = rw kept at h in inl (cc e)
    | inr read ↦
        let (_, h1) = guarded (not (unsafe_name libs path)) _ _ (rw (lint_file, read) at h) in
        let (_, h2) = guarded file.is_regular _ _ h1 in
        let (_, h3) = guarded file.opens _ _ h2 in
        let (_, h4) = guarded file.unchanged_before _ _ h3 in
        let (_, h5) = guarded (text_mode || is_json libs file.extension) _ _ h4 in
        let (content', _, h6) = >>=-eq-ok (ok_or _ file.content) _ h5 in
        let (fits, h7) = guarded (leb (length content') max_file_bytes) _ _ h6 in
        let (_, h8) =
          guarded (file.unchanged_after && (file.len_after == length content')) _ _ h7 in
        let (clean, h9) = guarded (not (any (λ c. c == 0) content') && is_utf8 content') _ _ h8 in
        let (u, passed, h10) = >>=-eq-ok (lint_contents libs text_mode content') _ h9 in
        let same : content' ≡ content = cc h10 in
        let (zero_free, encoded) =
          &&-true (not (any (λ c. c == 0) content')) (is_utf8 content') clean in
        inr (
          subst IsLinted same (record {
            fits = leb→le (length content') max_file_bytes fits;
            encoded = encoded;
            no_zero = not_true (any (λ c. c == 0) content') (λ z. absurd (ground arith));
            passed = passed;
          }))
  ]

  pub record AreVerified (total count : ℕ) (vs : List VerifiedEvidence) : Type 0 where
    pub each : All IsVerified vs
    pub within : total + total_size vs ≤ max_total_bytes
    pub few : length vs ≤ count

  AreVerified-if :
      (total count : ℕ) (content : Text) (rest : List VerifiedEvidence)
      → (content ≡ []) ⊎ IsLinted content
      → AreVerified (total + length content) count rest
      → AreVerified total (suc count) (verified_if libs content rest)
  unfolding verified_if
  AreVerified-if total count [] rest linted vs = record {
    each = vs.each;
    within = omega (arith, vs.within);
    few = omega (arith, vs.few);
  }
  AreVerified-if total count (c ∷ s) rest (inl bad) vs = absurd (cc bad)
  AreVerified-if total count (c ∷ s) rest (inr linted) vs = record {
    each = ((linted, refl), vs.each);
    within = omega (arith, vs.within);
    few = omega (arith, vs.few);
  }

  lint_files_sound :
      (files : List (Path_ × FoundFile)) (total : ℕ) (vs : List VerifiedEvidence)
      → total ≤ max_total_bytes
      → lint_files libs text_mode files total ≡ ok vs
      → AreVerified total (length files) vs
  unfolding lint_files
  lint_files_sound [] total vs small h =
      let same : [] ≡ vs = cc h in
      subst (AreVerified total 0) same
        (record { each = tt; within = omega arith; few = omega arith })
  lint_files_sound ((path, file) ∷ files) total vs small h =
      let (content, read, h1) = >>=-eq-ok (lint_file libs text_mode path file) _ h in
      let (fits, h2) = guarded (leb (total + length content) max_total_bytes) _ _ h1 in
      let (rest, later, h3) =
        >>=-eq-ok (lint_files libs text_mode files (total + length content)) _ h2 in
      let same : verified_if libs content rest ≡ vs = cc h3 in
      subst (AreVerified total (suc (length files))) same (
        AreVerified-if total (length files) content rest (lint_file_sound path file content read) (
          lint_files_sound files (total + length content) rest
            (leb→le (total + length content) max_total_bytes fits) later))

  -- What an accepted lint returns are at most 1024 contents of at most 1 MiB each and 8 MiB together,
  -- each of them UTF-8 without a zero byte that passes the lint of contents, with its own digest.
  pub lint_verified_sound :
      (root : Option Node) (vs : List VerifiedEvidence)
      → lint_verified libs text_mode root ≡ ok vs
      → All IsVerified vs × (total_size vs ≤ max_total_bytes) × (length vs ≤ max_files)
  unfolding lint_verified
  lint_verified_sound root vs h =
      let ((directories, files), collected, h1) = >>=-eq-ok (collect_root root) _ h in
      let (few, h2) = guarded (leb (length files) max_files) _ _ h1 in
      let v = lint_files_sound files 0 vs (omega arith) h2 in
      (v.each, omega (arith, v.within), omega (arith, v.few, leb→le (length files) max_files few))
