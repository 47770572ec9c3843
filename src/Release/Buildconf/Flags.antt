-- ===== src/Release/Buildconf/Flags.antt =====
-- The flags of a build configuration that is accepted.
use ovayra.Prelude.{
  ◌≡◌, refl, sym, ap, ◌∙◌, inl, inr, Bool, true, false, not, ◌||◌, Option, none, some, List, [],
  ◌∷◌, arith, Bool-cases, ok, ok_or, >>=-eq-ok, ok_or-eq-ok, guarded, find, any, All, Text, text_lt,
  sort, sort_insert, contains, starts_with,
}
use ovayra.Release.Buildconf.{
  baseline_flags, forbidden_flags, forbidden_prefixes, configuration, parse_tokens, has_duplicate,
  forbid, require_flags, no_flag, forbid_prefixes, check_flags, validate_buildconf,
}

forbid_sound :
    (flags values : List Text)
    → forbid flags values ≡ ok tt
    → All (λ flag. contains values flag ≡ false) flags
unfolding forbid
forbid_sound [] values h = tt
forbid_sound (flag ∷ flags) values h =
    let (absent, rest) = guarded (not (contains values flag)) _ _ h in
    (ground arith, forbid_sound flags values rest)

require_flags_sound :
    (flags values : List Text)
    → require_flags flags values ≡ ok tt
    → All (λ flag. contains values flag ≡ true) flags
unfolding require_flags
require_flags_sound [] values h = tt
require_flags_sound (flag ∷ flags) values h =
    let (present, rest) = guarded (contains values flag) _ _ h in
    (present, require_flags_sound flags values rest)

-- What `find` does not find is not there.
find-eq-none : (p : Text → Bool) (ts : List Text) → find p ts ≡ none → any p ts ≡ false
find-eq-none p [] h = refl
find-eq-none p (s ∷ ts) h = elim (Bool-cases (p s)) [
  | inl here ↦ let bad : ◌≡◌ {A = Option Text} (some s) none = rw here at h in cc
  | inr not_here ↦ rw not_here (find-eq-none p ts (rw not_here at h))
]

any-sort_insert :
    (p : Text → Bool) (t : Text) (ts : List Text) → any p (sort_insert t ts) ≡ (p t || any p ts)
unfolding sort_insert
any-sort_insert p t [] = refl
any-sort_insert p t (s ∷ ts) = elim (Bool-cases (text_lt s t)) [
  | inl before ↦ rw before (ground (arith, any-sort_insert p t ts))
  | inr after ↦ rw after refl
]

any-sort : (p : Text → Bool) (ts : List Text) → any p (sort ts) ≡ any p ts
unfolding sort
any-sort p [] = refl
any-sort p (t ∷ ts) = any-sort_insert p t (sort ts) ∙ ap (λ b. p t || b) (any-sort p ts)

no_flag_sound : (o : Option Text) → no_flag o ≡ ok tt → o ≡ none
unfolding no_flag
no_flag_sound none h = refl
no_flag_sound (some flag) h = cc

forbid_prefixes_sound :
    (prefixes values : List Text)
    → forbid_prefixes prefixes values ≡ ok tt
    → All (λ prefix. any (λ flag. starts_with flag prefix) values ≡ false) prefixes
unfolding forbid_prefixes
forbid_prefixes_sound [] values h = tt
forbid_prefixes_sound (prefix ∷ prefixes) values h =
    let (u, absent, rest) =
      >>=-eq-ok (no_flag (find (λ flag. starts_with flag prefix) (sort values))) _ h in
    (
      sym (any-sort (λ flag. starts_with flag prefix) values)
          ∙ find-eq-none (λ flag. starts_with flag prefix) (sort values) (no_flag_sound _ absent),
      forbid_prefixes_sound prefixes values rest,
    )

-- The tokens of a build without the forbidden flags, with or without a value, and with each flag of
-- the baseline, none of them twice.
pub record AreLicensed (tokens : List Text) : Type 0 where
  pub distinct : has_duplicate tokens ≡ false
  pub none_forbidden : All (λ flag. contains tokens flag ≡ false) forbidden_flags
  pub none_assigned :
      All (λ prefix. any (λ flag. starts_with flag prefix) tokens ≡ false) forbidden_prefixes
  pub baseline : All (λ flag. contains tokens flag ≡ true) baseline_flags

-- A build configuration that is accepted has a record of well-formed tokens, none of which enables
-- GPL or non-free code, with a value or without one, which hold the whole baseline and repeat nothing.
pub validate_buildconf_sound :
    (buildconf : Text)
    → validate_buildconf buildconf ≡ ok tt
    → (found : Text) × (tokens : List Text) × (configuration buildconf ≡ some found)
      × (parse_tokens found ≡ ok tokens)
      × AreLicensed tokens
unfolding validate_buildconf check_flags
validate_buildconf_sound buildconf h =
    let (found, there, h1) = >>=-eq-ok (ok_or _ (configuration buildconf)) _ h in
    let (tokens, parsed, h2) = >>=-eq-ok (parse_tokens found) _ h1 in
    let (distinct, h3) = guarded (not (has_duplicate tokens)) _ _ h2 in
    let (u, allowed, h4) = >>=-eq-ok (forbid forbidden_flags tokens) _ h3 in
    let (u', required, h5) = >>=-eq-ok (require_flags baseline_flags tokens) _ h4 in
    (
      found,
      tokens,
      ok_or-eq-ok _ (configuration buildconf) there,
      parsed,
      record {
        distinct = ground arith;
        none_forbidden = forbid_sound forbidden_flags tokens allowed;
        none_assigned = forbid_prefixes_sound forbidden_prefixes tokens h5;
        baseline = require_flags_sound baseline_flags tokens required;
      },
    )
