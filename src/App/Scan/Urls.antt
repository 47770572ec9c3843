-- ===== src/App/Scan/Urls.antt =====
-- A text that passes holds none of the markers, and no URL in it carries a credential.
use ovayra.Prelude.{
  ℕ, zero, suc, ◌-◌, ◌≤◌, ◌<◌, ◌≡◌, refl, sym, ap, ◌∙◌, subst, inl, inr, true, false, not, ◌||◌,
  List, [], ◌∷◌, ◌++◌, Memᴰ, arith, ltb, ◌==◌, ltb→lt, Bool-cases, &&-true, ok, >>=-eq-ok,
  guard-eq-ok, guarded, length, drop, any, mem-any, not_true, Text, bytes, starts_with, has_infix,
  lower, to_ascii_lowercase,
}
use mathlib.Core.List.{append_assoc}
use ovayra.App.Scan.{
  https, http, api_key_markers, home_markers, contains_armored_private_key, armored_from, armor,
  url_of, authority_of, until_slash, has_byte, check_url, scan_scheme, scan_urls, holds_any,
  scan_text,
}
use ovayra.App.Scan.Runs.{
  IsUnbroken, url_of-append, any-append, has_infix-append, lower-append, until_slash-append,
  starts_with-longer,
}
use ovayra.App.Scan.Armor.{armored_from_sound}

-- A search text none of whose later bytes is its first does not overlap itself.
starts_with-drop :
    (s m : Text) (j h : ℕ) (rest : Text)
    → starts_with s m ≡ true
    → j < length m
    → starts_with (drop j s) (h ∷ rest) ≡ true
    → any (λ c. c == h) m ≡ true
unfolding starts_with
starts_with-drop s [] j h rest e small k = absurd (omega arith)
starts_with-drop [] (c ∷ m) j h rest e small k = cc
starts_with-drop (a ∷ s) (c ∷ m) zero h rest e small k = ground arith
starts_with-drop (a ∷ s) (c ∷ m) (suc j) h rest e small k =
    let later = starts_with-drop s m j h rest (ground arith) (omega arith) k in ground arith

to_ascii_lowercase-drop :
    (j : ℕ) (s : Text) → to_ascii_lowercase (drop j s) ≡ drop j (to_ascii_lowercase s)
unfolding to_ascii_lowercase
to_ascii_lowercase-drop zero s = refl
to_ascii_lowercase-drop (suc j) [] = refl
to_ascii_lowercase-drop (suc j) (c ∷ s) = to_ascii_lowercase-drop j s

drop-append : (s t : Text) → drop (length s) (s ++ t) ≡ t
drop-append [] t = refl
drop-append (c ∷ s) t = drop-append s t

module _ (h : ℕ) (m : Text) (apart : any (λ c. c == h) m ≡ false) where
  -- After a scheme, no other begins within it.
  passed_over :
      (before s : Text)
      → starts_with (to_ascii_lowercase (before ++ s)) m ≡ true
      → starts_with (to_ascii_lowercase s) (h ∷ m) ≡ true
      → length m ≤ length before
  passed_over before s first second = elim (Bool-cases (ltb (length before) (length m))) [
    | inl short ↦
        let there : to_ascii_lowercase s ≡ drop (length before) (to_ascii_lowercase (before ++ s)) =
          ap to_ascii_lowercase (sym (drop-append before s))
          ∙ to_ascii_lowercase-drop (length before) (before ++ s) in
        let bad : any (λ c. c == h) m ≡ true =
          starts_with-drop (to_ascii_lowercase (before ++ s)) m (length before) h m first
            (ltb→lt (length before) (length m) short)
            (subst (λ t. starts_with t (h ∷ m) ≡ true) there second) in
        absurd (cc (bad, apart))
    | inr long ↦ ground arith
  ]

  -- Where a URL begins its test has passed; `k` bytes are passed over first.
  scan_scheme_sound :
      (k : ℕ) (before s : Text)
      → scan_scheme (h ∷ m) k (before ++ s) ≡ ok tt
      → k ≤ length before
      → starts_with (to_ascii_lowercase s) (h ∷ m) ≡ true
      → check_url (h ∷ m) (url_of s) ≡ ok tt
  unfolding scan_scheme starts_with to_ascii_lowercase
  scan_scheme_sound k [] [] e small starts = cc
  scan_scheme_sound zero [] (c ∷ s) e small starts =
      (>>=-eq-ok (check_url (h ∷ m) (url_of (c ∷ s))) _ (rw (scan_scheme, starts) at e)).1
  scan_scheme_sound (suc k) [] (c ∷ s) e small starts = absurd (omega arith)
  scan_scheme_sound (suc k) (b ∷ before) s e small starts =
      scan_scheme_sound k before s e (omega arith) starts
  scan_scheme_sound zero (b ∷ before) s e small starts =
      elim (Bool-cases (starts_with (to_ascii_lowercase (b ∷ (before ++ s))) (h ∷ m))) [
        | inl here ↦
            let (u, _, later) =
              >>=-eq-ok (check_url (h ∷ m) (url_of (b ∷ (before ++ s)))) _
                (rw (scan_scheme, here) at e) in
            let (_, first) =
              &&-true (lower b == h) (starts_with (to_ascii_lowercase (before ++ s)) m) here in
            scan_scheme_sound (length (h ∷ m) - 1) before s later
              (omega (arith, passed_over before s first starts)) starts
        | inr not_here ↦
            scan_scheme_sound 0 before s (rw (scan_scheme, not_here) at e) (omega arith) starts
      ]

-- A URL without a query or a fragment. What follows its scheme, as far as it holds no slash, has no
-- user and does not name an upload; and no path of the URL is an upload path.
pub record IsPlain (scheme url : Text) : Type 0 where
  pub no_query : has_byte 63 url ≡ false
  pub no_fragment : has_byte 35 url ≡ false
  pub no_user :
      (begin host rest : Text)
      → url ≡ begin ++ (host ++ rest)
      → length begin ≡ length scheme
      → has_byte 47 host ≡ false
      → (has_byte 64 host ≡ false) × (has_infix (to_ascii_lowercase host) (bytes "upload") ≡ false)
  pub no_upload : has_infix (to_ascii_lowercase url) (bytes "/upload/") ≡ false

-- What is tested of a longer URL.
check_url_sound :
    (scheme url more : Text) → check_url scheme (url ++ more) ≡ ok tt → IsPlain scheme url
unfolding check_url authority_of
check_url_sound scheme url more e =
    let all_of = url ++ more in
    let (a, e1) =
      guarded
        (not (has_byte 63 all_of || has_byte 35 all_of || has_byte 64 (authority_of scheme all_of)))
        _ _ e in
    let b =
      guard-eq-ok
        (not (
          has_infix (to_ascii_lowercase (authority_of scheme all_of)) (bytes "upload")
          || has_infix (to_ascii_lowercase all_of) (bytes "/upload/")))
        _ e1 in
    let user : has_byte 64 (authority_of scheme all_of) ≡ false = ground arith in
    let upload : has_infix (to_ascii_lowercase (authority_of scheme all_of)) (bytes "upload")
        ≡ false =
      ground arith in
    record {
      no_query = any-append (λ c. c == 63) url more (ground arith);
      no_fragment = any-append (λ c. c == 35) url more (ground arith);
      no_user = λ begin host rest split scheme_long no_slash.
          let long : authority_of scheme all_of ≡ host ++ until_slash (rest ++ more) =
            ap (λ k. until_slash (drop k all_of)) (sym scheme_long)
            ∙ ap (λ (t : Text). until_slash (drop (length begin) (t ++ more))) split
            ∙ ap (λ (t : Text). until_slash (drop (length begin) t))
                (append_assoc begin (host ++ rest) more)
            ∙ ap until_slash (drop-append begin ((host ++ rest) ++ more))
            ∙ ap until_slash (append_assoc host rest more)
            ∙ until_slash-append host (rest ++ more) no_slash in
          (
            any-append (λ c. c == 64) host (until_slash (rest ++ more))
                (subst (λ t. has_byte 64 t ≡ false) long user),
            has_infix-append (to_ascii_lowercase host)
                (to_ascii_lowercase (until_slash (rest ++ more))) (bytes "upload")
                (subst (λ t. has_infix t (bytes "upload") ≡ false)
                  (ap to_ascii_lowercase long ∙ lower-append host (until_slash (rest ++ more)))
                  upload),
          );
      no_upload =
          has_infix-append (to_ascii_lowercase url) (to_ascii_lowercase more) (bytes "/upload/") (
            subst (λ t. has_infix t (bytes "/upload/") ≡ false) (lower-append url more)
              (ground arith));
    }

-- What holds of a text that passes.
pub record IsClean (value : Text) : Type 0 where
  pub no_api_key :
      (m : Text) → Memᴰ m api_key_markers → has_infix (to_ascii_lowercase value) m ≡ false
  pub no_header : has_infix (to_ascii_lowercase value) (bytes "x-goog-upload") ≡ false
  pub no_home : (m : Text) → Memᴰ m home_markers → has_infix (to_ascii_lowercase value) m ≡ false
  pub no_private_key :
      (before label after : Text)
      → to_ascii_lowercase value ≡ before ++ (armor ++ (label ++ (bytes "-----" ++ after)))
      → has_infix (label ++ bytes "----") (bytes "-----") ≡ false
      → has_infix label (bytes "private key") ≡ false
  pub plain_https :
      (before url after : Text)
      → value ≡ before ++ (url ++ after)
      → starts_with (to_ascii_lowercase url) https ≡ true
      → IsUnbroken url after
      → IsPlain https url
  pub plain_http :
      (before url after : Text)
      → value ≡ before ++ (url ++ after)
      → starts_with (to_ascii_lowercase url) http ≡ true
      → IsUnbroken url after
      → IsPlain http url

-- A URL of a scheme that was scanned for.
scanned-IsPlain :
    (h : ℕ) (m : Text) (apart : any (λ c. c == h) m ≡ false) (value before url after : Text)
    → scan_scheme (h ∷ m) 0 value ≡ ok tt
    → value ≡ before ++ (url ++ after)
    → starts_with (to_ascii_lowercase url) (h ∷ m) ≡ true
    → IsUnbroken url after
    → IsPlain (h ∷ m) url
scanned-IsPlain h m apart value before url after passed split starts unbroken =
    let begins : starts_with (to_ascii_lowercase (url ++ after)) (h ∷ m) ≡ true =
      subst (λ t. starts_with t (h ∷ m) ≡ true) (sym (lower-append url after))
        (starts_with-longer (to_ascii_lowercase url) (to_ascii_lowercase after) (h ∷ m) starts) in
    let checked =
      scan_scheme_sound h m apart 0 before (url ++ after)
        (subst (λ v. scan_scheme (h ∷ m) 0 v ≡ ok tt) split passed) (omega arith) begins in
    check_url_sound (h ∷ m) url (url_of after)
      (subst (λ t. check_url (h ∷ m) t ≡ ok tt) (url_of-append url after unbroken) checked)

none_held :
    (markers : List Text) (value : Text)
    → holds_any markers value ≡ false
    → (m : Text) → Memᴰ m markers
    → has_infix value m ≡ false
unfolding holds_any
none_held markers value h m member =
    not_true (has_infix value m)
      (λ there. let held = mem-any (has_infix value) markers member there in absurd (cc (held, h)))

-- A text that the scan accepts holds, whatever the case of its letters, no marker of an API key, of
-- an upload header or of a home directory, and no armor header `-----begin `, label, `-----` whose
-- label, which ends at the first five dashes, names a private key. Wherever `http://` or `https://`
-- begins, the run of characters up to a white space, a quote, a closing bracket or any point before
-- has no query, no fragment and no upload path; and what follows the scheme before a slash has no
-- user and does not name an upload.
pub scan_text-IsClean : (value : Text) → scan_text value ≡ ok tt → IsClean value
unfolding scan_text scan_urls holds_any bytes contains_armored_private_key
scan_text-IsClean value e =
    let (keys, e1) = guarded (not (holds_any api_key_markers (to_ascii_lowercase value))) _ _ e in
    let (header, e2) =
      guarded (not (holds_any (bytes "x-goog-upload" ∷ []) (to_ascii_lowercase value))) _ _ e1 in
    let (armored, e3) =
      guarded (not (contains_armored_private_key (to_ascii_lowercase value))) _ _ e2 in
    let (home, e4) = guarded (not (holds_any home_markers (to_ascii_lowercase value))) _ _ e3 in
    let (u, secure, insecure) = >>=-eq-ok (scan_scheme https 0 value) _ e4 in
    let unarmored : armored_from 0 (to_ascii_lowercase value) ≡ false = ground arith in
    record {
      no_api_key = none_held api_key_markers (to_ascii_lowercase value) (ground arith);
      no_header = ground arith;
      no_home = none_held home_markers (to_ascii_lowercase value) (ground arith);
      no_private_key = λ before label after split first.
          armored_from_sound 0 before label after
            (subst (λ t. armored_from 0 t ≡ false) split unarmored) (omega arith) first;
      plain_https = λ before url after split starts unbroken.
          scanned-IsPlain 104 (bytes "ttps://") refl value before url after secure split starts
            unbroken;
      plain_http = λ before url after split starts unbroken.
          scanned-IsPlain 104 (bytes "ttp://") refl value before url after insecure split starts
            unbroken;
    }
