-- ===== src/App/Scan/Runs.antt =====
-- What the scan finds in a text it finds in a longer one.
use ovayra.Prelude.{
  ℕ, ◌≡◌, refl, ap, ◌≢◌, inl, inr, Bool, true, false, [], ◌∷◌, ◌++◌, arith, ◌==◌, Bool-cases, any,
  space_width, Text, is_empty, starts_with, has_infix, lower, to_ascii_lowercase,
}
use ovayra.App.Scan.{url_of, stops, until_slash, has_byte}

-- A text that `after` follows and in which no white space, quote or closing bracket begins.
abbrev pub IsUnbroken : (url after : Text) → Type 0
IsUnbroken [] after = Unit
IsUnbroken (c ∷ url) after =
    (space_width (c ∷ (url ++ after)) ≡ 0)
    × (c ≢ 34)
    × (c ≢ 39)
    × (c ≢ 41)
    × (c ≢ 93)
    × IsUnbroken url after

pub url_of-append :
    (url after : Text) → IsUnbroken url after → url_of (url ++ after) ≡ url ++ url_of after
unfolding url_of stops
url_of-append [] after h = refl
url_of-append (c ∷ url) after (space, double, single, bracket, square, rest) =
    let kept : stops (c ∷ (url ++ after)) ≡ false = ground arith in
    rw (url_of, kept) (ap (λ (t : Text). c ∷ t) (url_of-append url after rest))

pub any-append : (p : ℕ → Bool) (s t : Text) → any p (s ++ t) ≡ false → any p s ≡ false
any-append p [] t h = refl
any-append p (c ∷ s) t h = let rest = any-append p s t (ground arith) in ground arith

starts_with-append : (s t m : Text) → starts_with (s ++ t) m ≡ false → starts_with s m ≡ false
unfolding starts_with
starts_with-append s t [] h = cc h
starts_with-append [] t (d ∷ m) h = refl
starts_with-append (c ∷ s) t (d ∷ m) h = elim (Bool-cases (c == d)) [
  | inl same ↦ let rest = starts_with-append s t m (ground arith) in ground arith
  | inr other ↦ ground arith
]

pub has_infix-append : (s t m : Text) → has_infix (s ++ t) m ≡ false → has_infix s m ≡ false
unfolding has_infix is_empty starts_with
has_infix-append [] [] m h = h
has_infix-append [] (d ∷ t) [] h = ground arith
has_infix-append [] (d ∷ t) (b ∷ m) h = refl
has_infix-append (c ∷ s) t m h =
    let first = starts_with-append (c ∷ s) t m (ground arith) in
    let rest = has_infix-append s t m (ground arith) in ground arith

pub lower-append :
    (s t : Text) → to_ascii_lowercase (s ++ t) ≡ to_ascii_lowercase s ++ to_ascii_lowercase t
unfolding to_ascii_lowercase
lower-append [] t = refl
lower-append (c ∷ s) t = ap (λ (x : Text). lower c ∷ x) (lower-append s t)

pub until_slash-append :
    (host t : Text) → has_byte 47 host ≡ false → until_slash (host ++ t) ≡ host ++ until_slash t
unfolding until_slash
until_slash-append [] t h = refl
until_slash-append (c ∷ host) t h =
    let other : (c == 47) ≡ false = ground arith in
    rw (until_slash, other) (ap (λ (x : Text). c ∷ x) (until_slash-append host t (ground arith)))

pub starts_with-longer : (s t m : Text) → starts_with s m ≡ true → starts_with (s ++ t) m ≡ true
unfolding starts_with
starts_with-longer s t [] h = refl
starts_with-longer [] t (d ∷ m) h = cc h
starts_with-longer (c ∷ s) t (d ∷ m) h =
    let rest = starts_with-longer s t m (ground arith) in ground arith
