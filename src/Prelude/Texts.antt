-- ===== src/Prelude/Texts.antt =====
-- Rust's `str` and byte strings as the list of their bytes, with equality and the searches
-- that the program makes.
use Prim.Native.Nat.{ℕ, ◌+◌}
use Prim.Native.Char.{code}
use Prim.Native.String.{String}
use mathlib.Core.Path.{◌≡◌, refl, ap, ap₂}
use mathlib.Core.Logic.{◌↔◌, ◌⊎◌, inl, inr}
use mathlib.Core.Bool.{Bool, true, false, ◌&&◌, ◌||◌}
use mathlib.Core.List.{List, [], ◌∷◌, map}
use mathlib.Core.Option.{Option, none, some}
use native.Mathlib.Omega.{arith}
use ovayra.Prelude.Tests.{if◌then◌else◌, Bool-cases, ltb, leb, ◌==◌, ==_iff, &&-true}

abbrev pub Text : Type 0
Text = List ℕ

codes : String → Text
codes String.[] = []
codes (String.◌∷◌ c s) = code c ∷ codes s

-- The bytes of an ASCII literal.
unfoldable pub bytes : String → Text
unfolding codes
bytes s = codes s

-- `==` on texts
unfoldable pub text_eq : Text → Text → Bool
text_eq [] [] = true
text_eq (a ∷ s) (b ∷ t) = (a == b) && text_eq s t
text_eq _ _ = false

pub text_eq_sound : (s t : Text) → text_eq s t ≡ true → s ≡ t
unfolding text_eq
text_eq_sound [] [] h = refl
text_eq_sound [] (b ∷ t) h = cc
text_eq_sound (a ∷ s) [] h = cc
text_eq_sound (a ∷ s) (b ∷ t) h =
    let (first, rest) = &&-true (a == b) (text_eq s t) h in
    ap₂ ◌∷◌ ((==_iff a b).0 first) (text_eq_sound s t rest)

pub text_eq_refl : (s : Text) → text_eq s s ≡ true
unfolding text_eq
text_eq_refl [] = refl
text_eq_refl (a ∷ s) = ground (arith, text_eq_refl s)

pub text_eq_iff : (s t : Text) → (text_eq s t ≡ true) ↔ (s ≡ t)
text_eq_iff s t = (text_eq_sound s t, λ e. rw e (text_eq_refl t))

-- `Vec<String>` compared with `==`
unfoldable pub text_list_eq : List Text → List Text → Bool
text_list_eq [] [] = true
text_list_eq (s ∷ ss) (t ∷ ts) = text_eq s t && text_list_eq ss ts
text_list_eq _ _ = false

pub text_list_eq_sound : (ss ts : List Text) → text_list_eq ss ts ≡ true → ss ≡ ts
unfolding text_list_eq
text_list_eq_sound [] [] h = refl
text_list_eq_sound [] (t ∷ ts) h = cc
text_list_eq_sound (s ∷ ss) [] h = cc
text_list_eq_sound (s ∷ ss) (t ∷ ts) h =
    let (first, rest) = &&-true (text_eq s t) (text_list_eq ss ts) h in
    cc (text_eq_sound s t first, text_list_eq_sound ss ts rest)

-- byte-wise order, as `Ord for str`
unfoldable pub text_lt : Text → Text → Bool
text_lt [] [] = false
text_lt [] (_ ∷ _) = true
text_lt (_ ∷ _) [] = false
text_lt (a ∷ s) (b ∷ t) = ltb a b || ((a == b) && text_lt s t)

-- `sort_unstable` on texts: equal texts cannot be told apart, so any sort gives this list
unfoldable pub sort_insert : Text → List Text → List Text
sort_insert t [] = t ∷ []
sort_insert t (s ∷ ss) = if text_lt s t then s ∷ sort_insert t ss else t ∷ s ∷ ss

unfoldable pub sort : List Text → List Text
unfolding sort_insert text_lt
sort [] = []
sort (t ∷ ts) = sort_insert t (sort ts)

-- `Option<String>` compared with `==`
unfoldable pub option_eq : Option Text → Option Text → Bool
option_eq none none = true
option_eq (some s) (some t) = text_eq s t
option_eq _ _ = false

pub option_eq_sound : (o p : Option Text) → option_eq o p ≡ true → o ≡ p
unfolding option_eq
option_eq_sound none none h = refl
option_eq_sound none (some t) h = cc
option_eq_sound (some s) none h = cc
option_eq_sound (some s) (some t) h = ap some (text_eq_sound s t h)

pub option_eq_refl : (o : Option Text) → option_eq o o ≡ true
unfolding option_eq
option_eq_refl none = refl
option_eq_refl (some s) = text_eq_refl s

-- membership in a `BTreeSet<String>`, which is kept as the list of the keys inserted
unfoldable pub contains : List Text → Text → Bool
contains [] t = false
contains (s ∷ ss) t = text_eq s t || contains ss t

pub contains-cons :
    (s : Text) (ss : List Text) (t : Text)
    → contains (s ∷ ss) t ≡ true
    → (s ≡ t) ⊎ (contains ss t ≡ true)
unfolding contains
contains-cons s ss t h = elim (Bool-cases (text_eq s t)) [
  | inl same ↦ inl (text_eq_sound s t same)
  | inr other ↦ inr (rw other at h)
]

pub contains_head : (s : Text) (ss : List Text) → contains (s ∷ ss) s ≡ true
unfolding contains
contains_head s ss = rw (text_eq_refl s)

pub contains_tail :
    (s : Text) (ss : List Text) (t : Text) → contains ss t ≡ true → contains (s ∷ ss) t ≡ true
unfolding contains
contains_tail s ss t h = ground arith

unfoldable pub is_empty : Text → Bool
is_empty [] = true
is_empty (_ ∷ _) = false

-- `str::starts_with`
unfoldable pub starts_with : Text → Text → Bool
starts_with s [] = true
starts_with [] (_ ∷ _) = false
starts_with (a ∷ s) (b ∷ t) = (a == b) && starts_with s t

-- `str::contains`
unfoldable pub has_infix : Text → Text → Bool
unfolding starts_with
has_infix [] marker = is_empty marker
has_infix (a ∷ s) marker = starts_with (a ∷ s) marker || has_infix s marker

-- `u8::to_ascii_lowercase`, and `str::to_ascii_lowercase`
unfoldable pub lower : ℕ → ℕ
lower c = if leb 65 c && leb c 90 then c + 32 else c

unfoldable pub to_ascii_lowercase : Text → Text
unfolding lower
to_ascii_lowercase = map lower

-- `u8::is_ascii_digit`, `u8::is_ascii_hexdigit`
unfoldable pub is_ascii_digit : ℕ → Bool
is_ascii_digit c = leb 48 c && leb c 57

unfoldable pub is_ascii_hexdigit : ℕ → Bool
unfolding is_ascii_digit
is_ascii_hexdigit c = is_ascii_digit c || (leb 65 c && leb c 70) || (leb 97 c && leb c 102)
