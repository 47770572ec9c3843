-- ===== src/Media/Bounded/Boundary.antt =====
-- A text is cut between two characters, and as late as its limit allows.
use ovayra.Prelude.{
  ℕ, zero, suc, ◌+◌, ◌-◌, ◌≤◌, ◌<◌, ◌≡◌, refl, sym, ap, ◌∙◌, subst, inl, inr, true, false, some, [],
  ◌∷◌, ◌++◌, arith, ltb, leb, if◌then◌else◌, ltb→lt, leb→le, Bool-cases, Option-cases, &&-true,
  length, take, drop, length-append, length-take, take-append-drop, is_utf8, between, lead,
  utf8_from, Text,
}
use mathlib.Core.List.{append-nil}
use ovayra.Media.Bounded.{char_width, cut_end, cut_text, cut_end-le}

lead_width : (c k lo hi : ℕ) → lead c ≡ some (k, lo, hi) → char_width c ≡ suc k
unfolding lead between char_width
lead_width c k lo hi h = ground arith

-- What remains of a character, and whole characters.
utf8_from-length : (k lo hi : ℕ) (t : Text) → utf8_from k lo hi t ≡ true → k ≤ length t
unfolding utf8_from
utf8_from-length zero lo hi t h = omega arith
utf8_from-length (suc k) lo hi [] h = cc h
utf8_from-length (suc k) lo hi (c ∷ t) h =
    let (_, rest) = &&-true (between lo hi c) (utf8_from k 0x80 0xbf t) h in
    omega (arith, utf8_from-length k 0x80 0xbf t rest)

-- Where a cut stands that is `n` bytes on: at a boundary within the limit, and behind every other.
record IsCut (limit index k lo hi : ℕ) (s : Text) (end : ℕ) : Type 0 where
  n : ℕ
  there : end ≡ index + n
  whole : utf8_from k lo hi (take n s) ≡ true
  last : (m : ℕ) → m ≤ length s → index + m ≤ limit → utf8_from k lo hi (take m s) ≡ true → m ≤ n

shifted : (index n : ℕ) → index + 1 + n ≡ index + suc n
shifted index n = omega arith

cut_end_done : (limit index : ℕ) → cut_end limit index (index + 0) 0 [] ≡ index + 0
unfolding cut_end
cut_end_done limit index = refl

cut_end_inside :
    (limit index k c : ℕ) (s : Text)
    → cut_end limit index (index + suc k) (suc k) (c ∷ s)
      ≡ cut_end limit (index + 1) (index + suc k) k s
unfolding cut_end
cut_end_inside limit index k c s = refl

last-inside :
    (limit index k lo hi c : ℕ) (s : Text) (end : ℕ)
    (cut : IsCut limit (index + 1) k 0x80 0xbf s end) (m : ℕ)
    → m ≤ suc (length s)
    → index + m ≤ limit
    → utf8_from (suc k) lo hi (take m (c ∷ s)) ≡ true
    → m ≤ suc cut.n
unfolding utf8_from
last-inside limit index k lo hi c s end cut zero within fits e = omega arith
last-inside limit index k lo hi c s end cut (suc m) within fits e =
    let (_, rest) = &&-true (between lo hi c) (utf8_from k 0x80 0xbf (take m s)) e in
    omega (arith, cut.last m (omega arith) (omega arith) rest)

-- the same where a character begins, with the rest that its first byte asks for
starts_rest :
    (c k lo hi : ℕ) (s : Text)
    → lead c ≡ some (k, lo, hi)
    → utf8_from 0 0 0 (c ∷ s) ≡ utf8_from k lo hi s
unfolding utf8_from
starts_rest c k lo hi s e = rw (utf8_from, e) refl

any_range : (lo hi : ℕ) (s : Text) → utf8_from 0 lo hi s ≡ utf8_from 0 0 0 s
unfolding utf8_from
any_range lo hi [] = refl
any_range lo hi (c ∷ s) = refl

last-over :
    (limit index lo hi c k lo' hi' : ℕ) (s : Text) (m : ℕ)
    → lead c ≡ some (k, lo', hi')
    → limit < index + suc k
    → m ≤ suc (length s)
    → index + m ≤ limit
    → utf8_from 0 lo hi (take m (c ∷ s)) ≡ true
    → m ≤ 0
last-over limit index lo hi c k lo' hi' s zero e over within fits valid = omega arith
last-over limit index lo hi c k lo' hi' s (suc m) e over within fits valid =
    let rest : utf8_from k lo' hi' (take m s) ≡ true =
      sym (starts_rest c k lo' hi' (take m s) e) ∙ sym (any_range lo hi (c ∷ take m s)) ∙ valid in
    absurd (omega (arith, utf8_from-length k lo' hi' (take m s) rest, length-take {0} m s))

last-start :
    (limit index lo hi c k lo' hi' : ℕ) (s : Text) (end : ℕ)
    (cut : IsCut limit (index + 1) k lo' hi' s end) (m : ℕ)
    → lead c ≡ some (k, lo', hi')
    → m ≤ suc (length s)
    → index + m ≤ limit
    → utf8_from 0 lo hi (take m (c ∷ s)) ≡ true
    → m ≤ suc cut.n
last-start limit index lo hi c k lo' hi' s end cut zero e within fits valid = omega arith
last-start limit index lo hi c k lo' hi' s end cut (suc m) e within fits valid =
    let rest : utf8_from k lo' hi' (take m s) ≡ true =
      sym (starts_rest c k lo' hi' (take m s) e) ∙ sym (any_range lo hi (c ∷ take m s)) ∙ valid in
    omega (arith, cut.last m (omega arith) (omega arith) rest)

-- the step of the loop at a boundary
cut_end_start :
    (limit index c k : ℕ) (s : Text)
    → char_width c ≡ suc k
    → cut_end limit index (index + 0) 0 (c ∷ s) ≡ (
        if ltb limit (index + suc k)
        then index + 0
        else cut_end limit (index + 1) (index + suc k) k s)
unfolding cut_end
cut_end_start limit index c k s width =
    let less : suc k - 1 ≡ k = omega arith in rw (width, less) refl

cut_end-IsCut :
    (limit index k lo hi : ℕ) (s : Text)
    → utf8_from k lo hi s ≡ true
    → IsCut limit index k lo hi s (cut_end limit index (index + k) k s)
unfolding utf8_from
cut_end-IsCut limit index zero lo hi [] h = record {
  n = 0;
  there = cut_end_done limit index;
  whole = refl;
  last = λ m within fits e. within;
}
cut_end-IsCut limit index (suc k) lo hi [] h = cc h
cut_end-IsCut limit index (suc k) lo hi (c ∷ s) h =
    let (range, rest) = &&-true (between lo hi c) (utf8_from k 0x80 0xbf s) h in
    let cut = cut_end-IsCut limit (index + 1) k 0x80 0xbf s rest in
    let shift : index + suc k ≡ index + 1 + k = omega arith in
    record {
      n = suc cut.n;
      there =
          cut_end_inside limit index k c s
          ∙ ap (λ e. cut_end limit (index + 1) e k s) shift
          ∙ cut.there
          ∙ shifted index cut.n;
      whole = ground (arith, cut.whole);
      last = last-inside limit index k lo hi c s _ cut;
    }
cut_end-IsCut limit index zero lo hi (c ∷ s) h = elim (Option-cases (lead c)) [
  | inl bad_lead ↦ let bad : false ≡ true = rw (utf8_from, bad_lead) at h in absurd (cc bad)
  | inr ((k, lo', hi'), e) ↦
      let rest : utf8_from k lo' hi' s ≡ true = rw (utf8_from, e) at h in
      let width = lead_width c k lo' hi' e in
      let cut = cut_end-IsCut limit (index + 1) k lo' hi' s rest in
      elim (Bool-cases (ltb limit (index + suc k))) [
        | inl over ↦
            let stop = cut_end_start limit index c k s width in
            record {
              n = 0;
              there = rw over at stop;
              whole = refl;
              last = λ m within fits valid.
                  last-over limit index lo hi c k lo' hi' s m e (ltb→lt limit (index + suc k) over)
                    within fits valid;
            }
        | inr fits ↦
            let next = cut_end_start limit index c k s width in
            let goes : cut_end limit index (index + 0) 0 (c ∷ s)
                ≡ cut_end limit (index + 1) (index + suc k) k s =
              rw fits at next in
            let shift : index + suc k ≡ index + 1 + k = omega arith in
            record {
              n = suc cut.n;
              there =
                  goes
                  ∙ ap (λ e. cut_end limit (index + 1) e k s) shift
                  ∙ cut.there
                  ∙ shifted index cut.n;
              whole =
                  any_range lo hi (c ∷ take cut.n s)
                  ∙ starts_rest c k lo' hi' (take cut.n s) e
                  ∙ cut.whole;
              last = λ m within room valid.
                  last-start limit index lo hi c k lo' hi' s _ cut m e within room valid;
            }
      ]
]

-- What is known of a cut: its length, that it is of whole characters, and that no longer prefix of
-- whole characters is within the limit.
pub record IsLongest (limit : ℕ) (s cut : Text) : Type 0 where
  pub within : length cut ≤ limit
  pub rest : Text
  pub prefix : s ≡ cut ++ rest
  pub whole : is_utf8 cut ≡ true
  pub longest :
      (p q : Text) → s ≡ p ++ q → is_utf8 p ≡ true → length p ≤ limit → length p ≤ length cut

take-prefix : (p q : Text) → take (length p) (p ++ q) ≡ p
take-prefix [] q = refl
take-prefix (c ∷ p) q = ap (λ (t : Text). c ∷ t) (take-prefix p q)

prefix-le : (s p q : Text) → s ≡ p ++ q → length p ≤ length s
prefix-le s p q e = omega (arith, ap (λ (t : Text). length t) e, length-append {0} p q)

take-IsLongest :
    (limit n : ℕ) (s : Text) (cut : IsCut limit 0 0 0 0 s n)
    → n ≤ limit
    → IsLongest limit s (take n s)
unfolding is_utf8
take-IsLongest limit n s cut small =
    let same : n ≡ cut.n = omega (arith, cut.there) in
    record {
      within = omega (arith, length-take {0} n s);
      rest = drop n s;
      prefix = sym (take-append-drop n s);
      whole = subst (λ k. utf8_from 0 0 0 (take k s) ≡ true) (sym same) cut.whole;
      longest = λ p q e valid fits.
          let there : take (length p) s ≡ p = ap (take (length p)) e ∙ take-prefix p q in
          let held = prefix-le s p q e in
          let first =
            cut.last (length p) held (omega (arith, fits))
              (subst (λ t. utf8_from 0 0 0 t ≡ true) (sym there) valid) in
          omega (arith, length-take {0} n s, first, held, same);
    }

whole-IsLongest : (limit : ℕ) (s : Text) → is_utf8 s ≡ true → length s ≤ limit → IsLongest limit s s
whole-IsLongest limit s valid fits = record {
  within = fits;
  rest = [];
  prefix = sym (append-nil s);
  whole = valid;
  longest = λ p q e _ _. prefix-le s p q e;
}

-- The cut of a valid UTF-8 text is a prefix of the text within the limit, valid UTF-8 itself, so that
-- no character is split; and it is the longest such prefix.
pub cut_text-IsLongest :
    (limit : ℕ) (s : Text) → is_utf8 s ≡ true → IsLongest limit s (cut_text limit s)
unfolding cut_text is_utf8
cut_text-IsLongest limit s valid = elim (Bool-cases (leb (length s) limit)) [
  | inl fits ↦ rw fits (whole-IsLongest limit s valid (leb→le (length s) limit fits))
  | inr over ↦ rw over (
      take-IsLongest limit (cut_end limit 0 0 0 s) s (cut_end-IsCut limit 0 0 0 0 s valid)
        (cut_end-le limit 0 0 0 s (omega arith)))
]
