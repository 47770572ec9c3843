-- ===== src/App/Scan/Armor.antt =====
-- An armor header that names a private key is found wherever it stands.
use ovayra.Prelude.{
  ℕ, zero, suc, ◌-◌, ◌≤◌, ◌<◌, ◌≡◌, refl, sym, ap, ◌∙◌, subst, ◌≢◌, inl, inr, true, false, ◌&&◌,
  Option, none, some, [], ◌∷◌, ◌++◌, reverse, arith, ltb, ◌==◌, ltb→lt, Bool-cases, Option-cases,
  length, drop, length-append, Text, bytes, starts_with, has_infix,
}
use mathlib.Core.List.{append_assoc, append-nil, reverse_aux}
use ovayra.App.Scan.{armor, before_dashes, armored_from}

-- The later bytes of a text against the later bytes of a search text.
starts_with-at :
    (j : ℕ) (s m : Text) → starts_with s m ≡ true → starts_with (drop j s) (drop j m) ≡ true
unfolding starts_with
starts_with-at zero s m h = h
starts_with-at (suc j) s [] h = refl
starts_with-at (suc j) [] (d ∷ m) h = cc h
starts_with-at (suc j) (c ∷ s) (d ∷ m) h = starts_with-at j s m (ground arith)

-- Armor does not begin within armor.
apart : (j : ℕ) (rest : Text) → j < 10 → starts_with (armor ++ rest) (drop (suc j) armor) ≡ false
unfolding starts_with bytes
apart zero rest h = refl
apart (suc zero) rest h = refl
apart (suc (suc zero)) rest h = refl
apart (suc (suc (suc zero))) rest h = refl
apart (suc (suc (suc (suc zero)))) rest h = refl
apart (suc (suc (suc (suc (suc zero))))) rest h = refl
apart (suc (suc (suc (suc (suc (suc zero)))))) rest h = refl
apart (suc (suc (suc (suc (suc (suc (suc zero))))))) rest h = refl
apart (suc (suc (suc (suc (suc (suc (suc (suc zero)))))))) rest h = refl
apart (suc (suc (suc (suc (suc (suc (suc (suc (suc zero))))))))) rest h = refl
apart (suc (suc (suc (suc (suc (suc (suc (suc (suc (suc j)))))))))) rest h = absurd (omega arith)

drop-append : (s t : Text) → drop (length s) (s ++ t) ≡ t
drop-append [] t = refl
drop-append (c ∷ s) t = drop-append s t

passed_over :
    (b : ℕ) (before rest : Text)
    → starts_with (b ∷ (before ++ (armor ++ rest))) armor ≡ true
    → 10 ≤ length before
passed_over b before rest h = elim (Bool-cases (ltb (length before) 10)) [
  | inl short ↦
      let later = starts_with-at (suc (length before)) (b ∷ (before ++ (armor ++ rest))) armor h in
      let there : starts_with (armor ++ rest) (drop (suc (length before)) armor) ≡ true =
        subst (λ t. starts_with t (drop (suc (length before)) armor) ≡ true)
          (drop-append before (armor ++ rest)) later in
      absurd (cc (there, apart (length before) rest (ltb→lt (length before) 10 short)))
  | inr long ↦ ground arith
]

-- The label is what stands before the first five dashes.
starts_with-first : (s t m : Text) → length m ≤ length s → starts_with (s ++ t) m ≡ starts_with s m
unfolding starts_with
starts_with-first s t [] h = refl
starts_with-first [] t (d ∷ m) h = absurd (omega arith)
starts_with-first (c ∷ s) t (d ∷ m) h =
    ap (λ b. (c == d) && b) (starts_with-first s t m (omega arith))

has_infix-here : (c : ℕ) (s m : Text) → has_infix (c ∷ s) m ≡ false → starts_with (c ∷ s) m ≡ false
unfolding has_infix
has_infix-here c s m h = elim (Bool-cases (starts_with (c ∷ s) m)) [
  | inl here ↦ absurd (ground arith)
  | inr other ↦ other
]

has_infix-later : (c : ℕ) (s m : Text) → has_infix (c ∷ s) m ≡ false → has_infix s m ≡ false
unfolding has_infix
has_infix-later c s m h = ground arith

not_yet :
    (label after : Text)
    → 1 ≤ length label
    → has_infix (label ++ bytes "----") (bytes "-----") ≡ false
    → starts_with (label ++ (bytes "-----" ++ after)) (bytes "-----") ≡ false
unfolding bytes
not_yet [] after long h = absurd (omega arith)
not_yet (c ∷ label) after long h =
    let short : 5 ≤ length ((c ∷ label) ++ bytes "----") =
      omega (arith, length-append (c ∷ label) (bytes "----")) in
    ap (λ (t : Text). starts_with t (bytes "-----"))
      (sym (append_assoc (c ∷ label) (bytes "----") (45 ∷ after)))
    ∙ starts_with-first ((c ∷ label) ++ bytes "----") (45 ∷ after) (bytes "-----") short
    ∙ has_infix-here c (label ++ bytes "----") (bytes "-----") h

before_dashes-label :
    (run label after : Text)
    → has_infix (label ++ bytes "----") (bytes "-----") ≡ false
    → before_dashes run (label ++ (bytes "-----" ++ after)) ≡ some (reverse (reverse_aux label run))
unfolding before_dashes bytes starts_with
before_dashes-label run [] after h = refl
before_dashes-label run (c ∷ label) after h =
    let later : starts_with (c ∷ (label ++ (bytes "-----" ++ after))) (bytes "-----") ≡ false =
      not_yet (c ∷ label) after (omega arith) h in
    rw (before_dashes, later)
      (before_dashes-label (c ∷ run) label after
        (has_infix-later c (label ++ bytes "----") (bytes "-----") h))

-- A label always ends where dashes follow.
before_dashes-ends : (t run after : Text) → before_dashes run (t ++ (bytes "-----" ++ after)) ≢ none
unfolding before_dashes bytes starts_with
before_dashes-ends [] run after h = cc h
before_dashes-ends (c ∷ t) run after h =
    elim (Bool-cases (starts_with (c ∷ (t ++ (bytes "-----" ++ after))) (bytes "-----"))) [
      | inl here ↦
          let bad : ◌≡◌ {A = Option Text} (some (reverse run)) none =
            rw (before_dashes, here) at h in
          absurd (cc bad)
      | inr other ↦ before_dashes-ends t (c ∷ run) after (rw (before_dashes, other) at h)
    ]

reverse_aux-reverse_aux :
    (s run rest : Text) → reverse_aux (reverse_aux s run) rest ≡ reverse_aux run (s ++ rest)
reverse_aux-reverse_aux [] run rest = refl
reverse_aux-reverse_aux (c ∷ s) run rest = reverse_aux-reverse_aux s (c ∷ run) rest

has_infix-suffix : (s t m : Text) → has_infix (s ++ t) m ≡ false → has_infix t m ≡ false
has_infix-suffix [] t m h = h
has_infix-suffix (c ∷ s) t m h = has_infix-suffix s t m (has_infix-later c (s ++ t) m h)

-- A header whose label does not name a private key is passed over.
passed_header :
    (b : ℕ) (s label : Text)
    → starts_with (b ∷ s) armor ≡ true
    → before_dashes [] (drop (length armor) (b ∷ s)) ≡ some label
    → armored_from 0 (b ∷ s) ≡ false
    → (has_infix (armor ++ label) (bytes "private key") ≡ false)
      × (armored_from (length armor - 1) s ≡ false)
unfolding armored_from
passed_header b s label starts ended h =
    elim (Bool-cases (has_infix (armor ++ label) (bytes "private key"))) [
      | inl named ↦
          let bad : true ≡ false = rw (armored_from, starts, ended, named) at h in absurd (cc bad)
      | inr other ↦
          let later : armored_from (length armor - 1) s ≡ false =
            rw (armored_from, starts, ended, other) at h in
          (other, later)
    ]

header_starts : (rest : Text) → starts_with (armor ++ rest) armor ≡ true
unfolding starts_with bytes
header_starts rest = refl

-- The label of a header where the search stands.
header_sound :
    (label after : Text)
    → armored_from 0 (armor ++ (label ++ (bytes "-----" ++ after))) ≡ false
    → has_infix (label ++ bytes "----") (bytes "-----") ≡ false
    → has_infix label (bytes "private key") ≡ false
unfolding bytes
header_sound label after h first =
    let rest : Text = label ++ (bytes "-----" ++ after) in
    let ended : before_dashes [] rest ≡ some label =
      before_dashes-label [] label after first
      ∙ ap some (reverse_aux-reverse_aux label [] [] ∙ append-nil label) in
    let (other, _) = passed_header 45 (drop 1 armor ++ rest) label (header_starts rest) ended h in
    has_infix-suffix armor label (bytes "private key") other

-- Past a header the search goes on behind its marker.
search_on :
    (b : ℕ) (s : Text)
    → starts_with (b ∷ s) armor ≡ true
    → before_dashes [] (drop 10 s) ≢ none
    → armored_from 0 (b ∷ s) ≡ false
    → armored_from 10 s ≡ false
unfolding bytes
search_on b s starts ends h = elim (Option-cases (before_dashes [] (drop 10 s))) [
  | inl endless ↦ absurd (ends endless)
  | inr (label, ended) ↦ let (_, later) = passed_header b s label starts ended h in later
]

drop-within : (j : ℕ) (s t : Text) → j ≤ length s → drop j (s ++ t) ≡ drop j s ++ t
drop-within zero s t h = refl
drop-within (suc j) [] t h = absurd (omega arith)
drop-within (suc j) (c ∷ s) t h = drop-within j s t (omega arith)

pub armored_from_sound :
    (k : ℕ) (before label after : Text)
    → armored_from k (before ++ (armor ++ (label ++ (bytes "-----" ++ after)))) ≡ false
    → k ≤ length before
    → has_infix (label ++ bytes "----") (bytes "-----") ≡ false
    → has_infix label (bytes "private key") ≡ false
unfolding armored_from
armored_from_sound zero [] label after h small first = header_sound label after h first
armored_from_sound (suc k) [] label after h small first = absurd (omega arith)
armored_from_sound (suc k) (b ∷ before) label after h small first =
    armored_from_sound k before label after h (omega arith) first
armored_from_sound zero (b ∷ before) label after h small first =
    let rest : Text = armor ++ (label ++ (bytes "-----" ++ after)) in
    elim (Bool-cases (starts_with (b ∷ (before ++ rest)) armor)) [
      | inl starts ↦
          let long = passed_over b before (label ++ (bytes "-----" ++ after)) starts in
          let whole : drop 10 (before ++ rest)
              ≡ (drop 10 before ++ (armor ++ label)) ++ (bytes "-----" ++ after) =
            drop-within 10 before rest long
            ∙ ap (λ (t : Text). drop 10 before ++ t)
                (sym (append_assoc armor label (bytes "-----" ++ after)))
            ∙ sym (append_assoc (drop 10 before) (armor ++ label) (bytes "-----" ++ after)) in
          let ends : before_dashes [] (drop 10 (before ++ rest)) ≢ none =
            subst (λ t. before_dashes [] t ≢ none) (sym whole)
              (before_dashes-ends (drop 10 before ++ (armor ++ label)) [] after) in
          armored_from_sound 10 before label after (search_on b (before ++ rest) starts ends h) long
            first
      | inr other ↦
          armored_from_sound 0 before label after (rw (armored_from, other) at h) (omega arith)
            first
    ]
