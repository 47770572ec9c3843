-- ===== src/Contracts/Row/Canonical.antt =====
-- The keys of the matrix rows determine the rows, and `validate` accepts one matrix only.
use ovayra.Prelude.{
  ℕ, suc, ◌+◌, ◌≡◌, refl, ap, Bool, true, false, not, ◌&&◌, Option, none, some, List, [], ◌∷◌, ◌++◌,
  map, arith, ◌==◌, if◌then◌else◌, ok, all, Text, bytes, text_eq, option_eq, contains, is_empty,
}
use ovayra.Contracts.Ids.{
  SpikeId, preview, media, gemini, platform, distribution, spike_eq, target_eq, spike_id_name,
}
use ovayra.Contracts.Row.{
  RequiredEvidence, or_empty, bar, required_key, canonical_required, expected_keys, is_empty_text,
  validate_rows, row_eq,
}

-- How often `|` stands in a text.
unfoldable pub bars : Text → ℕ
bars [] = 0
bars (c ∷ s) = if c == bar then suc (bars s) else bars s

pub bars-append : (s t : Text) → bars (s ++ t) ≡ bars s + bars t
unfolding bars
bars-append [] t = omega arith
bars-append (c ∷ s) t = ground (arith, bars-append s t)

-- Two texts without `|` are told apart by what stands before the first `|`.
split_at_bar :
    (a b r s : Text) → bars a ≡ 0 → bars b ≡ 0 → a ++ (bar ∷ r) ≡ b ++ (bar ∷ s) → (a ≡ b) × (r ≡ s)
unfolding bars
split_at_bar [] [] r s ha hb e = (refl, cc)
split_at_bar [] (d ∷ b) r s ha hb e = ground arith
split_at_bar (c ∷ a) [] r s ha hb e = ground arith
split_at_bar (c ∷ a) (d ∷ b) r s ha hb e =
    let (same, rest) = split_at_bar a b r s (ground arith) (ground arith) (cc) in (cc (same), rest)

spike_id_name-injective : (a b : SpikeId) → spike_id_name a ≡ spike_id_name b → a ≡ b
unfolding spike_id_name bytes
spike_id_name-injective a b h = ground arith

or_empty-injective :
    (o p : Option Text)
    → is_empty_text o ≡ false
    → is_empty_text p ≡ false
    → or_empty o ≡ or_empty p
    → o ≡ p
unfolding is_empty_text is_empty
or_empty-injective none none ho hp e = refl
or_empty-injective none (some []) ho hp e = cc
or_empty-injective none (some (c ∷ s)) ho hp e = cc
or_empty-injective (some []) p ho hp e = cc
or_empty-injective (some (c ∷ s)) none ho hp e = cc
or_empty-injective (some (c ∷ s)) (some t) ho hp e = ap some e

-- A row whose key has only the three separators, and whose qualifiers, where there are any, are
-- not empty.
pub record IsPlain (row : RequiredEvidence) : Type 0 where
  pub separators : bars (required_key row) ≡ 3
  pub session_named : is_empty_text row.session ≡ false
  pub backend_named : is_empty_text row.backend ≡ false

key_bars :
    (i t s b : Text)
    → bars (i ++ (bar ∷ (t ++ (bar ∷ (s ++ (bar ∷ b)))))) ≡ bars i + bars t + bars s + bars b + 3
unfolding bars
key_bars i t s b = omega (
  arith,
  bars-append i (bar ∷ (t ++ (bar ∷ (s ++ (bar ∷ b))))),
  bars-append t (bar ∷ (s ++ (bar ∷ b))),
  bars-append s (bar ∷ b),
)

abbrev key : Text → Text → Text → Text → Text
key i t s b = i ++ (bar ∷ (t ++ (bar ∷ (s ++ (bar ∷ b)))))

key_parts :
    (i t s b i' t' s' b' : Text)
    → bars (key i t s b) ≡ 3
    → key i' t' s' b' ≡ key i t s b
    → (i' ≡ i) × (t' ≡ t) × (s' ≡ s) × (b' ≡ b)
key_parts i t s b i' t' s' b' three e =
    let n : bars i + bars t + bars s + bars b ≡ 0 = omega (arith, key_bars i t s b) in
    let n' : bars i' + bars t' + bars s' + bars b' ≡ 0 =
      omega (arith, key_bars i' t' s' b', ap bars e) in
    let (ei, e₁) = split_at_bar i' i _ _ (omega arith) (omega arith) e in
    let (et, e₂) = split_at_bar t' t _ _ (omega arith) (omega arith) e₁ in
    let (es, e₃) = split_at_bar s' s _ _ (omega arith) (omega arith) e₂ in (ei, et, es, e₃)

-- The key of a plain row determines the row among those with named qualifiers.
pub required_key-injective :
    (row other : RequiredEvidence)
    → IsPlain row
    → is_empty_text other.session ≡ false
    → is_empty_text other.backend ≡ false
    → required_key other ≡ required_key row
    → other ≡ row
unfolding required_key
required_key-injective row other plain session backend e =
    let (ei, et, es, eb) =
      key_parts (spike_id_name row.id) row.target.as_str (or_empty row.session)
        (or_empty row.backend) (spike_id_name other.id) other.target.as_str (or_empty other.session)
        (or_empty other.backend) plain.separators e in
    let ids = spike_id_name-injective other.id row.id ei in
    let sessions = or_empty-injective other.session row.session session plain.session_named es in
    let backends = or_empty-injective other.backend row.backend backend plain.backend_named eb in
    λ k. record {
      id = ids k;
      target = record { as_str = et k };
      session = sessions k;
      backend = backends k;
    }

-- The row that an entry of `CANONICAL_REQUIRED` stands for.
id_of_name : Text → SpikeId
id_of_name name =
    if text_eq name (bytes "preview")
    then preview
    else if text_eq name (bytes "media")
    then media
    else if text_eq name (bytes "gemini")
    then gemini
    else if text_eq name (bytes "platform")
    then platform
    else distribution

row_of_entry : Text × Text × Option Text × Option Text → RequiredEvidence
unfolding id_of_name
row_of_entry e = record {
  id = id_of_name e.0;
  target = record { as_str = e.1 };
  session = e.2;
  backend = e.3;
}

-- The canonical matrix, as rows.
pub canonical_rows : List RequiredEvidence
unfolding row_of_entry canonical_required
canonical_rows = map row_of_entry canonical_required

unfoldable pub is_plain : RequiredEvidence → Bool
unfolding bars is_empty_text
is_plain row =
    (bars (required_key row) == 3)
    && (not (is_empty_text row.session) && not (is_empty_text row.backend))

pub is_plain_sound : (row : RequiredEvidence) → is_plain row ≡ true → IsPlain row
unfolding is_plain
is_plain_sound row h = ground arith

pub canonical_plain : all is_plain canonical_rows ≡ true
unfolding is_plain canonical_rows required_key spike_id_name bytes text_eq is_empty
canonical_plain = refl

pub canonical_keys : expected_keys ≡ map required_key canonical_rows
unfolding expected_keys canonical_rows required_key spike_id_name bytes text_eq
canonical_keys = refl

pub canonical_validates : validate_rows canonical_rows ≡ ok tt
unfolding validate_rows canonical_rows expected_keys required_key spike_id_name bytes text_eq
    is_empty is_empty_text contains row_eq spike_eq target_eq option_eq
canonical_validates = refl
