-- ===== src/Release/Layout/Targets.antt =====
-- A lock whose targets pass the check has no other target than the three.
use ovayra.Prelude.{
  ◌≡◌, refl, sym, ◌∙◌, inl, inr, Bool, true, false, ◌&&◌, ◌||◌, List, [], ◌∷◌, map, arith, ◌==◌,
  ==_iff, Bool-cases, &&-true, length, any, not_true, Text, bytes, text_eq, text_eq_sound,
  text_eq_iff, contains,
}
use ovayra.Release.Lock.{LockedTarget, has_targets, same_target, expected_targets, locked}

abbrev pub target_ids : List Text
target_ids = bytes "macos-arm64-vt" ∷ bytes "windows-x64-mf" ∷ bytes "linux-x64-vaapi-wayland" ∷ []

-- Three things that each fit one of three places, no two the same, fill them.
pigeon :
    (a1 a2 a3 b1 b2 b3 c1 c2 c3 : Bool)
    → (a1 || (a2 || (a3 || false))) ≡ true
    → (b1 || (b2 || (b3 || false))) ≡ true
    → (c1 || (c2 || (c3 || false))) ≡ true
    → (a1 && b1) ≡ false
    → (a2 && b2) ≡ false
    → (a3 && b3) ≡ false
    → (a1 && c1) ≡ false
    → (a2 && c2) ≡ false
    → (a3 && c3) ≡ false
    → (b1 && c1) ≡ false
    → (b2 && c2) ≡ false
    → (b3 && c3) ≡ false
    → ((a1 || (b1 || (c1 || false))) ≡ true)
      × ((a2 || (b2 || (c2 || false))) ≡ true)
      × ((a3 || (b3 || (c3 || false))) ≡ true)
pigeon a1 a2 a3 b1 b2 b3 c1 c2 c3 h1 h2 h3 n1 n2 n3 n4 n5 n6 n7 n8 n9 =
    (ground arith, ground arith, ground arith)

same_target-id :
    (t e : LockedTarget) (id : Text) → same_target t e ≡ true → text_eq t.id id ≡ true → id ≡ e.id
unfolding same_target
same_target-id t e id same this =
    sym (text_eq_sound t.id id this) ∙ text_eq_sound t.id e.id (ground arith)

apart :
    (t e f : LockedTarget)
    → text_eq e.id f.id ≡ false
    → (same_target t e && same_target t f) ≡ false
unfolding same_target
apart t e f other = not_true (same_target t e && same_target t f) (λ both.
    let (h, k) = &&-true (same_target t e) (same_target t f) both in
    let one : t.id ≡ e.id = text_eq_sound t.id e.id (ground arith) in
    let two : t.id ≡ f.id = text_eq_sound t.id f.id (ground arith) in
    let same : text_eq e.id f.id ≡ true = (text_eq_iff e.id f.id).1 (sym one ∙ two) in
    absurd (cc (same, other)))

-- A target that is one of the expected ones has the id of one.
listed_id :
    (t : LockedTarget) (target : Text) (es : List LockedTarget)
    → any (same_target t) es ≡ true
    → text_eq t.id target ≡ true
    → contains (map (λ (e : LockedTarget). e.id) es) target ≡ true
unfolding contains
listed_id t target [] h this = cc
listed_id t target (e ∷ es) h this = elim (Bool-cases (same_target t e)) [
  | inl same ↦
      let found : target ≡ e.id = same_target-id t e target same this in
      let here : text_eq e.id target ≡ true = (text_eq_iff e.id target).1 (sym found) in
      rw here refl
  | inr other ↦ let later = listed_id t target es (rw other at h) this in ground arith
]

abbrev macos : LockedTarget
macos =
    locked (bytes "macos-arm64-vt") (bytes "aarch64-apple-darwin") (bytes "macos-14")
      (bytes "macos")

abbrev windows : LockedTarget
windows =
    locked (bytes "windows-x64-mf") (bytes "x86_64-pc-windows-msvc") (bytes "windows-2025")
      (bytes "windows")

abbrev linux : LockedTarget
linux =
    locked (bytes "linux-x64-vaapi-wayland") (bytes "x86_64-unknown-linux-gnu")
      (bytes "ubuntu-24.04") (bytes "linux")

ids_differ :
    (text_eq macos.id windows.id ≡ false)
    × (text_eq macos.id linux.id ≡ false)
    × (text_eq windows.id linux.id ≡ false)
unfolding text_eq bytes
ids_differ = (refl, refl, refl)

last_of_three :
    (a b c : Bool) → (a || (b || (c || false))) ≡ true → a ≡ false → b ≡ false → c ≡ true
last_of_three a b c h not_a not_b = ground arith

pub three_targets :
    (ts : List LockedTarget) (target : Text)
    → has_targets ts ≡ true
    → any (λ (t : LockedTarget). text_eq t.id target) ts ≡ true
    → contains target_ids target ≡ true
unfolding has_targets
three_targets [] target h k = cc
three_targets (t ∷ []) target h k = ground arith
three_targets (t ∷ u ∷ []) target h k = ground arith
three_targets (t ∷ u ∷ v ∷ w ∷ ts) target h k =
    let all_of = t ∷ u ∷ v ∷ w ∷ ts in
    let three = (==_iff (length all_of) 3).0 (&&-true (length all_of == 3) _ h).0 in
    absurd (omega arith)
three_targets (t ∷ u ∷ v ∷ []) target h k =
    let (mw, ml, wl) = ids_differ in
    let fits : LockedTarget → Bool = λ e. any (λ x. same_target x e) (t ∷ u ∷ v ∷ []) in
    let (_, h1) = &&-true (length (t ∷ u ∷ v ∷ []) == 3) _ h in
    let (hm, h2) = &&-true (fits macos) _ h1 in
    let (hw, h3) = &&-true (fits windows) _ h2 in
    let (hl, _) = &&-true (fits linux) _ h3 in
    let (pt, pu, pv) =
      pigeon (same_target t macos) (same_target u macos) (same_target v macos)
        (same_target t windows) (same_target u windows) (same_target v windows)
        (same_target t linux) (same_target u linux) (same_target v linux) hm hw hl
        (apart t macos windows mw) (apart u macos windows mw) (apart v macos windows mw)
        (apart t macos linux ml) (apart u macos linux ml) (apart v macos linux ml)
        (apart t windows linux wl) (apart u windows linux wl) (apart v windows linux wl) in
    elim (Bool-cases (text_eq t.id target)) [
      | inl is_t ↦ listed_id t target expected_targets pt is_t
      | inr not_t ↦ elim (Bool-cases (text_eq u.id target)) [
        | inl is_u ↦ listed_id u target expected_targets pu is_u
        | inr not_u ↦ listed_id v target expected_targets pv (
            last_of_three (text_eq t.id target) (text_eq u.id target) (text_eq v.id target) k not_t
              not_u)
      ]
    ]
