-- ===== src/Prelude/Lists.antt =====
-- Lists measured and indexed by native numbers, and Boolean searches through them.
use Prim.Native.Nat.{ℕ, zero, suc, ◌+◌, min}
use mathlib.Core.Path.{◌≡◌, refl, sym, ap}
use mathlib.Core.Logic.{inl, inr}
use mathlib.Core.Bool.{Bool, true, false, ◌&&◌, ◌||◌}
use mathlib.Core.List.{List, [], ◌∷◌, ◌++◌, Memᴰ}
use mathlib.Core.Option.{Option, none, some}
use native.Mathlib.Omega.{arith}
use ovayra.Prelude.Tests.{if◌then◌else◌, Bool-cases}

module _ {ℓ} {A : Type ℓ} where
  abbrev pub length : List A → ℕ
  length [] = 0
  length (x ∷ xs) = suc (length xs)

  abbrev pub take : ℕ → List A → List A
  take zero xs = []
  take (suc n) [] = []
  take (suc n) (x ∷ xs) = x ∷ take n xs

  abbrev pub drop : ℕ → List A → List A
  drop zero xs = xs
  drop (suc n) [] = []
  drop (suc n) (x ∷ xs) = drop n xs

  -- `Iterator::find`
  abbrev pub find : (A → Bool) → List A → Option A
  find p [] = none
  find p (x ∷ xs) = if p x then some x else find p xs

  -- `Iterator::any` and `Iterator::all`
  abbrev pub any : (A → Bool) → List A → Bool
  any p [] = false
  any p (x ∷ xs) = p x || any p xs

  abbrev pub all : (A → Bool) → List A → Bool
  all p [] = true
  all p (x ∷ xs) = p x && all p xs

  -- `Iterator::filter`
  abbrev pub keep_if : (A → Bool) → List A → List A
  keep_if p [] = []
  keep_if p (x ∷ xs) = let rest = keep_if p xs in if p x then x ∷ rest else rest

module _ {ℓ} {A : Type ℓ} where
  pub length-append : (xs ys : List A) → length (xs ++ ys) ≡ length xs + length ys
  length-append [] ys = omega arith
  length-append (x ∷ xs) ys = omega (arith, length-append xs ys)

  pub length-take : (n : ℕ) (xs : List A) → length (take n xs) ≡ min n (length xs)
  length-take zero xs = omega arith
  length-take (suc n) [] = omega arith
  length-take (suc n) (x ∷ xs) = omega (arith, length-take n xs)

  -- What `find` returns stands in the list and passes the test.
  pub find_sound :
      (p : A → Bool) (xs : List A) {x : A} → find p xs ≡ some x → Memᴰ x xs × (p x ≡ true)
  find_sound p [] h = cc
  find_sound p (y ∷ ys) {x} h = elim (Bool-cases (p y)) [
    | inl yes_y ↦
        let e : some y ≡ some x = rw yes_y at h in
        let same : y ≡ x = cc e in (Memᴰ.head (sym same), rw (← same) yes_y)
    | inr no_y ↦
        let r : Memᴰ x ys × (p x ≡ true) = find_sound p ys {x = x} (rw no_y at h) in
        (Memᴰ.tail r.0, r.1)
  ]

  pub all-mem : (p : A → Bool) (xs : List A) {x : A} → all p xs ≡ true → Memᴰ x xs → p x ≡ true
  all-mem p [] h m = elim m [ ]
  all-mem p (y ∷ ys) h (Memᴰ.head e) = rw e (ground arith)
  all-mem p (y ∷ ys) h (Memᴰ.tail m) = all-mem p ys (ground arith) m

  -- A predicate of every item.
  abbrev pub All {κ} : (A → Type κ) → List A → Type κ
  All P [] = Unit
  All P (x ∷ xs) = P x × All P xs

  pub All-mem {κ} : (P : A → Type κ) (xs : List A) {x : A} → All P xs → Memᴰ x xs → P x
  All-mem P [] h m = elim m [ ]
  All-mem P (y ∷ ys) h (Memᴰ.head e) = rw e h.0
  All-mem P (y ∷ ys) h (Memᴰ.tail m) = All-mem P ys h.1 m

  pub All-of_mem {κ} : (P : A → Type κ) (xs : List A) → ((x : A) → Memᴰ x xs → P x) → All P xs
  All-of_mem P [] h = tt
  All-of_mem P (x ∷ xs) h = (h x (Memᴰ.head refl), All-of_mem P xs (λ y m. h y (Memᴰ.tail m)))

-- A test that cannot pass has failed.
pub not_true : (b : Bool) → (b ≡ true → ⊥) → b ≡ false
not_true true h = absurd (h refl)
not_true false h = refl

module _ {ℓ κ} {A : Type ℓ} where
  pub All-append : (P : A → Type κ) (xs ys : List A) → All P xs → All P ys → All P (xs ++ ys)
  All-append P [] ys h k = k
  All-append P (x ∷ xs) ys h k = (h.0, All-append P xs ys h.1 k)

module _ {ℓ} {A : Type ℓ} where
  pub take-append-drop : (n : ℕ) (xs : List A) → take n xs ++ drop n xs ≡ xs
  take-append-drop zero xs = refl
  take-append-drop (suc n) [] = refl
  take-append-drop (suc n) (x ∷ xs) = ap (λ (l : List A). x ∷ l) (take-append-drop n xs)

-- `any` finds a member.
pub any-mem :
    {A : Type 0} (p : A → Bool) (xs : List A) → any p xs ≡ true → (x : A) × Memᴰ x xs × (p x ≡ true)
any-mem p [] h = cc h
any-mem p (x ∷ xs) h = elim (Bool-cases (p x)) [
  | inl here ↦ (x, Memᴰ.head refl, here)
  | inr later ↦ let (y, member, there) = any-mem p xs (ground arith) in (y, Memᴰ.tail member, there)
]

pub mem-any :
    {A : Type 0} (p : A → Bool) (xs : List A) {x : A} → Memᴰ x xs → p x ≡ true → any p xs ≡ true
mem-any p [] member h = elim member [ ]
mem-any p (y ∷ xs) (Memᴰ.head e) h = let here : p y ≡ true = cc (ap p e, h) in ground arith
mem-any p (y ∷ xs) (Memᴰ.tail member) h = let later = mem-any p xs member h in ground arith
