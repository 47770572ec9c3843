-- ===== src/Media/Policy/Attempts.antt =====
-- How many attempts an execution policy makes, and on which backends.
use ovayra.Prelude.{
  ℕ, ◌+◌, ◌-◌, ◌≤◌, ◌≡◌, refl, ◌⊎◌, Bool, true, false, Option, none, some, List, [], ◌∷◌, arith,
  if◌then◌else◌, length,
}
use ovayra.Media.Backend.{Backend, cpu, is_cpu, AttemptOutcome, succeeded}
use ovayra.Media.Policy.{ExecutionPolicy, new, observe, observe_scheduled}

-- How many observations a policy still takes.
abbrev pub remaining : Option Backend → ℕ
remaining none = 0
remaining (some b) = if is_cpu b then 1 else 2

-- What holds of a policy between two observations.
pub record IsSound (p : ExecutionPolicy) : Type 0 where
  pub hardware : is_cpu p.requested_backend ≡ false
  pub budget : p.attempts_started + remaining p.scheduled_backend ≤ 3
  pub counted : (1 ≤ p.attempts_started) × (p.attempts_started ≤ 2)
  pub scheduled :
      (p.scheduled_backend ≡ none)
      ⊎ (p.scheduled_backend ≡ some cpu)
      ⊎ (p.scheduled_backend ≡ some p.requested_backend)
  pub quarantined : p.scheduled_backend ≡ some cpu → p.hardware_quarantined ≡ true
  pub ran :
      (p.actual_backend ≡ none)
      ⊎ (p.scheduled_backend ≡ none)
        × ((p.actual_backend ≡ some cpu) ⊎ (p.actual_backend ≡ some p.requested_backend))

-- A new policy is sound, whether its backend is quarantined or not.
pub new-IsSound :
    (word : ℕ) (backend : Backend) (use_global : Bool) (p : ExecutionPolicy)
    → new word backend use_global ≡ some p
    → IsSound p
unfolding new is_cpu
new-IsSound word backend use_global p h = ground arith

observe_scheduled-IsSound :
    (o : Option Backend) (p : ExecutionPolicy) (word : ℕ) (outcome : AttemptOutcome)
    → p.scheduled_backend ≡ o
    → IsSound p
    → IsSound (observe_scheduled o p word outcome).1
unfolding observe_scheduled is_cpu
observe_scheduled-IsSound none p word outcome e h = h
observe_scheduled-IsSound (some b) p word succeeded e h = ground arith
observe_scheduled-IsSound (some b) p word outcome e h = ground arith

-- An observation keeps a policy sound: hardware was requested, at most two attempts are started, the
-- backend scheduled is the requested one or the CPU, the CPU only after quarantine, and a backend is
-- recorded as the actual one only when nothing is scheduled any more.
pub observe-IsSound :
    (p : ExecutionPolicy) (word : ℕ) (outcome : AttemptOutcome)
    → IsSound p
    → IsSound (observe p word outcome).1
unfolding observe
observe-IsSound p word outcome h =
    observe_scheduled-IsSound p.scheduled_backend p word outcome refl h

-- The stage's loop: each outcome of the scheduled attempt is observed.
pub observe_all : ExecutionPolicy → ℕ → List AttemptOutcome → ExecutionPolicy × ℕ
observe_all p word [] = (p, word)
observe_all p word (outcome ∷ rest) =
    observe_all (observe p word outcome).1 (observe p word outcome).2 rest

observe_scheduled-remaining :
    (o : Option Backend) (p : ExecutionPolicy) (word : ℕ) (outcome : AttemptOutcome)
    → p.scheduled_backend ≡ o
    → remaining (observe_scheduled o p word outcome).1.scheduled_backend ≤ remaining o - 1
unfolding observe_scheduled is_cpu
observe_scheduled-remaining none p word outcome e = rw e (omega arith)
observe_scheduled-remaining (some b) p word succeeded e = omega arith
observe_scheduled-remaining (some b) p word outcome e = ground arith

observe-remaining :
    (p : ExecutionPolicy) (word : ℕ) (outcome : AttemptOutcome)
    → remaining (observe p word outcome).1.scheduled_backend ≤ remaining p.scheduled_backend - 1
unfolding observe
observe-remaining p word outcome =
    observe_scheduled-remaining p.scheduled_backend p word outcome refl

remaining-le : (o : Option Backend) → remaining o ≤ 2
remaining-le o = ground arith

none-remaining : (o : Option Backend) → remaining o ≡ 0 → o ≡ none
none-remaining o h = ground arith

observe_all-remaining :
    (p : ExecutionPolicy) (word : ℕ) (outcomes : List AttemptOutcome)
    → remaining (observe_all p word outcomes).0.scheduled_backend
      ≤ remaining p.scheduled_backend - length outcomes
unfolding observe_all
observe_all-remaining p word [] = omega arith
observe_all-remaining p word (outcome ∷ rest) = omega (
  arith,
  observe-remaining p word outcome,
  observe_all-remaining (observe p word outcome).1 (observe p word outcome).2 rest,
)

observe_all-IsSound :
    (p : ExecutionPolicy) (word : ℕ) (outcomes : List AttemptOutcome)
    → IsSound p
    → IsSound (observe_all p word outcomes).0
unfolding observe_all
observe_all-IsSound p word [] h = h
observe_all-IsSound p word (outcome ∷ rest) h =
    observe_all-IsSound (observe p word outcome).1 (observe p word outcome).2 rest
      (observe-IsSound p word outcome h)

-- A sound policy has, whatever the outcomes, nothing scheduled after two of them, and it has then
-- started at most two attempts.
pub observe_all_ends :
    (p : ExecutionPolicy) (word : ℕ) (outcomes : List AttemptOutcome)
    → IsSound p
    → 2 ≤ length outcomes
    → ((observe_all p word outcomes).0.scheduled_backend ≡ none)
      × ((observe_all p word outcomes).0.attempts_started ≤ 2)
observe_all_ends p word outcomes sound enough =
    let none_left =
      none-remaining (observe_all p word outcomes).0.scheduled_backend
        (omega (arith, observe_all-remaining p word outcomes, remaining-le p.scheduled_backend)) in
    (none_left, (observe_all-IsSound p word outcomes sound).counted.1)
