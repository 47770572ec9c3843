-- ===== src/Media/Policy/Quarantine.antt =====
-- A backend that failed is not scheduled again in the process.
use ovayra.Prelude.{ℕ, ◌<◌, ◌≡◌, refl, sym, subst, ◌≢◌, true, false, Option, none, some}
use ovayra.Media.Backend.{
  Backend, cpu, is_cpu, hardware_quarantined_code, AttemptOutcome, succeeded, is_quarantined,
  quarantine, is_quarantined-own, is_quarantined-other,
}
use ovayra.Media.Policy.{ExecutionPolicy, new, observe, observe_scheduled, observe_failure}

observe_failure_word :
    (p : ExecutionPolicy) (word : ℕ) (b : Backend) (outcome : AttemptOutcome)
    → is_cpu b ≡ false
    → p.process_wide_quarantine ≡ true
    → (observe_failure p word b outcome).2 ≡ quarantine word b
unfolding observe_failure
observe_failure_word p word b outcome hardware wide = rw (hardware, wide) refl

-- The word after a failed attempt.
failure_word :
    (p : ExecutionPolicy) (word : ℕ) (o : Option Backend) (b : Backend) (outcome : AttemptOutcome)
    → o ≡ some b
    → is_cpu b ≡ false
    → p.process_wide_quarantine ≡ true
    → outcome ≢ succeeded
    → (observe_scheduled o p word outcome).2 ≡ quarantine word b
unfolding observe_scheduled observe_failure
failure_word p word none b outcome e hardware wide failed = cc
failure_word p word (some a) b succeeded e hardware wide failed = absurd (failed refl)
failure_word p word (some a) b outcome e hardware wide failed =
    let same : a ≡ b = cc in
    subst (λ t. (observe_failure p word t outcome).2 ≡ quarantine word b) (sym same)
      (observe_failure_word p word b outcome hardware wide)

-- What a policy for a backend looks like when the backend is quarantined.
new_quarantined :
    (word : ℕ) (b : Backend)
    → is_cpu b ≡ false
    → is_quarantined word b ≡ true
    → (q : ExecutionPolicy) × (new word b true ≡ some q)
      × (q.scheduled_backend ≡ some cpu)
      × (q.downgrade_code ≡ some hardware_quarantined_code)
unfolding new
new_quarantined word b hardware marked = (
  record {
    requested_backend = b;
    scheduled_backend = some cpu;
    actual_backend = none;
    downgrade_code = some hardware_quarantined_code;
    downgrade_reason = none;
    attempts_started = 1;
    hardware_quarantined = true;
    process_wide_quarantine = true;
  },
  rw (hardware, marked) refl,
  refl,
  refl,
)

-- After an attempt on hardware has failed under a process-wide policy, with a quarantine word of four
-- bits, the next policy for that backend goes straight to the CPU, with the code for quarantined hardware, and whether another
-- backend is quarantined is unchanged.
pub failed_backend_quarantined :
    (p : ExecutionPolicy) (word : ℕ) (b other : Backend) (outcome : AttemptOutcome)
    → word < 16
    → p.scheduled_backend ≡ some b
    → is_cpu b ≡ false
    → p.process_wide_quarantine ≡ true
    → outcome ≢ succeeded
    → b ≢ other
    → ((q : ExecutionPolicy) × (new (observe p word outcome).2 b true ≡ some q)
        × (q.scheduled_backend ≡ some cpu)
        × (q.downgrade_code ≡ some hardware_quarantined_code))
      × (is_quarantined (observe p word outcome).2 other ≡ is_quarantined word other)
unfolding observe
failed_backend_quarantined p word b other outcome small scheduled hardware wide failed apart =
    let after = failure_word p word p.scheduled_backend b outcome scheduled hardware wide failed in
    rw after (
      new_quarantined (quarantine word b) b hardware (is_quarantined-own word b small hardware),
      is_quarantined-other word b other small apart,
    )
