-- ===== src/Media/Policy.antt =====
-- crates/spike-media/src/capability.rs: `ExecutionPolicy`, one hardware attempt and then at most one
-- on the CPU. The process-wide quarantine word goes in and out of each operation.
pub mod Attempts
pub mod Quarantine
use ovayra.Prelude.{
  ℕ, Bool, true, false, not, ◌&&◌, Option, none, some, if◌then◌else◌, Result, ok, err, Text,
}
use ovayra.Media.Backend.{
  Backend, cpu, is_cpu, DowngradeCode, hardware_quarantined_code, AttemptOutcome, succeeded, failed,
  outcome_code, is_quarantined, quarantine,
}
use ovayra.Media.Bounded.{cut_text}

pub record ExecutionPolicy : Type 0 where
  pub requested_backend : Backend
  pub scheduled_backend : Option Backend
  pub actual_backend : Option Backend
  pub downgrade_code : Option DowngradeCode
  pub downgrade_reason : Option Text
  pub attempts_started : ℕ
  pub hardware_quarantined : Bool
  pub process_wide_quarantine : Bool

pub data ExecutionPolicyError : Type 0 where
  terminal : ExecutionPolicyError

-- `ExecutionPolicy::new`; `none` is the failed assertion.
unfoldable pub new : ℕ → Backend → Bool → Option ExecutionPolicy
new word backend use_global =
    let quarantined = use_global && is_quarantined word backend in
    if is_cpu backend
    then none
    else some (record {
      requested_backend = backend;
      scheduled_backend = some (if quarantined then cpu else backend);
      actual_backend = none;
      downgrade_code = if quarantined then some hardware_quarantined_code else none;
      downgrade_reason = none;
      attempts_started = 1;
      hardware_quarantined = quarantined;
      process_wide_quarantine = use_global;
    })

unfoldable pub prefer : ℕ → Backend → Option ExecutionPolicy
unfolding new
prefer word backend = new word backend true

unfoldable pub prefer_isolated : ℕ → Backend → Option ExecutionPolicy
unfolding new
prefer_isolated word backend = new word backend false

unfoldable pub bound_reason : Text → Text
bound_reason reason = cut_text 512 reason

reason_of : AttemptOutcome → Option Text
reason_of (failed reason) = some (bound_reason reason)
reason_of _ = none

abbrev pub Observed : Type 0
Observed = Result ExecutionPolicyError Backend × ExecutionPolicy × ℕ

observe_success : ExecutionPolicy → ℕ → Backend → Observed
observe_success p word current =
    (ok current, record p { actual_backend = some current; scheduled_backend = none }, word)

observe_failure : ExecutionPolicy → ℕ → Backend → AttemptOutcome → Observed
unfolding reason_of
observe_failure p word current outcome =
    if is_cpu current then (err terminal, record p { scheduled_backend = none }, word) else (
      ok cpu,
      record p {
        hardware_quarantined = true;
        downgrade_code = outcome_code outcome;
        downgrade_reason = reason_of outcome;
        scheduled_backend = some cpu;
        attempts_started = 2;
      },
      if p.process_wide_quarantine then quarantine word current else word,
    )

observe_scheduled : Option Backend → ExecutionPolicy → ℕ → AttemptOutcome → Observed
unfolding observe_success observe_failure
observe_scheduled none p word outcome = (err terminal, p, word)
observe_scheduled (some current) p word succeeded = observe_success p word current
observe_scheduled (some current) p word outcome = observe_failure p word current outcome

-- `ExecutionPolicy::observe`
unfoldable pub observe : ExecutionPolicy → ℕ → AttemptOutcome → Observed
unfolding observe_scheduled
observe p word outcome = observe_scheduled p.scheduled_backend p word outcome

unfoldable pub may_retry_hardware_in_this_session : ExecutionPolicy → Bool
may_retry_hardware_in_this_session p =
    not p.hardware_quarantined && elim p.scheduled_backend [ none ↦ false | some _ ↦ true ]
