-- ===== src/Media/Examples.antt =====
-- The theorems of the media library at concrete inputs.
use mathlib.Core.List.{flatten}
use ovayra.Prelude.{
  ℕ, ◌≤◌, ◌<◌, min, ◌≡◌, refl, subst, ◌≢◌, ◌↔◌, ◌⊎◌, true, false, none, some, List, [], ◌∷◌, ◌++◌,
  arith, ok, length, take, drop, length-take, All, parse_u64, is_utf8, split_whitespace,
  space_width, Text, bytes, text_eq,
}
use ovayra.Media.Inventory.{
  same_command, InventoryOutput, Inventory, version_command, buildconf_command, hwaccels_command,
  decoders_command, encoders_command, filters_command, success, from_command_outputs, has,
}
use ovayra.Media.Inventory.Collected.{IsComplete, from_command_outputs_iff}
use ovayra.Media.Plan.{HardwarePlan, required_components, is_available}
use ovayra.Media.Plan.Backed.{IsListed, is_available-IsListed}
use ovayra.Media.Progress.{Std, fresh, push}
use ovayra.Media.Progress.Chunks.{push_chunks, push-flatten}
use ovayra.Media.Progress.Limits.{IsBounded, fresh-IsBounded, push-IsBounded}
use ovayra.Media.Backend.{
  vaapi, is_cpu, nvenc_nvdec, is_quarantined, quarantine, timed_out, spawn_failed,
  is_quarantined-quarantine, succeeded, hardware_quarantined_code, video_toolbox, cpu,
}
use ovayra.Media.Preview.Reads.{IsBoundedPipe, IsWhole, read_frame-IsWhole}
use ovayra.Media.Preview.{Pipe, ReadOutcome, got, read_frame, Frame, empty_slot}
use ovayra.Media.Preview.Slot.{Use, publishing, taking, use_all, IsCounted, use_all-IsCounted}
use ovayra.Media.Bounded.{cut_text}
use ovayra.Media.Bounded.Boundary.{IsLongest, cut_text-IsLongest}
use ovayra.Media.Policy.{ExecutionPolicy, new, observe}
use ovayra.Media.Policy.Quarantine.{failed_backend_quarantined}
use ovayra.Media.Policy.Attempts.{
  IsSound, observe_all, new-IsSound, observe-IsSound, observe_all_ends,
}

-- whole numbers for the floating-point ones, and no repair of invalid text
abbrev whole_numbers : Std
whole_numbers = record {
  F64 = ℕ;
  parse_f64 = parse_u64;
  is_finite = λ _. true;
  is_sign_negative = λ _. false;
  from_utf8_lossy = λ t. t;
}

abbrev first_chunk : Text
first_chunk = bytes "frame=12\nspeed=2x\npro"

abbrev later_chunks : List Text
later_chunks = bytes "gress=continue\nfra" ∷ bytes "me=13\nprogress=end\n" ∷ []

push-flatten_example :
    push_chunks whole_numbers (push whole_numbers fresh first_chunk) later_chunks
    ≡ push whole_numbers fresh (first_chunk ++ flatten later_chunks)
push-flatten_example = push-flatten whole_numbers fresh first_chunk later_chunks

push-IsBounded_example : IsBounded (push whole_numbers fresh first_chunk).1
push-IsBounded_example =
    push-IsBounded whole_numbers fresh first_chunk (fresh-IsBounded whole_numbers)

is_quarantined-quarantine_example :
    ((is_quarantined (quarantine 1 vaapi) nvenc_nvdec ≡ true)
      ↔ ((is_quarantined 1 nvenc_nvdec ≡ true) ⊎ ((vaapi ≡ nvenc_nvdec) × (nvenc_nvdec ≢ cpu))))
    × (is_quarantined 1 cpu ≡ false)
    × (quarantine 1 vaapi < 16)
is_quarantined-quarantine_example = is_quarantined-quarantine 1 vaapi nvenc_nvdec (omega arith)

-- two characters of two bytes each
abbrev accents : Text
accents = 195 ∷ 169 ∷ 195 ∷ 169 ∷ []

cut_text-IsLongest_example : IsLongest 3 accents (cut_text 3 accents)
unfolding is_utf8
cut_text-IsLongest_example = cut_text-IsLongest 3 accents refl

abbrev vaapi_policy : ExecutionPolicy
vaapi_policy = record {
  requested_backend = vaapi;
  scheduled_backend = some vaapi;
  actual_backend = none;
  downgrade_code = none;
  downgrade_reason = none;
  attempts_started = 1;
  hardware_quarantined = false;
  process_wide_quarantine = true;
}

vaapi_policy_made : new 0 vaapi true ≡ some vaapi_policy
unfolding new is_quarantined is_cpu
vaapi_policy_made = refl

vaapi_policy-IsSound : IsSound vaapi_policy
vaapi_policy-IsSound = new-IsSound 0 vaapi true vaapi_policy vaapi_policy_made

observe-IsSound_example : IsSound (observe vaapi_policy 0 timed_out).1
observe-IsSound_example = observe-IsSound vaapi_policy 0 timed_out vaapi_policy-IsSound

observe_all_ends_example :
    ((observe_all vaapi_policy 0 (timed_out ∷ spawn_failed ∷ [])).0.scheduled_backend ≡ none)
    × ((observe_all vaapi_policy 0 (timed_out ∷ spawn_failed ∷ [])).0.attempts_started ≤ 2)
observe_all_ends_example =
    observe_all_ends vaapi_policy 0 (timed_out ∷ spawn_failed ∷ []) vaapi_policy-IsSound
      (omega arith)

abbrev pixel : ℕ → Frame
pixel n = record {
  width = 1;
  height = 1;
  content = n ∷ n ∷ n ∷ n ∷ [];
  sequence = n;
  enqueued_at = n;
}

abbrev uses : List Use
uses = publishing (pixel 1) ∷ publishing (pixel 2) ∷ taking ∷ taking ∷ publishing (pixel 3) ∷ []

use_all-IsCounted_example : IsCounted none 0 uses (use_all empty_slot uses)
use_all-IsCounted_example = use_all-IsCounted empty_slot uses (omega arith)

abbrev three_bytes : Text
three_bytes = 1 ∷ 2 ∷ 3 ∷ []

-- a pipe of at most two bytes at a time
abbrev slow_pipe : Pipe Text
slow_pipe = record { read = λ s room. (got (take (min 2 room) s), drop (min 2 room) s) }

slow_pipe_fits :
    (s s' : Text) (room : ℕ) (chunk : Text)
    → ◌≡◌ {A = ReadOutcome × Text} (got (take (min 2 room) s), drop (min 2 room) s) (got chunk, s')
    → length chunk ≤ room
slow_pipe_fits s s' room chunk e =
    let same : take (min 2 room) s ≡ chunk = cc in
    subst (λ t. length t ≤ room) same (omega (arith, length-take {0} (min 2 room) s))

slow_pipe-IsBoundedPipe : IsBoundedPipe slow_pipe
slow_pipe-IsBoundedPipe = record { fits = slow_pipe_fits }

read_frame-IsWhole_example :
    IsWhole slow_pipe slow_pipe-IsBoundedPipe 3 (read_frame slow_pipe 4 3 (bytes "rgbargba"))
read_frame-IsWhole_example =
    read_frame-IsWhole slow_pipe slow_pipe-IsBoundedPipe 4 3 (bytes "rgbargba") (omega arith)

not_succeeded : timed_out ≢ succeeded
not_succeeded e = cc

apart : vaapi ≢ video_toolbox
apart e = cc

failed_backend_quarantined_example :
    ((q : ExecutionPolicy) × (new (observe vaapi_policy 0 timed_out).2 vaapi true ≡ some q)
      × (q.scheduled_backend ≡ some cpu)
      × (q.downgrade_code ≡ some hardware_quarantined_code))
    × (is_quarantined (observe vaapi_policy 0 timed_out).2 video_toolbox
        ≡ is_quarantined 0 video_toolbox)
unfolding is_cpu
failed_backend_quarantined_example =
    failed_backend_quarantined vaapi_policy 0 vaapi video_toolbox timed_out (omega arith) refl refl
      refl not_succeeded apart

abbrev listings : List InventoryOutput
listings =
    success version_command (bytes "8.1.2")
    ∷ success buildconf_command (bytes "--enable-libvpx")
    ∷ success hwaccels_command (bytes "vaapi cuda")
    ∷ success decoders_command (bytes "V h264")
    ∷ success encoders_command (bytes "V h264_vaapi V libvpx")
    ∷ success filters_command (bytes "scale scale_vaapi")
    ∷ []

from_command_outputs_iff_example :
    ((i : Inventory) × (from_command_outputs listings ≡ ok i)) ↔ IsComplete listings
from_command_outputs_iff_example = from_command_outputs_iff listings

abbrev inventory : Inventory
inventory = record {
  version = bytes "8.1.2";
  buildconf = bytes "--enable-libvpx";
  hwaccels = bytes "vaapi cuda";
  decoders = bytes "V h264";
  encoders = bytes "V h264_vaapi V libvpx";
  filters = bytes "scale scale_vaapi";
}

listings_collected : from_command_outputs listings ≡ ok inventory
unfolding from_command_outputs success cut_text bytes same_command
listings_collected = refl

abbrev vaapi_plan : HardwarePlan
vaapi_plan = record { backend = vaapi; args = [] }

vaapi_available : is_available vaapi_plan inventory true 240 ≡ true
unfolding is_available has split_whitespace text_eq bytes is_cpu required_components space_width
vaapi_available = refl

is_available-IsListed_example :
    (is_cpu vaapi ≡ false)
    × (true ≡ true)
    × (0 < 240)
    × All (IsListed listings) (required_components vaapi)
is_available-IsListed_example =
    is_available-IsListed listings inventory vaapi_plan true 240 listings_collected vaapi_available
