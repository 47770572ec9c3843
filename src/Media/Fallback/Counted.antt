-- ===== src/Media/Fallback/Counted.antt =====
-- What a summary counts of the events that it has recorded.
use ovayra.Prelude.{
  ℕ, ◌+◌, ◌-◌, ◌^◌, min, ◌≡◌, refl, sym, ap, ◌∙◌, Bool, ◌||◌, Option, none, some, List, [], ◌∷◌,
  ◌++◌, arith, length, any, length-append,
}
use ovayra.Media.Progress.{Std, ProgressEvent, saturating_add}
use ovayra.Media.Fallback.{
  Speeds, ProgressSummary, add_speed, record_event, record_events, speeds_of, sum_from,
}

module _ (std : Std) (speeds : Speeds std.F64) where
  finished_or :
      (o : Option std.F64) (s : ProgressSummary std.F64) (finished later : Bool)
      → (((add_speed std speeds o s).saw_finished || finished) || later)
        ≡ (s.saw_finished || (finished || later))
  unfolding add_speed
  finished_or none s finished later = ground arith
  finished_or (some v) s finished later = ground arith

  -- whether one of some events is the last
  abbrev pub has_finished : List (ProgressEvent std.F64) → Bool
  has_finished events = any (λ (e : ProgressEvent std.F64). e.finished) events

  pub finished-record_events :
      (s : ProgressSummary std.F64) (events : List (ProgressEvent std.F64))
      → (record_events std speeds s events).saw_finished ≡ (s.saw_finished || has_finished events)
  unfolding record_events record_event
  finished-record_events s [] = ground arith
  finished-record_events s (e ∷ events) =
      finished-record_events (record_event std speeds s e) events
      ∙ finished_or e.speed s e.finished (has_finished events)

  -- the speed of one event, where there is one
  abbrev told : Option std.F64 → List std.F64
  told none = []
  told (some v) = v ∷ []

  speeds_of-cons :
      (o : Option std.F64) (rest : List std.F64)
      → (elim o [ none ↦ rest | some v ↦ v ∷ rest ]) ≡ told o ++ rest
  speeds_of-cons none rest = refl
  speeds_of-cons (some v) rest = refl

  sum_from-append :
      (total : std.F64) (xs ys : List std.F64)
      → sum_from std speeds total (xs ++ ys) ≡ sum_from std speeds (sum_from std speeds total xs) ys
  unfolding sum_from
  sum_from-append total [] ys = refl
  sum_from-append total (x ∷ xs) ys = sum_from-append (speeds.plus total x) xs ys

  -- The count is that of the speeds, within 64 bits, and the sum is theirs.
  abbrev pub IsCounted : ProgressSummary std.F64 → ℕ → std.F64 → Type 0
  IsCounted s k total = (s.speed_count ≡ min k (2 ^ 64 - 1)) × (s.speed_sum ≡ total)

  add_speed-IsCounted :
      (o : Option std.F64) (s : ProgressSummary std.F64) (k : ℕ) (total : std.F64)
      → IsCounted s k total
      → IsCounted
          (add_speed std speeds o s)
          (k + length (told o))
          (sum_from std speeds total (told o))
  unfolding add_speed saturating_add sum_from
  add_speed-IsCounted none s k total (h, same) = (omega (arith, h), same)
  add_speed-IsCounted (some v) s k total (h, same) =
      (omega (arith, h), ap (λ x. speeds.plus x v) same)

  pub record_events-IsCounted :
      (s : ProgressSummary std.F64) (k : ℕ) (total : std.F64)
      (events : List (ProgressEvent std.F64))
      → IsCounted s k total
      → IsCounted
          (record_events std speeds s events)
          (k + length (speeds_of std speeds events))
          (sum_from std speeds total (speeds_of std speeds events))
  unfolding record_events record_event speeds_of sum_from
  record_events-IsCounted s k total [] (h, same) = (omega (arith, h), same)
  record_events-IsCounted s k total (e ∷ events) counted =
      let (count, sum) =
        record_events-IsCounted (record_event std speeds s e) (k + length (told e.speed))
          (sum_from std speeds total (told e.speed)) events
          (add_speed-IsCounted e.speed s k total counted) in
      let rest = speeds_of std speeds events in
      rw (speeds_of-cons e.speed rest) (
        omega (arith, count, length-append {0} (told e.speed) rest),
        sum ∙ sym (sum_from-append total (told e.speed) rest),
      )
