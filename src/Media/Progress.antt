-- ===== src/Media/Progress.antt =====
-- crates/spike-media/src/progress.rs: the incremental parser of FFmpeg's `-progress pipe:1`.
--
-- Floating-point numbers and the lossy decoding of invalid UTF-8 are the parameter `Std`.
-- `current` keeps the three keys that the parser stores, the latest value first.
pub mod Chunks
pub mod Limits
use ovayra.Prelude.{
  ℕ, ◌+◌, ◌-◌, ◌*◌, ◌^◌, min, Bool, true, false, not, ◌||◌, Option, none, some, List, [], ◌∷◌, ◌++◌,
  ltb, ◌==◌, if◌then◌else◌, Result, ok, err, ◌>>=◌, length, parse_u64, is_utf8, trim, Text, bytes,
  text_eq,
}

pub record Std : Type 1 where
  pub F64 : Type 0
  pub parse_f64 : Text → Option F64
  pub is_finite : F64 → Bool
  pub is_sign_negative : F64 → Bool
  pub from_utf8_lossy : Text → Text

abbrev pub max_pending_bytes : ℕ
max_pending_bytes = 64 * 1024

pub record ProgressEvent (F : Type 0) : Type 0 where
  pub frame : Option ℕ
  pub out_time_us : Option ℕ
  pub speed : Option F
  pub finished : Bool

pub data ProgressError : Type 0 where
  pending_input_too_large block_too_large : ProgressError
  invalid_number : (key value : Text) → ProgressError
  invalid_progress_marker : Text → ProgressError

pub record ProgressParser : Type 0 where
  pub pending : Text
  pub current : List (Text × Text)
  pub current_bytes : ℕ

-- `Default`, and the state after `reset`
abbrev pub fresh : ProgressParser
fresh = record { pending = []; current = []; current_bytes = 0 }

-- `usize::saturating_add`
unfoldable pub saturating_add : ℕ → ℕ → ℕ
saturating_add a b = min (a + b) (2 ^ 64 - 1)

-- `BTreeMap::get`; `insert` puts its pair in front
get : Text → List (Text × Text) → Option Text
get key [] = none
get key ((k, v) ∷ rest) = if text_eq k key then some v else get key rest

-- `line.last() == Some(&b'\r')` and `line.pop()`
strip_return : Text → Text
strip_return [] = []
strip_return (c ∷ []) = if c == 13 then [] else c ∷ []
strip_return (c ∷ d ∷ s) = c ∷ strip_return (d ∷ s)

-- `line.iter().position(…)` and `split_at`: the key, and the value behind the `=`
split_key : Text → Option (Text × Text)
split_key [] = none
split_key (c ∷ s) =
    let rest = split_key s in
    if c == 61
    then some ([], s)
    else elim rest [ none ↦ none | some (key, value) ↦ some (c ∷ key, value) ]

is_known_number : Text → Bool
is_known_number key =
    text_eq key (bytes "frame") || text_eq key (bytes "out_time_us") || text_eq key (bytes "speed")

module _ (std : Std) where
  open std use {F64, parse_f64, is_finite, is_sign_negative, from_utf8_lossy}

  -- the closure of `parse_number`
  number_of : Text → Text → Result ProgressError (Option ℕ)
  number_of key value =
      if text_eq value (bytes "N/A")
      then ok none
      else elim (parse_u64 value) [ none ↦ err (invalid_number key value) | some n ↦ ok (some n) ]

  parse_number : ProgressParser → Text → Result ProgressError (Option ℕ)
  unfolding number_of get
  parse_number p key = elim (get key p.current) [
    | none ↦ ok none
    | some value ↦ number_of key (trim value)
  ]

  -- `value.strip_suffix('x').unwrap_or(value)`
  strip_x : Text → Text
  strip_x [] = []
  strip_x (c ∷ []) = if c == b'x' then [] else c ∷ []
  strip_x (c ∷ d ∷ s) = c ∷ strip_x (d ∷ s)

  -- the closure of `parse_speed`
  speed_of : Text → Result ProgressError (Option F64)
  unfolding strip_x
  speed_of value =
      if text_eq value (bytes "N/A") then ok none else elim (parse_f64 (trim (strip_x value))) [
        | none ↦ err (invalid_number (bytes "speed") value)
        | some parsed ↦
            if not (is_finite parsed) || is_sign_negative parsed
            then err (invalid_number (bytes "speed") value)
            else ok (some parsed)
      ]

  parse_speed : ProgressParser → Result ProgressError (Option F64)
  unfolding speed_of get
  parse_speed p = elim (get (bytes "speed") p.current) [
    | none ↦ ok none
    | some value ↦ speed_of (trim value)
  ]

  -- A step gives the new state and the events that it appends. On an error `push` resets the
  -- parser and drops the events, so an error carries neither.
  abbrev pub Step : Type 0
  Step = Result ProgressError (ProgressParser × List (ProgressEvent F64))

  emit_event : ProgressParser → Bool → Step
  unfolding parse_number parse_speed
  emit_event p finished = do
    frame ← parse_number p (bytes "frame")
    out_time_us ← parse_number p (bytes "out_time_us")
    speed ← parse_speed p
    ok (
      record p { current = []; current_bytes = 0 },
      record { frame = frame; out_time_us = out_time_us; speed = speed; finished = finished } ∷ [],
    )

  unfoldable pub emit : ProgressParser → Text → Step
  unfolding emit_event
  emit p marker =
      if text_eq marker (bytes "continue")
      then emit_event p false
      else if text_eq marker (bytes "end")
      then emit_event p true
      else err (invalid_progress_marker marker)

  consume_pair : ProgressParser → Text → Text → Step
  unfolding is_known_number
  consume_pair p key value =
      if is_known_number key || text_eq key (bytes "progress")
      then if not (is_utf8 value)
        then err (invalid_number key (from_utf8_lossy value))
        else if text_eq key (bytes "progress")
        then emit p value
        else ok (record p { current = (key, value) ∷ p.current }, [])
      else ok (p, [])

  unfoldable pub consume_line : ProgressParser → Text → Step
  unfolding split_key consume_pair saturating_add
  consume_line p line =
      let p' = record p { current_bytes = saturating_add p.current_bytes (length line + 1) } in
      if ltb max_pending_bytes p'.current_bytes
      then err block_too_large
      else elim (split_key line) [
        | none ↦ ok (p', [])
        | some (key, value) ↦ consume_pair p' key value
      ]

  unfoldable pub finish_line : ProgressParser → Text → Step
  unfolding strip_return consume_line
  finish_line p suffix =
      if ltb max_pending_bytes (saturating_add (length p.pending) (length suffix))
      then err pending_input_too_large
      else consume_line (record p { pending = [] }) (strip_return (p.pending ++ suffix))

  abbrev pub Pushed : Type 0
  Pushed = Result ProgressError (List (ProgressEvent F64)) × ProgressParser

  -- what `push` does with the bytes behind the last line feed
  keep_tail : ProgressParser → Text → List (ProgressEvent F64) → Pushed
  unfolding saturating_add
  keep_tail p [] events = (ok events, p)
  keep_tail p (c ∷ s) events =
      if ltb max_pending_bytes (saturating_add (length p.pending) (length (c ∷ s)))
      then (err pending_input_too_large, fresh)
      else (ok events, record p { pending = p.pending ++ (c ∷ s) })

  -- The loop of `push`; the second argument is `input[start..index]`.
  scan : ProgressParser → Text → List (ProgressEvent F64) → Text → Pushed
  unfolding keep_tail
  scan p segment events [] = keep_tail p segment events
  scan p segment events (byte ∷ rest) =
      let more = scan p (segment ++ (byte ∷ [])) events rest in
      let done : Pushed = elim (finish_line p segment) [
        | err e ↦ (err e, fresh)
        | ok (p', new) ↦ scan p' [] (events ++ new) rest
      ] in
      if byte == 10 then done else more

  unfoldable pub push : ProgressParser → Text → Pushed
  unfolding scan
  push p input = scan p [] [] input
