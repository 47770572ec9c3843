-- ===== src/Media/Progress/Limits.antt =====
-- The progress parser keeps what it retains within its limits.
use ovayra.Prelude.{
  ℕ, ◌+◌, ◌≤◌, ◌<◌, ◌≡◌, refl, ap, inl, inr, Bool, true, false, not, ◌||◌, Option, none, some, List,
  [], ◌∷◌, ◌++◌, arith, ltb, ◌==◌, if◌then◌else◌, Bool-cases, Result, ok, err, ◌>>=◌, length,
  length-append, is_utf8, Text, bytes, text_eq,
}
use ovayra.Media.Progress.{
  Std, ProgressEvent, ProgressError, invalid_number, is_known_number, ProgressParser, fresh,
  max_pending_bytes, parse_number, parse_speed, saturating_add, split_key, Step, Pushed, emit_event,
  emit, consume_pair, consume_line, finish_line, keep_tail, scan, push, strip_return,
}

-- The bytes of the keys and values that a block has stored so far.
abbrev pub values_size : List (Text × Text) → ℕ
values_size [] = 0
values_size ((key, value) ∷ rest) = length key + length value + values_size rest

-- The unfinished line and the count of the block's bytes are within the limit, and the lines that
-- the block's values came from are counted.
pub record IsBounded (p : ProgressParser) : Type 0 where
  pub pending_fits : length p.pending ≤ max_pending_bytes
  pub block_fits : p.current_bytes ≤ max_pending_bytes
  pub values_counted : values_size p.current ≤ p.current_bytes

split_key-size :
    (line key value : Text)
    → split_key line ≡ some (key, value)
    → length key + length value < length line
unfolding split_key
split_key-size [] key value h = cc
split_key-size (c ∷ s) key value h = elim (Bool-cases (c == 61)) [
  | inl here ↦
      let e : ◌≡◌ {A = Option (Text × Text)} (some ([], s)) (some (key, value)) = rw here at h in
      let no_key : ◌≡◌ {A = Text} [] key = cc e in
      let all_value : s ≡ value = cc e in
      omega (arith, ap (length {0}) no_key, ap (length {0}) all_value)
  | inr later ↦ go (split_key s) refl (rw later at h) (split_key-size s)
]
  where
    go :
        (o : Option (Text × Text))
        → split_key s ≡ o
        → ◌≡◌ {A = Option (Text × Text)}
            (elim o [ none ↦ none | some (k, v) ↦ some (c ∷ k, v) ])
            (some (key, value))
        → ((k v : Text) → split_key s ≡ some (k, v) → length k + length v < length s)
        → length key + length value < length (c ∷ s)
    go none q e ih = cc e
    go (some (k, v)) q e ih =
        let longer : c ∷ k ≡ key = cc e in
        let same : v ≡ value = cc e in
        omega (arith, ap (length {0}) longer, ap (length {0}) same, ih k v q)

strip_return-le : (s : Text) → length (strip_return s) ≤ length s
unfolding strip_return
strip_return-le [] = omega arith
strip_return-le (c ∷ []) = ground arith
strip_return-le (c ∷ d ∷ s) = omega (arith, strip_return-le (d ∷ s))

counted :
    (a b : ℕ)
    → ltb max_pending_bytes (saturating_add a b) ≡ false
    → (saturating_add a b ≡ a + b) × (saturating_add a b ≤ max_pending_bytes)
unfolding saturating_add
counted a b h = (ground arith, ground arith)

module _ (std : Std) where
  abbrev Keeps : Step std → Type 0
  Keeps (ok (p, events)) = IsBounded p × (p.pending ≡ [])
  Keeps (err e) = Unit

  -- after `consume_line` nothing is pending, so the bound on the block is all there is to keep
  Keeps-if : (b : Bool) (m n : Step std) → Keeps m → Keeps n → Keeps (if b then m else n)
  Keeps-if true m n hm hn = hm
  Keeps-if false m n hm hn = hn

  -- `emit_event`, by the results of its three parsers
  Keeps-event :
      (p : ProgressParser) (done : Bool)
      → p.pending ≡ []
      → (a b : Result ProgressError (Option ℕ)) (c : Result ProgressError (Option std.F64))
      → Keeps (do
        frame ← a
        out_time_us ← b
        speed ← c
        ok (
          record p { current = []; current_bytes = 0 },
          record { frame = frame; out_time_us = out_time_us; speed = speed; finished = done } ∷ [],
        ))
  Keeps-event p done e (err x) b c = tt
  Keeps-event p done e (ok x) (err y) c = tt
  Keeps-event p done e (ok x) (ok y) (err z) = tt
  Keeps-event p done e (ok x) (ok y) (ok z) = (
    record {
      pending_fits = omega (arith, ap (length {0}) e);
      block_fits = omega arith;
      values_counted = omega arith;
    },
    e,
  )

  emit_event-bounded :
      (p : ProgressParser) (done : Bool) → p.pending ≡ [] → Keeps (emit_event std p done)
  unfolding emit_event
  emit_event-bounded p done e =
      Keeps-event p done e (parse_number std p (bytes "frame"))
        (parse_number std p (bytes "out_time_us")) (parse_speed std p)

  emit-bounded : (p : ProgressParser) (marker : Text) → p.pending ≡ [] → Keeps (emit std p marker)
  unfolding emit
  emit-bounded p marker e =
      Keeps-if (text_eq marker (bytes "continue")) _ _ (emit_event-bounded p false e)
        (Keeps-if (text_eq marker (bytes "end")) _ _ (emit_event-bounded p true e) tt)

  consume_pair-bounded :
      (p : ProgressParser) (key value : Text)
      → p.pending ≡ []
      → p.current_bytes ≤ max_pending_bytes
      → length key + length value + values_size p.current ≤ p.current_bytes
      → Keeps (consume_pair std p key value)
  unfolding consume_pair
  consume_pair-bounded p key value e small room =
      let nothing = ap (length {0}) e in
      let kept : Keeps (ok (p, [])) = (
        record { pending_fits = omega arith; block_fits = small; values_counted = omega arith },
        e,
      ) in
      let stored : Keeps (ok (record p { current = (key, value) ∷ p.current }, [])) =
        (record { pending_fits = omega arith; block_fits = small; values_counted = room }, e) in
      Keeps-if (is_known_number key || text_eq key (bytes "progress")) _ _
        (Keeps-if (not (is_utf8 value)) (err (invalid_number key (std.from_utf8_lossy value))) _ tt
          (Keeps-if (text_eq key (bytes "progress")) _ _ (emit-bounded p value e) stored))
        kept

  consume_line-bounded :
      (p : ProgressParser) (line : Text)
      → p.pending ≡ []
      → IsBounded p
      → Keeps (consume_line std p line)
  unfolding consume_line
  consume_line-bounded p line e inv =
      elim (Bool-cases (ltb max_pending_bytes (saturating_add p.current_bytes (length line + 1)))) [
        | inl over ↦ rw over tt
        | inr fits ↦
            rw fits (go (split_key line) refl (counted p.current_bytes (length line + 1) fits))
      ]
    where
      p' : ProgressParser
      p' = record p { current_bytes = saturating_add p.current_bytes (length line + 1) }

      go :
          (o : Option (Text × Text))
          → split_key line ≡ o
          → (p'.current_bytes ≡ p.current_bytes + (length line + 1))
            × (p'.current_bytes ≤ max_pending_bytes)
          → Keeps
              (elim o [ none ↦ ok (p', []) | some (key, value) ↦ consume_pair std p' key value ])
      go none q c = (
        record {
          pending_fits = inv.pending_fits;
          block_fits = c.1;
          values_counted = omega (arith, inv.values_counted, c.0);
        },
        e,
      )
      go (some (key, value)) q c =
          consume_pair-bounded p' key value e c.1
            (omega (arith, inv.values_counted, c.0, split_key-size line key value q))

  finish_line-bounded :
      (p : ProgressParser) (suffix : Text) → IsBounded p → Keeps (finish_line std p suffix)
  unfolding finish_line
  finish_line-bounded p suffix inv =
      Keeps-if (ltb max_pending_bytes (saturating_add (length p.pending) (length suffix))) _ _ tt (
        consume_line-bounded (record p { pending = [] }) (strip_return (p.pending ++ suffix)) refl
          (record {
            pending_fits = omega arith;
            block_fits = inv.block_fits;
            values_counted = inv.values_counted;
          }))

  pub fresh-IsBounded : IsBounded fresh
  fresh-IsBounded = omega arith

  keep_tail-IsBounded :
      (p : ProgressParser) (segment : Text) (events : List (ProgressEvent std.F64))
      → IsBounded p
      → IsBounded (keep_tail std p segment events).1
  unfolding keep_tail
  keep_tail-IsBounded p [] events inv = inv
  keep_tail-IsBounded p (c ∷ s) events inv =
      elim (Bool-cases
        (ltb max_pending_bytes (saturating_add (length p.pending) (length (c ∷ s))))) [
          | inl over ↦ rw over fresh-IsBounded
          | inr fits ↦ rw fits (record {
            pending_fits = omega (
              arith,
              length-append {0} p.pending (c ∷ s),
              counted (length p.pending) (length (c ∷ s)) fits,
            );
            block_fits = inv.block_fits;
            values_counted = inv.values_counted;
          })
        ]

  scan-IsBounded :
      (p : ProgressParser) (segment : Text) (events : List (ProgressEvent std.F64)) (input : Text)
      → IsBounded p
      → IsBounded (scan std p segment events input).1
  unfolding scan
  scan-IsBounded p segment events [] inv = keep_tail-IsBounded p segment events inv
  scan-IsBounded p segment events (byte ∷ rest) inv = elim (Bool-cases (byte == 10)) [
    | inl feed ↦ rw feed (
        go (finish_line std p segment) (finish_line-bounded p segment inv)
          (λ q es. scan-IsBounded q [] es rest))
    | inr other ↦ rw other (scan-IsBounded p (segment ++ (byte ∷ [])) events rest inv)
  ]
    where
      go :
          (x : Step std)
          → Keeps x
          → ((q : ProgressParser) (es : List (ProgressEvent std.F64))
              → IsBounded q
              → IsBounded (scan std q [] es rest).1)
          → IsBounded (
              let y : Pushed std = elim x [
                | err e ↦ (err e, fresh)
                | ok (p', new) ↦ scan std p' [] (events ++ new) rest
              ] in
              y.1)
      go (err e) k ih = fresh-IsBounded
      go (ok (p', new)) k ih = ih p' (events ++ new) k.0

  -- When a parser is within its limits, so is the one that is left, whatever is pushed, valid or not:
  -- it holds at most 64 KiB of an unfinished line and of a block, and the keys and values that it has stored are no longer than the block.
  pub push-IsBounded :
      (p : ProgressParser) (input : Text) → IsBounded p → IsBounded (push std p input).1
  unfolding push
  push-IsBounded p input inv = scan-IsBounded p [] [] input inv
