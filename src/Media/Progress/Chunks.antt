-- ===== src/Media/Progress/Chunks.antt =====
-- How the input is cut into chunks makes no difference to the progress parser.
use ovayra.Prelude.{
  ℕ, ◌+◌, ◌-◌, ◌^◌, ◌≤◌, ◌<◌, min, ◌≡◌, refl, sym, ap, ◌∙◌, inl, inr, true, false, List, [], ◌∷◌,
  ◌++◌, arith, ltb, ◌==◌, if◌then◌else◌, Bool-cases, ok, err, length, length-append, Text,
}
use mathlib.Core.List.{flatten, append-nil, append_assoc}
use ovayra.Media.Progress.{
  Std, ProgressEvent, pending_input_too_large, ProgressParser, fresh, max_pending_bytes,
  saturating_add, Step, Pushed, consume_line, finish_line, keep_tail, scan, push, strip_return,
}

-- The parser with more bytes of an unfinished line.
abbrev pub extend : ProgressParser → Text → ProgressParser
extend p s = record p { pending = p.pending ++ s }

saturating_small :
    (a b : ℕ) → ltb max_pending_bytes (saturating_add a b) ≡ ltb max_pending_bytes (a + b)
unfolding saturating_add
saturating_small a b = ground arith

fits_test :
    (a b : ℕ) → a + b ≤ max_pending_bytes → ltb max_pending_bytes (saturating_add a b) ≡ false
unfolding saturating_add
fits_test a b h = ground arith

test_fits :
    (a b : ℕ) → ltb max_pending_bytes (saturating_add a b) ≡ false → a + b ≤ max_pending_bytes
unfolding saturating_add
test_fits a b h = ground arith

test_over :
    (a b : ℕ) → ltb max_pending_bytes (saturating_add a b) ≡ true → max_pending_bytes < a + b
unfolding saturating_add
test_over a b h = ground arith

over_test :
    (a b : ℕ) → max_pending_bytes < a + b → ltb max_pending_bytes (saturating_add a b) ≡ true
unfolding saturating_add
over_test a b h = ground arith

module _ (std : Std) where
  -- Events found earlier come first; an error drops them.
  abbrev pub after : List (ProgressEvent std.F64) → Pushed std → Pushed std
  after events (ok more, p) = (ok (events ++ more), p)
  after events (err e, p) = (err e, p)

  after-append :
      (xs ys : List (ProgressEvent std.F64)) (x : Pushed std)
      → after (xs ++ ys) x ≡ after xs (after ys x)
  after-append xs ys (ok more, p) =
      ap (λ (l : List (ProgressEvent std.F64)). (ok l, p)) (append_assoc xs ys more)
  after-append xs ys (err e, p) = refl

  keep_tail-after :
      (p : ProgressParser) (s : Text) (events : List (ProgressEvent std.F64))
      → keep_tail std p s events ≡ after events (keep_tail std p s [])
  unfolding keep_tail
  keep_tail-after p [] events =
      ap (λ (l : List (ProgressEvent std.F64)). (ok l, p)) (sym (append-nil events))
  keep_tail-after p (c ∷ s) events =
      elim (Bool-cases
        (ltb max_pending_bytes (saturating_add (length p.pending) (length (c ∷ s))))) [
          | inl over ↦ rw over
          | inr fits ↦ rw fits (
              ap (λ (l : List (ProgressEvent std.F64)). (ok l, extend p (c ∷ s)))
                (sym (append-nil events)))
        ]

  scan-after :
      (p : ProgressParser) (segment : Text) (events : List (ProgressEvent std.F64)) (input : Text)
      → scan std p segment events input ≡ after events (scan std p segment [] input)
  unfolding scan
  scan-after p segment events [] = keep_tail-after p segment events
  scan-after p segment events (byte ∷ rest) = elim (Bool-cases (byte == 10)) [
    | inl feed ↦ rw feed (go (finish_line std p segment) (λ q es. scan-after q [] es rest))
    | inr other ↦ rw other (scan-after p (segment ++ (byte ∷ [])) events rest)
  ]
    where
      go :
          (x : Step std)
          → ((q : ProgressParser) (es : List (ProgressEvent std.F64))
              → scan std q [] es rest ≡ after es (scan std q [] [] rest))
          → ◌≡◌ {A = Pushed std}
              (elim x [
                | err e ↦ (err e, fresh)
                | ok (p', new) ↦ scan std p' [] (events ++ new) rest
              ])
              (after events (elim x [
                | err e ↦ (err e, fresh)
                | ok (p', new) ↦ scan std p' [] ([] ++ new) rest
              ]))
      go (err e) ih = refl
      go (ok (p', new)) ih =
          ih p' (events ++ new)
          ∙ after-append events new (scan std p' [] [] rest)
          ∙ ap (after events) (sym (ih p' new))

  saturating_sum : (a b c d : ℕ) → a + b ≡ c + d → saturating_add a b ≡ saturating_add c d
  unfolding saturating_add
  saturating_sum a b c d e = ap (λ (n : ℕ). min n (2 ^ 64 - 1)) e

  -- `finish_line` by what it reads of the parser and the line
  finished : ProgressParser → ℕ → Text → Step std
  unfolding finish_line
  finished p bytes_ line =
      if ltb max_pending_bytes bytes_
      then err pending_input_too_large
      else consume_line std (record p { pending = [] }) (strip_return line)

  finish_line-extend :
      (p : ProgressParser) (s t : Text)
      → finish_line std p (s ++ t) ≡ finish_line std (extend p s) t
  unfolding finish_line finished
  finish_line-extend p s t =
      let total =
        saturating_sum (length p.pending) (length (s ++ t)) (length (p.pending ++ s)) (length t)
          (omega (arith, length-append {0} p.pending s, length-append {0} s t)) in
      λ i. finished p (total i) (sym (append_assoc p.pending s t) i)

  -- `keep_tail` likewise
  abbrev tailed : ProgressParser → ℕ → Text → Pushed std
  tailed p bytes_ line =
      if ltb max_pending_bytes bytes_
      then (err pending_input_too_large, fresh)
      else (ok [], record p { pending = line })

  glue :
      (p : ProgressParser) (s : Text) (d : ℕ) (t : Text)
      → tailed p
          (saturating_add (length p.pending) (length (s ++ (d ∷ t))))
          (p.pending ++ (s ++ (d ∷ t)))
        ≡ tailed p
            (saturating_add (length (p.pending ++ s)) (length (d ∷ t)))
            ((p.pending ++ s) ++ (d ∷ t))
  glue p s d t =
      let total =
        saturating_sum (length p.pending) (length (s ++ (d ∷ t))) (length (p.pending ++ s))
          (length (d ∷ t))
          (omega (arith, length-append {0} p.pending s, length-append {0} s (d ∷ t))) in
      λ i. tailed p (total i) (sym (append_assoc p.pending s (d ∷ t)) i)

  keep_tail-extend :
      (p : ProgressParser) (s t : Text)
      → length p.pending + length s ≤ max_pending_bytes
      → keep_tail std p (s ++ t) [] ≡ keep_tail std (extend p s) t []
  unfolding keep_tail
  keep_tail-extend p [] [] fits = λ i. (ok [], record p { pending = sym (append-nil p.pending) i })
  keep_tail-extend p [] (d ∷ t) fits = glue p [] d t
  keep_tail-extend p (c ∷ s) [] fits =
      ap (λ (x : Text). keep_tail std p x []) (append-nil (c ∷ s))
      ∙ rw (fits_test (length p.pending) (length (c ∷ s)) fits)
  keep_tail-extend p (c ∷ s) (d ∷ t) fits = glue p (c ∷ s) d t

  scan-extend :
      (p : ProgressParser) (s t input : Text)
      → length p.pending + length s ≤ max_pending_bytes
      → scan std p (s ++ t) [] input ≡ scan std (extend p s) t [] input
  unfolding scan
  scan-extend p s t [] fits = keep_tail-extend p s t fits
  scan-extend p s t (byte ∷ rest) fits = elim (Bool-cases (byte == 10)) [
    | inl feed ↦ rw (feed, finish_line-extend p s t)
    | inr other ↦ rw other (
        ap (λ (x : Text). scan std p x [] rest) (append_assoc s t (byte ∷ []))
        ∙ scan-extend p s (t ++ (byte ∷ [])) rest fits)
  ]

  finish_line_over :
      (p : ProgressParser) (s : Text)
      → max_pending_bytes < length p.pending + length s
      → finish_line std p s ≡ err pending_input_too_large
  unfolding finish_line
  finish_line_over p s over = rw (over_test (length p.pending) (length s) over)

  scan_over :
      (p : ProgressParser) (c : ℕ) (s input : Text)
      → max_pending_bytes < length p.pending + length (c ∷ s)
      → scan std p (c ∷ s) [] input ≡ (err pending_input_too_large, fresh)
  unfolding scan
  scan_over p c s [] over = rw (over_test (length p.pending) (length (c ∷ s)) over)
  scan_over p c s (byte ∷ rest) over = elim (Bool-cases (byte == 10)) [
    | inl feed ↦ rw (feed, finish_line_over p (c ∷ s) over)
    | inr other ↦
        rw other
          (scan_over p c (s ++ (byte ∷ [])) rest (omega (arith, length-append {0} s (byte ∷ []))))
  ]

  -- What a second `push` makes of the first one's result: an error ends the input.
  abbrev pub then_push : Pushed std → Text → Pushed std
  then_push (ok events, p) input = after events (push std p input)
  then_push (err e, p) input = (err e, p)

  then_push-after :
      (events : List (ProgressEvent std.F64)) (x : Pushed std) (input : Text)
      → then_push (after events x) input ≡ after events (then_push x input)
  then_push-after events (ok more, p) input = after-append events more (push std p input)
  then_push-after events (err e, p) input = refl

  after-nil : (x : Pushed std) → after [] x ≡ x
  after-nil (ok events, p) = refl
  after-nil (err e, p) = refl

  keep_tail_push :
      (p : ProgressParser) (segment b : Text)
      → scan std p segment [] b ≡ then_push (keep_tail std p segment []) b
  unfolding push keep_tail
  keep_tail_push p [] b = sym (after-nil (scan std p [] [] b))
  keep_tail_push p (c ∷ s) b =
      elim (Bool-cases
        (ltb max_pending_bytes (saturating_add (length p.pending) (length (c ∷ s))))) [
          | inl over ↦
              rw over (scan_over p c s b (test_over (length p.pending) (length (c ∷ s)) over))
          | inr fits ↦ rw fits (
              ap (λ (x : Text). scan std p x [] b) (sym (append-nil (c ∷ s)))
              ∙ scan-extend p (c ∷ s) [] b (test_fits (length p.pending) (length (c ∷ s)) fits)
              ∙ sym (after-nil (scan std (extend p (c ∷ s)) [] [] b)))
        ]

  scan-append :
      (p : ProgressParser) (segment a b : Text)
      → scan std p segment [] (a ++ b) ≡ then_push (scan std p segment [] a) b
  unfolding scan
  scan-append p segment [] b = keep_tail_push p segment b
  scan-append p segment (byte ∷ rest) b = elim (Bool-cases (byte == 10)) [
    | inl feed ↦ rw feed (go (finish_line std p segment) (λ q. scan-append q [] rest b))
    | inr other ↦ rw other (scan-append p (segment ++ (byte ∷ [])) rest b)
  ]
    where
      go :
          (x : Step std)
          → ((q : ProgressParser)
              → scan std q [] [] (rest ++ b) ≡ then_push (scan std q [] [] rest) b)
          → ◌≡◌ {A = Pushed std}
              (elim x [
                | err e ↦ (err e, fresh)
                | ok (p', new) ↦ scan std p' [] ([] ++ new) (rest ++ b)
              ])
              (then_push
                (elim x [ err e ↦ (err e, fresh) | ok (p', new) ↦ scan std p' [] ([] ++ new) rest ])
                b)
      go (err e) ih = refl
      go (ok (p', new)) ih =
          scan-after p' [] new (rest ++ b)
          ∙ ap (after new) (ih p')
          ∙ sym (then_push-after new (scan std p' [] [] rest) b)
          ∙ ap (λ (x : Pushed std). then_push x b) (sym (scan-after p' [] new rest))

  -- Pushing an input in two chunks gives the events, the error and the state of pushing it at once.
  pub push-append :
      (p : ProgressParser) (a b : Text) → push std p (a ++ b) ≡ then_push (push std p a) b
  unfolding push
  push-append p a b = scan-append p [] a b

  pub push_chunks : Pushed std → List Text → Pushed std
  push_chunks x [] = x
  push_chunks x (chunk ∷ chunks) = push_chunks (then_push x chunk) chunks

  -- Pushing an input chunk by chunk, up to the first error, gives the events, the error and the final
  -- state that pushing the whole input at once gives, however the input is cut.
  pub push-flatten :
      (p : ProgressParser) (first : Text) (chunks : List Text)
      → push_chunks (push std p first) chunks ≡ push std p (first ++ flatten chunks)
  unfolding push_chunks flatten
  push-flatten p first [] = ap (push std p) (sym (append-nil first))
  push-flatten p first (chunk ∷ chunks) =
      ap (λ (x : Pushed std). push_chunks x chunks) (sym (push-append p first chunk))
      ∙ push-flatten p (first ++ chunk) chunks
      ∙ ap (push std p) (append_assoc first chunk (flatten chunks))
