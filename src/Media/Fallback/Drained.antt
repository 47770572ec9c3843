-- ===== src/Media/Fallback/Drained.antt =====
-- The progress that is drained of a pipe is that of its whole input.
use ovayra.Prelude.{◌≡◌, refl, ap, ◌∙◌, none, some, List, [], ◌∷◌, ◌++◌, ok, err, Text}
use ovayra.Media.Progress.{Std, ProgressEvent, ProgressParser, Pushed, push}
use ovayra.Media.Progress.Chunks.{push-append, then_push, after}
use ovayra.Media.Child.{Reads}
use ovayra.Media.Child.Whole.{all_read}
use ovayra.Media.Fallback.{
  Speeds, ProgressSummary, record_event, record_events, Drained, after_push, drain_from,
}

module _ (std : Std) (speeds : Speeds std.F64) where
  record_events-append :
      (s : ProgressSummary std.F64) (xs ys : List (ProgressEvent std.F64))
      → record_events std speeds s (xs ++ ys)
        ≡ record_events std speeds (record_events std speeds s xs) ys
  unfolding record_events
  record_events-append s [] ys = refl
  record_events-append s (x ∷ xs) ys = record_events-append (record_event std speeds s x) xs ys

  -- A parser's whole input, and what was recorded of its events.
  abbrev pub IsDrained :
      ProgressParser → ProgressSummary std.F64 → Text → ProgressSummary std.F64 → Type 0
  IsDrained p s t r =
      (events : List (ProgressEvent std.F64)) × ((push std p t).0 ≡ ok events)
      × (record_events std speeds s events ≡ r)

  push_nothing : (p : ProgressParser) → (push std p []).0 ≡ ok []
  unfolding push
  push_nothing p = refl

  after_more :
      (xs ys : List (ProgressEvent std.F64)) (x : Pushed std)
      → x.0 ≡ ok ys
      → (after std xs x).0 ≡ ok (xs ++ ys)
  after_more xs ys (ok zs, q) h =
      let same : zs ≡ ys = cc h in ap (λ (l : List (ProgressEvent std.F64)). ok (xs ++ l)) same
  after_more xs ys (err e, q) h = cc h

  after_push_sound :
      (Whole : Text → Type 0) (p : ProgressParser) (s r : ProgressSummary std.F64) (chunk : Text)
      (x : Pushed std) (next : ProgressParser → ProgressSummary std.F64 → Drained std speeds)
      → push std p chunk ≡ x
      → after_push std speeds next s x ≡ ok r
      → ((q : ProgressParser) (s' : ProgressSummary std.F64)
          → next q s' ≡ ok r
          → (t : Text) × Whole t × IsDrained q s' t r)
      → (t : Text) × Whole t × IsDrained p s (chunk ++ t) r
  unfolding after_push
  after_push_sound Whole p s r chunk (err e, q) next pushed h later = cc h
  after_push_sound Whole p s r chunk (ok events, q) next pushed h later =
      let (t, whole, drained) = later q (record_events std speeds s events) h in
      let (more, rest, recorded) = drained in
      let joined : push std p (chunk ++ t) ≡ after std events (push std q t) =
        push-append std p chunk t ∙ ap (λ (x : Pushed std). then_push std x t) pushed in
      (
        t,
        whole,
        (
          events ++ more,
          ap (λ (x : Pushed std). x.0) joined ∙ after_more events more (push std q t) rest,
          record_events-append s events more ∙ recorded,
        ),
      )

  pub drain_from_sound :
      (p : ProgressParser) (s r : ProgressSummary std.F64) (reads : Reads)
      → drain_from std speeds p s reads ≡ ok r
      → (t : Text) × (all_read reads ≡ some t) × IsDrained p s t r
  unfolding drain_from all_read record_events
  drain_from_sound p s r [] h = ([], refl, ([], push_nothing p, cc h))
  drain_from_sound p s r (none ∷ reads) h = cc h
  drain_from_sound p s r (some [] ∷ reads) h = ([], refl, ([], push_nothing p, cc h))
  drain_from_sound p s r (some (c ∷ chunk) ∷ reads) h =
      let (t, whole, drained) =
        after_push_sound (λ t. all_read reads ≡ some t) p s r (c ∷ chunk) (push std p (c ∷ chunk))
          (λ q s'. drain_from std speeds q s' reads) refl h
          (λ q s' k. drain_from_sound q s' r reads k) in
      ((c ∷ chunk) ++ t, rw whole refl, drained)
