-- ===== src/Media/Child/Whole.antt =====
-- What is collected of a child is all that it wrote, or nothing.
use ovayra.Prelude.{
  ℕ, zero, suc, ◌-◌, ◌≤◌, min, ◌≡◌, refl, sym, ap, ◌∙◌, subst, ◌↔◌, true, false, not, ◌&&◌, ◌||◌,
  Option, none, some, [], ◌∷◌, ◌++◌, arith, ltb, ◌==◌, ok, ok_or, >>=-eq-ok, ok_or-eq-ok, guarded,
  length, take, length-append, length-take, Text,
}
use mathlib.Core.List.{append-nil, append_assoc}
use ovayra.Media.Child.{
  Reads, Child, ChildOutput, DrainedPipe, retained, drain_from, drain_pipe, collect_child,
}

-- All the bytes of a pipe, unless a read fails.
unfoldable pub all_read : Reads → Option Text
all_read [] = some []
all_read (none ∷ reads) = none
all_read (some [] ∷ reads) = some []
all_read (some (c ∷ s) ∷ reads) = elim (all_read reads) [
  | none ↦ none
  | some t ↦ some ((c ∷ s) ++ t)
]

take-append : (n : ℕ) (u v : Text) → take n u ++ take (n - length u) v ≡ take n (u ++ v)
take-append zero u v = let none_left : 0 - length u ≡ 0 = omega arith in rw none_left refl
take-append (suc n) [] v = let all_left : suc n - 0 ≡ suc n = omega arith in rw all_left refl
take-append (suc n) (c ∷ u) v =
    let less : suc n - suc (length u) ≡ n - length u = omega arith in
    rw less (ap (λ (t : Text). c ∷ t) (take-append n u v))

take-min : (n : ℕ) (v : Text) → take (min n (length v)) v ≡ take n v
take-min zero v = let none_left : min 0 (length v) ≡ 0 = omega arith in rw none_left refl
take-min (suc n) [] = let nothing : min (suc n) 0 ≡ 0 = omega arith in rw nothing refl
take-min (suc n) (c ∷ v) =
    let more : min (suc n) (suc (length v)) ≡ suc (min n (length v)) = omega arith in
    rw more (ap (λ (t : Text). c ∷ t) (take-min n v))

-- The part of a text that fits, and whether that is less than all of it.
abbrev cut : ℕ → Text → DrainedPipe
cut limit t = record { content = take limit t; truncated = ltb limit (length t) }

retained-cut :
    (limit : ℕ) (u chunk : Text) → retained limit (cut limit u) chunk ≡ cut limit (u ++ chunk)
unfolding retained
retained-cut limit u chunk =
    let held : length (take limit u) ≡ min limit (length u) = length-take limit u in
    let room : limit - length (take limit u) ≡ limit - length u = omega (arith, held) in
    let content : take limit u ++ take (min (limit - length (take limit u)) (length chunk)) chunk
        ≡ take limit (u ++ chunk) =
      ap (λ k. take limit u ++ take (min k (length chunk)) chunk) room
      ∙ ap (λ t. take limit u ++ t) (take-min (limit - length u) chunk)
      ∙ take-append limit u chunk in
    let more : (ltb limit (length u)
          || not (min (limit - length (take limit u)) (length chunk) == length chunk))
        ≡ ltb limit (length (u ++ chunk)) =
      ground (arith, room, length-append {0} u chunk) in
    λ i. record { content = content i; truncated = more i }

-- what is drained of a pipe with these bytes
abbrev drained : ℕ → Text → Option Text → Option DrainedPipe
drained limit u none = none
drained limit u (some t) = some (cut limit (u ++ t))

drained-chunk :
    (limit : ℕ) (u chunk : Text) (o : Option Text)
    → drained limit (u ++ chunk) o
      ≡ drained limit u (elim o [ none ↦ none | some t ↦ some (chunk ++ t) ])
drained-chunk limit u chunk none = refl
drained-chunk limit u chunk (some t) =
    ap (λ (x : Text). some (cut limit x)) (append_assoc u chunk t)

drain_from_whole :
    (limit : ℕ) (u : Text) (reads : Reads)
    → drain_from limit true (cut limit u) reads ≡ drained limit u (all_read reads)
unfolding drain_from all_read
drain_from_whole limit u [] = ap (λ (x : Text). some (cut limit x)) (sym (append-nil u))
drain_from_whole limit u (none ∷ reads) = refl
drain_from_whole limit u (some [] ∷ reads) =
    ap (λ (x : Text). some (cut limit x)) (sym (append-nil u))
drain_from_whole limit u (some (c ∷ s) ∷ reads) =
    ap (λ (p : DrainedPipe). drain_from limit true p reads) (retained-cut limit u (c ∷ s))
    ∙ drain_from_whole limit (u ++ (c ∷ s)) reads
    ∙ drained-chunk limit u (c ∷ s) (all_read reads)

cut_nothing : (limit : ℕ) → cut limit [] ≡ record { content = []; truncated = false }
cut_nothing zero = refl
cut_nothing (suc limit) =
    let fits : ltb (suc limit) 0 ≡ false = ground arith in
    λ i. record { content = []; truncated = fits i }

drain_pipe_whole :
    (limit : ℕ) (reads : Reads) → drain_pipe limit true reads ≡ drained limit [] (all_read reads)
unfolding drain_pipe
drain_pipe_whole limit reads =
    ap (λ (p : DrainedPipe). drain_from limit true p reads) (sym (cut_nothing limit))
    ∙ drain_from_whole limit [] reads

take_all : (n : ℕ) (t : Text) → ltb n (length t) ≡ false → take n t ≡ t
take_all zero [] h = refl
take_all zero (c ∷ t) h = ground arith
take_all (suc n) [] h = refl
take_all (suc n) (c ∷ t) h = ap (λ (x : Text). c ∷ x) (take_all n t (ground arith))

-- The child ran within its time to an end, and both its pipes could be read to theirs.
pub record IsCollected (child : Child) (timeout out_limit err_limit : ℕ) (o : ChildOutput)
    : Type 0 where
  pub built : child.runtime_built ≡ true
  pub started : child.spawned ≡ true
  pub pipes : (child.has_stdout && child.has_stderr) ≡ true
  pub in_time : child.exceeds timeout ≡ false
  pub status : child.waited ≡ some o.success
  pub whole : all_read child.stdout ≡ some o.stdout
  pub within : length o.stdout ≤ out_limit
  pub discarded : DrainedPipe
  pub drained_err : drain_pipe err_limit false child.stderr ≡ some discarded

-- What was drained without a loss is all of it.
whole_of :
    (limit : ℕ) (o : Option Text) (p : DrainedPipe)
    → drained limit [] o ≡ some p
    → p.truncated ≡ false
    → (o ≡ some p.content) × (length p.content ≤ limit)
whole_of limit none p h fits = cc
whole_of limit (some t) p h fits =
    let same : cut limit t ≡ p = cc h in
    let small : ltb limit (length t) ≡ false = ap (λ (x : DrainedPipe). x.truncated) same ∙ fits in
    let content : t ≡ p.content =
      sym (take_all limit t small) ∙ ap (λ (x : DrainedPipe). x.content) same in
    (ap some content, subst (λ (x : Text). length x ≤ limit) content (ground arith))

collect_child_sound :
    (child : Child) (timeout out_limit err_limit : ℕ) (o : ChildOutput)
    → collect_child child timeout out_limit err_limit ≡ ok o
    → IsCollected child timeout out_limit err_limit o
unfolding collect_child
collect_child_sound child timeout out_limit err_limit o h =
    let (built, h1) = guarded child.runtime_built _ _ h in
    let (started, h2) = guarded child.spawned _ _ h1 in
    let (pipes, h3) = guarded (child.has_stdout && child.has_stderr) _ _ h2 in
    let (in_time, h4) = guarded (not (child.exceeds timeout)) _ _ h3 in
    let (status, waited, h5) = >>=-eq-ok (ok_or _ child.waited) _ h4 in
    let (out, read_out, h6) = >>=-eq-ok (ok_or _ (drain_pipe out_limit true child.stdout)) _ h5 in
    let (discarded, read_err, h7) =
      >>=-eq-ok (ok_or _ (drain_pipe err_limit false child.stderr)) _ h6 in
    let (kept, h8) = guarded (not out.truncated) _ _ h7 in
    let same : ◌≡◌ {A = ChildOutput} (record { success = status; stdout = out.content }) o =
      cc h8 in
    let (whole, within) =
      whole_of out_limit (all_read child.stdout) out
        (sym (drain_pipe_whole out_limit child.stdout)
          ∙ ok_or-eq-ok _ (drain_pipe out_limit true child.stdout) read_out)
        (ground arith) in
    subst (IsCollected child timeout out_limit err_limit) same (record {
      built = built;
      started = started;
      pipes = pipes;
      in_time = ground arith;
      status = ok_or-eq-ok _ child.waited waited;
      whole = whole;
      within = within;
      discarded = discarded;
      drained_err = ok_or-eq-ok _ (drain_pipe err_limit false child.stderr) read_err;
    })

collect_child_complete :
    (child : Child) (timeout out_limit err_limit : ℕ) (o : ChildOutput)
    → IsCollected child timeout out_limit err_limit o
    → collect_child child timeout out_limit err_limit ≡ ok o
unfolding collect_child
collect_child_complete child timeout out_limit err_limit o k =
    let small : ltb out_limit (length o.stdout) ≡ false = ground (arith, k.within) in
    let out : drain_pipe out_limit true child.stdout ≡ some (cut out_limit o.stdout) =
      drain_pipe_whole out_limit child.stdout ∙ ap (drained out_limit []) k.whole in
    rw (k.built, k.started, k.pipes, k.in_time, k.status, out, k.drained_err, small)
      (ap (λ (t : Text). ok (record { success = o.success; stdout = t }))
        (take_all out_limit o.stdout small))

-- An output is collected of a child exactly when the child could be started and ran to its end in
-- time, and its pipes could be read: the output is then all that the child wrote, which is within
-- the limit, and its exit status.
pub collect_child_iff :
    (child : Child) (timeout out_limit err_limit : ℕ) (o : ChildOutput)
    → (collect_child child timeout out_limit err_limit ≡ ok o)
      ↔ IsCollected child timeout out_limit err_limit o
collect_child_iff child timeout out_limit err_limit o = (
  collect_child_sound child timeout out_limit err_limit o,
  collect_child_complete child timeout out_limit err_limit o,
)
