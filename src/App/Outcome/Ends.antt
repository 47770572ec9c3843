-- ===== src/App/Outcome/Ends.antt =====
-- How the two ends of a run, with a failure and after the cleanup, leave the disk.
use ovayra.Prelude.{
  ◌≡◌, refl, ap, ◌∙◌, subst, ◌⊎◌, inl, inr, Bool, true, false, Option, none, some, arith,
  Bool-cases, Result, ok, err, Text,
}
use ovayra.Contracts.Ids.{TargetId}
use ovayra.Gemini.World.{History, GenerationResult}
use ovayra.App.Persist.{Persisted, not_persisted, persisted_unsynced, persisted}
use ovayra.App.Outcome.{
  ResumeFailureCategory, ResumeOutcome, Disk, Local, Done, CheckpointCleanup, kept, removed,
  not_removed, write_atomic, written, write_json, write_evidence, raised, fail_with, proved,
  finish_passed, resume_proof, proof_text, clean_checkpoint, cleanup_category, conclude, clean_up,
  with_category,
}

-- `Deleted` is what is known when the remote file is deleted: the outcome so far, the analysis, and
-- the history. `bound` is the digest of the checkpoint.
module _ (local : Local) (target : TargetId)
    (Deleted : ResumeOutcome → Result (Unit {0}) GenerationResult → History → Type 0)
    (bound : Option Text) (disk : Disk) where
  -- The checkpoint is as it was, or was removed after the remote file.
  abbrev pub KeepsCheckpoint : History → Disk → Type 0
  KeepsCheckpoint h disk' =
      (disk'.checkpoint ≡ disk.checkpoint)
      ⊎ ((disk'.checkpoint ≡ none)
          × ((o : ResumeOutcome) × (analysed : Result (Unit {0}) GenerationResult) × Deleted o
                analysed h))

  -- What holds when a run succeeds: nothing is left behind, and the evidence is the proof of an
  -- analysis with a text.
  pub record IsSuccess (o : ResumeOutcome) (h : History) (disk' : Disk) : Type 0 where
    pub no_failure : o.failure_category ≡ none
    pub checkpoint_removed : disk'.checkpoint ≡ none
    pub binding : Text
    pub bound_to : bound ≡ some binding
    pub generation : GenerationResult
    pub remote_deleted : Deleted o (ok generation) h
    pub nonempty : generation.analysis_nonempty ≡ true
    pub json : Text
    pub rendered :
        proof_text local target (resume_proof local target o binding generation) ≡ some json
    pub written : disk'.evidence ≡ some json

  pub record IsEnd (d : Done) : Type 0 where
    pub checkpoint : KeepsCheckpoint d.1 d.2
    pub success : (o : ResumeOutcome) → d.0 ≡ ok o → IsSuccess o d.1 d.2

  checkpoint-written :
      (p : Persisted) (t : Text) (d : Disk)
      → (written local target p t d).1.checkpoint ≡ d.checkpoint
  unfolding written
  checkpoint-written not_persisted t d = refl
  checkpoint-written persisted_unsynced t d = refl
  checkpoint-written persisted t d = refl

  checkpoint-write_json :
      (t : Option Text) (d : Disk) → (write_json local target t d).1.checkpoint ≡ d.checkpoint
  unfolding write_json write_atomic
  checkpoint-write_json none d = refl
  checkpoint-write_json (some t) d = checkpoint-written (local.persists d t) t d

  raised-IsEnd :
      (o : ResumeOutcome) (h : History) (x : Bool × Disk)
      → KeepsCheckpoint h x.1
      → IsEnd (raised local target o h x)
  unfolding raised
  raised-IsEnd o h (true, d) keeps = record { checkpoint = keeps; success = λ o' e. cc e }
  raised-IsEnd o h (false, d) keeps = record { checkpoint = keeps; success = λ o' e. cc e }

  KeepsCheckpoint-write_json :
      (h : History) (t : Option Text) (d : Disk)
      → KeepsCheckpoint h d
      → KeepsCheckpoint h (write_json local target t d).1
  KeepsCheckpoint-write_json h t d (inl same) = inl (checkpoint-write_json t d ∙ same)
  KeepsCheckpoint-write_json h t d (inr (gone, away)) = inr (checkpoint-write_json t d ∙ gone, away)

  pub fail_with-IsEnd :
      (o : ResumeOutcome) (category : ResumeFailureCategory) (h : History)
      → IsEnd (fail_with local target o category h disk)
  unfolding fail_with write_evidence
  fail_with-IsEnd o category h =
      raised-IsEnd (with_category o category) h _ (KeepsCheckpoint-write_json h _ disk (inl refl))

  -- What a cleanup of the checkpoint did.
  Cleaned : Bool → CheckpointCleanup × Disk → Type 0
  Cleaned remote_deleted (kept, d) = (remote_deleted ≡ false) × (d ≡ disk)
  Cleaned remote_deleted (removed, d) = (remote_deleted ≡ true) × (d.checkpoint ≡ none)
  Cleaned remote_deleted (not_removed, d) = (remote_deleted ≡ true) × (d ≡ disk)

  clean_checkpoint-Cleaned :
      (remote_deleted : Bool)
      → Cleaned remote_deleted (clean_checkpoint local target remote_deleted disk)
  unfolding clean_checkpoint Cleaned
  clean_checkpoint-Cleaned false = (refl, refl)
  clean_checkpoint-Cleaned true = elim (Bool-cases (local.removes disk)) [
    | inl gone ↦ rw gone (refl, refl)
    | inr stays ↦ rw stays (refl, refl)
  ]

  Cleaned-KeepsCheckpoint :
      (remote_deleted : Bool) (o : ResumeOutcome) (analysed : Result (Unit {0}) GenerationResult)
      (h : History) (x : CheckpointCleanup × Disk)
      → (remote_deleted ≡ true → Deleted o analysed h)
      → Cleaned remote_deleted x
      → KeepsCheckpoint h x.1
  unfolding Cleaned
  Cleaned-KeepsCheckpoint b o analysed h (kept, d) away (_, same) =
      inl (ap (λ (x : Disk). x.checkpoint) same)
  Cleaned-KeepsCheckpoint b o analysed h (removed, d) away (gone, none_left) =
      inr (none_left, (o, analysed, away gone))
  Cleaned-KeepsCheckpoint b o analysed h (not_removed, d) away (_, same) =
      inl (ap (λ (x : Disk). x.checkpoint) same)

  -- No failure: the analysis has a text, and both files are gone.
  no_category :
      (g : GenerationResult) (b : Bool) (x : CheckpointCleanup × Disk)
      → Cleaned b x
      → cleanup_category local target (ok g) b x.0 ≡ none
      → (g.analysis_nonempty ≡ true) × (b ≡ true) × (x.1.checkpoint ≡ none)
  unfolding Cleaned cleanup_category
  no_category g b (kept, d) cleaned h = ground arith
  no_category g b (removed, d) cleaned h = ground arith
  no_category g b (not_removed, d) cleaned h = ground arith

  written-IsEnd :
      (o : ResumeOutcome) (binding : Text) (g : GenerationResult) (h : History) (d : Disk)
      (json : Text) (p : Persisted)
      → proof_text local target (resume_proof local target o binding g) ≡ some json
      → bound ≡ some binding
      → o.failure_category ≡ none
      → g.analysis_nonempty ≡ true
      → Deleted o (ok g) h
      → d.checkpoint ≡ none
      → IsEnd (proved local target o h (written local target p json d))
  unfolding proved written
  written-IsEnd o binding g h d json not_persisted e known no_failure nonempty away gone = record {
    checkpoint = inr (gone, (o, ok g, away));
    success = λ o' k. cc k;
  }
  written-IsEnd o binding g h d json persisted_unsynced e known no_failure nonempty away gone =
      record { checkpoint = inr (gone, (o, ok g, away)); success = λ o' k. cc k }
  written-IsEnd o binding g h d json persisted e known no_failure nonempty away gone = record {
    checkpoint = inr (gone, (o, ok g, away));
    success = λ o' k.
        subst (λ x. IsSuccess x h (record d { evidence = some json })) (cc k)
          (record {
            no_failure = no_failure;
            checkpoint_removed = gone;
            binding = binding;
            bound_to = known;
            generation = g;
            remote_deleted = away;
            nonempty = nonempty;
            json = json;
            rendered = e;
            written = refl;
          });
  }

  proved-IsEnd :
      (o : ResumeOutcome) (binding : Text) (g : GenerationResult) (h : History) (d : Disk)
      (t : Option Text)
      → proof_text local target (resume_proof local target o binding g) ≡ t
      → bound ≡ some binding
      → o.failure_category ≡ none
      → g.analysis_nonempty ≡ true
      → Deleted o (ok g) h
      → d.checkpoint ≡ none
      → IsEnd (proved local target o h (write_json local target t d))
  unfolding proved write_json write_atomic
  proved-IsEnd o binding g h d none e known no_failure nonempty away gone = record {
    checkpoint = inr (gone, (o, ok g, away));
    success = λ o' k. cc k;
  }
  proved-IsEnd o binding g h d (some json) e known no_failure nonempty away gone =
      written-IsEnd o binding g h d json (local.persists d json) e known no_failure nonempty away
        gone

  finish_passed-IsEnd :
      (o : ResumeOutcome) (binding : Option Text) (g : GenerationResult) (h : History) (d : Disk)
      → bound ≡ binding
      → o.failure_category ≡ none
      → g.analysis_nonempty ≡ true
      → Deleted o (ok g) h
      → d.checkpoint ≡ none
      → IsEnd (finish_passed local target o binding g h d)
  unfolding finish_passed
  finish_passed-IsEnd o none g h d known no_failure nonempty away gone = record {
    checkpoint = inr (gone, (o, ok g, away));
    success = λ o' k. cc k;
  }
  finish_passed-IsEnd o (some binding) g h d known no_failure nonempty away gone =
      proved-IsEnd o binding g h d (proof_text local target (resume_proof local target o binding g))
        refl known no_failure nonempty away gone

  conclude-IsEnd :
      (o : ResumeOutcome) (binding : Option Text) (analysed : Result (Unit {0}) GenerationResult)
      (b : Bool) (x : CheckpointCleanup × Disk) (category : Option ResumeFailureCategory)
      (h : History)
      → bound ≡ binding
      → cleanup_category local target analysed b x.0 ≡ category
      → o.failure_category ≡ none
      → (b ≡ true → Deleted o analysed h)
      → Cleaned b x
      → IsEnd (conclude local target o binding analysed b x.0 category h x.1)
  unfolding conclude write_evidence cleanup_category
  conclude-IsEnd o binding (ok g) b x none h known e no_failure away cleaned =
      let (nonempty, gone, none_left) = no_category g b x cleaned e in
      finish_passed-IsEnd o binding g h x.1 known no_failure nonempty (away gone) none_left
  conclude-IsEnd o binding (err u) b x none h known e no_failure away cleaned = cc e
  conclude-IsEnd o binding (ok g) b x (some category) h known e no_failure away cleaned =
      raised-IsEnd (with_category o category) h _
        (KeepsCheckpoint-write_json h _ x.1 (Cleaned-KeepsCheckpoint b o (ok g) h x away cleaned))
  conclude-IsEnd o binding (err u) b x (some category) h known e no_failure away cleaned =
      raised-IsEnd (with_category o category) h _
        (KeepsCheckpoint-write_json h _ x.1 (Cleaned-KeepsCheckpoint b o (err u) h x away cleaned))

  pub clean_up-IsEnd :
      (o : ResumeOutcome) (binding : Option Text) (analysed : Result (Unit {0}) GenerationResult)
      (b : Bool) (h : History)
      → bound ≡ binding
      → o.failure_category ≡ none
      → (b ≡ true → Deleted o analysed h)
      → IsEnd (clean_up local target o binding analysed b h disk)
  unfolding clean_up
  clean_up-IsEnd o binding analysed b h known no_failure away =
      conclude-IsEnd o binding analysed b (clean_checkpoint local target b disk) _ h known refl
        no_failure away (clean_checkpoint-Cleaned b)
