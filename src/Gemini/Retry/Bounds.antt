-- ===== src/Gemini/Retry/Bounds.antt =====
-- What `retry` sends, how long it waits, and what its result says.
use ovayra.Prelude.{
  ℕ, zero, suc, ◌+◌, ◌≤◌, ◌≡◌, refl, sym, ap, ◌∙◌, subst, ◌≢◌, ◌↔◌, ◌⊎◌, inl, inr, true, false, not,
  ◌||◌, none, some, [], ◌∷◌, ◌++◌, arith, ◌==◌, Bool-cases, Option-cases, Result, ok, err, ok_or,
  All, All-append,
}
use mathlib.Core.List.{append_assoc}
use ovayra.Gemini.World.{
  World, Client, History, Event, sent, waited, Request, Response, GeminiError, http_status,
  transport, RetryPolicy, send,
}
use ovayra.Gemini.Retry.{is_success, transient, retry_delay, retry_round, retry_from, retry}

-- How many requests a history holds.
abbrev pub requests : History → ℕ
requests [] = 0
requests (sent r ∷ h) = suc (requests h)
requests (waited d ∷ h) = requests h

pub requests-append : (g h : History) → requests (g ++ h) ≡ requests g + requests h
requests-append [] h = omega arith
requests-append (sent r ∷ g) h = omega (arith, requests-append g h)
requests-append (waited d ∷ g) h = requests-append g h

-- An event of a retried request: the request itself, or a wait within the policy's bound.
abbrev pub IsRetryOf : RetryPolicy → Request → Event → Type 0
IsRetryOf policy r (sent q) = q ≡ r
IsRetryOf policy r (waited d) = d ≤ policy.max_delay

-- A number of attempts, the latest first: the request alone, or the request after one wait, within
-- the policy's bound, that follows the attempts before it.
abbrev pub Attempts : RetryPolicy → Request → ℕ → History → Type 0
Attempts policy r zero h = h ≡ []
Attempts policy r (suc zero) h = h ≡ sent r ∷ []
Attempts policy r (suc (suc n)) h =
    (d : ℕ) × (g : History) × (d ≤ policy.max_delay)
    × (h ≡ sent r ∷ waited d ∷ g)
    × Attempts policy r (suc n) g

-- One more attempt before the others.
Attempts-before :
    (policy : RetryPolicy) (r : Request) (n d : ℕ) (h : History)
    → d ≤ policy.max_delay
    → Attempts policy r (suc n) h
    → Attempts policy r (suc (suc n)) (h ++ (waited d ∷ sent r ∷ []))
Attempts-before policy r zero d h short e =
    (d, sent r ∷ [], short, ap (λ g. g ++ (waited d ∷ sent r ∷ [])) e, refl)
Attempts-before policy r (suc n) d h short (d', g, short', e, rest) = (
  d',
  g ++ (waited d ∷ sent r ∷ []),
  short',
  ap (λ x. x ++ (waited d ∷ sent r ∷ [])) e,
  Attempts-before policy r n d g short rest,
)

-- What the result of `retry` says of the last thing that happened.
abbrev pub Explains : World → RetryPolicy → Request → Result GeminiError Response → History → Type 0
Explains w policy r (ok response) h =
    (g : History) × (h ≡ sent r ∷ g)
    × (w.answer g r ≡ some response)
    × (is_success response.status ≡ true)
Explains w policy r (err (http_status status)) h =
    (g : History) × (response : Response) × (h ≡ sent r ∷ g)
    × (w.answer g r ≡ some response)
    × (response.status ≡ status)
    × (is_success status ≡ false)
Explains w policy r (err transport) h =
    (policy.max_attempts ≡ 0) ⊎ ((g : History) × (h ≡ sent r ∷ g) × (w.answer g r ≡ none))
Explains w policy r (err _) h = ⊥

-- The run of a retried request from an older history.
pub record IsRun (w : World) (policy : RetryPolicy) (r : Request) (limit : ℕ) (old : History)
    (result : Result GeminiError Response) (now : History) : Type 0 where
  pub new : History
  pub extends : now ≡ new ++ old
  pub few : requests new ≤ limit
  pub attempts : ℕ
  pub paced : Attempts policy r attempts new
  pub tried : (attempts ≡ 0) ↔ (limit ≡ 0)
  pub only : All (IsRetryOf policy r) new
  pub explained : Explains w policy r result now

retry_delay-le :
    (response : Response) (attempt maximum : ℕ) → retry_delay response attempt maximum ≤ maximum
unfolding retry_delay
retry_delay-le response attempt maximum = omega arith

module _ (w : World) (policy : RetryPolicy) (r : Request) where
  abbrev Run : ℕ → History → Result GeminiError Response × History → Type 0
  Run limit old x = IsRun w policy r limit old x.0 x.1

  Attempts-resend :
      (n d : ℕ) (h : History)
      → d ≤ policy.max_delay
      → n ≢ 0
      → Attempts policy r n h
      → Attempts policy r (suc n) (h ++ (waited d ∷ sent r ∷ []))
  Attempts-resend zero d h short enough paced = absurd (enough refl)
  Attempts-resend (suc n) d h short enough paced = Attempts-before policy r n d h short paced

  -- a run goes on after a wait
  Run-resend :
      (limit : ℕ) (h : History) (d : ℕ) (x : Result GeminiError Response × History)
      → d ≤ policy.max_delay
      → limit ≢ 0
      → Run limit (waited d ∷ sent r ∷ h) x
      → Run (suc limit) h x
  Run-resend limit h d x short more run =
      let open_end : History = waited d ∷ sent r ∷ [] in
      record {
        new = run.new ++ open_end;
        extends = run.extends ∙ sym (append_assoc run.new open_end h);
        few = omega (arith, requests-append run.new open_end, run.few);
        attempts = suc run.attempts;
        paced = Attempts-resend run.attempts d run.new short (λ z. more (run.tried.0 z)) run.paced;
        tried = (λ z. absurd (omega arith), λ z. absurd (omega arith));
        only = All-append (IsRetryOf policy r) run.new open_end run.only (short, (refl, tt));
        explained = run.explained;
      }

  -- a run of one request, and the result that it gave
  Run-once :
      (limit : ℕ) (h : History) (result : Result GeminiError Response)
      → Explains w policy r result (sent r ∷ h)
      → Run (suc limit) h (result, sent r ∷ h)
  Run-once limit h result why = record {
    new = sent r ∷ [];
    extends = refl;
    few = omega arith;
    attempts = 1;
    paced = refl;
    tried = (λ z. absurd (omega arith), λ z. absurd (omega arith));
    only = (refl, tt);
    explained = why;
  }

  Run-retry_round :
      (left attempt : ℕ) (h : History) (response : Response) (rest : Client Response)
      → w.answer h r ≡ some response
      → (attempt + 1 ≢ policy.max_attempts → left ≢ 0)
      → (attempt + 1 ≢ policy.max_attempts → (old : History) → Run left old (rest old))
      → Run (suc left) h (retry_round policy attempt response rest (sent r ∷ h))
  unfolding retry_round
  Run-retry_round left attempt h response rest e more next =
      elim (Bool-cases (is_success response.status)) [
        | inl won ↦ rw won (Run-once left h (ok response) (h, refl, e, won))
        | inr not_won ↦
            elim (Bool-cases
              (not (transient response.status) || (attempt + 1 == policy.max_attempts))) [
                | inl stop ↦
                    rw (not_won, stop)
                      (Run-once left h (err (http_status response.status))
                        (h, response, refl, e, refl, not_won))
                | inr go_on ↦
                    rw (not_won, go_on)
                      (Run-resend left h (retry_delay response attempt policy.max_delay)
                        (rest (waited (retry_delay response attempt policy.max_delay) ∷ sent r ∷ h))
                        (retry_delay-le response attempt policy.max_delay)
                        (more (λ last. ground arith))
                        (next (λ last. ground arith)
                          (waited (retry_delay response attempt policy.max_delay) ∷ sent r ∷ h)))
              ]
      ]

  retry_lost :
      (left attempt : ℕ) (h : History)
      → w.answer h r ≡ none
      → retry_from w policy r (suc left) attempt h ≡ (err transport, sent r ∷ h)
  unfolding retry_from send
  retry_lost left attempt h e = rw (e, ok_or)

  retry_answered :
      (left attempt : ℕ) (h : History) (response : Response)
      → w.answer h r ≡ some response
      → retry_from w policy r (suc left) attempt h
        ≡ retry_round policy attempt response
            (retry_from w policy r left (attempt + 1))
            (sent r ∷ h)
  unfolding retry_from send
  retry_answered left attempt h response e = rw (e, ok_or)

  Run-retry_from :
      (left attempt : ℕ) (h : History)
      → attempt + left ≡ policy.max_attempts
      → (left ≡ 0 → policy.max_attempts ≡ 0)
      → Run left h (retry_from w policy r left attempt h)
  unfolding retry_from
  Run-retry_from zero attempt h count first = record {
    new = [];
    extends = refl;
    few = omega arith;
    attempts = 0;
    paced = refl;
    tried = (λ z. refl, λ z. refl);
    only = tt;
    explained = inl (first refl);
  }
  Run-retry_from (suc left) attempt h count first = elim (Option-cases (w.answer h r)) [
    | inl lost ↦
        subst (Run (suc left) h) (sym (retry_lost left attempt h lost))
          (Run-once left h (err transport) (inr (h, refl, lost)))
    | inr (response, e) ↦
        subst (Run (suc left) h) (sym (retry_answered left attempt h response e)) (
          Run-retry_round left attempt h response (retry_from w policy r left (attempt + 1)) e
            (λ not_last z. not_last (omega arith))
            (λ not_last old.
              Run-retry_from left (attempt + 1) old (omega arith) (λ z. omega arith)))
  ]

  -- `retry` sends nothing but the request, at most `max_attempts` times and, unless that is 0, at least
  -- once. Between two attempts it waits once, at most `max_delay`, and it waits at no other time. A response that it returns is the answer to the last request
  -- and a success; an HTTP status that it reports is that of the last answer, and no success; it
  -- reports a transport failure when the last request failed or no attempt was allowed, and it
  -- reports no other error.
  pub retry-Run : (h : History) → Run policy.max_attempts h (retry w policy r h)
  unfolding retry
  retry-Run h = Run-retry_from policy.max_attempts 0 h (omega arith) (λ z. z)
