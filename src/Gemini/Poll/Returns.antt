-- ===== src/Gemini/Poll/Returns.antt =====
-- Polling ends, and what its result says.
use ovayra.Prelude.{
  ℕ, zero, suc, ◌+◌, ◌-◌, ◌≤◌, ◌<◌, min, ◌≡◌, refl, sym, subst, ◌≢◌, inl, inr, false, none, some,
  [], ◌∷◌, ◌++◌, arith, leb, leb→le, Bool-cases, Result, ok, err, Text,
}
use ovayra.Gemini.World.{
  World, History, sent, waited, Request, Response, get_file_request, FileState, unspecified,
  processing, active, failed, RemoteFile, FileDto, GeminiClient, GeminiError, invalid_endpoint,
  poll_timeout, remote_failed, PollPolicy, RetryPolicy, ◌>>=◌, pure, lift, continue,
}
use ovayra.Gemini.Retry.{retry}
use ovayra.Gemini.Retry.Bounds.{retry-Run}
use ovayra.Gemini.Upload.{remote_file, decode_body}
use ovayra.Gemini.Poll.{
  file_url, get_file, Polled, poll_again, poll_state, poll_loop, poll_until_ready,
}
use ovayra.Gemini.Retry.Bounds.{Explains}

-- A monotone clock: sending takes no negative time, and a wait takes at least its duration.
pub record KeepsTime (w : World) : Type 0 where
  pub sends : (r : Request) (h : History) → w.now h ≤ w.now (sent r ∷ h)
  pub waits : (d : ℕ) (h : History) → w.now h + d ≤ w.now (waited d ∷ h)

module _ (w : World) (clock : KeepsTime w) where
  now-append : (new old : History) → w.now old ≤ w.now (new ++ old)
  now-append [] old = omega arith
  now-append (sent r ∷ new) old = omega (arith, clock.sends r (new ++ old), now-append new old)
  now-append (waited d ∷ new) old = omega (arith, clock.waits d (new ++ old), now-append new old)

  now-retry :
      (policy : RetryPolicy) (r : Request) (h : History) → w.now h ≤ w.now (retry w policy r h).1
  now-retry policy r h =
      let run = retry-Run w policy r h in
      subst (λ g. w.now h ≤ w.now g) (sym run.extends) (now-append run.new h)

module _ (w : World) (c : GeminiClient) (clock : KeepsTime w) (name : Text) where
  -- nothing after the request takes time
  decoded :
      (x : Result GeminiError Response × History) (now : ℕ)
      → now ≤ w.now x.1
      → now
        ≤ w.now
            (continue x.0
              (λ response.
                lift (decode_body w.decode_file response.body) >>= λ dto. pure (remote_file dto))
              x.1).1
  decoded (err e, h) now le = le
  decoded (ok response, h) now le = go (decode_body w.decode_file response.body)
    where
      go :
          (d : Result GeminiError FileDto)
          → now ≤ w.now (continue d (λ dto. pure (remote_file dto)) h).1
      go (ok dto) = le
      go (err e) = le

  now-get_file : (h : History) → w.now h ≤ w.now (get_file w c name h).1
  unfolding get_file
  now-get_file h = go (file_url w c name)
    where
      go :
          (u : Result GeminiError Text)
          → w.now h
            ≤ w.now
                (continue u
                  (λ url. retry w c.retry_policy (get_file_request url c.api_key) >>= λ response.
                    lift (decode_body w.decode_file response.body) >>= λ dto.
                    pure (remote_file dto))
                  h).1
      go (err e) = omega arith
      go (ok url) =
          decoded (retry w c.retry_policy (get_file_request url c.api_key) h) (w.now h)
            (now-retry w clock c.retry_policy (get_file_request url c.api_key) h)

  -- `get_file` itself reports no timeout.
  abbrev IsNoTimeout : Result GeminiError RemoteFile → Type 0
  IsNoTimeout x = x ≢ err poll_timeout

  decode-IsNoTimeout :
      (x : Result GeminiError Response × History)
      → (policy : RetryPolicy) (r : Request) → Explains w policy r x.0 x.1
      → IsNoTimeout
          (continue x.0
            (λ response.
              lift (decode_body w.decode_file response.body) >>= λ dto. pure (remote_file dto))
            x.1).0
  unfolding decode_body
  decode-IsNoTimeout (err e, h) policy r why bad = ground arith
  decode-IsNoTimeout (ok response, h) policy r why bad = ground arith

  file_url_error : (e : GeminiError) → file_url w c name ≡ err e → e ≡ invalid_endpoint
  unfolding file_url
  file_url_error e q = ground arith

  get_file-IsNoTimeout : (h : History) → IsNoTimeout (get_file w c name h).0
  unfolding get_file
  get_file-IsNoTimeout h = go (file_url w c name) refl
    where
      go :
          (u : Result GeminiError Text)
          → file_url w c name ≡ u
          → IsNoTimeout
              (continue u
                (λ url. retry w c.retry_policy (get_file_request url c.api_key) >>= λ response.
                  lift (decode_body w.decode_file response.body) >>= λ dto. pure (remote_file dto))
                h).0
      go (err e) q = λ b. cc (file_url_error e q, b)
      go (ok url) q =
          decode-IsNoTimeout (retry w c.retry_policy (get_file_request url c.api_key) h)
            c.retry_policy (get_file_request url c.api_key)
            (retry-Run w c.retry_policy (get_file_request url c.api_key) h).explained

  -- What a finished poll says: the file is ready, or the deadline has passed.
  abbrev Says : ℕ → Result GeminiError RemoteFile × History → Type 0
  Says deadline (ok remote, h) = remote.state ≡ active
  Says deadline (err poll_timeout, h) = deadline ≤ w.now h
  Says deadline (err _, h) = Unit

  abbrev pub Ends : ℕ → Polled w c → Type 0
  Ends deadline none = ⊥
  Ends deadline (some x) = Says deadline x

  Ends-poll_again :
      (interval deadline fuel : ℕ) (next : History → Polled w c) (h : History)
      → 0 < interval
      → deadline - w.now h < suc fuel
      → ((g : History) → deadline - w.now g < fuel → Ends deadline (next g))
      → Ends deadline (poll_again w c interval deadline next h)
  unfolding poll_again
  Ends-poll_again interval deadline fuel next h pos room rest =
      elim (Bool-cases (leb deadline (w.now h))) [
        | inl late ↦ rw late (leb→le deadline (w.now h) late)
        | inr early ↦
            rw early (rest (waited (min interval (deadline - w.now h)) ∷ h) (sooner early))
      ]
    where
      sooner :
          leb deadline (w.now h) ≡ false
          → deadline - w.now (waited (min interval (deadline - w.now h)) ∷ h) < fuel
      sooner early =
          let later : w.now h < deadline = ground arith in
          omega (arith, clock.waits (min interval (deadline - w.now h)) h)

  Ends-poll_state :
      (interval deadline fuel : ℕ) (next : History → Polled w c)
      (x : Result GeminiError RemoteFile × History)
      → 0 < interval
      → x.0 ≢ err poll_timeout
      → deadline - w.now x.1 < suc fuel
      → ((g : History) → deadline - w.now g < fuel → Ends deadline (next g))
      → Ends deadline (poll_state w c interval deadline next x)
  unfolding poll_state
  Ends-poll_state interval deadline fuel next (err poll_timeout, h) pos honest room rest =
      absurd (honest refl)
  Ends-poll_state interval deadline fuel next (err _, h) pos honest room rest = tt
  Ends-poll_state interval deadline fuel next (ok remote, h) pos honest room rest =
      go remote.state refl
    where
      again : Ends deadline (poll_again w c interval deadline next h)
      again = Ends-poll_again interval deadline fuel next h pos room rest

      go :
          (s : FileState)
          → remote.state ≡ s
          → Ends deadline (elim s [
            | active ↦ some (ok remote, h)
            | failed ↦ some (err remote_failed, h)
            | processing ↦ poll_again w c interval deadline next h
            | unspecified ↦ poll_again w c interval deadline next h
          ])
      go active e = e
      go failed e = tt
      go processing e = again
      go unspecified e = again

  poll_loop-Ends :
      (fuel interval deadline : ℕ) (h : History)
      → 0 < interval
      → deadline - w.now h < fuel
      → Ends deadline (poll_loop w c fuel name interval deadline h)
  unfolding poll_loop
  poll_loop-Ends zero interval deadline h pos room = absurd (omega arith)
  poll_loop-Ends (suc fuel) interval deadline h pos room =
      Ends-poll_state interval deadline fuel _ (get_file w c name h) pos (get_file-IsNoTimeout h)
        (omega (arith, now-get_file h)) (λ g less. poll_loop-Ends fuel interval deadline g pos less)

  -- With a monotone clock and an interval above 0, polling ends within as many rounds as the timeout
  -- has nanoseconds, and one: with an active file, with an error, or, past the deadline, with a timeout.
  pub poll_until_ready-Ends :
      (fuel : ℕ) (policy : PollPolicy) (h : History)
      → 0 < policy.interval
      → policy.timeout < fuel
      → Ends (w.now h + policy.timeout) (poll_until_ready w c fuel name policy h)
  unfolding poll_until_ready
  poll_until_ready-Ends fuel policy h pos room =
      poll_loop-Ends fuel policy.interval (w.now h + policy.timeout) h pos (omega arith)
