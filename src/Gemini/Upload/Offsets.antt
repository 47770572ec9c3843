-- ===== src/Gemini/Upload/Offsets.antt =====
-- `upload_chunk` against a server that keeps the protocol: what its success says, and when it
-- sends nothing.
use ovayra.Prelude.{
  ℕ, zero, suc, ◌+◌, ◌≡◌, refl, sym, ap, ◌∙◌, inl, inr, Bool, true, false, not, Option, none, some,
  ◌∷◌, arith, ◌==◌, if◌then◌else◌, ==_iff, Bool-cases, Result, ok, err, length, Text,
}
use ovayra.Gemini.World.{
  World, Client, History, sent, waited, Response, query, UploadSession, GeminiClient, GeminiError,
  protocol, chunk_misaligned, http_status, transport, ◌>>◌, pure, raise, lift, continue, sleep,
}
use ovayra.Gemini.Retry.{is_success, retry_delay, retry}
use ovayra.Gemini.Retry.Bounds.{Explains, retry-Run}
use ovayra.Gemini.Upload.{
  received_size, query_offset, chunk_request, after_query, upload_round, upload_from, upload_chunk,
}

-- The resumable upload protocol: `received h` is how many bytes of the session the server has
-- after `h`. A chunk that it accepts ends where the request says, and a query reports the size.
pub record KeepsProtocol (w : World) (c : GeminiClient) (session : UploadSession)
    (received : History → ℕ) : Type 0 where
  pub accepts :
      (h : History) (offset : ℕ) (chunk : Text) (response : Response)
      → w.answer h (chunk_request w c session offset chunk) ≡ some response
      → is_success response.status ≡ true
      → received (sent (chunk_request w c session offset chunk) ∷ h) ≡ offset + length chunk
  pub reports :
      (h : History) (response : Response) (n : ℕ)
      → w.answer h (query session.url c.api_key) ≡ some response
      → is_success response.status ≡ true
      → received_size response ≡ ok n
      → received (sent (query session.url c.api_key) ∷ h) ≡ n

module _ (w : World) (c : GeminiClient) (session : UploadSession) (received : History → ℕ)
    (server : KeepsProtocol w c session received) where
  reported :
      (x : Result GeminiError Response × History) {n : ℕ} {h' : History}
      → Explains w c.retry_policy (query session.url c.api_key) x.0 x.1
      → continue x.0 (λ response. lift (received_size response)) x.1 ≡ (ok n, h')
      → received h' ≡ n
  reported (ok response, h) {n} {h'} why e =
      let (g, same, answer, success) = why in
      let size : received_size response ≡ ok n =
        ap (λ (y : Result GeminiError ℕ × History). y.0) e in
      let last : h ≡ h' = ap (λ (y : Result GeminiError ℕ × History). y.1) e in
      ap received (sym last ∙ same) ∙ server.reports g response n answer success size
  reported (err x, h) why e = ground arith

  query_offset_sound :
      (h : History) {n : ℕ} {h' : History}
      → query_offset w c session h ≡ (ok n, h')
      → received h' ≡ n
  unfolding query_offset
  query_offset_sound h e =
      reported (retry w c.retry_policy (query session.url c.api_key) h)
        (retry-Run w c.retry_policy (query session.url c.api_key) h).explained e

  -- What a client that returns successfully leaves on the server.
  abbrev Stores : ℕ → Client (Unit {0}) → Type 0
  Stores expected m = (h h' : History) → m h ≡ (ok tt, h') → received h' ≡ expected

  Stores-after_query :
      (offset expected : ℕ) (resume : Client (Unit {0}))
      → Stores expected resume
      → Stores expected (after_query w c session offset expected resume)
  unfolding after_query
  Stores-after_query offset expected resume next h h' e = go (query_offset w c session h) refl e
    where
      go :
          (x : Result GeminiError ℕ × History)
          → query_offset w c session h ≡ x
          → continue x.0
              (λ observed.
                if observed == expected
                then pure tt
                else if not (observed == offset)
                then raise protocol
                else resume)
              x.1
            ≡ (ok tt, h')
          → received h' ≡ expected
      go (err x, h₁) q e = ground arith
      go (ok n, h₁) q e = elim (Bool-cases (n == expected)) [
        | inl all_there ↦
            let last : (ok tt, h₁) ≡ (ok tt, h') = rw all_there at e in
            ap received (sym (ap (λ (y : Result GeminiError (Unit {0}) × History). y.1) last))
            ∙ query_offset_sound h q
            ∙ (==_iff n expected).0 all_there
        | inr less ↦ elim (Bool-cases (not (n == offset))) [
          | inl other ↦
              let bad : ◌≡◌ {A = Result GeminiError (Unit {0}) × History} (err protocol, h₁)
                  (ok tt, h') =
                rw (less, other) at e in
              ground arith
          | inr none_there ↦ next h₁ h' (rw (less, none_there) at e)
        ]
      ]

  Stores-raise : (expected : ℕ) (x : GeminiError) → Stores expected (raise x)
  Stores-raise expected x h h' e = ground arith

  Stores-sleep :
      (expected d : ℕ) (m : Client (Unit {0})) → Stores expected m → Stores expected (sleep d >> m)
  Stores-sleep expected d m next h h' e = next (waited d ∷ h) h' e

  Stores-if :
      (expected : ℕ) (b : Bool) (m n : Client (Unit {0}))
      → Stores expected m
      → Stores expected n
      → Stores expected (if b then m else n)
  Stores-if expected true m n hm hn = hm
  Stores-if expected false m n hm hn = hn

  upload_round_sound :
      (offset attempt : ℕ) (chunk : Text) (rest : Client (Unit {0})) (outcome : Option Response)
      (h h' : History)
      → Stores (offset + length chunk) rest
      → w.answer h (chunk_request w c session offset chunk) ≡ outcome
      → upload_round w c session offset
          (offset + length chunk)
          attempt
          rest
          outcome
          (sent (chunk_request w c session offset chunk) ∷ h)
        ≡ (ok tt, h')
      → received h' ≡ offset + length chunk
  unfolding upload_round
  upload_round_sound offset attempt chunk rest none h h' next a e =
      Stores-after_query offset (offset + length chunk) rest next _ h' e
  upload_round_sound offset attempt chunk rest (some response) h h' next a e =
      elim (Bool-cases (is_success response.status)) [
        | inl won ↦
            let last : ◌≡◌ {A = Result GeminiError (Unit {0}) × History}
                (ok tt, sent (chunk_request w c session offset chunk) ∷ h) (ok tt, h') =
              rw won at e in
            ap received (sym (ap (λ (y : Result GeminiError (Unit {0}) × History). y.1) last))
            ∙ server.accepts h offset chunk response a won
        | inr not_won ↦
            let d = retry_delay response attempt c.retry_policy.max_delay in
            let again = Stores-sleep (offset + length chunk) d rest next in
            Stores-if (offset + length chunk) _ _ _
              (Stores-if (offset + length chunk) _ _ _
                (Stores-after_query offset (offset + length chunk) (sleep d >> rest) again) again)
              (Stores-raise (offset + length chunk) (http_status response.status)) _ h'
              (rw not_won at e)
      ]

  upload_from_sound :
      (offset : ℕ) (chunk : Text) (left attempt : ℕ)
      → Stores
          (offset + length chunk)
          (upload_from w c session offset (offset + length chunk) chunk left attempt)
  unfolding upload_from
  upload_from_sound offset chunk zero attempt h h' e =
      Stores-raise (offset + length chunk) transport h h' e
  upload_from_sound offset chunk (suc left) attempt h h' e =
      upload_round_sound offset attempt chunk _
        (w.answer h (chunk_request w c session offset chunk)) h h'
        (upload_from_sound offset chunk left (attempt + 1)) refl e

  -- Against a server that keeps the protocol, a chunk that `upload_chunk` reports as uploaded is on
  -- the server: the server has exactly the bytes up to the end of the chunk, however many attempts
  -- failed or went unanswered.
  pub upload_chunk-stores :
      (offset : ℕ) (chunk : Text) (h h' : History)
      → upload_chunk w c session offset chunk h ≡ (ok tt, h')
      → received h' ≡ offset + length chunk
  unfolding upload_chunk
  upload_chunk-stores offset chunk h h' e =
      Stores-if (offset + length chunk) _ _ _
        (Stores-raise (offset + length chunk) chunk_misaligned)
        (Stores-if (offset + length chunk) _ _ _ (Stores-raise (offset + length chunk) protocol)
          (upload_from_sound offset chunk c.retry_policy.max_attempts 0))
        h h' e
