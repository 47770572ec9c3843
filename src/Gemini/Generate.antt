-- ===== src/Gemini/Generate.antt =====
-- crates/spike-gemini/src/client.rs: `generate_content` and the bounds of what it accepts.
use ovayra.Prelude.{
  ℕ, ◌-◌, ◌*◌, ◌≤◌, ◌≡◌, refl, sym, ap, ◌∙◌, subst, ◌≢◌, ◌↔◌, inl, inr, Bool, true, false, not,
  Option, none, some, List, [], ◌∷◌, ◌++◌, Memᴰ, arith, ltb, if◌then◌else◌, Bool-cases, Result, ok,
  err, ok_or, length, any, any-mem, mem-any, trim, Text, bytes, is_empty,
}
use ovayra.Gemini.World.{
  World, Client, Response, generate, RemoteFile, GenerateResponse, GenerationResult, GeminiClient,
  GeminiError, invalid_endpoint, response_too_large, transport, decode, ◌>>=◌, ◌>>◌, lift, continue,
  History, Request, sent,
}
use ovayra.Gemini.Retry.Bounds.{Explains, retry-Run}
use ovayra.Gemini.Retry.{retry, is_success}

-- `MAX_RESPONSE_BYTES`
abbrev pub max_response_bytes : ℕ
max_response_bytes = 1024 * 1024

-- `part.text` is there, and is not blank
unfoldable pub has_text : Option Text → Bool
has_text none = false
has_text (some text) = not (is_empty (trim text))

-- `flat_map`, `filter_map` and `any` over the parts of the candidates
unfoldable pub analysis_nonempty : GenerateResponse → Bool
unfolding has_text
analysis_nonempty candidates = any (any has_text) candidates

not_blank : (t : Text) → (trim t ≢ []) → not (is_empty (trim t)) ≡ true
unfolding is_empty
not_blank t filled = filled_not (trim t) filled
  where
    filled_not : (s : Text) → (s ≢ []) → not (is_empty s) ≡ true
    filled_not [] filled = absurd (filled refl)
    filled_not (c ∷ s) filled = refl

module _ (w : World) (c : GeminiClient) where
  -- what follows the answer; `started` is the clock before the request
  body_of : Response → Result GeminiError Text
  body_of response = ok_or transport response.body

  checked : Text → Result GeminiError (Unit {0})
  checked body = if ltb max_response_bytes (length body) then err response_too_large else ok tt

  measured : (model : Text) (started status : ℕ) → Text → GenerateResponse → Client GenerationResult
  measured model started status body response h = (
    ok (record {
      analysis_nonempty = analysis_nonempty response;
      response_bytes = length body;
      status = status;
      model = model;
      latency = w.now h - started;
    }),
    h,
  )

  answered : (model : Text) (started : ℕ) → Response → Client GenerationResult
  unfolding body_of checked measured
  answered model started response = do
    body ← lift (body_of response)
    lift (checked body)
    dto ← lift (ok_or decode (w.decode_generate body))
    measured model started response.status body dto

  -- The request carries the remote file's URI and type beside a fixed prompt.
  unfoldable pub generate_content : RemoteFile → (model : Text) → Client GenerationResult
  unfolding answered
  generate_content remote model h =
      continue
        (ok_or invalid_endpoint
          (w.join_url c.api_base (bytes "/v1beta/models/" ++ (model ++ bytes ":generateContent"))))
        (λ url.
          retry w c.retry_policy (generate url c.api_key remote.uri remote.mime_type)
          >>= answered model (w.now h))
        h

  -- Some part of some candidate has a text that is more than white space.
  abbrev pub HasAnalysis : GenerateResponse → Type 0
  HasAnalysis candidates =
      (parts : List (Option Text)) × (text : Text) × Memᴰ parts candidates
      × Memᴰ (some text) parts
      × (trim text ≢ [])

  -- What a returned result says of the last answer.
  pub record IsAnswered (model : Text) (response : Response) (r : GenerationResult) : Type 0 where
    pub body : Text
    pub dto : GenerateResponse
    pub has_body : response.body ≡ some body
    pub decoded : w.decode_generate body ≡ some dto
    pub small : r.response_bytes ≤ max_response_bytes
    pub measured_bytes : r.response_bytes ≡ length body
    pub nonempty : (r.analysis_nonempty ≡ true) ↔ HasAnalysis dto
    pub same_status : r.status ≡ response.status
    pub same_model : r.model ≡ model

  has_text_iff :
      (p : Option Text) → (has_text p ≡ true) ↔ ((t : Text) × (p ≡ some t) × (trim t ≢ []))
  unfolding has_text is_empty
  has_text_iff none = (λ h. cc h, λ (t, e, _). cc e)
  has_text_iff (some t) = (
    λ h. (t, refl, λ blank. absurd (cc (blank, h))),
    λ (u, e, filled).
        not_blank t
          (λ blank. filled (let same : t ≡ u = cc e in subst (λ x. trim x ≡ []) same blank)),
  )

  analysis_nonempty_iff :
      (dto : GenerateResponse) → (analysis_nonempty dto ≡ true) ↔ HasAnalysis dto
  unfolding analysis_nonempty
  analysis_nonempty_iff dto = (
    λ h.
        let (parts, member, there) = any-mem (any has_text) dto h in
        let (p, part, filled) = any-mem has_text parts there in
        let (t, e, text) = (has_text_iff p).0 filled in
        (parts, t, member, subst (λ x. Memᴰ x parts) e part, text),
    λ (parts, t, member, part, text).
        mem-any (any has_text) dto member
          (mem-any has_text parts part ((has_text_iff (some t)).1 (t, refl, text))),
  )

  answered_sound :
      (model : Text) (started : ℕ) (response : Response) (r : GenerationResult) (h h' : History)
      → answered model started response h ≡ (ok r, h')
      → (h ≡ h') × IsAnswered model response r
  unfolding answered
  answered_sound model started response r h h' e = go response.body refl e
    where
      after_decode :
          (body : Text) (d : Option GenerateResponse)
          → response.body ≡ some body
          → ltb max_response_bytes (length body) ≡ false
          → w.decode_generate body ≡ d
          → continue (ok_or decode d) (measured model started response.status body) h ≡ (ok r, h')
          → (h ≡ h') × IsAnswered model response r
      after_decode body none q fits k e' = ground arith
      after_decode body (some dto) q fits k e' =
          let got = ap (λ (x : Result GeminiError GenerationResult × History). x.0) e' in
          let same : ◌≡◌ {A = GenerationResult}
              (record {
                analysis_nonempty = analysis_nonempty dto;
                response_bytes = length body;
                status = response.status;
                model = model;
                latency = w.now h - started;
              })
              r =
            cc in
          (
            ap (λ (x : Result GeminiError GenerationResult × History). x.1) e',
            record {
              body = body;
              dto = dto;
              has_body = q;
              decoded = k;
              small =
                  subst (λ n. n ≤ max_response_bytes)
                    (ap (λ (x : GenerationResult). x.response_bytes) same) (ground arith);
              measured_bytes = ap (λ (x : GenerationResult). x.response_bytes) (sym same);
              nonempty =
                  subst (λ b. (b ≡ true) ↔ HasAnalysis dto)
                    (ap (λ (x : GenerationResult). x.analysis_nonempty) same)
                    (analysis_nonempty_iff dto);
              same_status = ap (λ (x : GenerationResult). x.status) (sym same);
              same_model = ap (λ (x : GenerationResult). x.model) (sym same);
            },
          )

      go :
          (b : Option Text)
          → response.body ≡ b
          → continue
              (ok_or transport b)
              (λ body. lift (checked body) >>= λ _.
                lift (ok_or decode (w.decode_generate body))
                >>= measured model started response.status body)
              h
            ≡ (ok r, h')
          → (h ≡ h') × IsAnswered model response r
      go none q e' = ground arith
      go (some body) q e' = elim (Bool-cases (ltb max_response_bytes (length body))) [
        | inl over ↦
            let bad : ◌≡◌ {A = Result GeminiError GenerationResult × History}
                (err response_too_large, h) (ok r, h') =
              rw over at e' in
            ground arith
        | inr fits ↦ after_decode body (w.decode_generate body) q fits refl (rw fits at e')
      ]

  -- The request that `generate_content` sends to a URL.
  abbrev pub generate_request : (url : Text) → RemoteFile → Request
  generate_request url remote = generate url c.api_key remote.uri remote.mime_type

  abbrev pub Analysed : RemoteFile → (model : Text) → GenerationResult → History → Type 0
  Analysed remote model r h' =
      (url : Text) × (g : History) × (response : Response) × (h'
        ≡ sent (generate_request url remote) ∷ g)
      × (w.answer g (generate_request url remote) ≡ some response)
      × (is_success response.status ≡ true)
      × IsAnswered model response r

  after_retry :
      (remote : RemoteFile) (model url : Text) (started : ℕ) (r : GenerationResult) (h' : History)
      (x : Result GeminiError Response × History)
      → Explains w c.retry_policy (generate_request url remote) x.0 x.1
      → continue x.0 (answered model started) x.1 ≡ (ok r, h')
      → Analysed remote model r h'
  after_retry remote model url started r h' (err e, h) why k = ground arith
  after_retry remote model url started r h' (ok response, h) (g, last, answer, success) k =
      let (same, result) = answered_sound model started response r h h' k in
      (url, g, response, sym same ∙ last, answer, success, result)

  -- A result that `generate_content` returns is read off the last answer, a success: its status and
  -- model are those of the answer and the request, its size is that of the body and at most 1 MiB,
  -- and the analysis counts as present exactly when some part of the decoded body has a text that is
  -- not blank.
  pub generate_content_sound :
      (remote : RemoteFile) (model : Text) (r : GenerationResult) (h h' : History)
      → generate_content remote model h ≡ (ok r, h')
      → Analysed remote model r h'
  unfolding generate_content
  generate_content_sound remote model r h h' e =
      go (w.join_url c.api_base (bytes "/v1beta/models/" ++ (model ++ bytes ":generateContent"))) e
    where
      go :
          (u : Option Text)
          → continue
              (ok_or invalid_endpoint u)
              (λ url.
                retry w c.retry_policy (generate_request url remote) >>= answered model (w.now h))
              h
            ≡ (ok r, h')
          → Analysed remote model r h'
      go none k = ground arith
      go (some url) k =
          after_retry remote model url (w.now h) r h'
            (retry w c.retry_policy (generate_request url remote) h)
            (retry-Run w c.retry_policy (generate_request url remote) h).explained k
