-- ===== src/Gemini/Poll/Deletes.antt =====
-- What was sent and answered when a remote file is deleted.
use ovayra.Prelude.{
  ◌≡◌, refl, sym, ap, ◌∙◌, true, Option, none, some, ◌∷◌, ◌++◌, Result, ok, err, ok_or, Text, bytes,
}
use ovayra.Gemini.World.{
  World, History, sent, delete, Response, GeminiClient, GeminiError, invalid_endpoint, continue,
  pure,
}
use ovayra.Gemini.Retry.{retry, is_success}
use ovayra.Gemini.Retry.Bounds.{Explains, retry-Run}
use ovayra.Gemini.Poll.{file_url, delete_file}

module _ (w : World) (c : GeminiClient) (name : Text) where
  -- The last request is the deletion at the URL of the name, and was answered with a success.
  pub record IsDeletion (h : History) : Type 0 where
    pub url : Text
    pub joined : w.join_url c.api_base (bytes "/v1beta/" ++ name) ≡ some url
    pub older : History
    pub last : h ≡ sent (delete url c.api_key) ∷ older
    pub response : Response
    pub answered : w.answer older (delete url c.api_key) ≡ some response
    pub success : is_success response.status ≡ true

  after_retry :
      (url : Text) (h : History) (x : Result GeminiError Response × History)
      → w.join_url c.api_base (bytes "/v1beta/" ++ name) ≡ some url
      → Explains w c.retry_policy (delete url c.api_key) x.0 x.1
      → continue x.0 (λ _. pure tt) x.1 ≡ (ok tt, h)
      → IsDeletion h
  after_retry url h (err e, g) joined why k =
      let bad : ◌≡◌ {A = Result GeminiError (Unit {0})} (err e) (ok tt) = ap (λ x. x.0) k in
      absurd (cc bad)
  after_retry url h (ok response, g) joined (older, last, answered, success) k =
      let same : g ≡ h = ap (λ (x : Result GeminiError (Unit {0}) × History). x.1) k in
      record {
        url = url;
        joined = joined;
        older = older;
        last = sym same ∙ last;
        response = response;
        answered = answered;
        success = success;
      }

  from_url :
      (g h : History) (u : Option Text)
      → w.join_url c.api_base (bytes "/v1beta/" ++ name) ≡ u
      → continue
          (ok_or invalid_endpoint u)
          (λ url h'.
            let (r, h'') = retry w c.retry_policy (delete url c.api_key) h' in
            continue r (λ _. pure tt) h'')
          g
        ≡ (ok tt, h)
      → IsDeletion h
  from_url g h none joined k =
      let bad : ◌≡◌ {A = Result GeminiError (Unit {0})} (err invalid_endpoint) (ok tt) =
        ap (λ x. x.0) k in
      absurd (cc bad)
  from_url g h (some url) joined k =
      after_retry url h (retry w c.retry_policy (delete url c.api_key) g) joined
        (retry-Run w c.retry_policy (delete url c.api_key) g).explained k

  pub delete_file_sound : (g h : History) → delete_file w c name g ≡ (ok tt, h) → IsDeletion h
  unfolding delete_file file_url
  delete_file_sound g h k = from_url g h (w.join_url c.api_base (bytes "/v1beta/" ++ name)) refl k
