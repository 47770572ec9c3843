-- ===== src/App/Resume/Chunks.antt =====
-- The loop over the chunks ends.
use ovayra.Prelude.{
  ℕ, zero, suc, ◌+◌, ◌-◌, ◌≤◌, ◌<◌, ◌≡◌, refl, inl, inr, some, arith, ltb, ltb→lt, Bool-cases,
  Result, ok, err, length, take, drop, Text,
}
use ovayra.Gemini.World.{World, History, UploadSession, RemoteFile, GeminiClient, GeminiError}
use ovayra.Gemini.Upload.{chunk_size, upload_chunk, finalize_chunk}
use ovayra.App.Outcome.{ResumeFailureCategory}
use ovayra.App.Resume.{
  Uploaded, finalized, finalize, advanced, next_offset, uploaded, continue_from,
  continue_and_finalize,
}

-- an upload that comes to an end
abbrev pub Ends : Uploaded → Type 0
Ends x = (r : Result ResumeFailureCategory RemoteFile × History) × (x ≡ some r)

module _ (w : World) (c : GeminiClient) (session : UploadSession) (g : ℕ)
    (granular : session.chunk_granularity ≡ some g) (positive : 0 < g) (input : Text) where
  finalized-Ends : (x : Result GeminiError RemoteFile × History) → Ends (finalized w c x)
  unfolding finalized
  finalized-Ends (ok remote, h) = ((ok remote, h), refl)
  finalized-Ends (err _, h) = (_, refl)

  -- With a granularity the next offset is the end of the chunk, and the rest goes on from there.
  uploaded-Ends :
      (end_offset : ℕ) (next : ℕ → History → Uploaded) (x : Result GeminiError (Unit {0}) × History)
      → ((h : History) → Ends (next end_offset h))
      → Ends (uploaded w c session (length input) end_offset next x)
  unfolding uploaded advanced next_offset
  uploaded-Ends end_offset next (err _, h) ends = (_, refl)
  uploaded-Ends end_offset next (ok _, h) ends =
      rw granular (elim (Bool-cases (ltb (length input) end_offset)) [
        | inl past ↦ rw past (_, refl)
        | inr within ↦ rw within (ends h)
      ])

  chunk_size-granular : chunk_size session ≡ g
  unfolding chunk_size
  chunk_size-granular = rw granular refl

  continue_from-Ends :
      (fuel offset : ℕ) (h : History)
      → length input < fuel + offset
      → offset ≤ length input
      → Ends (continue_from w c fuel session input offset h)
  unfolding continue_from finalize
  continue_from-Ends zero offset h enough within = absurd (omega arith)
  continue_from-Ends (suc fuel) offset h enough within =
      elim (Bool-cases (ltb (chunk_size session) (length input - offset))) [
        | inl more ↦
            let room = ltb→lt (chunk_size session) (length input - offset) more in
            rw (continue_from, more)
              (uploaded-Ends (offset + chunk_size session) (continue_from w c fuel session input)
                (upload_chunk w c session offset (take (chunk_size session) (drop offset input)) h)
                (λ h'.
                  continue_from-Ends fuel (offset + chunk_size session) h'
                    (omega (arith, chunk_size-granular)) (omega arith)))
        | inr last ↦
            rw (continue_from, last)
              (finalized-Ends (finalize_chunk w c session offset (drop offset input) h))
      ]

  -- With a positive granularity, from an offset that is within the input, one round for each byte
  -- and one more are enough: the upload comes to an end, with a file or with a failure, whatever the
  -- server answers.
  pub continue_and_finalize-Ends :
      (fuel offset : ℕ) (h : History)
      → offset ≤ length input
      → length input < fuel
      → Ends (continue_and_finalize w c fuel session offset input h)
  unfolding continue_and_finalize
  continue_and_finalize-Ends fuel offset h within enough =
      continue_from-Ends fuel offset h (omega arith) within
