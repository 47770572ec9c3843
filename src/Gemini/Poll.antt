-- ===== src/Gemini/Poll.antt =====
-- crates/spike-gemini/src/client.rs: reading a remote file, polling it, and deleting it.
pub mod Deletes
pub mod Returns
use ovayra.Prelude.{
  ℕ, zero, suc, ◌+◌, ◌-◌, min, Option, none, some, ◌∷◌, ◌++◌, leb, if◌then◌else◌, Result, ok, err,
  ok_or, Text, bytes,
}
use ovayra.Gemini.World.{
  World, Client, History, get_file_request, delete, unspecified, processing, active, failed,
  RemoteFile, GeminiClient, GeminiError, invalid_endpoint, poll_timeout, remote_failed, PollPolicy,
  waited, ◌>>=◌, ◌>>◌, pure, lift,
}
use ovayra.Gemini.Retry.{retry}
use ovayra.Gemini.Upload.{remote_file, decode_body}

module _ (w : World) (c : GeminiClient) where
  file_url : Text → Result GeminiError Text
  file_url name = ok_or invalid_endpoint (w.join_url c.api_base (bytes "/v1beta/" ++ name))

  unfoldable pub get_file : Text → Client RemoteFile
  unfolding file_url
  get_file name = do
    url ← lift (file_url name)
    response ← retry w c.retry_policy (get_file_request url c.api_key)
    dto ← lift (decode_body w.decode_file response.body)
    pure (remote_file dto)

  unfoldable pub delete_file : Text → Client (Unit {0})
  unfolding file_url
  delete_file name = do
    url ← lift (file_url name)
    retry w c.retry_policy (delete url c.api_key)
    pure tt

  -- The body of the `loop` after `get_file`; `next` is the rounds that follow, `none` if the fuel
  -- runs out.
  abbrev pub Polled : Type 0
  Polled = Option (Result GeminiError RemoteFile × History)

  poll_again : ℕ → ℕ → (History → Polled) → History → Polled
  poll_again interval deadline next h =
      if leb deadline (w.now h)
      then some (err poll_timeout, h)
      else next (waited (min interval (deadline - w.now h)) ∷ h)

  poll_state : ℕ → ℕ → (History → Polled) → Result GeminiError RemoteFile × History → Polled
  unfolding poll_again
  poll_state interval deadline next (err e, h) = some (err e, h)
  poll_state interval deadline next (ok remote, h) = elim remote.state [
    | active ↦ some (ok remote, h)
    | failed ↦ some (err remote_failed, h)
    | processing ↦ poll_again interval deadline next h
    | unspecified ↦ poll_again interval deadline next h
  ]

  poll_loop : ℕ → Text → ℕ → ℕ → History → Polled
  unfolding poll_state
  poll_loop zero name interval deadline h = none
  poll_loop (suc fuel) name interval deadline h =
      poll_state interval deadline (poll_loop fuel name interval deadline) (get_file name h)

  unfoldable pub poll_until_ready : ℕ → Text → PollPolicy → History → Polled
  unfolding poll_loop
  poll_until_ready fuel name policy h =
      poll_loop fuel name policy.interval (w.now h + policy.timeout) h
