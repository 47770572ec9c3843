-- ===== src/Gemini/Retry.antt =====
-- crates/spike-gemini/src/client.rs: `retry`, `retry_delay` and `transient`.
pub mod Bounds
use ovayra.Prelude.{
  ℕ, zero, suc, ◌+◌, ◌*◌, ◌%◌, ◌^◌, min, Bool, not, ◌&&◌, ◌||◌, Option, none, some, ltb, leb, ◌==◌,
  if◌then◌else◌, parse_u64, Text, bytes,
}
use ovayra.Gemini.World.{
  World, Client, Request, Response, http_status, transport, RetryPolicy, ◌>>=◌, ◌>>◌, pure, raise,
  send, sleep,
}

-- `StatusCode::is_success`, `is_server_error`
unfoldable pub is_success : ℕ → Bool
is_success status = leb 200 status && ltb status 300

unfoldable pub is_server_error : ℕ → Bool
is_server_error status = leb 500 status && ltb status 600

unfoldable pub transient : ℕ → Bool
unfolding is_server_error
transient status = (status == 429) || is_server_error status

-- `Duration::from_millis`, `from_secs`
abbrev pub from_millis : ℕ → ℕ
from_millis n = n * 1000000

abbrev pub from_secs : ℕ → ℕ
from_secs n = n * 1000000000

parse_header : Option Text → Option ℕ
parse_header none = none
parse_header (some value) = parse_u64 value

-- The doubling delay wraps at 64 bits, as in a build without overflow checks.
delay_or : ℕ → Option ℕ → ℕ
delay_or attempt none = from_millis (100 * (2 ^ attempt % 2 ^ 64) % 2 ^ 64)
delay_or attempt (some seconds) = from_secs seconds

unfoldable pub retry_delay : Response → ℕ → ℕ → ℕ
unfolding parse_header delay_or
retry_delay response attempt maximum =
    min (delay_or attempt (parse_header (response.header (bytes "retry-after")))) maximum

-- What a round of `retry` does with a response; the last argument is the rounds that follow.
retry_round : RetryPolicy → ℕ → Response → Client Response → Client Response
retry_round policy attempt response rest =
    if is_success response.status
    then pure response
    else if not (transient response.status) || (attempt + 1 == policy.max_attempts)
    then raise (http_status response.status)
    else do sleep (retry_delay response attempt policy.max_delay); rest

-- The `for attempt in 0..max_attempts` of `retry`; the first number is that of the rounds left.
retry_from : World → RetryPolicy → Request → ℕ → ℕ → Client Response
unfolding retry_round
retry_from w policy request zero attempt = raise transport
retry_from w policy request (suc left) attempt = do
  response ← send w request
  retry_round policy attempt response (retry_from w policy request left (attempt + 1))

unfoldable pub retry : World → RetryPolicy → Request → Client Response
unfolding retry_from
retry w policy request = retry_from w policy request policy.max_attempts 0
