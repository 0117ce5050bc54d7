-- ===== src/Monobank.antt =====
-- The HTTP client of worker/monobank/client.ts: what a request to Monobank answers, and what it does to
-- the gate of worker/monobank/rate-limit.ts. The exchange itself and the decoding of its JSON are
-- the platform's and enter as their outcomes.
mod Tests
use mono_finance.Common.{
  Ident, ℕ, ◌+◌, ◌-◌, ◌/◌, Bool, true, false, ◌&&◌, ◌||◌, not, Option, none, some, leb, ◌==◌,
  if◌then◌else◌,
}
use mono_finance.Common.Int.{ℤ, pos}
use mono_finance.Common.Action.{Action, Result, ok, err, next, ◌>>=◌, ◌>>◌, throw_if}
use mono_finance.RateLimit.{Table, RateLimited, acquire, defer}
use mono_finance.Sync.Tables.{
  SyncErrorCode, unauthorized_token, rate_limit, remote_api_error, malformed_response, timeout,
  invalid_request,
}
use mono_finance.Sync.Window.{StatementRequest, is_invalid_request}

pub record MonobankApiError : Type 0 where
  pub code : SyncErrorCode
  pub retryable : Bool
  pub retry_after_seconds : Option ℕ
  pub status : Option ℕ

abbrev pub minimum_request_interval_seconds : ℕ
minimum_request_interval_seconds = 60

-- A `Retry-After` header as the platform reads it: `Math.ceil(Number(value))` where that is a finite
-- number that is not negative, and `Date.parse(value)` where that is a time.
pub record RetryAfter : Type 0 where
  pub seconds : Option ℕ
  pub date_milliseconds : Option ℕ

-- `Math.max(0, Math.ceil((retryAt - now) / 1_000))`
abbrev pub delay_until : Option ℕ → ℕ → ℕ
delay_until none now = minimum_request_interval_seconds
delay_until (some retry_at) now = (retry_at - now + 999) / 1_000

abbrev pub delay_of : RetryAfter → Option ℕ → ℕ → ℕ
delay_of header (some seconds) now = seconds
delay_of header none now = delay_until header.date_milliseconds now

unfoldable pub retry_after_seconds : Option RetryAfter → ℕ → ℕ
retry_after_seconds none now = minimum_request_interval_seconds
retry_after_seconds (some header) now = delay_of header header.seconds now

-- How the reading of a body or the exchange ends.
pub data Outcome (A : Type 0) : Type 0 where
  done : A → Outcome A
  aborted broken : Outcome A

pub record Response (J : Type 0) : Type 0 where
  pub status : ℕ
  pub retry_after : Option RetryAfter
  pub body : Outcome J

abbrev pub api_error : SyncErrorCode → Bool → Option ℕ → MonobankApiError
api_error code retryable status = record {
  code = code;
  retryable = retryable;
  retry_after_seconds = none;
  status = status;
}

-- `response.ok`
abbrev pub is_ok : ℕ → Bool
is_ok status = leb 200 status && leb status 299

module _ {J : Type 0} where
  abbrev pub decoded : Outcome J → Action Table MonobankApiError J
  decoded (done payload) t = (ok payload, t)
  decoded aborted t = (err (api_error timeout true none), t)
  decoded broken t = (err (api_error malformed_response false none), t)

  -- The tests of the status, in their order. `now` is the client's clock in milliseconds, `gate_now`
  -- the gate's in seconds.
  unfoldable pub answered : Ident → ℕ → ℕ → Response J → Action Table MonobankApiError J
  unfolding retry_after_seconds defer
  answered scope now gate_now r t =
      if r.status == 401 || r.status == 403
      then (err (api_error unauthorized_token false (some r.status)), t)
      else if r.status == 429
      then (let delay = retry_after_seconds r.retry_after now in
          (
            err (record (api_error rate_limit true (some r.status)) {
              retry_after_seconds = some delay;
            }),
            defer scope (pos delay) gate_now t,
          ))
      else if not (is_ok r.status)
      then (err (api_error remote_api_error (leb 500 r.status) (some r.status)), t)
      else decoded r.body t

  -- `requestJson`
  unfoldable pub request_json :
      Ident → ℕ → ℕ → Outcome (Response J) → Action Table MonobankApiError J
  unfolding answered
  request_json scope now gate_now (done r) t = answered scope now gate_now r t
  request_json scope now gate_now aborted t = (err (api_error timeout true none), t)
  request_json scope now gate_now broken t = (err (api_error remote_api_error true none), t)

-- The error that the gate throws.
abbrev pub of_gate : {A : Type 0} → Result RateLimited A × Table → Result MonobankApiError A × Table
of_gate (ok a, t) = (ok a, t)
of_gate (err e, t) = (
  err (record (api_error rate_limit true none) {
    retry_after_seconds = some e.retry_after_seconds;
  }),
  t,
)

-- A request behind the gate: `getClientInfo`, up to the parsing of what it answers.
unfoldable pub gated_request :
    {J : Type 0} → Ident → ℕ → ℕ → ℕ → Outcome (Response J) → Action Table MonobankApiError J
unfolding acquire request_json
gated_request scope acquired_at now gate_now fetched t =
    next (λ _. request_json scope now gate_now fetched)
      (of_gate (acquire scope minimum_request_interval_seconds acquired_at t))
