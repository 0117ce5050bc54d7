-- ===== src/Monobank/Tests.antt =====
-- Runs of a request to Monobank (worker/monobank/client.ts).
use mono_finance.Common.{ℕ, true, none, some, ◌≡◌, refl}
use mono_finance.Common.Action.{err}
use mono_finance.RateLimit.{Table}
use mono_finance.Sync.Tables.{rate_limit}
use mono_finance.Monobank.{Response, done, broken, gated_request}

-- A 429 without a header, for the first request of a scope: the gate stays shut for a minute.
abbrev refused : Response ℕ
refused = record { status = 429; retry_after = none; body = broken }

abbrev no_rows : Table
no_rows _ = none

gated_request-refused :
    (gated_request 0 1_000 1_000_500 1_001 (done refused) no_rows).0
    ≡ err (record {
      code = rate_limit;
      retryable = true;
      retry_after_seconds = some 60;
      status = some 429;
    })
unfolding gated_request
gated_request-refused = refl

gate-deferred : (gated_request 0 1_000 1_000_500 1_001 (done refused) no_rows).1 0 ≡ some 1_061
unfolding gated_request
gate-deferred = refl
