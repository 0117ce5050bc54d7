-- ===== src/RateLimit.antt =====
-- The gate in front of the Monobank Personal API: worker/monobank/rate-limit.ts, over the table of
-- worker/repositories/monobank-rate-limit-repository.ts (`monobank_api_rate_limits`, keyed by scope).
-- The columns `created_at` and `updated_at`, which nothing reads, are left out.
pub mod Spacing
mod Tests
use mono_finance.Common.{
  Ident, ℕ, ◌+◌, ◌-◌, max, Bool, true, false, Option, none, some, List, [], ◌∷◌, leb, ◌==◌,
  if◌then◌else◌, get_or,
}
use mono_finance.Common.Int.{ℤ, pos_part}
use mono_finance.Common.Action.{ok, err, Action}

-- `next_allowed_at` of each scope that has a row.
abbrev pub Table : Type 0
Table = Ident → Option ℕ

-- A row written under its primary key.
abbrev pub write : Ident → ℕ → Table → Table
write scope at t = λ other. if other == scope then some at else t other

pub record Reservation : Type 0 where
  pub acquired : Bool
  pub next_allowed_at : ℕ

-- The first statement of `reserve`: insert, or update where the row's time has come, RETURNING the
-- new time; nothing is returned where the WHERE clause fails.
upsert_reservation : Ident → ℕ → ℕ → Table → Option ℕ × Table
upsert_reservation scope now interval t = elim (t scope) [
  | none ↦ (some (now + interval), write scope (now + interval) t)
  | some next ↦
      if leb next now then (some (now + interval), write scope (now + interval) t) else (none, t)
]

unfoldable pub reserve : Ident → ℕ → ℕ → Table → Reservation × Table
unfolding upsert_reservation
reserve scope now interval t =
    let (reserved, t') = upsert_reservation scope now interval t in
    elim reserved [
      | some next ↦ (record { acquired = true; next_allowed_at = next }, t')
      | none ↦
          (record { acquired = false; next_allowed_at = get_or (t' scope) (now + interval) }, t')
    ]

-- `defer` of the store: insert, or keep the later of the two times.
unfoldable pub defer_until : Ident → ℕ → Table → Table
defer_until scope at t = elim (t scope) [
  | none ↦ write scope at t
  | some next ↦ write scope (max next at) t
]

-- The error that `acquire` throws: code `rate_limit`, retryable, with the seconds to wait.
pub record RateLimited : Type 0 where
  pub retry_after_seconds : ℕ

-- The clock is read once, at `now`. Under `max` the truncated difference is the source's.
unfoldable pub acquire : Ident → ℕ → ℕ → Action Table RateLimited (Unit {0})
unfolding reserve
acquire scope interval now t =
    let (reservation, t') = reserve scope now interval t in
    if reservation.acquired
    then (ok tt, t')
    else (err (record { retry_after_seconds = max 1 (reservation.next_allowed_at - now) }), t')

-- The delay is a `number` that may be negative: `Math.max(0, …)` is its positive part.
unfoldable pub defer : Ident → ℤ → ℕ → Table → Table
unfolding defer_until
defer scope retry_after now t = defer_until scope (now + pos_part retry_after) t

-- Calls of the gate by any number of Worker isolates, in the order in which D1 runs them. Each call
-- has its own clock reading: the readings of different isolates need not agree.
pub data Call : Type 0 where
  acquires : (scope : Ident) (interval now : ℕ) → Call
  defers : (scope : Ident) (retry_after : ℤ) (now : ℕ) → Call

unfoldable pub perform : Call → Table → Table
unfolding acquire defer
perform (acquires scope interval now) t = (acquire scope interval now t).1
perform (defers scope retry_after now) t = defer scope retry_after now t

unfoldable pub perform_all : List Call → Table → Table
unfolding perform
perform_all [] t = t
perform_all (c ∷ cs) t = perform_all cs (perform c t)
