-- ===== src/RateLimit/Spacing.antt =====
-- What the gate guarantees to the provider (requests are spaced) and to the caller (a refusal says
-- how long to wait), for worker/monobank/rate-limit.ts over its D1 store.
use mono_finance.Common.{
  Ident, ℕ, ◌+◌, ◌≤◌, ◌≡◌, ◌↔◌, Option, none, some, List, [], ◌∷◌, arith, Option-cases, inl, inr,
}
use mono_finance.Common.Int.{ℤ, pos_part}
use mono_finance.Common.Action.{ok, err}
use mono_finance.RateLimit.{
  Table, RateLimited, acquire, defer, Call, acquires, defers, perform, perform_all,
}

-- The row is there and names a time that is no earlier.
abbrev pub IsNotBefore : ℕ → Option ℕ → Type 0
IsNotBefore at none = ⊥
IsNotBefore at (some next) = at ≤ next

-- No call of the gate, on this scope or another, makes a scope open earlier.
perform-IsNotBefore :
    (c : Call) (scope : Ident) (at : ℕ) (t : Table)
    → IsNotBefore at (t scope)
    → IsNotBefore at (perform c t scope)
unfolding perform
perform-IsNotBefore (acquires s interval now) scope at t h = ground arith
perform-IsNotBefore (defers s retry_after now) scope at t h = ground arith

perform_all-IsNotBefore :
    (cs : List Call) (scope : Ident) (at : ℕ) (t : Table)
    → IsNotBefore at (t scope)
    → IsNotBefore at (perform_all cs t scope)
unfolding perform_all
perform_all-IsNotBefore [] scope at t h = h
perform_all-IsNotBefore (c ∷ cs) scope at t h =
    perform_all-IsNotBefore cs scope at (perform c t) (perform-IsNotBefore c scope at t h)

acquire_closes :
    (scope : Ident) (interval now : ℕ) (t : Table)
    → (acquire scope interval now t).0 ≡ ok tt
    → IsNotBefore (now + interval) ((acquire scope interval now t).1 scope)
unfolding acquire
acquire_closes scope interval now t h = ground arith

acquire_open :
    (scope : Ident) (interval now at : ℕ) (t : Table)
    → IsNotBefore at (t scope)
    → (acquire scope interval now t).0 ≡ ok tt
    → at ≤ now
unfolding acquire
acquire_open scope interval now at t h granted = ground arith

-- Two requests that the gate lets through on one scope, with any calls of any isolates between
-- them, are apart by at least the interval that the first one asked for.
pub acquire_spacing :
    (scope : Ident) (interval later now now' : ℕ) (between : List Call) (t : Table)
    → (acquire scope interval now t).0 ≡ ok tt
    → (acquire scope later now' (perform_all between (acquire scope interval now t).1)).0 ≡ ok tt
    → now + interval ≤ now'
acquire_spacing scope interval later now now' between t first second =
    acquire_open scope later now' (now + interval) (perform_all between _)
      (perform_all-IsNotBefore between scope (now + interval) _
        (acquire_closes scope interval now t first))
      second

acquire_refused :
    (scope : Ident) (interval now : ℕ) (e : RateLimited) (t t' : Table)
    → acquire scope interval now t ≡ (err e, t')
    → (t' ≡ t) × (t scope ≡ some (now + e.retry_after_seconds)) × (1 ≤ e.retry_after_seconds)
unfolding acquire
acquire_refused scope interval now e t t' h = elim (Option-cases (t scope)) [
  | inl absent ↦ ground arith
  | inr (next, present) ↦ (ground arith, ground arith, ground arith)
]

acquire_iff :
    (scope : Ident) (interval now at : ℕ) (t : Table)
    → t scope ≡ some at
    → ((acquire scope interval now t).0 ≡ ok tt) ↔ (at ≤ now)
unfolding acquire
acquire_iff scope interval now at t h = (λ granted. ground arith, λ open_now. ground arith)

-- A refusal changes nothing and is exact: a request `wait` seconds later, with no call in
-- between, is let through exactly when `wait` is at least the announced number of seconds, and
-- that number is positive.
pub acquire_retry_after :
    (scope : Ident) (interval later now wait : ℕ) (e : RateLimited) (t t' : Table)
    → acquire scope interval now t ≡ (err e, t')
    → (t' ≡ t)
      × (1 ≤ e.retry_after_seconds)
      × (((acquire scope later (now + wait) t').0 ≡ ok tt) ↔ (e.retry_after_seconds ≤ wait))
acquire_retry_after scope interval later now wait e t t' h =
    let (same, row, positive) = acquire_refused scope interval now e t t' h in
    let (to, from) = acquire_iff scope later (now + wait) (now + e.retry_after_seconds) t row in
    (same, positive, rw same ((λ granted. omega (arith, to granted)), λ enough. from (omega arith)))

defer_closes :
    (scope : Ident) (retry_after : ℤ) (now : ℕ) (t : Table)
    → IsNotBefore (now + pos_part retry_after) (defer scope retry_after now t scope)
unfolding defer
defer_closes scope retry_after now t = ground arith

-- After the provider asked for a delay, no request goes through on the scope before it has passed,
-- whatever calls come between; a negative delay counts as none.
pub defer_is_respected :
    (scope : Ident) (retry_after : ℤ) (interval now now' : ℕ) (between : List Call) (t : Table)
    → (acquire scope interval now' (perform_all between (defer scope retry_after now t))).0 ≡ ok tt
    → now + pos_part retry_after ≤ now'
defer_is_respected scope retry_after interval now now' between t granted =
    acquire_open scope interval now' _ (perform_all between _)
      (perform_all-IsNotBefore between scope (now + pos_part retry_after) _
        (defer_closes scope retry_after now t))
      granted
