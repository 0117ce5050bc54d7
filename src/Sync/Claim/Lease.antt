-- ===== src/Sync/Claim/Lease.antt =====
-- The lease of `claimNext` (worker/repositories/transaction-sync-repository.ts) under any
-- interleaving of the statements that Worker isolates run on the tables.
use mono_finance.Common.{
  Ident, ℕ, ◌+◌, ◌≤◌, ◌≡◌, ◌≢◌, refl, Bool, true, false, Option, none, some, List, [], ◌∷◌, arith,
  ◌==◌, All, ap,
}
use mono_finance.Sync.Window.{SyncWindow}
use mono_finance.Sync.Tables.{
  SyncErrorCode, SyncState, SyncTables, ClaimedAccount, TransactionSource, complete_window,
  complete_empty_window, fail_window,
}
use mono_finance.Sync.Claim.{sync_lease_seconds, take_lease, claim_next}
use mono_finance.Sync.Claim.Attempts.{
  IsNotBefore, IsOver, Granted, at_update, first_attempt, claim_attempts-Granted,
}
use mono_finance.Sync.Import.{import_transactions}

-- One statement (or batch, which D1 runs as one) on the tables.
pub data Statement : Type 0 where
  leases : (account_id : Ident) (now historical_start_at : ℕ) → Statement
  imports : ClaimedAccount → (imported_at : ℕ) → List TransactionSource → Statement
  completes :
      (account_id : Ident) (cursor : ℕ) → SyncWindow → (last : Option ℕ) (now : ℕ) → Statement
  completes_empty : (account_id : Ident) → Statement
  fails : (account_id : Ident) → SyncErrorCode → Statement

unfoldable pub run : Statement → SyncTables → SyncTables
run (leases a now start) t = (take_lease a now start t).1
run (imports account at xs) t = (import_transactions account at xs t).1
run (completes a cursor w last now) t = complete_window a cursor w last now t
run (completes_empty a) t = complete_empty_window a t
run (fails a code) t = fail_window a code t

unfoldable pub run_all : List Statement → SyncTables → SyncTables
unfolding run
run_all [] t = t
run_all (s ∷ ss) t = run_all ss (run s t)

-- The statements that give a lease back.
abbrev pub releases : Ident → Statement → Bool
releases a (completes b _ _ _ _) = b == a
releases a (completes_empty b) = b == a
releases a (fails b _) = b == a
releases a _ = false

-- The account is leased until `at` or later.
abbrev pub IsHeld : ℕ → Option SyncState → Type 0
IsHeld at none = ⊥
IsHeld at (some s) = IsNotBefore at s.lease_expires_at

import_keeps_states :
    (account : ClaimedAccount) (at : ℕ) (xs : List TransactionSource) (t : SyncTables)
    → (import_transactions account at xs t).1.sync_state ≡ t.sync_state
unfolding import_transactions
import_keeps_states account at [] t = refl
import_keeps_states account at (x ∷ xs) t = refl

take_lease-IsHeld :
    (b a : Ident) (now start at : ℕ) (t : SyncTables)
    → IsHeld at (t.sync_state a)
    → IsHeld at ((take_lease b now start t).1.sync_state a)
unfolding take_lease
take_lease-IsHeld b a now start at t h = ground arith

run-IsHeld :
    (s : Statement) (a : Ident) (at : ℕ) (t : SyncTables)
    → releases a s ≡ false
    → IsHeld at (t.sync_state a)
    → IsHeld at ((run s t).sync_state a)
unfolding run complete_window complete_empty_window fail_window
run-IsHeld (leases b now start) a at t keep h = take_lease-IsHeld b a now start at t h
run-IsHeld (imports account now xs) a at t keep h = rw (import_keeps_states account now xs t) h
run-IsHeld (completes b cursor w last now) a at t keep h = ground arith
run-IsHeld (completes_empty b) a at t keep h = ground arith
run-IsHeld (fails b code) a at t keep h = ground arith

run_all-IsHeld :
    (ss : List Statement) (a : Ident) (at : ℕ) (t : SyncTables)
    → All (λ s. releases a s ≡ false) ss
    → IsHeld at (t.sync_state a)
    → IsHeld at ((run_all ss t).sync_state a)
unfolding run_all
run_all-IsHeld [] a at t keep h = h
run_all-IsHeld (s ∷ ss) a at t keep h =
    run_all-IsHeld ss a at (run s t) keep.1 (run-IsHeld s a at t keep.0 h)

take_lease_holds :
    (a : Ident) (now start : ℕ) (t : SyncTables)
    → (take_lease a now start t).0 ≡ true
    → IsHeld (now + sync_lease_seconds) ((take_lease a now start t).1.sync_state a)
unfolding take_lease
take_lease_holds a now start t h = ground arith

take_lease_expired :
    (a : Ident) (now start at : ℕ) (t : SyncTables)
    → IsHeld at (t.sync_state a)
    → (take_lease a now start t).0 ≡ true
    → at ≤ now
unfolding take_lease
take_lease_expired a now start at t h granted = ground arith

-- The row is there, and no lease on it still runs.
abbrev pub IsExpired : ℕ → Option SyncState → Type 0
IsExpired now none = ⊥
IsExpired now (some s) = IsOver now s.lease_expires_at

take_lease-IsExpired :
    (a : Ident) (now start : ℕ) (t : SyncTables)
    → (take_lease a now start t).0 ≡ true
    → IsExpired now (t.sync_state a)
unfolding take_lease
take_lease-IsExpired a now start t h = ground arith

-- Two leases of one account between which nobody gives it back are 120 seconds apart or more,
-- whatever else any isolate runs between them and whatever its clock says.
pub lease_exclusion :
    (a : Ident) (now start now' start' : ℕ) (between : List Statement) (t : SyncTables)
    → (take_lease a now start t).0 ≡ true
    → All (λ s. releases a s ≡ false) between
    → (take_lease a now' start' (run_all between (take_lease a now start t).1)).0 ≡ true
    → now + sync_lease_seconds ≤ now'
lease_exclusion a now start now' start' between t first keep second =
    take_lease_expired a now' start' (now + sync_lease_seconds) (run_all between _)
      (run_all-IsHeld between a _ _ keep (take_lease_holds a now start t first)) second

take_lease_elsewhere :
    (a b : Ident) (now start : ℕ) (t : SyncTables)
    → b ≢ a
    → (take_lease a now start t).1.sync_state b ≡ t.sync_state b
unfolding take_lease
take_lease_elsewhere a b now start t other = ground arith

-- A claim that names an account has won its lease in one of its three attempts: the account is the
-- one that the attempt's SELECT found; when the attempt's UPDATE ran, on the tables as the other
-- isolates had left them after that SELECT, the account's row was there with no lease or with one that
-- had run out; afterwards the account is leased for 120 seconds or more from the claim's reading of the
-- clock, and every other account's row is as it was at that UPDATE. Attempts before it changed
-- nothing, since the account that each had found was taken meanwhile or its row was gone.
pub claim_next_takes_lease :
    (others : ℕ → SyncTables → SyncTables) (user : Option Ident) (now start : ℕ) (t t' : SyncTables)
    (account : ClaimedAccount)
    → claim_next others user now start t ≡ (some account, t')
    → (attempt : Granted others user now start t account t') × IsExpired now
        ((at_update attempt).sync_state account.account_id)
      × IsHeld (now + sync_lease_seconds) (t'.sync_state account.account_id)
      × ((b : Ident) → b ≢ account.account_id → t'.sync_state b ≡ (at_update attempt).sync_state b)
unfolding claim_next
claim_next_takes_lease others user now start t t' account h =
    let attempt = claim_attempts-Granted others user now start t t' account 2 t first_attempt h in
    let u = at_update attempt in
    let granted = ap (λ p. p.0) attempt.granted in
    let after = ap (λ p. p.1) attempt.granted in
    (
      attempt,
      take_lease-IsExpired account.account_id now start u granted,
      rw after at (take_lease_holds account.account_id now start u granted),
      λ b other. rw after at (take_lease_elsewhere account.account_id b now start u other),
    )
