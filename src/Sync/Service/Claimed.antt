-- ===== src/Sync/Service/Claimed.antt =====
-- A run that nobody disturbs: from the claim to the stored statement
-- (worker/services/transaction-sync-service.ts).
use mono_finance.Common.{Ident, ℕ, ◌+◌, ◌≡◌, refl, true, Option, none, some, get_or, arith}
use mono_finance.Sync.Tables.{SyncTables, SyncState, running}
use mono_finance.Sync.Claim.{
  sync_lease_seconds, Candidate, claimed, next_candidate, take_lease, claim_next, is_free,
}
use mono_finance.Sync.Claim.Attempts.{attempt_taken, IsOver}
use mono_finance.Sync.Claim.Fairness.{next_candidate-IsChoice, IsChoice}
use mono_finance.Sync.Service.Progress.{IsClaimOf}

abbrev pub undisturbed : ℕ → SyncTables → SyncTables
undisturbed n t = t

-- The row after the lease was taken.
abbrev pub leased_row : SyncState → ℕ → ℕ → SyncState
leased_row s now start = record s {
  status = running;
  last_attempt_at = some now;
  backfill_start_at = some (get_or s.backfill_start_at start);
  lease_expires_at = some (now + sync_lease_seconds);
}

take_lease_free :
    (a : Ident) (now start : ℕ) (t : SyncTables) (s : SyncState)
    → t.sync_state a ≡ some s
    → is_free now s.lease_expires_at ≡ true
    → ((take_lease a now start t).0 ≡ true)
      × ((take_lease a now start t).1.sync_state a ≡ some (leased_row s now start))
unfolding take_lease
take_lease_free a now start t s row free = (ground arith, ground arith)

IsOver-is_free : (now : ℕ) (lease : Option ℕ) → IsOver now lease → is_free now lease ≡ true
IsOver-is_free now none h = refl
IsOver-is_free now (some expires) h = ground arith

-- With nobody in between, the first attempt of a claim succeeds for the account that the SELECT
-- found, and the row that it leaves holds the progress that is handed to the service.
pub claim_next-undisturbed :
    (user : Option Ident) (now start : ℕ) (t : SyncTables) (c : Candidate)
    → next_candidate user now t.sync_state t.accounts ≡ some c
    → let (account, t') = claim_next undisturbed user now start t in
      (account ≡ some (claimed c start))
      × (t'.sync_state c.account.id ≡ some (leased_row c.state now start))
      × IsClaimOf (claimed c start) (leased_row c.state now start)
unfolding claim_next
claim_next-undisturbed user now start t c found =
    let choice : IsChoice user now t.sync_state t.accounts (some c) =
      rw found at (next_candidate-IsChoice user now t.sync_state t.accounts) in
    let (granted, row) =
      take_lease_free c.account.id now start t c.state choice.1
        (IsOver-is_free now c.state.lease_expires_at choice.2.2) in
    rw (attempt_taken undisturbed 2 user now start t c found granted)
      (refl, row, record { cursor = refl; start = refl; last = refl })
