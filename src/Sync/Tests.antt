-- ===== src/Sync/Tests.antt =====
-- Runs of the synchronization of worker/services/transaction-sync-service.ts on small tables.
use mono_finance.Common.{
  Ident, ℕ, zero, suc, ◌==◌, ◌+◌, ◌≤◌, ◌≡◌, refl, ◌≢◌, ◌⊎◌, false, true, Option, none, some, List,
  [], ◌∷◌, All,
}
use mono_finance.Common.Money.{expense}
use mono_finance.Common.Int.{pos, negsuc}
use mono_finance.Common.Action.{ok, err}
use mathlib.Core.List.{Memᴰ}
use mono_finance.Sync.Window.{SyncWindow, next_transaction_sync_window}
use mono_finance.Sync.Window.Cycle.{after_window}
use mono_finance.Sync.Tables.{
  fail_window, idle, rate_limit, Account, SyncState, SyncTables, ClaimedAccount, TransactionSource,
  StoredTransaction,
}
use mono_finance.Sync.Claim.{
  Candidate, next_candidate, take_lease, claim_next, claimed, sync_lease_seconds,
}
use mono_finance.Sync.Claim.Attempts.{Granted, at_update}
use mono_finance.Sync.Claim.Lease.{
  leases, fails, run_all, IsExpired, IsHeld, lease_exclusion, claim_next_takes_lease,
}
use mono_finance.Sync.Claim.Fairness.{IsChoice, next_candidate-IsChoice}
use mono_finance.Sync.Import.{import_transactions, stored}
use mono_finance.Sync.Import.Once.{IsKnown, import_complete, import_again}
use mono_finance.Sync.Service.{
  MonobankClient, monobank_api_error, Clock, window_input, synchronize_account, maximum_timestamp,
}
use mono_finance.Sync.Service.Branches.{IsReleased, synchronize_account_releases}
use mono_finance.Sync.Service.Progress.{IsClaimOf, next_input, synchronize_account_success}
use mono_finance.Sync.Service.Newest.{IsNewestTime, maximum_timestamp_newest}
use mono_finance.Sync.Service.Claimed.{undisturbed, leased_row, claim_next-undisturbed}

abbrev card : Account
card = record {
  id = 1;
  user_id = 9;
  monobank_account_id = 101;
  currency_code = 980;
  is_active = true;
  created_at = 1_690_000_000;
}

abbrev jar : Account
jar = record card { id = 2; monobank_account_id = 102 }

-- The row of an account in the middle of its backfill.
abbrev resting : SyncState
resting = record {
  status = idle;
  last_attempt_at = some 1_709_990_000;
  last_successful_sync_at = some 1_709_990_002;
  last_synced_transaction_at = some 1_709_000_000;
  last_error_code = none;
  backfill_start_at = some 1_700_000_000;
  backfill_cursor_at = some 1_706_000_000;
  lease_expires_at = none;
}

abbrev states : Ident → Option SyncState
states zero = none
states (suc zero) = some resting
states (suc (suc zero)) = some (record resting { last_attempt_at = none })
states (suc (suc (suc _))) = none

abbrev tables : SyncTables
tables = record {
  accounts = card ∷ jar ∷ [];
  sync_state = states;
  transactions = λ key. none;
  windows = λ account from to. none;
}

abbrev now : ℕ
now = 1_710_000_000

lease_exclusion_example : now + sync_lease_seconds ≤ now + 120
unfolding take_lease run_all fail_window
lease_exclusion_example =
    lease_exclusion 1 now 0 (now + 120) 0 (leases 1 (now + 5) 0 ∷ fails 2 rate_limit ∷ []) tables
      refl (refl, (refl, tt)) refl

abbrev jar_candidate : Candidate
jar_candidate = record { account = jar; state = record resting { last_attempt_at = none } }

next_candidate-IsChoice_example :
    IsChoice (some 9) now states (card ∷ jar ∷ []) (some jar_candidate)
unfolding next_candidate
next_candidate-IsChoice_example = next_candidate-IsChoice (some 9) now states (card ∷ jar ∷ [])

abbrev claimed_jar : ClaimedAccount
claimed_jar = claimed jar_candidate 1_678_464_000

abbrev claimed_card : ClaimedAccount
claimed_card = claimed (record { account = card; state = resting }) 1_678_464_000

-- Another isolate leases the jar between the SELECT and the UPDATE of the first attempt.
abbrev rival : ℕ → SyncTables → SyncTables
rival zero t = t
rival (suc zero) t = t
rival (suc (suc _)) t = (take_lease 2 (now + 1) 1_678_464_000 t).1

-- The claim under that rival takes the card in its second attempt.
abbrev after_rival : SyncTables
after_rival = (claim_next rival none now 1_678_464_000 tables).1

claim_next_takes_lease_example :
    (attempt : Granted rival none now 1_678_464_000 tables claimed_card after_rival) × IsExpired now
      ((at_update attempt).sync_state 1)
    × IsHeld (now + sync_lease_seconds) (after_rival.sync_state 1)
    × ((b : Ident) → b ≢ 1 → after_rival.sync_state b ≡ (at_update attempt).sync_state b)
unfolding claim_next next_candidate take_lease
claim_next_takes_lease_example =
    claim_next_takes_lease rival none now 1_678_464_000 tables after_rival claimed_card refl

claim_next-undisturbed_example :
    let (account, t') = claim_next undisturbed none now 1_678_464_000 tables in
    (account ≡ some claimed_jar)
    × (t'.sync_state 2 ≡ some (leased_row jar_candidate.state now 1_678_464_000))
    × IsClaimOf claimed_jar (leased_row jar_candidate.state now 1_678_464_000)
unfolding next_candidate
claim_next-undisturbed_example =
    claim_next-undisturbed none now 1_678_464_000 tables jar_candidate refl

abbrev coffee : TransactionSource
coffee = record {
  provider_transaction_id = 501;
  account_amount_minor = negsuc 5999;
  description = 11;
  original_mcc = pos 5814;
  occurred_at_epoch_seconds = 1_705_000_000;
  direction = expense;
}

-- The same transaction twice, and another.
abbrev statement : List TransactionSource
statement =
    coffee
    ∷ record coffee { provider_transaction_id = 502; occurred_at_epoch_seconds = 1_705_000_100 }
    ∷ coffee
    ∷ []

import_counts : (import_transactions claimed_jar 7 statement tables).0.imported_count ≡ 2
unfolding import_transactions
import_counts = refl

import_complete_example :
    let (result, t') = import_transactions claimed_jar 7 statement tables in
    (result.imported_count + result.skipped_duplicate_count ≡ 3)
    × All (IsKnown t'.transactions) statement
    × ((k : Ident) (r : StoredTransaction) → none ≡ some r → t'.transactions k ≡ some r)
    × ((k : Ident) (r : StoredTransaction)
        → t'.transactions k ≡ some r
        → (none ≡ some r)
          ⊎ ((x : TransactionSource) × Memᴰ x statement
              × (x.provider_transaction_id ≡ k)
              × (r ≡ stored 9 2 980 7 x)))
import_complete_example = import_complete claimed_jar 7 statement tables

import_again_example :
    let t' = (import_transactions claimed_jar 7 statement tables).1 in
    let (result, t'') = import_transactions claimed_jar 8 statement t' in
    (result.imported_count ≡ 0)
    × (result.skipped_duplicate_count ≡ 3)
    × (t''.transactions ≡ t'.transactions)
import_again_example = import_again claimed_jar claimed_jar 7 8 statement tables

abbrev clock : Clock
clock = record { entry = now; import = now + 1; completion = now + 2 }

-- The provider answers for the account 102 and refuses for any other.
abbrev client : MonobankClient
client account w = elim (account == 102) [
  | true ↦ ok statement
  | false ↦ err (monobank_api_error rate_limit)
]

abbrev busy : SyncTables
busy = (claim_next undisturbed none now 1_678_464_000 tables).1

synchronize_account_releases_example :
    let t' = (synchronize_account (λ t. t) client clock claimed_jar tables).1 in
    IsReleased (t'.sync_state 2)
    × ((b : Ident) → b ≢ 2 → states b ≡ states b → t'.sync_state b ≡ states b)
synchronize_account_releases_example =
    synchronize_account_releases (λ t. t) client clock claimed_jar tables

abbrev jar_window : SyncWindow
jar_window = record { from_epoch_seconds = 1_703_318_000; to_epoch_seconds = 1_706_000_000 }

jar-IsClaimOf : IsClaimOf claimed_jar jar_candidate.state
jar-IsClaimOf = record { cursor = refl; start = refl; last = refl }

synchronize_account_success_example :
    let t' = (synchronize_account (λ t. t) client clock claimed_jar tables).1 in
    (s' : SyncState) × (t'.sync_state 2 ≡ some s')
    × ((a : Account) (start later : ℕ)
        → next_input a s' start later
          ≡ after_window jar_window
              (maximum_timestamp (some 1_709_000_000) statement, later)
              (window_input claimed_jar now))
    × (t'.windows 2 1_703_318_000 1_706_000_000 ≡ some (now + 2))
    × All (IsKnown t'.transactions) statement
unfolding next_transaction_sync_window
synchronize_account_success_example =
    synchronize_account_success (λ t. t) client clock claimed_jar tables jar_window statement
      jar_candidate.state refl refl refl jar-IsClaimOf

maximum_timestamp_newest_example :
    IsNewestTime (some 1_704_000_000) statement (maximum_timestamp (some 1_704_000_000) statement)
maximum_timestamp_newest_example = maximum_timestamp_newest (some 1_704_000_000) statement
