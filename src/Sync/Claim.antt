-- ===== src/Sync/Claim.antt =====
-- Which account is synchronized next, and the lease on it: `nextCandidate` and `claimNext` of
-- worker/repositories/transaction-sync-repository.ts.
pub mod Attempts
pub mod Lease
pub mod Fairness
use mono_finance.Common.{
  Ident, ℕ, suc, zero, ◌+◌, Bool, true, false, ◌&&◌, ◌||◌, Option, none, some, List, [], ◌∷◌, leb,
  ltb, ◌==◌, if◌then◌else◌, get_or,
}
use mono_finance.Sync.Tables.{running, Account, SyncState, SyncTables, ClaimedAccount, put_state}

abbrev pub sync_lease_seconds : ℕ
sync_lease_seconds = 120

-- `lease_expires_at IS NULL OR lease_expires_at <= now`
abbrev pub is_free : ℕ → Option ℕ → Bool
is_free now none = true
is_free now (some expires) = leb expires now

-- `? IS NULL OR accounts.user_id = ?`
abbrev pub owned_by : Option Ident → Ident → Bool
owned_by none user_id = true
owned_by (some user) user_id = user_id == user

-- A row of the join of `sync_state` and `accounts`.
pub record Candidate : Type 0 where
  pub account : Account
  pub state : SyncState

unfoldable pub is_candidate : Option Ident → ℕ → Candidate → Bool
is_candidate user now c =
    c.account.is_active && (owned_by user c.account.user_id && is_free now c.state.lease_expires_at)

-- ORDER BY COALESCE(last_attempt_at, 0), accounts.created_at, accounts.id
unfoldable pub precedes : Candidate → Candidate → Bool
precedes c d =
    let a = get_or c.state.last_attempt_at 0 in
    let b = get_or d.state.last_attempt_at 0 in
    ltb a b
    || (a == b
        && (ltb c.account.created_at d.account.created_at
            || (c.account.created_at == d.account.created_at && ltb c.account.id d.account.id)))

-- The first row of the order, `best` so far.
abbrev pub earlier : Candidate → Option Candidate → Option Candidate
earlier c none = some c
earlier c (some best) = if precedes best c then some best else some c

-- `nextCandidate`: the WHERE clause on each account with a sync row, ORDER BY … LIMIT 1.
unfoldable pub next_candidate :
    Option Ident → ℕ → (Ident → Option SyncState) → List Account → Option Candidate
unfolding is_candidate precedes
next_candidate user now states [] = none
next_candidate user now states (a ∷ rest) =
    let best = next_candidate user now states rest in
    elim (states a.id) [
      | none ↦ best
      | some s ↦
          if is_candidate user now (record { account = a; state = s })
          then earlier (record { account = a; state = s }) best
          else best
    ]

-- The UPDATE of `claimNext`: whether it changed a row, and the tables after it.
unfoldable pub take_lease : Ident → ℕ → ℕ → SyncTables → Bool × SyncTables
take_lease account_id now historical_start_at t = elim (t.sync_state account_id) [
  | none ↦ (false, t)
  | some s ↦
      if is_free now s.lease_expires_at
      then (
        true,
        put_state account_id
            (record s {
              status = running;
              last_attempt_at = some now;
              backfill_start_at = some (get_or s.backfill_start_at historical_start_at);
              lease_expires_at = some (now + sync_lease_seconds);
            })
            t,
      )
      else (false, t)
]

abbrev pub claimed : Candidate → ℕ → ClaimedAccount
claimed c historical_start_at = record {
  account_id = c.account.id;
  backfill_cursor_at = c.state.backfill_cursor_at;
  backfill_start_at = get_or c.state.backfill_start_at historical_start_at;
  currency_code = c.account.currency_code;
  last_synced_transaction_at = c.state.last_synced_transaction_at;
  monobank_account_id = c.account.monobank_account_id;
  user_id = c.account.user_id;
}

-- The loop of `claimNext`, by the attempts left. Between the SELECT and the UPDATE of an attempt
-- the tables may be changed by other Worker isolates: `others n` is what they do in the attempt
-- that leaves `n` more.
unfoldable pub claim_attempts :
    (ℕ → SyncTables → SyncTables)
    → ℕ
    → Option Ident
    → ℕ
    → ℕ
    → SyncTables
    → Option ClaimedAccount × SyncTables
claim_attempts others zero user now start t = (none, t)
claim_attempts others (suc n) user now start t =
    elim (next_candidate user now t.sync_state t.accounts) [
      | none ↦ (none, t)
      | some c ↦
          let (changed, t') = take_lease c.account.id now start (others n t) in
          elim changed [
            | true ↦ (some (claimed c start), t')
            | false ↦ claim_attempts others n user now start t'
          ]
    ]

unfoldable pub claim_next :
    (ℕ → SyncTables → SyncTables)
    → Option Ident
    → ℕ
    → ℕ
    → SyncTables
    → Option ClaimedAccount × SyncTables
unfolding claim_attempts
claim_next others user now start t = claim_attempts others 3 user now start t
