-- ===== src/Sync/Import.antt =====
-- `importTransactions` of worker/repositories/transaction-sync-repository.ts.
pub mod Once
use mono_finance.Common.{Ident, ℕ, ◌+◌, ◌-◌, none, some, List, [], ◌∷◌, length, ◌==◌, if◌then◌else◌}
use mono_finance.Sync.Tables.{
  SyncTables, ClaimedAccount, TransactionSource, StoredTransaction, Transactions,
}

-- The row that an import binds.
abbrev pub stored : Ident → Ident → Ident → ℕ → TransactionSource → StoredTransaction
stored user_id account_id currency_code imported_at x = record {
  user_id = user_id;
  account_id = account_id;
  original_amount_minor = x.account_amount_minor;
  original_currency_code = currency_code;
  original_description = x.description;
  original_mcc = x.original_mcc;
  original_timestamp = x.occurred_at_epoch_seconds;
  direction = x.direction;
  imported_at = imported_at;
}

-- INSERT … ON CONFLICT(monobank_transaction_id) DO NOTHING: the rows changed, and the table.
unfoldable pub insert_or_ignore : Ident → StoredTransaction → Transactions → ℕ × Transactions
insert_or_ignore key row t = elim (t key) [
  | none ↦ (1, λ other. if other == key then some row else t other)
  | some _ ↦ (0, t)
]

-- The batch of `importTransactions`, with the sum of the changes.
unfoldable pub insert_all :
    (TransactionSource → StoredTransaction)
    → List TransactionSource
    → Transactions
    → ℕ × Transactions
unfolding insert_or_ignore
insert_all row [] t = (0, t)
insert_all row (x ∷ xs) t =
    let (changed, t') = insert_or_ignore x.provider_transaction_id (row x) t in
    let (count, t'') = insert_all row xs t' in (changed + count, t'')

pub record ImportResult : Type 0 where
  pub imported_count : ℕ
  pub skipped_duplicate_count : ℕ

unfoldable pub import_transactions :
    ClaimedAccount → ℕ → List TransactionSource → SyncTables → ImportResult × SyncTables
unfolding insert_all
import_transactions account imported_at [] t =
    (record { imported_count = 0; skipped_duplicate_count = 0 }, t)
import_transactions account imported_at (x ∷ xs) t =
    let (count, transactions) =
      insert_all (stored account.user_id account.account_id account.currency_code imported_at)
        (x ∷ xs) t.transactions in
    (
      record { imported_count = count; skipped_duplicate_count = length (x ∷ xs) - count },
      record t { transactions = transactions },
    )
