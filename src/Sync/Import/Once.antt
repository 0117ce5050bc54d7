-- ===== src/Sync/Import/Once.antt =====
-- Importing is idempotent and never rewrites a row: `importTransactions` of worker/repositories/
-- transaction-sync-repository.ts.
use mono_finance.Common.{
  Ident, ℕ, ◌+◌, ◌-◌, ◌≤◌, ◌≡◌, refl, some, List, [], ◌∷◌, length, arith, All, is_none, false,
  Option-cases, inl, inr, sym, ◌⊎◌,
}
use mathlib.Core.Bool.{false≢true}
use mathlib.Core.List.{Memᴰ}
use mono_finance.Sync.Tables.{
  SyncTables, ClaimedAccount, TransactionSource, StoredTransaction, Transactions,
}
use mono_finance.Sync.Import.{insert_or_ignore, insert_all, import_transactions, stored}

-- A row is stored under the key.
abbrev pub IsKnown : Transactions → TransactionSource → Type 0
IsKnown t x = is_none (t x.provider_transaction_id) ≡ false

insert_or_ignore_keeps :
    (key k : Ident) (row r : StoredTransaction) (t : Transactions)
    → t k ≡ some r
    → (insert_or_ignore key row t).1 k ≡ some r
unfolding insert_or_ignore
insert_or_ignore_keeps key k row r t h = ground arith

insert_all_keeps :
    (row : TransactionSource → StoredTransaction) (xs : List TransactionSource) (k : Ident)
    (r : StoredTransaction) (t : Transactions)
    → t k ≡ some r
    → (insert_all row xs t).1 k ≡ some r
unfolding insert_all
insert_all_keeps row [] k r t h = h
insert_all_keeps row (x ∷ xs) k r t h =
    insert_all_keeps row xs k r _ (insert_or_ignore_keeps x.provider_transaction_id k (row x) r t h)

insert_or_ignore-le :
    (key : Ident) (row : StoredTransaction) (t : Transactions) → (insert_or_ignore key row t).0 ≤ 1
unfolding insert_or_ignore
insert_or_ignore-le key row t = ground arith

insert_all-le-length :
    (row : TransactionSource → StoredTransaction) (xs : List TransactionSource) (t : Transactions)
    → (insert_all row xs t).0 ≤ length xs
unfolding insert_all
insert_all-le-length row [] t = omega arith
insert_all-le-length row (x ∷ xs) t =
    let t' = (insert_or_ignore x.provider_transaction_id (row x) t).1 in
    omega (
      arith,
      insert_all-le-length row xs t',
      insert_or_ignore-le x.provider_transaction_id (row x) t,
    )

insert_or_ignore-IsKnown :
    (x : TransactionSource) (row : StoredTransaction) (t : Transactions)
    → IsKnown (insert_or_ignore x.provider_transaction_id row t).1 x
unfolding insert_or_ignore
insert_or_ignore-IsKnown x row t = ground arith

insert_all_keeps-IsKnown :
    (row : TransactionSource → StoredTransaction) (xs : List TransactionSource)
    (x : TransactionSource) (t : Transactions)
    → IsKnown t x
    → IsKnown (insert_all row xs t).1 x
insert_all_keeps-IsKnown row xs x t h = elim (Option-cases (t x.provider_transaction_id)) [
  | inl missing ↦ absurd (false≢true (sym (rw missing at h)))
  | inr (r, found) ↦ rw (insert_all_keeps row xs x.provider_transaction_id r t found)
]

insert_all-IsKnown :
    (row : TransactionSource → StoredTransaction) (xs : List TransactionSource) (t : Transactions)
    → All (IsKnown (insert_all row xs t).1) xs
unfolding insert_all
insert_all-IsKnown row [] t = tt
insert_all-IsKnown row (x ∷ xs) t =
    let t' = (insert_or_ignore x.provider_transaction_id (row x) t).1 in
    (
      insert_all_keeps-IsKnown row xs x t' (insert_or_ignore-IsKnown x (row x) t),
      insert_all-IsKnown row xs t',
    )

insert_or_ignore_known :
    (x : TransactionSource) (row : StoredTransaction) (t : Transactions)
    → IsKnown t x
    → insert_or_ignore x.provider_transaction_id row t ≡ (0, t)
unfolding insert_or_ignore
insert_or_ignore_known x row t h = ground arith

insert_all_known :
    (row : TransactionSource → StoredTransaction) (xs : List TransactionSource) (t : Transactions)
    → All (IsKnown t) xs
    → insert_all row xs t ≡ (0, t)
unfolding insert_all
insert_all_known row [] t h = refl
insert_all_known row (x ∷ xs) t h =
    rw (insert_or_ignore_known x (row x) t h.0) (rw (insert_all_known row xs t h.1))

insert_or_ignore_origin :
    (key k : Ident) (row r : StoredTransaction) (t : Transactions)
    → (insert_or_ignore key row t).1 k ≡ some r
    → (t k ≡ some r) ⊎ ((key ≡ k) × (r ≡ row))
unfolding insert_or_ignore
insert_or_ignore_origin key k row r t h = ground arith

-- The row that is found under a key after the inserts.
insert_all_origin :
    (row : TransactionSource → StoredTransaction) (xs : List TransactionSource) (k : Ident)
    (r : StoredTransaction) (t : Transactions)
    → (insert_all row xs t).1 k ≡ some r
    → (t k ≡ some r)
      ⊎ ((x : TransactionSource) × Memᴰ x xs × (x.provider_transaction_id ≡ k) × (r ≡ row x))
unfolding insert_all
insert_all_origin row [] k r t h = inl h
insert_all_origin row (x ∷ xs) k r t h = elim (insert_all_origin row xs k r _ h) [
  | inl before ↦ elim (insert_or_ignore_origin x.provider_transaction_id k (row x) r t before) [
    | inl old ↦ inl old
    | inr (key, new) ↦ inr (x, Memᴰ.head refl, key, new)
  ]
  | inr (y, listed, key, new) ↦ inr (y, Memᴰ.tail listed, key, new)
]

pub import_eq :
    (account : ClaimedAccount) (at : ℕ) (xs : List TransactionSource) (t : SyncTables)
    → let (count, transactions) =
        insert_all
          (stored account.user_id account.account_id account.currency_code at)
          xs
          t.transactions in
      import_transactions account at xs t ≡ (
        record { imported_count = count; skipped_duplicate_count = length xs - count },
        record t { transactions = transactions },
      )
unfolding import_transactions
import_eq account at [] t = refl
import_eq account at (x ∷ xs) t = refl

-- An import loses no transaction and counts each: imported and skipped add up to the statement's
-- length, and every transaction of the statement is stored afterwards. It changes no row that was
-- there, and each row that is new is made from a transaction of the statement.
pub import_complete :
    (account : ClaimedAccount) (at : ℕ) (xs : List TransactionSource) (t : SyncTables)
    → let (result, t') = import_transactions account at xs t in
      (result.imported_count + result.skipped_duplicate_count ≡ length xs)
      × All (IsKnown t'.transactions) xs
      × ((k : Ident) (r : StoredTransaction)
          → t.transactions k ≡ some r
          → t'.transactions k ≡ some r)
      × ((k : Ident) (r : StoredTransaction)
          → t'.transactions k ≡ some r
          → (t.transactions k ≡ some r)
            ⊎ ((x : TransactionSource) × Memᴰ x xs
                × (x.provider_transaction_id ≡ k)
                × (r ≡ stored account.user_id account.account_id account.currency_code at x)))
import_complete account at xs t =
    let row = stored account.user_id account.account_id account.currency_code at in
    rw (import_eq account at xs t) (
      omega (arith, insert_all-le-length row xs t.transactions),
      insert_all-IsKnown row xs t.transactions,
      λ k r. insert_all_keeps row xs k r t.transactions,
      λ k r. insert_all_origin row xs k r t.transactions,
    )

-- Reading the same statement again, at any time and in the name of any account, imports nothing
-- and leaves the table of transactions as it is.
pub import_again :
    (account other : ClaimedAccount) (at later : ℕ) (xs : List TransactionSource) (t : SyncTables)
    → let t' = (import_transactions account at xs t).1 in
      let (result, t'') = import_transactions other later xs t' in
      (result.imported_count ≡ 0)
      × (result.skipped_duplicate_count ≡ length xs)
      × (t''.transactions ≡ t'.transactions)
import_again account other at later xs t =
    let row = stored account.user_id account.account_id account.currency_code at in
    let row' = stored other.user_id other.account_id other.currency_code later in
    rw (import_eq account at xs t) (
      rw (import_eq other later xs _) (
        rw (insert_all_known row' xs _ (insert_all-IsKnown row xs t.transactions))
          (refl, omega arith, refl)))
