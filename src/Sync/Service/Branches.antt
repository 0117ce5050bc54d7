-- ===== src/Sync/Service/Branches.antt =====
-- What one run of `synchronizeAt` leaves behind, on each of its branches
-- (worker/services/transaction-sync-service.ts).
use mono_finance.Common.{
  Ident, ℕ, ◌≡◌, ◌≢◌, inl, inr, Option, none, some, List, arith, ◌∙◌, Option-cases,
}
use mono_finance.Common.Action.{Result, ok, err}
use mono_finance.Sync.Window.{SyncWindow, next_transaction_sync_window}
use mono_finance.Sync.Tables.{
  running, SyncState, SyncTables, ClaimedAccount, TransactionSource, complete_window,
  complete_empty_window, fail_window,
}
use mono_finance.Sync.Import.Once.{import_eq}
use mono_finance.Sync.Service.{
  MonobankClient, ClientError, Clock, window_input, store_statement, synchronize_account,
}

-- No lease, and not running.
abbrev pub IsReleased : Option SyncState → Type 0
IsReleased none = Unit
IsReleased (some s) = (s.lease_expires_at ≡ none) × (s.status ≢ running)

complete_window-IsReleased :
    (a : Ident) (cursor : ℕ) (w : SyncWindow) (last : Option ℕ) (now : ℕ) (t : SyncTables)
    → IsReleased ((complete_window a cursor w last now t).sync_state a)
unfolding complete_window
complete_window-IsReleased a cursor w last now t = ground arith

complete_window_other :
    (a b : Ident) (cursor : ℕ) (w : SyncWindow) (last : Option ℕ) (now : ℕ) (t : SyncTables)
    → b ≢ a
    → (complete_window a cursor w last now t).sync_state b ≡ t.sync_state b
unfolding complete_window
complete_window_other a b cursor w last now t h = ground arith

store_statement_states :
    (account : ClaimedAccount) (w : SyncWindow) (clock : Clock)
    (answer : Result ClientError (List TransactionSource)) (t : SyncTables)
    → IsReleased ((store_statement account w clock answer t).1.sync_state account.account_id)
      × ((b : Ident)
          → b ≢ account.account_id
          → (store_statement account w clock answer t).1.sync_state b ≡ t.sync_state b)
unfolding store_statement fail_window
store_statement_states account w clock (ok xs) t = rw (import_eq account clock.import xs t) (
  complete_window-IsReleased account.account_id _ w _ _ _,
  λ b h. complete_window_other account.account_id b _ w _ _ _ h,
)
store_statement_states account w clock (err e) t = (ground arith, λ b h. ground arith)

complete_empty_window_states :
    (a : Ident) (t : SyncTables)
    → IsReleased ((complete_empty_window a t).sync_state a)
      × ((b : Ident) → b ≢ a → (complete_empty_window a t).sync_state b ≡ t.sync_state b)
unfolding complete_empty_window
complete_empty_window_states a t = (ground arith, λ b h. ground arith)

module _ (during_request : SyncTables → SyncTables) (client : MonobankClient) (clock : Clock)
    (account : ClaimedAccount) (t : SyncTables) where
  pub synchronize_window :
      (w : SyncWindow)
      → next_transaction_sync_window (window_input account clock.entry) ≡ some w
      → synchronize_account during_request client clock account t
        ≡ store_statement account w clock (client account.monobank_account_id w) (during_request t)
  unfolding synchronize_account
  synchronize_window w e = rw (e, synchronize_account)

  synchronize_nothing :
      next_transaction_sync_window (window_input account clock.entry) ≡ none
      → (synchronize_account during_request client clock account t).1
        ≡ complete_empty_window account.account_id t
  unfolding synchronize_account
  synchronize_nothing e = rw (e, synchronize_account)

-- However a run ends, with nothing to read, an import, or an error of the client, the account's
-- lease is given back and its status is not `running`, and no other account's row is changed by it.
pub synchronize_account_releases :
    (during_request : SyncTables → SyncTables) (client : MonobankClient) (clock : Clock)
    (account : ClaimedAccount) (t : SyncTables)
    → let t' = (synchronize_account during_request client clock account t).1 in
      IsReleased (t'.sync_state account.account_id)
      × ((b : Ident)
          → b ≢ account.account_id
          → (during_request t).sync_state b ≡ t.sync_state b
          → t'.sync_state b ≡ t.sync_state b)
synchronize_account_releases during_request client clock account t =
    elim (Option-cases (next_transaction_sync_window (window_input account clock.entry))) [
      | inl nothing ↦
          let (released, others) = complete_empty_window_states account.account_id t in
          rw (synchronize_nothing during_request client clock account t nothing)
            (released, λ b ne same. others b ne)
      | inr (w, e) ↦
          let (released, others) =
            store_statement_states account w clock (client account.monobank_account_id w)
              (during_request t) in
          rw (synchronize_window during_request client clock account t w e)
            (released, λ b ne same. others b ne ∙ same)
    ]
