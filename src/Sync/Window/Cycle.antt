-- ===== src/Sync/Window/Cycle.antt =====
-- How the windows of one account follow one another: worker/services/transaction-sync-window.ts
-- under the cursor that worker/services/transaction-sync-service.ts stores after each of them.
use mono_finance.Common.{
  ℕ, ◌+◌, ◌-◌, ◌*◌, ◌≤◌, ◌<◌, max, ◌≡◌, refl, Option, none, some, List, [], ◌∷◌, length, arith,
  get_or,
}
use mono_finance.Sync.Window.{
  WindowInput, SyncWindow, historical_window, incremental_window, next_transaction_sync_window,
  maximum_statement_window_seconds, incremental_sync_overlap_seconds,
}

-- What a round leaves besides its window: the newest transaction known, and the next clock reading.
abbrev pub Round : Type 0
Round = Option ℕ × ℕ

-- The next input after a window was read and stored: `backfillCursorAt: window.fromEpochSeconds`.
unfoldable pub after_window : SyncWindow → Round → WindowInput → WindowInput
after_window w (last, now) input = record input {
  backfill_cursor_at = some w.from_epoch_seconds;
  last_synced_transaction_at = last;
  now_epoch_seconds = now;
}

-- Successive rounds that all succeed: the windows read, in order, and the input that is left. A
-- round with nothing to read only lets time pass.
unfoldable pub follow : List Round → WindowInput → List SyncWindow × WindowInput
unfolding after_window
follow [] input = ([], input)
follow (r ∷ rs) input = elim (next_transaction_sync_window input) [
  | none ↦ follow rs (record input { now_epoch_seconds = r.1 })
  | some w ↦ let (ws, end) = follow rs (after_window w r input) in (w ∷ ws, end)
]

-- The windows lie end to end, from `high` down to `low`.
abbrev pub Tiles : ℕ → ℕ → List SyncWindow → Type 0
Tiles high low [] = high ≡ low
Tiles high low (w ∷ ws) = (w.to_epoch_seconds ≡ high) × Tiles w.from_epoch_seconds low ws

-- Where the backfill stands: at its cursor, or at the clock before its first window.
abbrev pub position : WindowInput → ℕ
position input = get_or input.backfill_cursor_at input.now_epoch_seconds

-- The window of a round of the backfill.
abbrev backfill_part : WindowInput → SyncWindow
backfill_part input = record {
  from_epoch_seconds =
      max input.historical_start_at (position input - maximum_statement_window_seconds);
  to_epoch_seconds = position input;
}

backfill_window :
    (input : WindowInput)
    → input.historical_start_at < position input
    → next_transaction_sync_window input ≡ some (backfill_part input)
unfolding next_transaction_sync_window
backfill_window input h = ground arith

follow_nil : (input : WindowInput) → follow [] input ≡ ([], input)
unfolding follow
follow_nil input = refl

follow_backfill :
    (r : Round) (rs : List Round) (input : WindowInput)
    → input.historical_start_at < position input
    → let (ws, end) = follow rs (after_window (backfill_part input) r input) in
      follow (r ∷ rs) input ≡ (backfill_part input ∷ ws, end)
unfolding follow
follow_backfill r rs input h = rw (backfill_window input h, follow)

-- From any point of the backfill on, `n` rounds that succeed, where `n` is the number of maximal
-- windows that the remaining history takes (rounded up), read exactly that history: `n` windows
-- that lie end to end from the present position down to the start, where the backfill then stands.
pub backfill_covers :
    (rs : List Round) (input : WindowInput)
    → input.historical_start_at ≤ position input
    → position input ≤ input.historical_start_at + length rs * maximum_statement_window_seconds
    → input.historical_start_at + length rs * maximum_statement_window_seconds
      < position input + maximum_statement_window_seconds
    → Tiles (position input) input.historical_start_at (follow rs input).0
      × (length (follow rs input).0 ≡ length rs)
      × (position (follow rs input).1 ≡ input.historical_start_at)
unfolding after_window
backfill_covers [] input h many few = rw (follow_nil input) (omega arith, refl, omega arith)
backfill_covers (r ∷ rs) input h many few =
    let w = backfill_part input in
    let rest =
      backfill_covers rs (after_window w r input) (omega arith) (omega arith) (omega arith) in
    rw (follow_backfill r rs input (omega arith)) ((refl, rest.0), omega (arith, rest.1), rest.2)

-- Once the backfill has reached its start and found no transaction, no round reads anything,
-- however late the clock: the account is never synchronized again.
pub empty_history_stalls :
    (rs : List Round) (input : WindowInput) (cursor : ℕ)
    → input.backfill_cursor_at ≡ some cursor
    → cursor ≤ input.historical_start_at
    → input.last_synced_transaction_at ≡ none
    → (follow rs input).0 ≡ []
unfolding follow next_transaction_sync_window incremental_window
empty_history_stalls [] input cursor at reached empty = refl
empty_history_stalls (r ∷ rs) input cursor at reached empty = ground (
  arith,
  empty_history_stalls rs (record input { now_epoch_seconds = r.1 }) cursor at reached empty,
)

-- Where the backfill has reached its start and the newest transaction lies more than a day after it,
-- the window ends at the clock; the round after it, whatever it knows, goes back into the history:
-- its window ends where that one began, above the start, so the backfill starts over from there.
pub incremental_restarts_backfill :
    (input : WindowInput) (r : Round) (cursor last : ℕ) (w : SyncWindow)
    → input.backfill_cursor_at ≡ some cursor
    → cursor ≤ input.historical_start_at
    → input.last_synced_transaction_at ≡ some last
    → input.historical_start_at + incremental_sync_overlap_seconds < last
    → next_transaction_sync_window input ≡ some w
    → (w.to_epoch_seconds ≡ input.now_epoch_seconds)
      × (next_transaction_sync_window (after_window w r input)
          ≡ historical_window input.historical_start_at w.from_epoch_seconds)
      × (input.historical_start_at < w.from_epoch_seconds)
unfolding next_transaction_sync_window incremental_window after_window
incremental_restarts_backfill input r cursor last w at reached known recent e =
    (ground arith, ground arith, ground arith)
