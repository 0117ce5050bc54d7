-- ===== src/Sync/Service/Newest.antt =====
-- `maximumTimestamp` of worker/services/transaction-sync-service.ts.
use mathlib.Core.List.{Memᴰ}
use mono_finance.Common.{
  ℕ, ◌≤◌, ◌≡◌, refl, ◌⊎◌, inl, inr, Option, none, some, List, [], ◌∷◌, arith, All, Option-cases,
}
use mono_finance.Sync.Tables.{TransactionSource}
use mono_finance.Sync.Service.{later, maximum_timestamp}

abbrev pub IsAtMost : ℕ → Option ℕ → Type 0
IsAtMost m none = Unit
IsAtMost m (some time) = time ≤ m

later_origin :
    (current : Option ℕ) (time m : ℕ)
    → later current time ≡ some m
    → (current ≡ some m) ⊎ (time ≡ m)
later_origin none time m h = ground arith
later_origin (some c) time m h = ground arith

maximum_timestamp_origin :
    (current : Option ℕ) (xs : List TransactionSource) (m : ℕ)
    → maximum_timestamp current xs ≡ some m
    → (current ≡ some m) ⊎ ((x : TransactionSource) × Memᴰ x xs × (x.occurred_at_epoch_seconds ≡ m))
unfolding maximum_timestamp
maximum_timestamp_origin current [] m h = inl h
maximum_timestamp_origin current (x ∷ xs) m h =
    elim (maximum_timestamp_origin (later current x.occurred_at_epoch_seconds) xs m h) [
      | inl e ↦ elim (later_origin current x.occurred_at_epoch_seconds m e) [
        | inl old ↦ inl old
        | inr new ↦ inr (x, Memᴰ.head refl, new)
      ]
      | inr (y, listed, e) ↦ inr (y, Memᴰ.tail listed, e)
    ]

maximum_timestamp-le :
    (current : Option ℕ) (xs : List TransactionSource) (m : ℕ)
    → maximum_timestamp current xs ≡ some m
    → IsAtMost m current × All (λ x. x.occurred_at_epoch_seconds ≤ m) xs
unfolding maximum_timestamp
maximum_timestamp-le current [] m h = (ground arith, tt)
maximum_timestamp-le current (x ∷ xs) m h =
    let (now, rest) = maximum_timestamp-le (later current x.occurred_at_epoch_seconds) xs m h in
    (ground arith, (ground arith, rest))

maximum_timestamp-none :
    (current : Option ℕ) (xs : List TransactionSource)
    → maximum_timestamp current xs ≡ none
    → (current ≡ none) × (xs ≡ [])
unfolding maximum_timestamp
maximum_timestamp-none current [] h = (h, refl)
maximum_timestamp-none none (x ∷ xs) h =
    let (e, _) = maximum_timestamp-none (some x.occurred_at_epoch_seconds) xs h in cc
maximum_timestamp-none (some c) (x ∷ xs) h =
    let (e, _) = maximum_timestamp-none (later (some c) x.occurred_at_epoch_seconds) xs h in
    ground arith

-- No time only when there was none and nothing was read; else a time that is no earlier than the one
-- before and than any that was read, and is itself one of these.
abbrev pub IsNewestTime : Option ℕ → List TransactionSource → Option ℕ → Type 0
IsNewestTime current xs none = (current ≡ none) × (xs ≡ [])
IsNewestTime current xs (some m) =
    IsAtMost m current
    × All (λ x. x.occurred_at_epoch_seconds ≤ m) xs
    × ((current ≡ some m)
        ⊎ ((x : TransactionSource) × Memᴰ x xs × (x.occurred_at_epoch_seconds ≡ m)))

-- The cursor that a run stores is a time as soon as there was one before or any transaction was read;
-- it is the newest time known: no earlier than the one before it and than any transaction read, and
-- itself one of these. It stays null only if it was null and nothing was read.
pub maximum_timestamp_newest :
    (current : Option ℕ) (xs : List TransactionSource)
    → IsNewestTime current xs (maximum_timestamp current xs)
maximum_timestamp_newest current xs = elim (Option-cases (maximum_timestamp current xs)) [
  | inl absent ↦ rw absent (maximum_timestamp-none current xs absent)
  | inr (m, found) ↦
      let (old, new) = maximum_timestamp-le current xs m found in
      rw found (old, new, maximum_timestamp_origin current xs m found)
]
