-- ===== src/Sync/Claim/Fairness.antt =====
-- Which account a claim takes: `nextCandidate` and `claimNext` of worker/repositories/
-- transaction-sync-repository.ts.
use mono_finance.Common.{
  Ident, ℕ, ◌≡◌, refl, true, false, Option, none, some, List, [], ◌∷◌, arith, All, All-mono,
  Option-cases, Bool-cases, inl, inr, sym, ◌∙◌, get_or, ◌≤◌,
}
use mathlib.Core.Bool.{false≢true}
use mathlib.Core.List.{Memᴰ}
use mono_finance.Sync.Tables.{Account, SyncState}
use mono_finance.Sync.Claim.Attempts.{IsOver}
use mono_finance.Sync.Claim.{Candidate, is_candidate, precedes, earlier, next_candidate}

precedes_self : (c : Candidate) → precedes c c ≡ false
unfolding precedes
precedes_self c = ground arith

precedes_asym : (c d : Candidate) → precedes c d ≡ true → precedes d c ≡ false
unfolding precedes
precedes_asym c d h = ground arith

precedes_weak :
    (c d e : Candidate) → precedes c d ≡ false → precedes d e ≡ false → precedes c e ≡ false
unfolding precedes
precedes_weak c d e h k = ground arith

module _ (user : Option Ident) (now : ℕ) (states : Ident → Option SyncState) where
  -- The account, with any sync row that it has, does not pass the test.
  abbrev IsPassed : Account → Type 0
  IsPassed a =
      (s : SyncState)
      → states a.id ≡ some s
      → is_candidate user now (record { account = a; state = s }) ≡ false

  -- No account that passes the test is sorted before `best`.
  abbrev IsNotAhead : Candidate → Account → Type 0
  IsNotAhead best a =
      (s : SyncState)
      → states a.id ≡ some s
      → is_candidate user now (record { account = a; state = s }) ≡ true
      → precedes (record { account = a; state = s }) best ≡ false

  -- The answer by the code's own test and comparison.
  abbrev IsLeast : List Account → Option Candidate → Type 0
  IsLeast accounts none = All IsPassed accounts
  IsLeast accounts (some best) =
      Memᴰ best.account accounts
      × (states best.account.id ≡ some best.state)
      × (is_candidate user now best ≡ true)
      × All (IsNotAhead best) accounts

  IsLeast-skip :
      (a : Account) (rest : List Account) (best : Option Candidate)
      → IsPassed a
      → IsLeast rest best
      → IsLeast (a ∷ rest) best
  IsLeast-skip a rest none passed h = (passed, h)
  IsLeast-skip a rest (some best) passed (listed, row, able, least) =
      (Memᴰ.tail listed, row, able, ((λ s e c. absurd (false≢true (sym (passed s e) ∙ c))), least))

  All-passed : (c : Candidate) (rest : List Account) → All IsPassed rest → All (IsNotAhead c) rest
  All-passed c rest h =
      All-mono IsPassed (IsNotAhead c) (λ a p s e able. absurd (false≢true (sym (p s e) ∙ able)))
        rest h

  same_row :
      (a : Account) (s s' : SyncState) → states a.id ≡ some s → states a.id ≡ some s' → s' ≡ s
  same_row a s s' e e' = cc

  All-IsNotAhead_weak :
      (best c : Candidate) (rest : List Account)
      → precedes best c ≡ false
      → All (IsNotAhead best) rest
      → All (IsNotAhead c) rest
  All-IsNotAhead_weak best c rest h =
      All-mono (IsNotAhead best) (IsNotAhead c)
        (λ a least s e able. precedes_weak _ best c (least s e able) h) rest

  IsLeast-earlier :
      (a : Account) (s : SyncState) (rest : List Account) (best : Option Candidate)
      → states a.id ≡ some s
      → is_candidate user now (record { account = a; state = s }) ≡ true
      → IsLeast rest best
      → IsLeast (a ∷ rest) (earlier (record { account = a; state = s }) best)
  IsLeast-earlier a s rest none row able h = (
    Memᴰ.head refl,
    row,
    able,
    ((λ s' e _. rw (same_row a s s' row e) (precedes_self _)), All-passed _ rest h),
  )
  IsLeast-earlier a s rest (some best) row able (listed, row', able', least) =
      let c : Candidate = record { account = a; state = s } in
      elim (Bool-cases (precedes best c)) [
        | inl before ↦ rw before (
          Memᴰ.tail listed,
          row',
          able',
          ((λ s' e _. rw (same_row a s s' row e) (precedes_asym best c before)), least),
        )
        | inr after ↦ rw after (
          Memᴰ.head refl,
          row,
          able,
          (
            (λ s' e _. rw (same_row a s s' row e) (precedes_self c)),
            All-IsNotAhead_weak best c rest after least,
          ),
        )
      ]

  next_candidate-IsLeast :
      (accounts : List Account) → IsLeast accounts (next_candidate user now states accounts)
  unfolding next_candidate
  next_candidate-IsLeast [] = tt
  next_candidate-IsLeast (a ∷ rest) = elim (Option-cases (states a.id)) [
    | inl absent ↦
        rw (absent, next_candidate)
          (IsLeast-skip a rest _ (λ s e. cc) (next_candidate-IsLeast rest))
    | inr (s, row) ↦
        let ih = next_candidate-IsLeast rest in
        elim (Bool-cases (is_candidate user now (record { account = a; state = s }))) [
          | inl able ↦ rw (row, next_candidate) (rw able (IsLeast-earlier a s rest _ row able ih))
          | inr passed ↦
              rw (row, next_candidate)
                (rw passed (IsLeast-skip a rest _ (λ s' e. rw (same_row a s s' row e) passed) ih))
        ]
  ]

-- The account is the user's, when one is asked for.
abbrev pub IsOwnedBy : Option Ident → Account → Type 0
IsOwnedBy none a = Unit
IsOwnedBy (some user) a = a.user_id ≡ user

-- The account is active, belongs to the user that is asked for, and has no lease that still runs.
abbrev pub IsDue : Option Ident → ℕ → Account → SyncState → Type 0
IsDue user now a s = (a.is_active ≡ true) × IsOwnedBy user a × IsOver now s.lease_expires_at

-- When the account was attempted last, with 0 for never.
abbrev pub attempted : SyncState → ℕ
attempted s = get_or s.last_attempt_at 0

-- The first account was attempted no later than the second; of two attempted at one time it is no
-- younger, and of two created at one time it has no greater id.
abbrev pub ComesFirst : Account → SyncState → Account → SyncState → Type 0
ComesFirst a s b s' =
    (attempted s ≤ attempted s')
    × (attempted s ≡ attempted s' → a.created_at ≤ b.created_at)
    × (attempted s ≡ attempted s' → a.created_at ≡ b.created_at → a.id ≤ b.id)

is_candidate-IsDue :
    (user : Option Ident) (now : ℕ) (c : Candidate)
    → is_candidate user now c ≡ true
    → IsDue user now c.account c.state
unfolding is_candidate
is_candidate-IsDue user now c h = ground arith

IsDue-is_candidate :
    (user : Option Ident) (now : ℕ) (a : Account) (s : SyncState)
    → IsDue user now a s
    → is_candidate user now (record { account = a; state = s }) ≡ true
unfolding is_candidate
IsDue-is_candidate user now a s h = ground arith

precedes-ComesFirst :
    (best : Candidate) (a : Account) (s : SyncState)
    → precedes (record { account = a; state = s }) best ≡ false
    → ComesFirst best.account best.state a s
unfolding precedes
precedes-ComesFirst best a s h = ground arith

module _ (user : Option Ident) (now : ℕ) (states : Ident → Option SyncState) where
  -- No account is due.
  abbrev pub IsNotDue : Account → Type 0
  IsNotDue a = (s : SyncState) → states a.id ≡ some s → ¬ IsDue user now a s

  -- The candidate comes first, if the account is due.
  abbrev pub IsAhead : Candidate → Account → Type 0
  IsAhead best a =
      (s : SyncState)
      → states a.id ≡ some s
      → IsDue user now a s
      → ComesFirst best.account best.state a s

  -- What the SELECT promises of its answer.
  abbrev pub IsChoice : List Account → Option Candidate → Type 0
  IsChoice accounts none = All IsNotDue accounts
  IsChoice accounts (some best) =
      Memᴰ best.account accounts
      × (states best.account.id ≡ some best.state)
      × IsDue user now best.account best.state
      × All (IsAhead best) accounts

  IsLeast-IsChoice :
      (accounts : List Account) (found : Option Candidate)
      → IsLeast user now states accounts found
      → IsChoice accounts found
  IsLeast-IsChoice accounts none h =
      All-mono (IsPassed user now states) IsNotDue
        (λ a p s row due. absurd (false≢true (sym (p s row) ∙ IsDue-is_candidate user now a s due)))
        accounts h
  IsLeast-IsChoice accounts (some best) (listed, row, able, least) = (
    listed,
    row,
    is_candidate-IsDue user now best able,
    All-mono (IsNotAhead user now states best) (IsAhead best)
        (λ a p s row due.
          precedes-ComesFirst best a s (p s row (IsDue-is_candidate user now a s due)))
        accounts least,
  )

  -- The account that a claim tries has a sync row, is active, belongs to the user that is asked for
  -- and has no lease that still runs; among all such accounts none was attempted longer ago, an
  -- account that never was counting as attempted at 0, and of those attempted at the same time none
  -- is older or, of the same age, has a smaller id. If none is tried, there is no such account.
  pub next_candidate-IsChoice :
      (accounts : List Account) → IsChoice accounts (next_candidate user now states accounts)
  next_candidate-IsChoice accounts =
      IsLeast-IsChoice accounts _ (next_candidate-IsLeast user now states accounts)
