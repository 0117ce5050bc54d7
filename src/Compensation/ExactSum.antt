-- ===== src/Compensation/ExactSum.antt =====
-- `hasExactSum` of worker/services/compensation-service.ts: whether some of the first twenty
-- amounts add up to the target. It is called with amounts above zero, so they are natural numbers;
-- a target of zero or less is 0 here.
pub mod Subset
pub mod Decides
use mono_finance.Common.{
  ℕ, ◌+◌, Bool, true, false, Option, none, some, List, [], ◌∷◌, ◌++◌, ltb, ◌==◌, if◌then◌else◌, any,
  take,
}

-- `sums.add(next)`, a set in insertion order.
abbrev pub add_sum : ℕ → List ℕ → List ℕ
add_sum next sums = if any (λ s. s == next) sums then sums else sums ++ next ∷ []

-- The inner loop, over the sums that were there before this amount; `none` is `return true`.
unfoldable pub extend : ℕ → ℕ → List ℕ → List ℕ → Option (List ℕ)
extend amount target [] sums = some sums
extend amount target (sum ∷ rest) sums =
    let next = sum + amount in
    if next == target
    then none
    else extend amount target rest (if ltb next target then add_sum next sums else sums)

-- The outer loop.
unfoldable pub exact_from : List ℕ → List ℕ → ℕ → Bool
unfolding extend
exact_from sums [] target = false
exact_from sums (amount ∷ amounts) target = elim (extend amount target sums sums) [
  | none ↦ true
  | some sums' ↦ exact_from sums' amounts target
]

unfoldable pub has_exact_sum : List ℕ → ℕ → Bool
unfolding exact_from
has_exact_sum amounts target =
    if target == 0 then false else exact_from (0 ∷ []) (take 20 amounts) target
