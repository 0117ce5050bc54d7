-- ===== src/Compensation/ExactSum/Subset.antt =====
-- `hasExactSum` (worker/services/compensation-service.ts) against sums of sublists.
use mono_finance.Common.{
  ℕ, ◌+◌, ◌<◌, ◌≡◌, refl, ◌≢◌, ◌⊎◌, inl, inr, sym, subst, true, none, some, List, [], ◌∷◌, ◌++◌,
  arith, any, ◌==◌, ltb, ltb→lt, lt→ltb, ==_iff, if◌then◌else◌, Bool-cases,
}
use mathlib.Core.List.{Memᴰ}
use mathlib.Core.Option.{some-injective}
use mono_finance.Compensation.ExactSum.{add_sum, extend}

-- Some of the numbers, each taken at most once, add up to `n`.
abbrev pub IsSubsetSum : List ℕ → ℕ → Type 0
IsSubsetSum [] n = n ≡ 0
IsSubsetSum (a ∷ rest) n = IsSubsetSum rest n ⊎ ((m : ℕ) × (n ≡ a + m) × IsSubsetSum rest m)

pub IsSubsetSum-zero : (rest : List ℕ) → IsSubsetSum rest 0
IsSubsetSum-zero [] = refl
IsSubsetSum-zero (a ∷ rest) = inl (IsSubsetSum-zero rest)

Memᴰ-concat : (x y : ℕ) (xs : List ℕ) → Memᴰ x xs → Memᴰ x (xs ++ y ∷ [])
Memᴰ-concat x y [] m = elim m [ ]
Memᴰ-concat x y (_ ∷ xs) (Memᴰ.head e) = Memᴰ.head e
Memᴰ-concat x y (_ ∷ xs) (Memᴰ.tail m) = Memᴰ.tail (Memᴰ-concat x y xs m)

Memᴰ-concat_self : (y : ℕ) (xs : List ℕ) → Memᴰ y (xs ++ y ∷ [])
Memᴰ-concat_self y [] = Memᴰ.head refl
Memᴰ-concat_self y (x ∷ xs) = Memᴰ.tail (Memᴰ-concat_self y xs)

Memᴰ-concat_cases : (x y : ℕ) (xs : List ℕ) → Memᴰ x (xs ++ y ∷ []) → Memᴰ x xs ⊎ (x ≡ y)
Memᴰ-concat_cases x y [] (Memᴰ.head e) = inr e
Memᴰ-concat_cases x y [] (Memᴰ.tail m) = elim m [ ]
Memᴰ-concat_cases x y (z ∷ xs) (Memᴰ.head e) = inl (Memᴰ.head e)
Memᴰ-concat_cases x y (z ∷ xs) (Memᴰ.tail m) = elim (Memᴰ-concat_cases x y xs m) [
  | inl found ↦ inl (Memᴰ.tail found)
  | inr e ↦ inr e
]

any-Memᴰ : (y : ℕ) (xs : List ℕ) → any (λ s. s == y) xs ≡ true → Memᴰ y xs
any-Memᴰ y [] h = cc
any-Memᴰ y (x ∷ xs) h = elim (Bool-cases (x == y)) [
  | inl e ↦ Memᴰ.head (ground arith)
  | inr e ↦ Memᴰ.tail (any-Memᴰ y xs (ground arith))
]

-- `add_sum` is a set insertion.
add_sum-Memᴰ_keeps : (x y : ℕ) (xs : List ℕ) → Memᴰ x xs → Memᴰ x (add_sum y xs)
add_sum-Memᴰ_keeps x y xs m = elim (Bool-cases (any (λ s. s == y) xs)) [
  | inl e ↦ rw e m
  | inr e ↦ rw e (Memᴰ-concat x y xs m)
]

add_sum-Memᴰ : (y : ℕ) (xs : List ℕ) → Memᴰ y (add_sum y xs)
add_sum-Memᴰ y xs = elim (Bool-cases (any (λ s. s == y) xs)) [
  | inl e ↦ rw e (any-Memᴰ y xs e)
  | inr e ↦ rw e (Memᴰ-concat_self y xs)
]

add_sum-Memᴰ_cases : (x y : ℕ) (xs : List ℕ) → Memᴰ x (add_sum y xs) → Memᴰ x xs ⊎ (x ≡ y)
add_sum-Memᴰ_cases x y xs m = elim (Bool-cases (any (λ s. s == y) xs)) [
  | inl e ↦ inl (rw e at m)
  | inr e ↦ Memᴰ-concat_cases x y xs (rw e at m)
]

-- One round of the inner loop.
abbrev step_sums : ℕ → ℕ → ℕ → List ℕ → List ℕ
step_sums amount target sum sums =
    if ltb (sum + amount) target then add_sum (sum + amount) sums else sums

step_sums-Memᴰ_keeps :
    (amount target sum x : ℕ) (sums : List ℕ)
    → Memᴰ x sums
    → Memᴰ x (step_sums amount target sum sums)
step_sums-Memᴰ_keeps amount target sum x sums m = elim (Bool-cases (ltb (sum + amount) target)) [
  | inl e ↦ rw e (add_sum-Memᴰ_keeps x (sum + amount) sums m)
  | inr e ↦ rw e m
]

step_sums-Memᴰ_cases :
    (amount target sum x : ℕ) (sums : List ℕ)
    → Memᴰ x (step_sums amount target sum sums)
    → Memᴰ x sums ⊎ ((x ≡ sum + amount) × (sum + amount < target))
step_sums-Memᴰ_cases amount target sum x sums m = elim (Bool-cases (ltb (sum + amount) target)) [
  | inl e ↦ elim (add_sum-Memᴰ_cases x (sum + amount) sums (rw e at m)) [
    | inl old ↦ inl old
    | inr new ↦ inr (new, ltb→lt _ _ e)
  ]
  | inr e ↦ inl (rw e at m)
]

step_sums-Memᴰ_adds :
    (amount target sum : ℕ) (sums : List ℕ)
    → sum + amount < target
    → Memᴰ (sum + amount) (step_sums amount target sum sums)
step_sums-Memᴰ_adds amount target sum sums h =
    rw (lt→ltb (sum + amount) target h) (add_sum-Memᴰ (sum + amount) sums)

module _ (amount target : ℕ) where
  pub extend_stops :
      (rest sums : List ℕ)
      → extend amount target rest sums ≡ none
      → (s : ℕ) × Memᴰ s rest × (s + amount ≡ target)
  unfolding extend
  extend_stops [] sums h = cc
  extend_stops (sum ∷ rest) sums h = elim (Bool-cases (sum + amount == target)) [
    | inl e ↦ (sum, Memᴰ.head refl, (==_iff _ _).0 e)
    | inr e ↦
        let (s, m, hit) = extend_stops rest (step_sums amount target sum sums) (rw e at h) in
        (s, Memᴰ.tail m, hit)
  ]

  pub extend_keeps :
      (rest sums sums' : List ℕ) (x : ℕ)
      → extend amount target rest sums ≡ some sums'
      → Memᴰ x sums
      → Memᴰ x sums'
  unfolding extend
  extend_keeps [] sums sums' x h m = subst (Memᴰ x) (some-injective _ _ h) m
  extend_keeps (sum ∷ rest) sums sums' x h m = elim (Bool-cases (sum + amount == target)) [
    | inl e ↦ cc (rw e at h)
    | inr e ↦
        extend_keeps rest (step_sums amount target sum sums) sums' x (rw e at h)
          (step_sums-Memᴰ_keeps amount target sum x sums m)
  ]

  -- Every sum of the snapshot misses the target, and is added to if it stays below.
  pub extend_adds :
      (rest sums sums' : List ℕ) (s : ℕ)
      → extend amount target rest sums ≡ some sums'
      → Memᴰ s rest
      → (s + amount ≢ target) × (s + amount < target → Memᴰ (s + amount) sums')
  unfolding extend
  extend_adds [] sums sums' s h m = elim m [ ]
  extend_adds (sum ∷ rest) sums sums' s h (Memᴰ.head e) =
      elim (Bool-cases (sum + amount == target)) [
        | inl hit ↦ cc (rw hit at h)
        | inr miss ↦ rw e (
          (λ hit. cc (miss, (==_iff _ _).1 hit)),
          λ below.
              extend_keeps rest (step_sums amount target sum sums) sums' (sum + amount)
                (rw miss at h) (step_sums-Memᴰ_adds amount target sum sums below),
        )
      ]
  extend_adds (sum ∷ rest) sums sums' s h (Memᴰ.tail m) =
      elim (Bool-cases (sum + amount == target)) [
        | inl e ↦ cc (rw e at h)
        | inr e ↦ extend_adds rest (step_sums amount target sum sums) sums' s (rw e at h) m
      ]

  pub extend_origin :
      (rest sums sums' : List ℕ) (x : ℕ)
      → extend amount target rest sums ≡ some sums'
      → Memᴰ x sums'
      → Memᴰ x sums ⊎ ((s : ℕ) × Memᴰ s rest × (x ≡ s + amount) × (s + amount < target))
  unfolding extend
  extend_origin [] sums sums' x h m = inl (subst (Memᴰ x) (sym (some-injective _ _ h)) m)
  extend_origin (sum ∷ rest) sums sums' x h m = elim (Bool-cases (sum + amount == target)) [
    | inl e ↦ cc (rw e at h)
    | inr e ↦ elim (extend_origin rest (step_sums amount target sum sums) sums' x (rw e at h) m) [
      | inl now ↦ elim (step_sums-Memᴰ_cases amount target sum x sums now) [
        | inl old ↦ inl old
        | inr (same, below) ↦ inr (sum, Memᴰ.head refl, same, below)
      ]
      | inr (s, listed, same, below) ↦ inr (s, Memᴰ.tail listed, same, below)
    ]
  ]
