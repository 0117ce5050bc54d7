-- ===== src/Compensation/ExactSum/Decides.antt =====
-- `hasExactSum` (worker/services/compensation-service.ts) decides the existence of a subset sum.
use mathlib.Core.List.{Memᴰ}
use mono_finance.Common.{
  ℕ, ◌+◌, ◌<◌, ◌≡◌, refl, ◌↔◌, inl, inr, true, some, List, [], ◌∷◌, arith, subst, take, Bool-cases,
  Option-cases, ◌==◌,
}
use mono_finance.Compensation.ExactSum.{extend, exact_from, has_exact_sum}
use mono_finance.Compensation.ExactSum.Subset.{
  IsSubsetSum, IsSubsetSum-zero, extend_stops, extend_keeps, extend_adds, extend_origin,
}

-- One of the sums so far, with some of the amounts to come, makes the target.
abbrev Reaches : List ℕ → List ℕ → ℕ → Type 0
Reaches sums amounts target =
    (s : ℕ) × Memᴰ s sums × (m : ℕ) × (target ≡ s + m) × IsSubsetSum amounts m

exact_from_sound :
    (sums amounts : List ℕ) (target : ℕ)
    → exact_from sums amounts target ≡ true
    → Reaches sums amounts target
unfolding exact_from
exact_from_sound sums [] target h = cc
exact_from_sound sums (a ∷ amounts) target h = elim (Option-cases (extend a target sums sums)) [
  | inl stop ↦
      let (s, listed, hit) = extend_stops a target sums sums stop in
      (s, listed, a, omega arith, inr (0, omega arith, IsSubsetSum-zero amounts))
  | inr (sums', e) ↦
      let (x, listed, m, split, subset) =
        exact_from_sound sums' amounts target (rw (e, exact_from) at h) in
      elim (extend_origin a target sums sums sums' x e listed) [
        | inl old ↦ (x, old, m, split, inl subset)
        | inr (s, from, same, below) ↦ (s, from, a + m, omega arith, inr (m, refl, subset))
      ]
]

extend_below :
    (a target : ℕ) (sums sums' : List ℕ)
    → ((s : ℕ) → Memᴰ s sums → s < target)
    → extend a target sums sums ≡ some sums'
    → (x : ℕ) → Memᴰ x sums'
    → x < target
extend_below a target sums sums' below e x new =
    elim (extend_origin a target sums sums sums' x e new) [
      | inl old ↦ below x old
      | inr (s, from, same, lt) ↦ omega arith
    ]

exact_from_complete :
    (sums amounts : List ℕ) (target : ℕ)
    → ((s : ℕ) → Memᴰ s sums → s < target)
    → Reaches sums amounts target
    → exact_from sums amounts target ≡ true
unfolding exact_from
exact_from_complete sums [] target below (s, listed, m, split, none_left) =
    absurd (omega (arith, below s listed))
exact_from_complete sums (a ∷ amounts) target below (s, listed, m, split, subset) =
    elim (Option-cases (extend a target sums sums)) [
      | inl stop ↦ rw (stop, exact_from)
      | inr (sums', e) ↦
          let (misses, adds) = extend_adds a target sums sums sums' s e listed in
          rw (e, exact_from)
            (exact_from_complete sums' amounts target
              (λ x new. extend_below a target sums sums' below e x new)
              (elim subset [
                | inl without ↦
                    (s, extend_keeps a target sums sums sums' s e listed, m, split, without)
                | inr (m', more, with_a) ↦ (s + a, adds (omega arith), m', omega arith, with_a)
              ]))
    ]

zero_below : (target : ℕ) → 0 < target → (s : ℕ) → Memᴰ s (0 ∷ []) → s < target
zero_below target h s (Memᴰ.head e) = omega arith
zero_below target h s (Memᴰ.tail m) = elim m [ ]

reach_zero :
    (amounts : List ℕ) (target : ℕ) → Reaches (0 ∷ []) amounts target → IsSubsetSum amounts target
reach_zero amounts target (s, Memᴰ.head e, m, split, subset) =
    let same : m ≡ target = omega arith in subst (IsSubsetSum amounts) same subset
reach_zero amounts target (s, Memᴰ.tail none_there, m, split, subset) = elim none_there [ ]

-- The search answers `true` exactly if the target is above zero and is the sum of some of the first
-- twenty amounts, each taken at most once.
pub has_exact_sum_iff :
    (amounts : List ℕ) (target : ℕ)
    → (has_exact_sum amounts target ≡ true) ↔ ((0 < target) × IsSubsetSum (take 20 amounts) target)
unfolding has_exact_sum
has_exact_sum_iff amounts target = elim (Bool-cases (target == 0)) [
  | inl zero_target ↦ (λ h. cc (rw zero_target at h), λ h. absurd (ground arith))
  | inr positive ↦ rw positive (
    (λ h. (ground arith, reach_zero (take 20 amounts) target (exact_from_sound _ _ target h))),
    λ (pos, subset).
        exact_from_complete (0 ∷ []) (take 20 amounts) target (zero_below target pos)
          (0, Memᴰ.head refl, target, omega arith, subset),
  )
]
