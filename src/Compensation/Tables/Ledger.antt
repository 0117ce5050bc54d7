-- ===== src/Compensation/Tables/Ledger.antt =====
-- Sums of links under the statements of worker/repositories/compensation-repository.ts.
use mono_finance.Common.{◌≡◌, refl, inl, inr, Bool, List, [], ◌∷◌, arith, All, filter, Bool-cases}
use mono_finance.Common.Int.{pos, ◌+ℤ◌, ◌≤ℤ◌, int_laws}
use mono_finance.Common.Sort.{insert_by, sort_by}
use mono_finance.Compensation.Tables.{Link, total}

-- Every link has an amount above zero.
abbrev pub IsPositive : List Link → Type 0
IsPositive = All (λ l. pos 1 ≤ℤ l.compensated_amount_minor)

total-insert_by :
    (before : Link → Link → Bool) (l : Link) (ls : List Link)
    → total (insert_by before l ls) ≡ l.compensated_amount_minor +ℤ total ls
unfolding total insert_by
total-insert_by before l [] = refl
total-insert_by before l (k ∷ ls) = elim (Bool-cases (before k l)) [
  | inl e ↦ rw e (rw (total-insert_by before l ls) (omega int_laws))
  | inr e ↦ rw e
]

-- The order in which links are listed does not change their sum.
pub total-sort_by :
    (before : Link → Link → Bool) (ls : List Link) → total (sort_by before ls) ≡ total ls
unfolding total sort_by
total-sort_by before [] = refl
total-sort_by before (l ∷ ls) =
    rw (total-insert_by before l (sort_by before ls)) (rw (total-sort_by before ls))

pub total-filter_nonneg :
    (p : Link → Bool) (ls : List Link) → IsPositive ls → pos 0 ≤ℤ total (filter p ls)
unfolding total
total-filter_nonneg p [] h = omega arith
total-filter_nonneg p (l ∷ ls) h = elim (Bool-cases (p l)) [
  | inl e ↦ rw e (omega (int_laws, total-filter_nonneg p ls h.1))
  | inr e ↦ rw e (total-filter_nonneg p ls h.1)
]

-- Deleting links never raises a sum.
pub total-filter_le :
    (p keep : Link → Bool) (ls : List Link)
    → IsPositive ls
    → total (filter p (filter keep ls)) ≤ℤ total (filter p ls)
unfolding total
total-filter_le p keep [] h = omega arith
total-filter_le p keep (l ∷ ls) h =
    let ih = total-filter_le p keep ls h.1 in
    elim (Bool-cases (keep l)) [
      | inl k ↦ elim (Bool-cases (p l)) [
        | inl e ↦ rw (k, e) (omega (int_laws, ih))
        | inr e ↦ rw (k, e) ih
      ]
      | inr k ↦ elim (Bool-cases (p l)) [
        | inl e ↦ rw k (rw e (omega (int_laws, ih)))
        | inr e ↦ rw k (rw e ih)
      ]
    ]

pub All-filter {κ} :
    (P : Link → Type κ) (keep : Link → Bool) (ls : List Link) → All P ls → All P (filter keep ls)
All-filter P keep [] h = tt
All-filter P keep (l ∷ ls) h = elim (Bool-cases (keep l)) [
  | inl e ↦ rw e (h.0, All-filter P keep ls h.1)
  | inr e ↦ rw e (All-filter P keep ls h.1)
]

-- Two filters that agree on each link of the list give the same list.
pub filter_agree :
    (p q : Link → Bool) (ls : List Link) → All (λ l. p l ≡ q l) ls → filter p ls ≡ filter q ls
filter_agree p q [] h = refl
filter_agree p q (l ∷ ls) h = rw (h.0, filter_agree p q ls h.1)
