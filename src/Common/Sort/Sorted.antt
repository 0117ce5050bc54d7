-- ===== src/Common/Sort/Sorted.antt =====
-- Sorting by an order in which "not before" is transitive, and filtering what was sorted.
use mono_finance.Common.Tests.{if◌then◌else◌, Bool-cases}
use mono_finance.Common.Lists.{All, All-mono, filter, length}
use mono_finance.Common.Sort.{insert_by, sort_by, IsSortedBy}
use Prim.Native.Nat.{suc, ◌≤◌}
use native.Mathlib.Omega.{arith}
use mathlib.Core.Path.{◌≡◌, refl, sym, ap, ◌∙◌}
use mathlib.Core.Logic.{inl, inr}
use mathlib.Core.Bool.{Bool, true, false}
use mathlib.Core.List.{List, [], ◌∷◌}

pub All-filter :
    {A : Type 0} (P : A → Type 0) (p : A → Bool) (xs : List A) → All P xs → All P (filter p xs)
All-filter P p [] h = tt
All-filter P p (x ∷ xs) h = elim (Bool-cases (p x)) [
  | inl e ↦ rw e (h.0, All-filter P p xs h.1)
  | inr e ↦ rw e (All-filter P p xs h.1)
]

pub length-filter : {A : Type 0} (p : A → Bool) (xs : List A) → length (filter p xs) ≤ length xs
length-filter p [] = omega arith
length-filter p (x ∷ xs) =
    let rest = length-filter p xs in
    elim (Bool-cases (p x)) [
      | inl e ↦ rw e (omega (arith, rest))
      | inr e ↦ rw e (omega (arith, rest))
    ]

module _ {A : Type 0} (before : A → A → Bool) where
  length-insert_by : (x : A) (ys : List A) → length (insert_by before x ys) ≡ suc (length ys)
  unfolding insert_by
  length-insert_by x [] = refl
  length-insert_by x (y ∷ ys) = elim (Bool-cases (before y x)) [
    | inl e ↦ rw e (ap suc (length-insert_by x ys))
    | inr e ↦ rw e refl
  ]

  pub length-sort_by : (xs : List A) → length (sort_by before xs) ≡ length xs
  unfolding sort_by
  length-sort_by [] = refl
  length-sort_by (x ∷ xs) = length-insert_by x (sort_by before xs) ∙ ap suc (length-sort_by xs)

  pub All-insert_by :
      (P : A → Type 0) (x : A) (ys : List A) → P x → All P ys → All P (insert_by before x ys)
  unfolding insert_by
  All-insert_by P x [] hx h = (hx, tt)
  All-insert_by P x (y ∷ ys) hx h = elim (Bool-cases (before y x)) [
    | inl e ↦ rw e (h.0, All-insert_by P x ys hx h.1)
    | inr e ↦ rw e (hx, h)
  ]

  pub All-sort_by : (P : A → Type 0) (xs : List A) → All P xs → All P (sort_by before xs)
  unfolding sort_by
  All-sort_by P [] h = tt
  All-sort_by P (x ∷ xs) h = All-insert_by P x (sort_by before xs) h.0 (All-sort_by P xs h.1)

module _ {A : Type 0} (before : A → A → Bool)
    (flip : (x y : A) → before x y ≡ true → before y x ≡ false)
    (chain : (x y z : A) → before y x ≡ false → before z y ≡ false → before z x ≡ false) where
  insert_by-IsSortedBy :
      (x : A) (ys : List A) → IsSortedBy before ys → IsSortedBy before (insert_by before x ys)
  unfolding insert_by
  insert_by-IsSortedBy x [] h = (tt, tt)
  insert_by-IsSortedBy x (y ∷ ys) (first, rest) = elim (Bool-cases (before y x)) [
    | inl e ↦ rw e (
      All-insert_by before (λ z. before z y ≡ false) x ys (flip y x e) first,
      insert_by-IsSortedBy x ys rest,
    )
    | inr e ↦ rw e (
      (
        e,
        All-mono (λ z. before z y ≡ false) (λ z. before z x ≡ false) (λ z h. chain x y z e h) ys
            first,
      ),
      (first, rest),
    )
  ]

  pub sort_by-IsSortedBy : (xs : List A) → IsSortedBy before (sort_by before xs)
  unfolding sort_by
  sort_by-IsSortedBy [] = tt
  sort_by-IsSortedBy (x ∷ xs) = insert_by-IsSortedBy x (sort_by before xs) (sort_by-IsSortedBy xs)

  insert_front :
      (x : A) (ys : List A) → All (λ z. before z x ≡ false) ys → insert_by before x ys ≡ x ∷ ys
  unfolding insert_by
  insert_front x [] h = refl
  insert_front x (y ∷ ys) h = rw h.0 refl

  filter-insert_by :
      (p : A → Bool) (x : A) (ys : List A)
      → IsSortedBy before ys
      → filter p (insert_by before x ys)
        ≡ (if p x then insert_by before x (filter p ys) else filter p ys)
  unfolding insert_by
  filter-insert_by p x [] h = elim (Bool-cases (p x)) [ inl px ↦ rw px refl | inr px ↦ rw px refl ]
  filter-insert_by p x (y ∷ ys) (first, rest) = elim (Bool-cases (before y x)) [
    | inl e ↦
        let rest_kept = filter-insert_by p x ys rest in
        elim (Bool-cases (p x)) [
          | inl px ↦
              let kept = rw px at rest_kept in
              elim (Bool-cases (p y)) [
                | inl py ↦ rw (e, px, py) (rw (e, kept) refl)
                | inr py ↦ rw (e, px, py) kept
              ]
          | inr px ↦
              let kept = rw px at rest_kept in
              elim (Bool-cases (p y)) [
                | inl py ↦ rw (e, px, py) (rw kept refl)
                | inr py ↦ rw (e, px, py) kept
              ]
        ]
    | inr e ↦
        let behind : All (λ z. before z x ≡ false) (y ∷ ys) = (
          e,
          All-mono (λ z. before z y ≡ false) (λ z. before z x ≡ false) (λ z h. chain x y z e h) ys
              first,
        ) in
        rw e (elim (Bool-cases (p x)) [
          | inl px ↦ rw px (
              sym (
                insert_front x (filter p (y ∷ ys))
                  (All-filter (λ z. before z x ≡ false) p (y ∷ ys) behind)))
          | inr px ↦ rw px refl
        ])
  ]

  -- What is kept of the sorted elements is what is kept, sorted.
  pub filter-sort_by :
      (p : A → Bool) (xs : List A) → filter p (sort_by before xs) ≡ sort_by before (filter p xs)
  unfolding sort_by
  filter-sort_by p [] = refl
  filter-sort_by p (x ∷ xs) =
      filter-insert_by p x (sort_by before xs) (sort_by-IsSortedBy xs) ∙ elim (Bool-cases (p x)) [
        | inl e ↦ rw (e, filter-sort_by p xs) refl
        | inr e ↦ rw (e, filter-sort_by p xs) refl
      ]
