-- ===== src/Common/Groups/Keys.antt =====
-- The value that a `Map` holds under one key, after any insertions and a sort.
use mono_finance.Common.Tests.{if◌then◌else◌, Bool-cases}
use mono_finance.Common.Lists.{filter, any}
use mono_finance.Common.Sort.{insert_by, sort_by}
use mathlib.Core.Path.{◌≡◌, refl, ap, ◌∙◌}
use mathlib.Core.Logic.{inl, inr}
use mathlib.Core.Bool.{Bool, true, false}
use mathlib.Core.List.{List, [], ◌∷◌}
use mono_finance.Common.Groups.{add_to, collect}

-- A sort moves no value out of its key's group, which has at most one.
module _ {V : Type 0} (before : V → V → Bool) (p : V → Bool) where
  filter-insert_by-out :
      (x : V) (xs : List V) → p x ≡ false → filter p (insert_by before x xs) ≡ filter p xs
  unfolding insert_by
  filter-insert_by-out x [] out = rw out refl
  filter-insert_by-out x (y ∷ ys) out = elim (Bool-cases (before y x)) [
    | inl e ↦ rw (e, filter-insert_by-out x ys out) refl
    | inr e ↦ rw (e, out) refl
  ]

  filter-insert_by-alone :
      (x : V) (xs : List V)
      → p x ≡ true
      → filter p xs ≡ []
      → filter p (insert_by before x xs) ≡ x ∷ []
  unfolding insert_by
  filter-insert_by-alone x [] here none_else = rw here refl
  filter-insert_by-alone x (y ∷ ys) here none_else = elim (Bool-cases (before y x)) [
    | inl e ↦ elim (Bool-cases (p y)) [
      | inl y_here ↦ cc (rw y_here at none_else)
      | inr y_out ↦ rw (e, y_out) (filter-insert_by-alone x ys here (rw y_out at none_else))
    ]
    | inr e ↦ rw (e, here, none_else) refl
  ]

  filter-sort_by-none : (xs : List V) → filter p xs ≡ [] → filter p (sort_by before xs) ≡ []
  unfolding sort_by
  filter-sort_by-none [] h = refl
  filter-sort_by-none (x ∷ xs) h = elim (Bool-cases (p x)) [
    | inl here ↦ cc (rw here at h)
    | inr out ↦
        filter-insert_by-out x (sort_by before xs) out ∙ filter-sort_by-none xs (rw out at h)
  ]

  filter-sort_by-one :
      (v : V) (xs : List V) → filter p xs ≡ v ∷ [] → filter p (sort_by before xs) ≡ v ∷ []
  unfolding sort_by
  filter-sort_by-one v [] h = cc h
  filter-sort_by-one v (x ∷ xs) h = elim (Bool-cases (p x)) [
    | inl here ↦
        let whole = rw here at h in
        filter-insert_by-alone x (sort_by before xs) here (filter-sort_by-none xs (cc whole))
        ∙ cc whole
    | inr out ↦
        filter-insert_by-out x (sort_by before xs) out ∙ filter-sort_by-one v xs (rw out at h)
  ]

abbrev pub fold_group : {A V : Type 0} → (A → V → V) → V → List A → V
fold_group step v [] = v
fold_group step v (x ∷ xs) = fold_group step (step x v) xs

-- What the elements of one key make: one value, or none where there is no element.
abbrev pub group_of : {A V : Type 0} → (A → V) → (A → V → V) → List A → List V
group_of fresh step [] = []
group_of fresh step (x ∷ xs) = fold_group step (step x (fresh x)) xs ∷ []

-- The group of a key, whose predicates on elements and on values are `q` and `p`, does not depend
-- on the other keys.
module _ {A V : Type 0} (same : A → V → Bool) (fresh : A → V) (step : A → V → V) (q : A → Bool)
    (p : V → Bool) (starts : (x : A) → p (step x (fresh x)) ≡ q x)
    (keeps : (x : A) (v : V) → p (step x v) ≡ p v)
    (joins : (x : A) (v : V) → same x v ≡ true → p v ≡ q x)
    (parts : (x : A) (v : V) → q x ≡ true → p v ≡ true → same x v ≡ true) where
  filter-add_to-out :
      (x : A) (vs : List V)
      → q x ≡ false
      → filter p (add_to (same x) (fresh x) (step x) vs) ≡ filter p vs
  unfolding add_to
  filter-add_to-out x [] out = rw (starts x, out) refl
  filter-add_to-out x (v ∷ vs) out = elim (Bool-cases (same x v)) [
    | inl e ↦ rw (e, keeps x v, joins x v e, out) refl
    | inr e ↦ rw (e, filter-add_to-out x vs out) refl
  ]

  filter-add_to-in :
      (x : A) (vs : List V)
      → q x ≡ true
      → filter p (add_to (same x) (fresh x) (step x) vs)
        ≡ add_to (same x) (fresh x) (step x) (filter p vs)
  unfolding add_to
  filter-add_to-in x [] here = rw (starts x, here) refl
  filter-add_to-in x (v ∷ vs) here = elim (Bool-cases (same x v)) [
    | inl e ↦ rw (e, keeps x v, joins x v e, here) (rw e refl)
    | inr e ↦ elim (Bool-cases (p v)) [
      | inl inside ↦ cc (rw (parts x v here inside) at e)
      | inr out ↦ rw (e, out, filter-add_to-in x vs here) refl
    ]
  ]

  pub filter-collect :
      (xs : List A) (vs : List V)
      → filter p (collect same fresh step xs vs)
        ≡ collect same fresh step (filter q xs) (filter p vs)
  unfolding collect
  filter-collect [] vs = refl
  filter-collect (x ∷ xs) vs = elim (Bool-cases (q x)) [
    | inl here ↦
        filter-collect xs (add_to (same x) (fresh x) (step x) vs)
        ∙ rw (here, filter-add_to-in x vs here) refl
    | inr out ↦
        filter-collect xs (add_to (same x) (fresh x) (step x) vs)
        ∙ rw (out, filter-add_to-out x vs out) refl
  ]

  collect-one :
      (v : V) (xs : List A)
      → p v ≡ true
      → collect same fresh step (filter q xs) (v ∷ []) ≡ fold_group step v (filter q xs) ∷ []
  unfolding collect add_to
  collect-one v [] inside = refl
  collect-one v (x ∷ xs) inside = elim (Bool-cases (q x)) [
    | inl here ↦
        rw here
          (rw (parts x v here inside, collect) (collect-one (step x v) xs (keeps x v ∙ inside)))
    | inr out ↦ rw out (collect-one v xs inside)
  ]

  collect-group_of :
      (xs : List A) → collect same fresh step (filter q xs) [] ≡ group_of fresh step (filter q xs)
  unfolding collect add_to
  collect-group_of [] = refl
  collect-group_of (x ∷ xs) = elim (Bool-cases (q x)) [
    | inl here ↦ rw here (collect-one (step x (fresh x)) xs (starts x ∙ here))
    | inr out ↦ rw out (collect-group_of xs)
  ]

  -- Sorted or not, the values of a key are the one that its elements make in their order, or none.
  pub filter-sort_by-collect :
      (before : V → V → Bool) (xs : List A)
      → filter p (sort_by before (collect same fresh step xs []))
        ≡ group_of fresh step (filter q xs)
  filter-sort_by-collect before xs =
      settle (filter q xs) (filter-collect xs [] ∙ collect-group_of xs)
    where
      settle :
          (ys : List A)
          → filter p (collect same fresh step xs []) ≡ group_of fresh step ys
          → filter p (sort_by before (collect same fresh step xs [])) ≡ group_of fresh step ys
      settle [] h = filter-sort_by-none before p _ h
      settle (y ∷ ys) h = filter-sort_by-one before p _ _ h

pub group_of-filter :
    {A V : Type 0} (fresh : A → V) (step : A → V → V) (q : A → Bool) (value : List A → V)
    → ((x : A) (ys : List A) → q x ≡ true → fold_group step (step x (fresh x)) ys ≡ value (x ∷ ys))
    → (xs : List A)
    → group_of fresh step (filter q xs) ≡ (if any q xs then value (filter q xs) ∷ [] else [])
group_of-filter fresh step q value folds [] = refl
group_of-filter fresh step q value folds (x ∷ xs) = elim (Bool-cases (q x)) [
  | inl here ↦ rw here (ap (λ v. v ∷ []) (folds x (filter q xs) here))
  | inr out ↦ rw out (group_of-filter fresh step q value folds xs)
]
