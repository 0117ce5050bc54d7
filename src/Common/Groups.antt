-- ===== src/Common/Groups.antt =====
-- Aggregation in a `Map`: its values in the order of their first insertions. Each value carries its
-- key, and `same x` tells the values of `x`'s key.
pub mod Keys
use mono_finance.Common.Tests.{if◌then◌else◌, Bool-cases}
use mono_finance.Common.Lists.{All, filter, any}
use mono_finance.Common.Int.{ℤ, pos, ◌+ℤ◌, int_laws}
use mono_finance.Common.Sort.{insert_by, sort_by}
use mathlib.Core.Path.{◌≡◌, refl, ap, ◌∙◌}
use mathlib.Core.Logic.{inl, inr}
use mathlib.Core.Bool.{Bool, true, false}
use mathlib.Core.List.{List, [], ◌∷◌, ◌++◌, map}

-- `values.set(key, step(values.get(key) ?? fresh))`
unfoldable pub add_to : {V : Type 0} → (V → Bool) → V → (V → V) → List V → List V
add_to same fresh step [] = step fresh ∷ []
add_to same fresh step (v ∷ vs) =
    let rest = add_to same fresh step vs in if same v then step v ∷ vs else v ∷ rest

-- The same for each element of a list.
unfoldable pub collect :
    {A V : Type 0} → (A → V → Bool) → (A → V) → (A → V → V) → List A → List V → List V
unfolding add_to
collect same fresh step [] vs = vs
collect same fresh step (x ∷ xs) vs =
    collect same fresh step xs (add_to (same x) (fresh x) (step x) vs)

-- The sum of a measure over a list.
unfoldable pub sum_by : {A : Type 0} → (A → ℤ) → List A → ℤ
sum_by f [] = pos 0
sum_by f (x ∷ xs) = f x +ℤ sum_by f xs

pub sum_by-agree :
    {A : Type 0} (f g : A → ℤ) → ((x : A) → f x ≡ g x) → (xs : List A) → sum_by f xs ≡ sum_by g xs
unfolding sum_by
sum_by-agree f g h [] = refl
sum_by-agree f g h (x ∷ xs) = rw (h x, sum_by-agree f g h xs)

sum_by-insert_by :
    {A : Type 0} (f : A → ℤ) (before : A → A → Bool) (x : A) (xs : List A)
    → sum_by f (insert_by before x xs) ≡ f x +ℤ sum_by f xs
unfolding sum_by insert_by
sum_by-insert_by f before x [] = refl
sum_by-insert_by f before x (y ∷ xs) = elim (Bool-cases (before y x)) [
  | inl e ↦ rw (e, sum_by-insert_by f before x xs) (omega int_laws)
  | inr e ↦ rw e
]

pub sum_by-sort_by :
    {A : Type 0} (f : A → ℤ) (before : A → A → Bool) (xs : List A)
    → sum_by f (sort_by before xs) ≡ sum_by f xs
unfolding sum_by sort_by
sum_by-sort_by f before [] = refl
sum_by-sort_by f before (x ∷ xs) =
    sum_by-insert_by f before x (sort_by before xs)
    ∙ ap (λ s. f x +ℤ s) (sum_by-sort_by f before xs)

module _ {A V : Type 0} (same : A → V → Bool) (fresh : A → V) (step : A → V → V) (measure : V → ℤ)
    (weight : A → ℤ) (starts : (x : A) → measure (step x (fresh x)) ≡ weight x)
    (grows : (x : A) (v : V) → same x v ≡ true → measure (step x v) ≡ measure v +ℤ weight x) where
  sum_by-add_to :
      (x : A) (vs : List V)
      → sum_by measure (add_to (same x) (fresh x) (step x) vs) ≡ sum_by measure vs +ℤ weight x
  unfolding sum_by add_to
  sum_by-add_to x [] = rw (starts x) (omega int_laws)
  sum_by-add_to x (v ∷ vs) = elim (Bool-cases (same x v)) [
    | inl e ↦ rw (e, grows x v e) (omega int_laws)
    | inr e ↦ rw (e, sum_by-add_to x vs) (omega int_laws)
  ]

  sum_by-collect_from :
      (xs : List A) (vs : List V)
      → sum_by measure (collect same fresh step xs vs) ≡ sum_by measure vs +ℤ sum_by weight xs
  unfolding sum_by collect
  sum_by-collect_from [] vs = omega int_laws
  sum_by-collect_from (x ∷ xs) vs =
      sum_by-collect_from xs (add_to (same x) (fresh x) (step x) vs)
      ∙ rw (sum_by-add_to x vs) (omega int_laws)

  -- What the groups hold together is what the list holds.
  pub sum_by-collect :
      (xs : List A) → sum_by measure (collect same fresh step xs []) ≡ sum_by weight xs
  unfolding sum_by
  sum_by-collect xs = sum_by-collect_from xs [] ∙ omega int_laws

pub sum_by-map :
    {A B : Type 0} (f : B → ℤ) (g : A → B) (xs : List A)
    → sum_by f (map g xs) ≡ sum_by (λ x. f (g x)) xs
unfolding sum_by
sum_by-map f g [] = refl
sum_by-map f g (x ∷ xs) = ap (λ s. f (g x) +ℤ s) (sum_by-map f g xs)

pub sum_by-append :
    {A : Type 0} (f : A → ℤ) (xs ys : List A) → sum_by f (xs ++ ys) ≡ sum_by f xs +ℤ sum_by f ys
unfolding sum_by
sum_by-append f [] ys = omega int_laws
sum_by-append f (x ∷ xs) ys = rw (sum_by-append f xs ys) (omega int_laws)

-- Measures that agree on the elements of a list.
pub sum_by-All :
    {A : Type 0} (f g : A → ℤ) (xs : List A) → All (λ x. f x ≡ g x) xs → sum_by f xs ≡ sum_by g xs
unfolding sum_by
sum_by-All f g [] h = refl
sum_by-All f g (x ∷ xs) h = rw (h.0, sum_by-All f g xs h.1) refl

-- A filter, as a measure that is 0 elsewhere.
pub sum_by-filter :
    {A : Type 0} (f : A → ℤ) (p : A → Bool) (xs : List A)
    → sum_by f (filter p xs) ≡ sum_by (λ x. if p x then f x else pos 0) xs
unfolding sum_by
sum_by-filter f p [] = refl
sum_by-filter f p (x ∷ xs) = elim (Bool-cases (p x)) [
  | inl e ↦ rw (e, sum_by-filter f p xs) refl
  | inr e ↦ rw (e, sum_by-filter f p xs) (omega int_laws)
]
