-- ===== src/Categories/Tables/Lookup.antt =====
-- What a lookup finds after an UPDATE or a DELETE of worker/repositories/categories-repository.ts.
use mono_finance.Common.{
  ◌≡◌, refl, subst, Bool, true, false, Option, none, some, List, [], ◌∷◌, any, All, Bool-cases, inl,
  inr, if◌then◌else◌,
}
use mathlib.Core.Option.{some-injective}
use mono_finance.Categories.Tables.{first_where, update_where, delete_where}

pub first_where-agree :
    {A : Type 0} (p q : A → Bool) (xs : List A)
    → All (λ x. p x ≡ q x) xs
    → first_where p xs ≡ first_where q xs
unfolding first_where
first_where-agree p q [] h = refl
first_where-agree p q (x ∷ xs) h = rw (h.0, first_where-agree p q xs h.1) refl

pub first_where-holds :
    {A : Type 0} (p : A → Bool) (xs : List A) (x : A) → first_where p xs ≡ some x → p x ≡ true
unfolding first_where
first_where-holds p [] x h = cc h
first_where-holds p (y ∷ ys) x h = elim (Bool-cases (p y)) [
  | inl e ↦ let same = rw e at h in cc (e, same)
  | inr e ↦ first_where-holds p ys x (rw e at h)
]

pub first_where-All :
    {A : Type 0} (P : A → Type 0) (p : A → Bool) (xs : List A) (x : A)
    → All P xs
    → first_where p xs ≡ some x
    → P x
unfolding first_where
first_where-All P p [] x all h = cc h
first_where-All P p (y ∷ ys) x all h = elim (Bool-cases (p y)) [
  | inl e ↦ subst P (some-injective _ _ (rw e at h)) all.0
  | inr e ↦ first_where-All P p ys x all.1 (rw e at h)
]

abbrev pub changed : {A : Type 0} → (A → Bool) → (A → A) → Option A → Option A
changed q f none = none
changed q f (some x) = some (if q x then f x else x)

-- A change that leaves the key of a row.
pub first_where-update_where :
    {A : Type 0} (p q : A → Bool) (f : A → A) (xs : List A)
    → ((x : A) → p (f x) ≡ p x)
    → first_where p (update_where q f xs) ≡ changed q f (first_where p xs)
unfolding first_where update_where
first_where-update_where p q f [] keeps = refl
first_where-update_where p q f (x ∷ xs) keeps =
    let rest = first_where-update_where p q f xs keeps in
    elim (Bool-cases (q x)) [
      | inl e ↦ elim (Bool-cases (p x)) [
        | inl g ↦ rw (e, keeps x, g) (rw e refl)
        | inr g ↦ rw (e, keeps x, g) rest
      ]
      | inr e ↦ elim (Bool-cases (p x)) [ inl g ↦ rw (e, g) (rw e refl) | inr g ↦ rw (e, g) rest ]
    ]

pub first_where-delete_where :
    {A : Type 0} (p q : A → Bool) (xs : List A)
    → ((x : A) → q x ≡ true → p x ≡ false)
    → first_where p (delete_where q xs) ≡ first_where p xs
unfolding first_where
first_where-delete_where p q [] apart = refl
first_where-delete_where p q (x ∷ xs) apart =
    let rest = first_where-delete_where p q xs apart in
    elim (Bool-cases (q x)) [ inl e ↦ rw (e, apart x e) rest | inr e ↦ rw (e, rest) refl ]

pub any-none :
    {A : Type 0} (p : A → Bool) (xs : List A) → All (λ x. p x ≡ false) xs → any p xs ≡ false
any-none p [] h = refl
any-none p (x ∷ xs) h = rw (h.0, any-none p xs h.1) refl

pub All-changed :
    {A : Type 0} (P Q : A → Type 0) (p : A → Bool) (f : A → A) (xs : List A)
    → ((x : A) → Q x → p x ≡ true → P (f x))
    → ((x : A) → Q x → p x ≡ false → P x)
    → All Q xs
    → All P (update_where p f xs)
unfolding update_where
All-changed P Q p f [] hit miss h = tt
All-changed P Q p f (x ∷ xs) hit miss h = elim (Bool-cases (p x)) [
  | inl e ↦ rw e (hit x h.0 e, All-changed P Q p f xs hit miss h.1)
  | inr e ↦ rw e (miss x h.0 e, All-changed P Q p f xs hit miss h.1)
]

pub any-first_where :
    {A : Type 0} (p : A → Bool) (xs : List A)
    → any p xs ≡ true
    → (x : A) × (first_where p xs ≡ some x)
unfolding first_where
any-first_where p [] h = cc h
any-first_where p (x ∷ xs) h = elim (Bool-cases (p x)) [
  | inl e ↦ (x, rw e refl)
  | inr e ↦ let (y, f) = any-first_where p xs (rw e at h) in (y, rw e f)
]
