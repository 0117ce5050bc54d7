-- ===== src/Analytics/Breakdowns/Weekdays.antt =====
-- The weekday slots of `weekdayAmounts` (worker/services/analytics-service.ts): every transaction
-- finds its slot.
use mono_finance.Common.{
  Ident, any-append, or_true, or_false, ℕ, ◌≤◌, ◌≡◌, refl, sym, ap, ◌∙◌, Bool, true, false, ◌||◌,
  List, [], ◌∷◌, ◌++◌, map, ◌==◌, ==_self, ==_to, and_parts, any, All, All-mono, if◌then◌else◌,
  Bool-cases, inl, inr, arith,
}
use mono_finance.Common.Int.{ℤ, pos, ◌+ℤ◌, int_laws}
use mono_finance.Common.Groups.{sum_by, sum_by-append, sum_by-sort_by}
use mono_finance.Analytics.Transactions.{ResolvedTransaction, expense_of, unique, unique_from}
use mono_finance.Analytics.Calendar.{weekday_number}
use mono_finance.Analytics.Totals.{is_in}
use mono_finance.Analytics.Breakdowns.{
  WeekdayAmount, empty_weekday, empty_weekdays, weekdays, is_slot, in_slot, change_slot, fill_slots,
  weekday_amounts, weekday_precedes,
}

weekday_number-bounds : (t : ℕ) → (1 ≤ weekday_number t) × (weekday_number t ≤ 7)
unfolding weekday_number
weekday_number-bounds t = ground arith

or_assoc : (a b c : Bool) → (a || b || c) ≡ (a || (b || c))
or_assoc true b c = refl
or_assoc false b c = refl

abbrev holds_code : Ident → List Ident → Bool
holds_code code codes = any (λ y. y == code) codes

any-added :
    (code x : Ident) (seen : List Ident)
    → holds_code code (if holds_code x seen then seen else seen ++ x ∷ [])
      ≡ (holds_code code seen || x == code)
any-added code x seen = elim (Bool-cases (holds_code x seen)) [
  | inl e ↦ elim (Bool-cases (x == code)) [
    | inl same ↦ rw e (rw (sym (==_to x code same), e) refl)
    | inr differ ↦ rw (e, differ) (sym (or_false (holds_code code seen)))
  ]
  | inr e ↦ rw e (
      any-append (λ y. y == code) seen (x ∷ [])
      ∙ ap (λ b. holds_code code seen || b) (or_false (x == code)))
]

-- A set holds what was in it and what was added.
any-unique_from :
    (code : Ident) (seen xs : List Ident)
    → (holds_code code seen || holds_code code xs) ≡ true
    → holds_code code (unique_from seen xs) ≡ true
any-unique_from code seen [] h = sym (or_false (holds_code code seen)) ∙ h
any-unique_from code seen (x ∷ xs) h =
    any-unique_from code (if holds_code x seen then seen else seen ++ x ∷ []) xs (
      ap (λ b. b || holds_code code xs) (any-added code x seen)
      ∙ or_assoc (holds_code code seen) (x == code) (holds_code code xs)
      ∙ h)

has_weekday :
    (code : Ident) (d : ℕ)
    → 1 ≤ d
    → d ≤ 7
    → any (is_slot code d) (map (empty_weekday code) weekdays) ≡ true
has_weekday code d low high = rw (==_self code) (ground arith)

any-empty_weekdays :
    (code : Ident) (d : ℕ) (codes : List Ident)
    → 1 ≤ d
    → d ≤ 7
    → holds_code code codes ≡ true
    → any (is_slot code d) (empty_weekdays codes) ≡ true
unfolding empty_weekdays
any-empty_weekdays code d [] low high h = cc h
any-empty_weekdays code d (y ∷ codes) low high h =
    any-append (is_slot code d) (map (empty_weekday y) weekdays) (empty_weekdays codes)
    ∙ elim (Bool-cases (y == code)) [
      | inl e ↦ rw (==_to y code e, has_weekday code d low high) refl
      | inr e ↦ rw (any-empty_weekdays code d codes low high (rw e at h)) (or_true _)
    ]

-- What the slots of a currency hold.
abbrev pub weekday_in : Ident → WeekdayAmount → ℤ
weekday_in code w = if w.currency_code == code then w.amount_minor else pos 0

abbrev pub spent_in : Ident → ResolvedTransaction → ℤ
spent_in code x = if is_in code x then expense_of x else pos 0

sum_by-empty_weekdays :
    (code : Ident) (codes : List Ident) → sum_by (weekday_in code) (empty_weekdays codes) ≡ pos 0
unfolding empty_weekdays sum_by ◌+ℤ◌
sum_by-empty_weekdays code [] = refl
sum_by-empty_weekdays code (y ∷ codes) =
    sum_by-append (weekday_in code) (map (empty_weekday y) weekdays) (empty_weekdays codes)
    ∙ rw (sum_by-empty_weekdays code codes)
        (elim (Bool-cases (y == code)) [ inl e ↦ rw e refl | inr e ↦ rw e refl ])

sum_by-change_slot :
    (code : Ident) (x : ResolvedTransaction) (ws : List WeekdayAmount)
    → any (in_slot x) ws ≡ true
    → sum_by (weekday_in code) (change_slot x ws) ≡ sum_by (weekday_in code) ws +ℤ spent_in code x
unfolding change_slot sum_by
sum_by-change_slot code x [] h = cc h
sum_by-change_slot code x (w ∷ ws) h = elim (Bool-cases (in_slot x w)) [
  | inl e ↦
      let here = (and_parts _ _ e).0 in
      let same = ==_to w.currency_code x.currency_code here in
      rw e (elim (Bool-cases (x.currency_code == code)) [
        | inl inside ↦ rw (same, inside) (omega int_laws)
        | inr out ↦ rw (same, out) (omega int_laws)
      ])
  | inr e ↦ rw (e, sum_by-change_slot code x ws (rw e at h)) (omega int_laws)
]

any-change_slot :
    (code : Ident) (d : ℕ) (x : ResolvedTransaction) (ws : List WeekdayAmount)
    → any (is_slot code d) (change_slot x ws) ≡ any (is_slot code d) ws
unfolding change_slot
any-change_slot code d x [] = refl
any-change_slot code d x (w ∷ ws) = elim (Bool-cases (in_slot x w)) [
  | inl e ↦ rw e refl
  | inr e ↦ rw (e, any-change_slot code d x ws) refl
]

sum_by-fill_slots :
    (code : Ident) (xs : List ResolvedTransaction) (ws : List WeekdayAmount)
    → All (λ x. any (in_slot x) ws ≡ true) xs
    → sum_by (weekday_in code) (fill_slots xs ws)
      ≡ sum_by (weekday_in code) ws +ℤ sum_by (spent_in code) xs
unfolding fill_slots sum_by
sum_by-fill_slots code [] ws h = omega int_laws
sum_by-fill_slots code (x ∷ xs) ws (here, later) =
    sum_by-fill_slots code xs (change_slot x ws) (
      All-mono (λ y. any (in_slot y) ws ≡ true) (λ y. any (in_slot y) (change_slot x ws) ≡ true)
        (λ y found.
          any-change_slot y.currency_code (weekday_number y.original_timestamp) x ws ∙ found)
        xs later)
    ∙ rw (sum_by-change_slot code x ws here) (omega int_laws)

-- Each transaction's currency is among those that have slots.
slots_found :
    (xs : List ResolvedTransaction) (codes : List Ident)
    → All (λ x. holds_code x.currency_code codes ≡ true) xs
    → All (λ x. any (in_slot x) (empty_weekdays codes) ≡ true) xs
slots_found xs codes h =
    All-mono (λ x. holds_code x.currency_code codes ≡ true)
      (λ x. any (in_slot x) (empty_weekdays codes) ≡ true)
      (λ x held.
        let (low, high) = weekday_number-bounds x.original_timestamp in
        any-empty_weekdays x.currency_code (weekday_number x.original_timestamp) codes low high
          held)
      xs h

codes_held :
    (xs : List ResolvedTransaction)
    → All (λ x. holds_code x.currency_code (unique (map (λ y. y.currency_code) xs)) ≡ true) xs
codes_held xs =
    All-mono _ _ (λ x held. any-unique_from x.currency_code [] (map (λ y. y.currency_code) xs) held)
      xs (listed xs)
  where
    listed :
        (xs : List ResolvedTransaction)
        → All (λ x. holds_code x.currency_code (map (λ y. y.currency_code) xs) ≡ true) xs
    listed [] = tt
    listed (x ∷ xs) = (
      rw (==_self x.currency_code) refl,
      All-mono _ _ (λ y held. rw held (or_true _)) xs (listed xs),
    )

-- No transaction is without a slot, so the slots hold all that was spent.
pub sum_by-weekday_amounts :
    (code : Ident) (xs : List ResolvedTransaction)
    → sum_by (weekday_in code) (weekday_amounts xs) ≡ sum_by (spent_in code) xs
unfolding weekday_amounts
sum_by-weekday_amounts code xs =
    let codes = unique (map (λ x. x.currency_code) xs) in
    sum_by-sort_by (weekday_in code) weekday_precedes (fill_slots xs (empty_weekdays codes))
    ∙ sum_by-fill_slots code xs (empty_weekdays codes) (slots_found xs codes (codes_held xs))
    ∙ rw (sum_by-empty_weekdays code codes) (omega int_laws)
