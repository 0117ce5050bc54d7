-- ===== src/Compensation/Service/Accepts.antt =====
-- On sound tables D1 accepts every row that `link` (worker/services/compensation-service.ts) writes.
use mono_finance.Common.{
  ℕ, ◌≡◌, refl, Bool, true, false, ◌||◌, some, arith, filter, any, ◌==◌, ==_iff, Bool-cases, inl,
  inr, sym, ap, ◌∙◌,
}
use mono_finance.Common.Int.{integer, ℤ, neg, ◌-ℤ◌, ltb_ℤ, leb_ℤ, Number}
use mono_finance.Common.Money.{Direction, income, expense, is_income, is_expense}
use mathlib.Core.Option.{some-injective}
use mono_finance.Compensation.Tables.{
  Transaction, Link, Tables, of_expense, of_income, total, find_expense_links, find_income_links,
  trigger_allows, row_allows, is_insertable,
}
use mono_finance.Compensation.Tables.Invariant.{IsSound}
use mono_finance.Compensation.Tables.Accepted.{is_insertable_eq}
use mono_finance.Compensation.Service.{exceeds, is_mismatch, is_no_expense, new_link}
use mono_finance.Compensation.Service.Views.{
  total-find_expense_links, total-find_income_links, any-find_expense_links,
}

leb_ℤ_of_not_ltb_ℤ : (a b : ℤ) → ltb_ℤ b a ≡ false → leb_ℤ a b ≡ true
leb_ℤ_of_not_ltb_ℤ a b h = ground arith

no_direction_is_both : (d : Direction) → is_expense d ≡ true → is_income d ≡ true → ⊥
no_direction_is_both income h k = cc h
no_direction_is_both expense h k = cc k

or_false : (a b : Bool) → (a || b) ≡ false → (a ≡ false) × (b ≡ false)
or_false true b h = cc h
or_false false b h = (refl, h)

module _ (t : Tables) (e i : Transaction) (new_id now : ℕ) (amount : Number) (h : IsSound t)
    (found_e : t.transactions e.id ≡ some e) (found_i : t.transactions i.id ≡ some i)
    (same_user : i.user_id ≡ e.user_id) (is_expense_e : is_no_expense e ≡ false)
    (matches : is_mismatch e i amount ≡ false) where
  -- The row that `link` writes of the two.
  abbrev pub row : Link
  row =
      new_link new_id now e.user_id e.id e
        (record { compensated_amount_minor = amount; compensation_transaction_id = i.id })

  directions : (is_expense e.direction ≡ true) × (is_income i.direction ≡ true)
  directions = (ground arith, ground arith)

  trigger_accepts :
      exceeds e i
          (find_expense_links e.id e.user_id t)
          (find_income_links i.id e.user_id t)
          (integer amount)
        ≡ false
      → trigger_allows t.links row e i ≡ true
  unfolding trigger_allows
  trigger_accepts within =
      let expense_sum = total-find_expense_links t e h found_e in
      let income_sum = total-find_income_links t i h found_i in
      let (in_expense, in_income) =
        or_false _ _ (rw (expense_sum, ← same_user, income_sum) at within) in
      let fits_expense =
        leb_ℤ_of_not_ltb_ℤ (integer amount)
          (neg e.original_amount_minor -ℤ total (filter (of_expense e.id) t.links)) in_expense in
      let fits_income =
        leb_ℤ_of_not_ltb_ℤ (integer amount)
          (i.original_amount_minor -ℤ total (filter (of_income i.id) t.links)) in_income in
      rw (directions.0, directions.1, fits_expense, fits_income) (ground arith)

  ends_differ : (e.id == i.id) ≡ false
  ends_differ = elim (Bool-cases (e.id == i.id)) [
    | inl same ↦
        let one : i ≡ e =
          some-injective _ _
            (sym found_i ∙ ap t.transactions (sym ((==_iff _ _).0 same)) ∙ found_e) in
        let income_e : is_income e.direction ≡ true = rw (← one) directions.1 in
        elim (no_direction_is_both e.direction directions.0 income_e) [ ]
    | inr differ ↦ differ
  ]

  row_accepts :
      any (λ l. l.id == new_id) t.links ≡ false
      → any (λ l. l.compensation_transaction_id == i.id) (find_expense_links e.id e.user_id t)
        ≡ false
      → row_allows t.links row ≡ true
  unfolding row_allows
  row_accepts fresh unlinked =
      let pair = sym (any-find_expense_links (of_income i.id) t e h found_e) ∙ unlinked in
      rw (fresh, pair, ends_differ) (ground arith)

  pub row-is_insertable :
      exceeds e i
          (find_expense_links e.id e.user_id t)
          (find_income_links i.id e.user_id t)
          (integer amount)
        ≡ false
      → any (λ l. l.id == new_id) t.links ≡ false
      → any (λ l. l.compensation_transaction_id == i.id) (find_expense_links e.id e.user_id t)
        ≡ false
      → is_insertable t row ≡ true
  row-is_insertable within fresh unlinked =
      is_insertable_eq t row e i found_e found_i
      ∙ rw (trigger_accepts within, row_accepts fresh unlinked) refl
