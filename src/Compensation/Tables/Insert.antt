-- ===== src/Compensation/Tables/Insert.antt =====
-- Inserting an accepted row keeps the links within the amounts
-- (migrations/0001_initial_schema.sql).
use mono_finance.Common.{◌≡◌, inl, inr, some, List, [], ◌∷◌, Bool-cases, ◌==◌, ==_iff, sym, ap, ◌∙◌}
use mono_finance.Common.Int.{int_laws}
use mathlib.Core.Option.{some-injective}
use mono_finance.Common.Money.{Direction, income, expense}
use mono_finance.Compensation.Tables.{Transaction, Link, Tables, total, is_insertable, create_link}
use mono_finance.Compensation.Tables.Accepted.{IsAccepted, insertable-IsAccepted}
use mono_finance.Compensation.Tables.Invariant.{
  IsCovered, IsSound, Statement, inserts, deletes, or_unchanged, run, run_all, delete_link-IsSound,
}

module _ (t : Tables) (new : Link) (e i : Transaction) (a : IsAccepted t new e i) where
  IsCovered-expense :
      (x : Transaction)
      → t.transactions x.id ≡ some x
      → IsCovered t.links x expense
      → IsCovered (new ∷ t.links) x expense
  unfolding total
  IsCovered-expense x found h = elim (Bool-cases (new.expense_transaction_id == x.id)) [
    | inl same ↦
        let id : new.expense_transaction_id ≡ x.id = (==_iff _ _).0 same in
        let is_x : e ≡ x =
          some-injective _ _ (sym a.found_expense ∙ ap t.transactions id ∙ found) in
        let within = rw (id, is_x) at a.within_expense in rw same (omega (int_laws, within))
    | inr other ↦ rw other h
  ]

  IsCovered-income :
      (x : Transaction)
      → t.transactions x.id ≡ some x
      → IsCovered t.links x income
      → IsCovered (new ∷ t.links) x income
  unfolding total
  IsCovered-income x found h = elim (Bool-cases (new.compensation_transaction_id == x.id)) [
    | inl same ↦
        let id : new.compensation_transaction_id ≡ x.id = (==_iff _ _).0 same in
        let is_x : i ≡ x = some-injective _ _ (sym a.found_income ∙ ap t.transactions id ∙ found) in
        let within = rw (id, is_x) at a.within_income in rw same (omega (int_laws, within))
    | inr other ↦ rw other h
  ]

  IsCovered-new :
      (d : Direction) (x : Transaction)
      → t.transactions x.id ≡ some x
      → IsCovered t.links x d
      → IsCovered (new ∷ t.links) x d
  IsCovered-new income = IsCovered-income
  IsCovered-new expense = IsCovered-expense

  pub create_link-IsSound : IsSound t → IsSound (record t { links = new ∷ t.links })
  create_link-IsSound h = record {
    keyed = h.keyed;
    signed = h.signed;
    positive = (a.amount, h.positive);
    owned = ((rw a.found_expense a.expense_user, rw a.found_income a.income_user), h.owned);
    covered = λ id x e.
        IsCovered-new x.direction x (ap t.transactions (h.keyed id x e) ∙ e) (h.covered id x e);
  }

insert-IsSound :
    (new : Link) (t : Tables) → IsSound t → IsSound (or_unchanged t (create_link new t))
unfolding create_link
insert-IsSound new t h = elim (Bool-cases (is_insertable t new)) [
  | inl accepts ↦
      let (e, i, a) = insertable-IsAccepted t new accepts in
      rw accepts (create_link-IsSound t new e i a h)
  | inr aborts ↦ rw aborts h
]

run-IsSound : (s : Statement) (t : Tables) → IsSound t → IsSound (run s t)
unfolding run
run-IsSound (inserts new) t h = insert-IsSound new t h
run-IsSound (deletes link_id expense_id user) t h = delete_link-IsSound link_id expense_id user t h

-- From sound tables on, whatever statements the Worker runs on the links, in whatever order and with
-- whatever rows, the tables stay sound: an expense is never reimbursed beyond its amount, no incoming
-- transaction is used beyond its own, every link has an amount above zero, and both its ends belong
-- to its user.
pub run_all-IsSound : (ss : List Statement) (t : Tables) → IsSound t → IsSound (run_all ss t)
unfolding run_all
run_all-IsSound [] t h = h
run_all-IsSound (s ∷ ss) t h = run_all-IsSound ss (run s t) (run-IsSound s t h)
