-- ===== src/Compensation/Tables/Invariant.antt =====
-- What the checks of `compensation_links` (migrations/0001_initial_schema.sql) keep true under any
-- statements of worker/repositories/compensation-repository.ts, in any order.
use mono_finance.Common.{Ident, ◌≡◌, Option, none, some, List, [], ◌∷◌, arith, All, filter}
use mono_finance.Common.Int.{ℤ, pos, neg, ◌≤ℤ◌}
use mono_finance.Common.Money.{Direction, income, expense}
use mono_finance.Compensation.Tables.{
  Transaction, Link, Tables, of_expense, of_income, total, create_link, delete_link,
}
use mono_finance.Compensation.Tables.Ledger.{IsPositive, total-filter_le, All-filter}

-- The CHECK of `transactions`: an expense is below zero, an income is not.
abbrev pub HasSign : Direction → ℤ → Type 0
HasSign income amount = pos 0 ≤ℤ amount
HasSign expense amount = pos 1 ≤ℤ neg amount

-- The links that reimburse an expense stay within it, and those that use an income within that.
abbrev pub IsCovered : List Link → Transaction → Direction → Type 0
IsCovered links x expense = total (filter (of_expense x.id) links) ≤ℤ neg x.original_amount_minor
IsCovered links x income = total (filter (of_income x.id) links) ≤ℤ x.original_amount_minor

-- Both ends of a link are transactions of its user.
abbrev pub IsOwn : Ident → Option Transaction → Type 0
IsOwn user none = ⊥
IsOwn user (some x) = x.user_id ≡ user

pub record IsSound (t : Tables) : Type 0 where
  pub keyed : (id : Ident) (x : Transaction) → t.transactions id ≡ some x → x.id ≡ id
  pub signed :
      (id : Ident) (x : Transaction)
      → t.transactions id ≡ some x
      → HasSign x.direction x.original_amount_minor
  pub positive : IsPositive t.links
  pub owned :
      All
        (λ l.
          IsOwn l.user_id (t.transactions l.expense_transaction_id)
          × IsOwn l.user_id (t.transactions l.compensation_transaction_id))
        t.links
  pub covered :
      (id : Ident) (x : Transaction) → t.transactions id ≡ some x → IsCovered t.links x x.direction

-- One statement on the links; an insert that D1 aborts changes nothing.
pub data Statement : Type 0 where
  inserts : Link → Statement
  deletes : (link_id expense_transaction_id user_id : Ident) → Statement

abbrev pub or_unchanged : Tables → Option Tables → Tables
or_unchanged t none = t
or_unchanged t (some t') = t'

unfoldable pub run : Statement → Tables → Tables
unfolding create_link delete_link
run (inserts new) t = or_unchanged t (create_link new t)
run (deletes link_id expense_id user) t = delete_link link_id expense_id user t

unfoldable pub run_all : List Statement → Tables → Tables
unfolding run
run_all [] t = t
run_all (s ∷ ss) t = run_all ss (run s t)

IsCovered-weaken :
    (links links' : List Link) (x : Transaction) (d : Direction)
    → total (filter (of_expense x.id) links') ≤ℤ total (filter (of_expense x.id) links)
    → total (filter (of_income x.id) links') ≤ℤ total (filter (of_income x.id) links)
    → IsCovered links x d
    → IsCovered links' x d
IsCovered-weaken links links' x income he hi h = omega arith
IsCovered-weaken links links' x expense he hi h = omega arith

pub delete_link-IsSound :
    (link_id expense_id user : Ident) (t : Tables)
    → IsSound t
    → IsSound (delete_link link_id expense_id user t)
unfolding delete_link
delete_link-IsSound link_id expense_id user t h = record {
  keyed = h.keyed;
  signed = h.signed;
  positive = All-filter _ _ t.links h.positive;
  owned = All-filter _ _ t.links h.owned;
  covered = λ id x e.
      IsCovered-weaken t.links _ x x.direction (total-filter_le _ _ t.links h.positive)
        (total-filter_le _ _ t.links h.positive) (h.covered id x e);
}
