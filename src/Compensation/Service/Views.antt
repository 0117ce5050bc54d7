-- ===== src/Compensation/Service/Views.antt =====
-- What the reads of `link` (worker/services/compensation-service.ts) say of sound tables: the sums
-- and the links that the service sees are those that the database checks.
use mono_finance.Common.{
  Ident, ◌≡◌, refl, Bool, ◌||◌, ◌&&◌, Option, some, List, [], ◌∷◌, arith, All, filter, any, ◌==◌,
  ==_iff, Bool-cases, Option-cases, inl, inr, ap, ◌∙◌,
}
use mathlib.Core.Option.{some-injective}
use mono_finance.Common.Sort.{sort_by, insert_by}
use mono_finance.Compensation.Tables.{
  Transaction, Link, Tables, of_expense, of_income, of_user, total, find_links, find_expense_links,
  find_income_links, find_owned_transaction, link_precedes,
}
use mono_finance.Compensation.Tables.Ledger.{total-sort_by, filter_agree}
use mono_finance.Compensation.Tables.Invariant.{IsSound, IsOwn}

own_agrees :
    (transactions : Ident → Option Transaction) (x : Transaction) (id user : Ident)
    → transactions x.id ≡ some x
    → IsOwn user (transactions id)
    → ((id == x.id) && (user == x.user_id)) ≡ (id == x.id)
own_agrees transactions x id user found h = elim (Bool-cases (id == x.id)) [
  | inl e ↦ let own : x.user_id ≡ user = rw ((==_iff _ _).0 e, found) at h in rw e (ground arith)
  | inr e ↦ rw e
]

-- On sound tables the links that the service sees of a transaction are all that there are.
owned_expense_links :
    (t : Tables) (x : Transaction) (ls : List Link)
    → t.transactions x.id ≡ some x
    → All
        (λ l.
          IsOwn l.user_id (t.transactions l.expense_transaction_id)
          × IsOwn l.user_id (t.transactions l.compensation_transaction_id))
        ls
    → All (λ l. (of_expense x.id l && of_user x.user_id l) ≡ of_expense x.id l) ls
owned_expense_links t x [] found h = tt
owned_expense_links t x (l ∷ ls) found h = (
  own_agrees t.transactions x l.expense_transaction_id l.user_id found h.0.0,
  owned_expense_links t x ls found h.1,
)

owned_income_links :
    (t : Tables) (x : Transaction) (ls : List Link)
    → t.transactions x.id ≡ some x
    → All
        (λ l.
          IsOwn l.user_id (t.transactions l.expense_transaction_id)
          × IsOwn l.user_id (t.transactions l.compensation_transaction_id))
        ls
    → All (λ l. (of_income x.id l && of_user x.user_id l) ≡ of_income x.id l) ls
owned_income_links t x [] found h = tt
owned_income_links t x (l ∷ ls) found h = (
  own_agrees t.transactions x l.compensation_transaction_id l.user_id found h.0.1,
  owned_income_links t x ls found h.1,
)

-- So the sums that `link` computes are the sums that the trigger computes.
pub total-find_expense_links :
    (t : Tables) (x : Transaction)
    → IsSound t
    → t.transactions x.id ≡ some x
    → total (find_expense_links x.id x.user_id t) ≡ total (filter (of_expense x.id) t.links)
unfolding find_links
total-find_expense_links t x h found =
    total-sort_by link_precedes _
    ∙ ap total (filter_agree _ _ t.links (owned_expense_links t x t.links found h.owned))

pub total-find_income_links :
    (t : Tables) (x : Transaction)
    → IsSound t
    → t.transactions x.id ≡ some x
    → total (find_income_links x.id x.user_id t) ≡ total (filter (of_income x.id) t.links)
unfolding find_links
total-find_income_links t x h found =
    total-sort_by link_precedes _
    ∙ ap total (filter_agree _ _ t.links (owned_income_links t x t.links found h.owned))

any-insert_by :
    (p : Link → Bool) (before : Link → Link → Bool) (l : Link) (ls : List Link)
    → any p (insert_by before l ls) ≡ (p l || any p ls)
unfolding insert_by
any-insert_by p before l [] = refl
any-insert_by p before l (k ∷ ls) = elim (Bool-cases (before k l)) [
  | inl e ↦ rw e (rw (any-insert_by p before l ls) (ground arith))
  | inr e ↦ rw e
]

pub any-sort_by :
    (p : Link → Bool) (before : Link → Link → Bool) (ls : List Link)
    → any p (sort_by before ls) ≡ any p ls
unfolding sort_by
any-sort_by p before [] = refl
any-sort_by p before (l ∷ ls) =
    any-insert_by p before l (sort_by before ls) ∙ ap (λ b. p l || b) (any-sort_by p before ls)

any-filter : (p q : Link → Bool) (ls : List Link) → any p (filter q ls) ≡ any (λ l. q l && p l) ls
any-filter p q [] = refl
any-filter p q (l ∷ ls) = elim (Bool-cases (q l)) [
  | inl e ↦ rw e (ap (λ b. p l || b) (any-filter p q ls))
  | inr e ↦ rw e (any-filter p q ls)
]

pub any-find_expense_links :
    (p : Link → Bool) (t : Tables) (x : Transaction)
    → IsSound t
    → t.transactions x.id ≡ some x
    → any p (find_expense_links x.id x.user_id t) ≡ any (λ l. of_expense x.id l && p l) t.links
unfolding find_links
any-find_expense_links p t x h found =
    any-sort_by p link_precedes _
    ∙ ap (any p) (filter_agree _ _ t.links (owned_expense_links t x t.links found h.owned))
    ∙ any-filter p (of_expense x.id) t.links

-- What `findOwnedTransaction` says of its answer.
pub find_owned_transaction_lem :
    (id user : Ident) (t : Tables) (x : Transaction)
    → IsSound t
    → find_owned_transaction id user t ≡ some x
    → (t.transactions id ≡ some x) × (x.id ≡ id) × (x.user_id ≡ user)
unfolding find_owned_transaction
find_owned_transaction_lem id user t x h e = elim (Option-cases (t.transactions id)) [
  | inl missing ↦ cc (rw (missing, find_owned_transaction) at e)
  | inr (y, found) ↦
      let e' = rw (found, find_owned_transaction) at e in
      elim (Bool-cases (y.user_id == user)) [
        | inl own ↦
            let same : y ≡ x = some-injective _ _ (rw own at e') in
            let row : t.transactions id ≡ some x = found ∙ ap some same in
            (row, h.keyed id x row, rw (← same) ((==_iff _ _).0 own))
        | inr foreign ↦ cc (rw foreign at e')
      ]
]
