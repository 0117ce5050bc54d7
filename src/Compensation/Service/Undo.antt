-- ===== src/Compensation/Service/Undo.antt =====
-- `unlink` (worker/services/compensation-service.ts) takes back what `link` has written.
use mono_finance.Common.{
  Ident, ℕ, ◌≡◌, refl, Bool, true, false, ◌&&◌, not, some, List, [], ◌∷◌, arith, filter, any, ◌==◌,
  ap, ◌∙◌,
}
use mono_finance.Common.Action.{Result}
use mono_finance.Compensation.Tables.{
  Transaction, Link, Tables, find_expense_links, find_owned_transaction, delete_link,
}
use mono_finance.Compensation.Tables.Invariant.{IsSound}
use mono_finance.Compensation.Service.{
  Details, LinkInput, link, unlink, is_no_expense, new_link, get_details, required_transaction,
}
use mono_finance.Compensation.Score.{TextOps}
use mono_finance.Compensation.Service.Views.{any-sort_by, find_owned_transaction_lem}
use mono_finance.Compensation.Service.Outcome.{LinkOutcome, link_lem}
use mono_finance.Compensation.Tables.{find_links, of_expense, of_user, link_precedes}
use mono_finance.Common.{==_self}

filter_fresh :
    (new_id : Ident) (p q : Link → Bool) (ls : List Link)
    → any (λ l. l.id == new_id) ls ≡ false
    → filter (λ l. not (l.id == new_id && p l && q l)) ls ≡ ls
filter_fresh new_id p q [] fresh = refl
filter_fresh new_id p q (l ∷ ls) fresh =
    let other : (l.id == new_id) ≡ false = ground arith in
    let others : any (λ l. l.id == new_id) ls ≡ false = ground arith in
    rw other (ap (λ rest. l ∷ rest) (filter_fresh new_id p q ls others))

module _ (ops : TextOps) (new : Link) (e : Transaction) (t : Tables)
    (fresh : any (λ l. l.id == new.id) t.links ≡ false)
    (own_e : find_owned_transaction new.expense_transaction_id new.user_id t ≡ some e)
    (keyed : e.id ≡ new.expense_transaction_id) (is_expense_e : is_no_expense e ≡ false) where
  abbrev grown : Tables
  grown = record t { links = new ∷ t.links }

  own_grown : find_owned_transaction new.expense_transaction_id new.user_id grown ≡ some e
  unfolding find_owned_transaction
  own_grown = own_e

  new_is_found : any (λ l. l.id == new.id) (find_expense_links e.id new.user_id grown) ≡ true
  unfolding find_links
  new_is_found =
      any-sort_by (λ l. l.id == new.id) link_precedes _
      ∙ rw (keyed, ==_self new.expense_transaction_id, ==_self new.user_id, ==_self new.id) refl

  delete_undoes : delete_link new.id e.id new.user_id grown ≡ t
  unfolding delete_link
  delete_undoes =
      let rest = filter_fresh new.id (of_expense e.id) (of_user new.user_id) t.links fresh in
      rw (keyed, ==_self new.expense_transaction_id, ==_self new.user_id, ==_self new.id)
        (ap (λ ls. record t { links = ls }) rest)

  undone :
      (d : Details) × (unlink ops new.user_id new.expense_transaction_id new.id grown
        ≡ (Result.ok d, t))
  unfolding unlink required_transaction get_details
  undone = rw (own_grown, is_expense_e, new_is_found, delete_undoes, own_e, is_expense_e) (_, refl)

-- When `link` succeeds on sound tables, with an id that no link has, unlinking that id succeeds and
-- gives back the tables as they were before the link.
pub unlink-link :
    (ops : TextOps) (new_id now : ℕ) (user expense_id : Ident) (input : LinkInput) (t t' : Tables)
    (d : Details)
    → IsSound t
    → any (λ l. l.id == new_id) t.links ≡ false
    → link ops new_id now user expense_id input t ≡ (Result.ok d, t')
    → (d' : Details) × (unlink ops user expense_id new_id t' ≡ (Result.ok d', t))
unlink-link ops new_id now user expense_id input t t' d h fresh linked =
    let outcome : LinkOutcome t new_id now user expense_id input (Result.ok d, t') =
      rw linked at (link_lem ops new_id now user expense_id input t h fresh) in
    let (e, own_e, is_expense_e, tables, _) = outcome in
    let (_, keyed, _) = find_owned_transaction_lem expense_id user t e h own_e in
    rw tables
      (undone ops (new_link new_id now user expense_id e input) e t fresh own_e keyed is_expense_e)
