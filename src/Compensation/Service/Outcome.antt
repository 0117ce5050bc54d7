-- ===== src/Compensation/Service/Outcome.antt =====
-- What `link` and `unlink` (worker/services/compensation-service.ts) do on every branch.
use mono_finance.Common.{
  Ident, ℕ, ◌≡◌, ◌≢◌, refl, true, false, some, ◌∷◌, any, ◌==◌, Bool-cases, Option-cases, inl, inr,
  sym, ap, ◌∙◌,
}
use mono_finance.Common.Int.{integer, Number}
use mono_finance.Common.Action.{Result, ok, err}
use mono_finance.Compensation.Tables.{
  Transaction, Tables, find_expense_links, find_income_links, find_owned_transaction, create_link,
}
use mono_finance.Compensation.Tables.Invariant.{IsSound}
use mono_finance.Compensation.Service.{
  CompensationError, database_error, invalid_compensation, Details, LinkInput, link, exceeds,
  is_mismatch, is_no_expense, new_link, get_details, required_transaction,
}
use mono_finance.Compensation.Score.{TextOps, summary}
use mono_finance.Compensation.Service.Views.{find_owned_transaction_lem}
use mono_finance.Compensation.Service.Accepts.{row-is_insertable}

-- A call of `link`: an error is one of the service's own and leaves the tables as they were; a
-- success has added the row that was asked for and nothing else, and answers with the summary of
-- the new tables.
abbrev pub LinkOutcome :
    Tables
    → Ident
    → ℕ
    → Ident
    → Ident
    → LinkInput
    → Result CompensationError Details × Tables
    → Type 0
LinkOutcome t new_id now user expense_id input (err c, t') = (c ≢ database_error) × (t' ≡ t)
LinkOutcome t new_id now user expense_id input (ok d, t') =
    (expense : Transaction) × (find_owned_transaction expense_id user t ≡ some expense)
    × (is_no_expense expense ≡ false)
    × (t' ≡ record t { links = new_link new_id now user expense_id expense input ∷ t.links })
    × (d.summary ≡ summary expense (find_expense_links expense_id user t'))

module _ (ops : TextOps) (new_id now : ℕ) (t : Tables) (e i : Transaction) (amount : Number)
    (h : IsSound t) (fresh : any (λ l. l.id == new_id) t.links ≡ false)
    (found_e : t.transactions e.id ≡ some e) (found_i : t.transactions i.id ≡ some i)
    (own_e : find_owned_transaction e.id e.user_id t ≡ some e)
    (own_i : find_owned_transaction i.id e.user_id t ≡ some i)
    (same_user : i.user_id ≡ e.user_id) where
  abbrev request : LinkInput
  request = record { compensated_amount_minor = amount; compensation_transaction_id = i.id }

  abbrev call : Result CompensationError Details × Tables
  call = link ops new_id now e.user_id e.id request t

  link_no_expense : is_no_expense e ≡ true → call ≡ (Result.err invalid_compensation, t)
  unfolding link required_transaction get_details
  link_no_expense c1 = rw (own_e, own_i, c1)

  link_mismatch :
      is_no_expense e ≡ false
      → is_mismatch e i amount ≡ true
      → call ≡ (Result.err invalid_compensation, t)
  unfolding link required_transaction get_details
  link_mismatch c1 c2 = rw (own_e, own_i, c1, c2)

  link_twice :
      is_no_expense e ≡ false
      → is_mismatch e i amount ≡ false
      → any (λ l. l.compensation_transaction_id == i.id) (find_expense_links e.id e.user_id t)
        ≡ true
      → call ≡ (Result.err invalid_compensation, t)
  unfolding link required_transaction get_details
  link_twice c1 c2 c3 = rw (own_e, own_i, c1, c2, c3)

  link_exceeds :
      is_no_expense e ≡ false
      → is_mismatch e i amount ≡ false
      → any (λ l. l.compensation_transaction_id == i.id) (find_expense_links e.id e.user_id t)
        ≡ false
      → exceeds e i
          (find_expense_links e.id e.user_id t)
          (find_income_links i.id e.user_id t)
          (integer amount)
        ≡ true
      → call ≡ (Result.err invalid_compensation, t)
  unfolding link required_transaction get_details
  link_exceeds c1 c2 c3 c4 = rw (own_e, own_i, c1, c2, c3, c4)

  abbrev grown : Tables
  grown = record t { links = new_link new_id now e.user_id e.id e request ∷ t.links }

  own_grown : find_owned_transaction e.id e.user_id grown ≡ some e
  unfolding find_owned_transaction
  own_grown = own_e

  get_details_found :
      is_no_expense e ≡ false
      → LinkOutcome t new_id now e.user_id e.id request (get_details ops e.user_id e.id grown)
  unfolding get_details required_transaction
  get_details_found c1 = rw (own_grown, c1, LinkOutcome) (e, own_e, c1, refl, refl)

  link_accepted :
      is_no_expense e ≡ false
      → is_mismatch e i amount ≡ false
      → any (λ l. l.compensation_transaction_id == i.id) (find_expense_links e.id e.user_id t)
        ≡ false
      → exceeds e i
          (find_expense_links e.id e.user_id t)
          (find_income_links i.id e.user_id t)
          (integer amount)
        ≡ false
      → call ≡ get_details ops e.user_id e.id grown
  unfolding link required_transaction create_link
  link_accepted c1 c2 c3 c4 =
      let inserted =
        row-is_insertable t e i new_id now amount h found_e found_i same_user c1 c2 c4 fresh c3 in
      let created : create_link (new_link new_id now e.user_id e.id e request) t ≡ some grown =
        rw (inserted, create_link) in
      rw (own_e, own_i, c1, c2, c3, c4) (rw created refl)

  link_found : LinkOutcome t new_id now e.user_id e.id request call
  unfolding get_details
  link_found = elim (Bool-cases (is_no_expense e)) [
    | inl c1 ↦ rw (link_no_expense c1) ((λ x. cc x), refl)
    | inr c1 ↦ elim (Bool-cases (is_mismatch e i amount)) [
      | inl c2 ↦ rw (link_mismatch c1 c2) ((λ x. cc x), refl)
      | inr c2 ↦
          elim (Bool-cases (
            any (λ l. l.compensation_transaction_id == i.id)
              (find_expense_links e.id e.user_id t))) [
                | inl c3 ↦ rw (link_twice c1 c2 c3) ((λ x. cc x), refl)
                | inr c3 ↦
                    elim (Bool-cases (
                      exceeds e i (find_expense_links e.id e.user_id t)
                        (find_income_links i.id e.user_id t) (integer amount))) [
                          | inl c4 ↦ rw (link_exceeds c1 c2 c3 c4) ((λ x. cc x), refl)
                          | inr c4 ↦ rw (link_accepted c1 c2 c3 c4) (get_details_found c1)
                        ]
              ]
    ]
  ]

-- The same, by the ids that the request names.
link_named :
    (ops : TextOps) (new_id now : ℕ) (user expense_id : Ident) (input : LinkInput) (t : Tables)
    (e i : Transaction)
    → IsSound t
    → any (λ l. l.id == new_id) t.links ≡ false
    → find_owned_transaction expense_id user t ≡ some e
    → find_owned_transaction input.compensation_transaction_id user t ≡ some i
    → LinkOutcome t new_id now user expense_id input (link ops new_id now user expense_id input t)
link_named ops new_id now user expense_id input t e i h fresh own_e own_i =
    let (found_e, id_e, user_e) = find_owned_transaction_lem expense_id user t e h own_e in
    let (found_i, id_i, user_i) =
      find_owned_transaction_lem input.compensation_transaction_id user t i h own_i in
    let renamed : record {
      compensated_amount_minor = input.compensated_amount_minor;
      compensation_transaction_id = i.id;
    }
        ≡ input =
      ap
        (λ id. record {
          compensated_amount_minor = input.compensated_amount_minor;
          compensation_transaction_id = id;
        })
        id_i in
    let outcome =
      link_found ops new_id now t e i input.compensated_amount_minor h fresh
        (ap t.transactions id_e ∙ found_e) (ap t.transactions id_i ∙ found_i)
        (ap (λ id. find_owned_transaction id e.user_id t) id_e
          ∙ ap (λ user'. find_owned_transaction expense_id user' t) user_e
          ∙ own_e)
        (ap (λ id. find_owned_transaction id e.user_id t) id_i
          ∙ ap (λ user'. find_owned_transaction input.compensation_transaction_id user' t) user_e
          ∙ own_i)
        (user_i ∙ sym user_e) in
    rw (renamed, id_e, user_e) at outcome

-- On sound tables, with an id that no link has, `link` either throws an error of its own, never one
-- of the database, and leaves the tables as they were, or it adds exactly the row that was asked for,
-- in the currency of the expense, and answers with the summary of the new tables.
pub link_lem :
    (ops : TextOps) (new_id now : ℕ) (user expense_id : Ident) (input : LinkInput) (t : Tables)
    → IsSound t
    → any (λ l. l.id == new_id) t.links ≡ false
    → LinkOutcome t new_id now user expense_id input (link ops new_id now user expense_id input t)
unfolding link required_transaction get_details
link_lem ops new_id now user expense_id input t h fresh =
    elim (Option-cases (find_owned_transaction expense_id user t)) [
      | inl missing ↦ rw (missing, LinkOutcome) ((λ x. cc x), refl)
      | inr (e, own_e) ↦
          elim (Option-cases (find_owned_transaction input.compensation_transaction_id user t)) [
            | inl missing ↦ rw (own_e, missing, LinkOutcome) ((λ x. cc x), refl)
            | inr (i, own_i) ↦
                link_named ops new_id now user expense_id input t e i h fresh own_e own_i
          ]
    ]
