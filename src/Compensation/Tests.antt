-- ===== src/Compensation/Tests.antt =====
-- Runs of worker/services/compensation-service.ts on small tables.
use mono_finance.Common.{
  Ident, ◌<◌, ◌≤◌, ◌≡◌, refl, inl, inr, ◌⊎◌, ◌↔◌, ◌==◌, ==_iff, if◌then◌else◌, false, true, Option,
  none, some, [], ◌∷◌, take, sym, Bool-cases, arith,
}
use mathlib.Core.Option.{some-injective}
use mono_finance.Common.Money.{income, expense}
use mono_finance.Common.Int.{pos, neg, int, ◌-ℤ◌}
use mono_finance.Common.Sort.{sort_by}
use mono_finance.Common.Action.{ok}
use mono_finance.Compensation.Tables.{
  Transaction, Link, Tables, find_owned_transaction, find_links, total, create_link,
}
use mono_finance.Compensation.Tables.Invariant.{IsSound, inserts, deletes, run_all}
use mono_finance.Compensation.Tables.Insert.{run_all-IsSound}
use mono_finance.Compensation.ExactSum.{has_exact_sum}
use mono_finance.Compensation.ExactSum.Subset.{IsSubsetSum}
use mono_finance.Compensation.ExactSum.Decides.{has_exact_sum_iff}
use mono_finance.Compensation.Score.{TextOps, score}
use mono_finance.Compensation.Score.Bounds.{score_mono}
use mono_finance.Compensation.Service.{LinkInput, Details, link, unlink, new_link}
use mono_finance.Compensation.Service.Outcome.{LinkOutcome, link_lem}
use mono_finance.Compensation.Service.Undo.{unlink-link}

abbrev dinner : Transaction
dinner = record {
  id = 1;
  user_id = 9;
  direction = expense;
  original_amount_minor = neg (pos 90_000);
  original_currency_code = 980;
  original_description = 100 ∷ 105 ∷ 110 ∷ [];
  original_timestamp = 1_700_000_000;
}

abbrev repayment : Transaction
repayment = record {
  id = 2;
  user_id = 9;
  direction = income;
  original_amount_minor = pos 30_000;
  original_currency_code = 980;
  original_description = 100 ∷ 105 ∷ 110 ∷ [];
  original_timestamp = 1_700_003_600;
}

abbrev stored_transaction : Ident → Option Transaction
stored_transaction id = if id == 1 then some dinner else (if id == 2 then some repayment else none)

abbrev books : Tables
books = record { transactions = stored_transaction; transaction_ids = 1 ∷ 2 ∷ []; links = [] }

stored_cases :
    (id : Ident) (x : Transaction)
    → stored_transaction id ≡ some x
    → ((id ≡ 1) × (x ≡ dinner)) ⊎ ((id ≡ 2) × (x ≡ repayment))
stored_cases id x e = elim (Bool-cases (id == 1)) [
  | inl one ↦ inl ((==_iff _ _).0 one, sym (some-injective _ _ (rw one at e)))
  | inr other ↦ elim (Bool-cases (id == 2)) [
    | inl two ↦ inr ((==_iff _ _).0 two, sym (some-injective _ _ (rw (other, two) at e)))
    | inr missing ↦ cc (rw (other, missing) at e)
  ]
]

books-IsSound : IsSound books
unfolding neg total
books-IsSound = record {
  keyed = λ id x e. elim (stored_cases id x e) [
    | inl (one, same) ↦ rw same (sym one)
    | inr (two, same) ↦ rw same (sym two)
  ];
  signed = λ id x e. elim (stored_cases id x e) [
    | inl (_, same) ↦ rw same (omega arith)
    | inr (_, same) ↦ rw same (omega arith)
  ];
  positive = tt;
  owned = tt;
  covered = λ id x e. elim (stored_cases id x e) [
    | inl (_, same) ↦ rw same (omega arith)
    | inr (_, same) ↦ rw same (omega arith)
  ];
}

abbrev request : LinkInput
request = record { compensated_amount_minor = int (pos 30_000); compensation_transaction_id = 2 }

abbrev repaid : Link
repaid = new_link 7 1_700_010_000 9 1 dinner request

-- A second link of the same income is refused, then the first is taken back.
run_all-IsSound_example :
    IsSound
      (run_all (inserts repaid ∷ inserts (record repaid { id = 8 }) ∷ deletes 7 1 9 ∷ []) books)
run_all-IsSound_example =
    run_all-IsSound (inserts repaid ∷ inserts (record repaid { id = 8 }) ∷ deletes 7 1 9 ∷ []) books
      books-IsSound

has_exact_sum_iff_example :
    (has_exact_sum (30 ∷ 50 ∷ 45 ∷ []) 75 ≡ true)
    ↔ ((0 < 75) × IsSubsetSum (take 20 (30 ∷ 50 ∷ 45 ∷ [])) 75)
has_exact_sum_iff_example = has_exact_sum_iff (30 ∷ 50 ∷ 45 ∷ []) 75

-- Lower-case texts, in which 97 and above are letters.
abbrev ascii : TextOps
ascii = record { to_lower_case = λ text. text; is_word_unit = λ c. if c == 32 then false else true }

abbrev late_repayment : Transaction
late_repayment = record repayment {
  id = 3;
  original_amount_minor = pos 20_000;
  original_timestamp = 1_700_600_000;
}

score_mono_example :
    (score ascii dinner late_repayment (pos 30_000) true
      ≤ score ascii dinner repayment (pos 30_000) true)
    × (35 ≤ score ascii dinner late_repayment (pos 30_000) true)
    × (score ascii dinner repayment (pos 30_000) true ≤ 100)
unfolding ◌-ℤ◌
score_mono_example =
    score_mono ascii dinner repayment late_repayment (pos 30_000) true refl (omega arith)
      (omega arith) (λ _. refl)

link_lem_example :
    LinkOutcome books 7 1_700_010_000 9 1 request (link ascii 7 1_700_010_000 9 1 request books)
link_lem_example = link_lem ascii 7 1_700_010_000 9 1 request books books-IsSound refl

abbrev linked : Tables
linked = record books { links = repaid ∷ [] }

unlink-link_example : (d' : Details) × (unlink ascii 9 1 7 linked ≡ (ok d', books))
unfolding link find_owned_transaction neg find_links sort_by ◌-ℤ◌ total create_link
unlink-link_example =
    unlink-link ascii 7 1_700_010_000 9 1 request books linked _ books-IsSound refl refl
