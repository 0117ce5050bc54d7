-- ===== src/Compensation/Score.antt =====
-- `score` and `suggest` of worker/services/compensation-service.ts. What JavaScript knows of
-- characters is a parameter (`TextOps`). Numbers are exact: the quotient inside the amount's score
-- is rounded as the rational number that it stands for.
pub mod Bounds
use mono_finance.Common.{
  Ident, ℕ, ◌+◌, ◌-◌, ◌*◌, ◌/◌, min, Bool, true, false, ◌&&◌, ◌||◌, not, List, [], ◌∷◌, ◌++◌, leb,
  ltb, ◌==◌, if◌then◌else◌, any, filter, take, length, map,
}
use mono_finance.Common.Int.{ℤ, pos, pos_part, abs, neg, ◌-ℤ◌, ◌+ℤ◌, ltb_ℤ, leb_ℤ}
use mono_finance.Common.Sort.{sort_by}
use mono_finance.Compensation.Tables.{
  Text, Transaction, Link, Tables, total, find_income_candidates,
}
use mono_finance.Compensation.ExactSum.{has_exact_sum}

-- `toLowerCase`, and the class of letters and digits (`\p{L}` and `\p{N}`).
pub record TextOps : Type 0 where
  pub to_lower_case : Text → Text
  pub is_word_unit : ℕ → Bool

pub record Summary : Type 0 where
  pub compensated_amount_minor : ℤ
  pub currency_code : Ident
  pub original_expense_amount_minor : ℤ
  pub remaining_personal_expense_minor : ℤ

unfoldable pub summary : Transaction → List Link → Summary
summary expense links = record {
  compensated_amount_minor = total links;
  currency_code = expense.original_currency_code;
  original_expense_amount_minor = expense.original_amount_minor;
  remaining_personal_expense_minor = expense.original_amount_minor +ℤ total links;
}

-- `split` at what is no letter or digit, with the word read so far. A run of separators gives empty
-- words, which the length test drops.
unfoldable pub split_words : (ℕ → Bool) → Text → Text → List Text
split_words is_word_unit word [] = word ∷ []
split_words is_word_unit word (c ∷ text) = elim (is_word_unit c) [
  | true ↦ split_words is_word_unit (word ++ c ∷ []) text
  | false ↦ word ∷ split_words is_word_unit [] text
]

abbrev pub starts_with : Text → Text → Bool
starts_with [] text = true
starts_with (c ∷ word) [] = false
starts_with (c ∷ word) (d ∷ text) = c == d && starts_with word text

-- `String.prototype.includes`
unfoldable pub includes : Text → Text → Bool
includes word [] = starts_with word []
includes word (c ∷ text) = starts_with word (c ∷ text) || includes word text

-- Math.round(30 * (1 - min(|remaining - amount| / remaining, 1))), for a remaining sum above zero.
unfoldable pub amount_score : ℤ → ℤ → ℕ
amount_score remaining amount =
    let distance = abs (remaining -ℤ amount) in
    let whole = pos_part remaining in
    if ltb_ℤ (pos 0) remaining
    then (if leb whole distance then 0 else (60 * (whole - distance) + whole) / (2 * whole))
    else 0

unfoldable pub time_score : ℕ → ℕ → ℕ
time_score a b = 20 - (a - b + (b - a)) / 86_400 / 3

unfoldable pub description_score : TextOps → Text → Text → ℕ
unfolding split_words includes
description_score ops expense income =
    let words =
      filter (λ word. leb 3 (length word))
        (split_words ops.is_word_unit [] (ops.to_lower_case expense)) in
    if any (λ word. includes word (ops.to_lower_case income)) words then 15 else 0

unfoldable pub score : TextOps → Transaction → Transaction → ℤ → Bool → ℕ
unfolding amount_score time_score description_score
score ops expense income remaining exact_sum_exists = min 100 (
    35
    + amount_score remaining income.original_amount_minor
    + time_score income.original_timestamp expense.original_timestamp
    + description_score ops expense.original_description income.original_description
    + (if exact_sum_exists && leb_ℤ income.original_amount_minor remaining then 10 else 0))

pub record Suggestion : Type 0 where
  pub available_amount_minor : ℤ
  pub confidence_score : ℕ
  pub description : Text
  pub original_amount_minor : ℤ
  pub original_timestamp : ℕ
  pub transaction_id : Ident

-- The comparator of the suggestions.
abbrev pub suggestion_precedes : Suggestion → Suggestion → Bool
suggestion_precedes a b =
    ltb b.confidence_score a.confidence_score
    || (b.confidence_score == a.confidence_score
        && (ltb b.original_timestamp a.original_timestamp
            || (b.original_timestamp == a.original_timestamp
                && ltb a.transaction_id b.transaction_id)))

abbrev pub is_usable : Transaction → List Link → Transaction → Bool
is_usable expense links candidate =
    not (any (λ l. l.compensation_transaction_id == candidate.id) links)
    && (not (candidate.id == expense.id) && ltb_ℤ (pos 0) candidate.original_amount_minor)

abbrev pub suggestion : TextOps → Transaction → ℤ → Bool → Transaction → Suggestion
suggestion ops expense remaining exact_sum_exists candidate = record {
  available_amount_minor = candidate.original_amount_minor;
  confidence_score = score ops expense candidate remaining exact_sum_exists;
  description = candidate.original_description;
  original_amount_minor = candidate.original_amount_minor;
  original_timestamp = candidate.original_timestamp;
  transaction_id = candidate.id;
}

unfoldable pub suggest : TextOps → Ident → Transaction → List Link → Tables → List Suggestion
unfolding summary score has_exact_sum find_income_candidates sort_by
suggest ops user expense links t =
    let candidates = find_income_candidates user expense.original_currency_code t in
    let remaining = neg (summary expense links).remaining_personal_expense_minor in
    let usable = filter (is_usable expense links) candidates in
    let exact_sum_exists =
      has_exact_sum (map (λ c. pos_part c.original_amount_minor) usable) (pos_part remaining) in
    take 12 (
      sort_by suggestion_precedes (
        filter (λ s. leb 35 s.confidence_score)
          (map (suggestion ops expense remaining exact_sum_exists) usable)))
