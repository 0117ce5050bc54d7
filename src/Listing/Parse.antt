-- ===== src/Listing/Parse.antt =====
-- How worker/routes/transaction-list.ts reads a parameter of a query: the list of its values, where it is
-- there. A value is its UTF-16 code units.
use mono_finance.Common.{
  ℕ, ◌+◌, ◌-◌, ◌*◌, Bool, true, false, ◌&&◌, ◌||◌, not, Option, none, some, get_or, List, [], ◌∷◌,
  ◌++◌, ltb, leb, ◌==◌, any, length, if◌then◌else◌,
}
use mono_finance.Common.Int.{max_safe_integer}
use mono_finance.Common.Money.{Direction, income, expense}
use mono_finance.Compensation.Tables.{Text}

abbrev pub default_page_size : ℕ
default_page_size = 50

abbrev pub max_page_size : ℕ
max_page_size = 100

-- A parsed parameter: `null`, `undefined`, or its value.
pub data Parsed (A : Type 0) : Type 0 where
  absent : Parsed A
  invalid : Parsed A
  value : A → Parsed A

abbrev pub is_invalid : {A : Type 0} → Parsed A → Bool
is_invalid invalid = true
is_invalid _ = false

-- The value, or `null`.
abbrev pub value_of : {A : Type 0} → Parsed A → Option A
value_of (value a) = some a
value_of _ = none

abbrev pub same_text : Text → Text → Bool
same_text [] [] = true
same_text (c ∷ s) (d ∷ t) = c == d && same_text s t
same_text _ _ = false

-- `single`
abbrev pub single : List Text → Option Text
single (v ∷ []) = some v
single _ = none

-- A parameter that is read from its only value.
abbrev pub from_single : {A : Type 0} → (Text → Parsed A) → Option Text → Parsed A
from_single read none = invalid
from_single read (some v) = read v

abbrev pub nullable : {A : Type 0} → (Text → Parsed A) → Option (List Text) → Parsed A
nullable read none = absent
nullable read (some vs) = from_single read (single vs)

abbrev pub income_text : Text
income_text = 105 ∷ 110 ∷ 99 ∷ 111 ∷ 109 ∷ 101 ∷ []

abbrev pub expense_text : Text
expense_text = 101 ∷ 120 ∷ 112 ∷ 101 ∷ 110 ∷ 115 ∷ 101 ∷ []

abbrev pub true_text : Text
true_text = 116 ∷ 114 ∷ 117 ∷ 101 ∷ []

abbrev pub false_text : Text
false_text = 102 ∷ 97 ∷ 108 ∷ 115 ∷ 101 ∷ []

abbrev pub direction_of : Text → Parsed Direction
direction_of v =
    if same_text v income_text
    then value income
    else if same_text v expense_text
    then value expense
    else invalid

unfoldable pub nullable_direction : Option (List Text) → Parsed Direction
nullable_direction = nullable direction_of

abbrev pub boolean_of : Text → Parsed Bool
boolean_of v =
    if same_text v true_text
    then value true
    else if same_text v false_text
    then value false
    else invalid

unfoldable pub nullable_boolean : Option (List Text) → Parsed Bool
nullable_boolean = nullable boolean_of

abbrev pub is_digit : ℕ → Bool
is_digit c = leb 48 c && leb c 57

-- /^\d+$/
abbrev pub is_digits : Text → Bool
is_digits [] = false
is_digits (c ∷ s) = is_digit c && not (any (λ d. not (is_digit d)) s)

-- `Number` of decimal digits, from what was read before them.
unfoldable pub decimal_from : ℕ → Text → ℕ
decimal_from n [] = n
decimal_from n (c ∷ s) = decimal_from (10 * n + (c - 48)) s

abbrev pub epoch_of : Text → Parsed ℕ
epoch_of v =
    let n = decimal_from 0 v in if is_digits v && leb n max_safe_integer then value n else invalid

unfoldable pub nullable_epoch : Option (List Text) → Parsed ℕ
unfolding decimal_from
nullable_epoch = nullable epoch_of

-- What is no positive integer counts as the greatest one.
abbrev pub positive_of : Option Text → ℕ
positive_of none = max_safe_integer
positive_of (some v) =
    let n = decimal_from 0 v in
    if is_digits v && leb n max_safe_integer && ltb 0 n then n else max_safe_integer

unfoldable pub nullable_positive_integer : Option (List Text) → Option ℕ
unfolding decimal_from
nullable_positive_integer none = none
nullable_positive_integer (some vs) = some (positive_of (single vs))

abbrev pub is_letter : ℕ → Bool
is_letter c = (leb 65 c && leb c 90) || (leb 97 c && leb c 122)

-- `toUpperCase` of a letter of ASCII.
abbrev pub upper : ℕ → ℕ
upper c = if leb 97 c then c - 32 else c

-- /^[A-Za-z]{3}$/
abbrev pub currency_of : Text → Parsed Text
currency_of (a ∷ b ∷ c ∷ []) =
    if is_letter a && is_letter b && is_letter c
    then value (upper a ∷ upper b ∷ upper c ∷ [])
    else invalid
currency_of _ = invalid

unfoldable pub nullable_currency : Option (List Text) → Parsed Text
nullable_currency = nullable currency_of

abbrev pub is_empty : {A : Type 0} → List A → Bool
is_empty [] = true
is_empty (_ ∷ _) = false

-- `trimmed || undefined`
abbrev pub or_invalid : Text → Parsed Text
or_invalid [] = invalid
or_invalid (c ∷ s) = value (c ∷ s)

-- `trim` is the platform's.
abbrev pub text_of : (Text → Text) → ℕ → Text → Parsed Text
text_of trim max_length v =
    if is_empty v || ltb max_length (length v) then invalid else or_invalid (trim v)

unfoldable pub nullable_text : (Text → Text) → ℕ → Option (List Text) → Parsed Text
nullable_text trim max_length = nullable (text_of trim max_length)

-- `[...new Set(values)]`
unfoldable pub unique_texts : List Text → List Text → List Text
unique_texts seen [] = seen
unique_texts seen (v ∷ vs) =
    unique_texts (if any (same_text v) seen then seen else seen ++ v ∷ []) vs

abbrev pub array_of : List Text → Option (List Text)
array_of vs =
    if ltb 20 (length vs) || any (λ v. is_empty v || ltb 128 (length v)) vs
    then none
    else some (unique_texts [] vs)

unfoldable pub to_array : Option (List Text) → Option (List Text)
unfolding unique_texts
to_array values = array_of (get_or values [])
