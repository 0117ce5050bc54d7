-- ===== src/Currency/Rates/Newest.antt =====
-- `latestRate` of worker/analytics/currency-conversion.ts finds the newest rate.
use mono_finance.Common.{
  Ident, ℕ, ◌≤◌, ◌≡◌, refl, ap, Bool, true, false, Option, none, some, List, [], ◌∷◌, All, All-mono,
  filter, Bool-cases, inl, inr, arith, sym, ◌∙◌,
}
use mathlib.Core.Bool.{false≢true}
use mathlib.Core.List.{Memᴰ}
use mono_finance.Common.Sort.{sort_by, insert_by}
use mono_finance.Currency.Rates.{ExchangeRate, is_usable, rate_precedes, first, latest_row}

-- The first rate is older than the second, or of the same time and from no later source.
abbrev pub IsNoNewer : ExchangeRate → ExchangeRate → Type 0
IsNoNewer other rate =
    (other.rate_at ≤ rate.rate_at) × (other.rate_at ≡ rate.rate_at → other.source ≤ rate.source)

-- The first element of a list is in it, and none is newer.
abbrev pub IsNewest : List ExchangeRate → Option ExchangeRate → Type 0
IsNewest rates none = rates ≡ []
IsNewest rates (some rate) = Memᴰ rate rates × All (λ other. IsNoNewer other rate) rates

IsNoNewer-refl : (x : ExchangeRate) → IsNoNewer x x
IsNoNewer-refl x = (omega arith, λ _. omega arith)

IsNoNewer-trans : (x y z : ExchangeRate) → IsNoNewer x y → IsNoNewer y z → IsNoNewer x z
IsNoNewer-trans x y z h k = (ground arith, λ e. ground arith)

precedes-IsNoNewer : (x y : ExchangeRate) → rate_precedes x y ≡ true → IsNoNewer y x
precedes-IsNoNewer x y h = ground arith

not_precedes-IsNoNewer : (x y : ExchangeRate) → rate_precedes x y ≡ false → IsNoNewer x y
not_precedes-IsNoNewer x y h = ground arith

insert_first :
    (x : ExchangeRate) (ys sorted : List ExchangeRate)
    → IsNewest ys (first sorted)
    → IsNewest (x ∷ ys) (first (insert_by rate_precedes x sorted))
unfolding insert_by
insert_first x ys [] h = rw h (Memᴰ.head refl, (IsNoNewer-refl x, tt))
insert_first x ys (y ∷ sorted) (m, newest) = elim (Bool-cases (rate_precedes y x)) [
  | inl e ↦ rw e (Memᴰ.tail m, (precedes-IsNoNewer y x e, newest))
  | inr e ↦
      let older = not_precedes-IsNoNewer y x e in
      rw e (
        Memᴰ.head refl,
        (
          IsNoNewer-refl x,
          All-mono (λ z. IsNoNewer z y) (λ z. IsNoNewer z x) (λ z h. IsNoNewer-trans z y x h older)
              ys newest,
        ),
      )
]

sort_first : (rates : List ExchangeRate) → IsNewest rates (first (sort_by rate_precedes rates))
unfolding sort_by
sort_first [] = refl
sort_first (x ∷ rates) = insert_first x rates (sort_by rate_precedes rates) (sort_first rates)

-- A rate from `source` to `target` of a time no later than `timestamp`.
abbrev pub IsInTime : Ident → Ident → ℕ → ExchangeRate → Type 0
IsInTime source target timestamp rate =
    (rate.source_currency_code ≡ source)
    × (rate.target_currency_code ≡ target)
    × (rate.rate_at ≤ timestamp)

-- Such a rate than which no other such rate is newer, or of the same time and a later source; or
-- there is none.
abbrev pub IsLatest : Ident → Ident → ℕ → List ExchangeRate → Option ExchangeRate → Type 0
IsLatest source target timestamp rates none =
    All (λ rate. ¬ IsInTime source target timestamp rate) rates
IsLatest source target timestamp rates (some rate) =
    Memᴰ rate rates
    × IsInTime source target timestamp rate
    × All (λ other. IsInTime source target timestamp other → IsNoNewer other rate) rates

is_usable-IsInTime :
    (source target : Ident) (timestamp : ℕ) (rate : ExchangeRate)
    → is_usable source target timestamp rate ≡ true
    → IsInTime source target timestamp rate
is_usable-IsInTime source target timestamp rate h = ground arith

IsInTime-is_usable :
    (source target : Ident) (timestamp : ℕ) (rate : ExchangeRate)
    → IsInTime source target timestamp rate
    → is_usable source target timestamp rate ≡ true
IsInTime-is_usable source target timestamp rate h = ground arith

filter_empty :
    (p : ExchangeRate → Bool) (rates : List ExchangeRate)
    → filter p rates ≡ []
    → All (λ rate. p rate ≡ false) rates
filter_empty p [] h = tt
filter_empty p (x ∷ rates) h = elim (Bool-cases (p x)) [
  | inl e ↦ cc (rw e at h)
  | inr e ↦ (e, filter_empty p rates (rw e at h))
]

Memᴰ-hit :
    (p : ExchangeRate → Bool) (rate x : ExchangeRate) (kept rates : List ExchangeRate)
    → p x ≡ true
    → (Memᴰ rate kept → Memᴰ rate rates × (p rate ≡ true))
    → Memᴰ rate (x ∷ kept)
    → Memᴰ rate (x ∷ rates) × (p rate ≡ true)
Memᴰ-hit p rate x kept rates h rest (Memᴰ.head e) = (Memᴰ.head e, cc (h, ap p e))
Memᴰ-hit p rate x kept rates h rest (Memᴰ.tail m) = (Memᴰ.tail (rest m).0, (rest m).1)

Memᴰ-filter :
    (p : ExchangeRate → Bool) (rate : ExchangeRate) (rates : List ExchangeRate)
    → Memᴰ rate (filter p rates)
    → Memᴰ rate rates × (p rate ≡ true)
Memᴰ-filter p rate [] m = elim m [ ]
Memᴰ-filter p rate (x ∷ rates) m = elim (Bool-cases (p x)) [
  | inl e ↦ Memᴰ-hit p rate x (filter p rates) rates e (Memᴰ-filter p rate rates) (rw e at m)
  | inr e ↦ let (m', h) = Memᴰ-filter p rate rates (rw e at m) in (Memᴰ.tail m', h)
]

All-filter :
    (p : ExchangeRate → Bool) (Q : ExchangeRate → Type 0) (rates : List ExchangeRate)
    → All Q (filter p rates)
    → All (λ other. p other ≡ true → Q other) rates
All-filter p Q [] h = tt
All-filter p Q (x ∷ rates) h = elim (Bool-cases (p x)) [
  | inl e ↦ let h' = rw e at h in ((λ _. h'.0), All-filter p Q rates h'.1)
  | inr e ↦ ((λ e'. cc (rw e at e')), All-filter p Q rates (rw e at h))
]

filter-IsLatest :
    (source target : Ident) (timestamp : ℕ) (rates : List ExchangeRate) (r : Option ExchangeRate)
    → IsNewest (filter (is_usable source target timestamp) rates) r
    → IsLatest source target timestamp rates r
filter-IsLatest source target timestamp rates none h =
    let usable = is_usable source target timestamp in
    All-mono (λ rate. usable rate ≡ false) (λ rate. ¬ IsInTime source target timestamp rate)
      (λ rate e i. absurd (false≢true (sym e ∙ IsInTime-is_usable source target timestamp rate i)))
      rates (filter_empty usable rates h)
filter-IsLatest source target timestamp rates (some rate) (m, newest) =
    let usable = is_usable source target timestamp in
    let (m', hit) = Memᴰ-filter usable rate rates m in
    (
      m',
      is_usable-IsInTime source target timestamp rate hit,
      All-mono (λ other. usable other ≡ true → IsNoNewer other rate)
          (λ other. IsInTime source target timestamp other → IsNoNewer other rate)
          (λ other f i. f (IsInTime-is_usable source target timestamp other i)) rates
          (All-filter usable (λ other. IsNoNewer other rate) rates newest),
    )

-- The rate that is chosen for a pair of currencies is one of the given rates, from the first
-- currency to the second, of a time no later than the transaction's, and no newer rate of the pair
-- is of such a time, nor one of the same time whose source comes later in the order of the
-- sources; none is chosen only if no rate of the pair is of such a time.
pub latest_row-IsLatest :
    (source target : Ident) (timestamp : ℕ) (rates : List ExchangeRate)
    → IsLatest source target timestamp rates (latest_row source target timestamp rates)
unfolding latest_row
latest_row-IsLatest source target timestamp rates =
    filter-IsLatest source target timestamp rates _
      (sort_first (filter (is_usable source target timestamp) rates))
