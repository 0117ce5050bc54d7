-- ===== src/Compensation/Score/Bounds.antt =====
-- The range of a suggestion's score (worker/services/compensation-service.ts), and that a better
-- match never scores less.
use mono_finance.Common.{ℕ, ◌+◌, ◌-◌, ◌≤◌, ◌≡◌, Bool, true, arith, ◌&&◌, if◌then◌else◌, ◌/◌, ◌*◌}
use mono_finance.Common.Int.{ℤ, abs, ◌-ℤ◌, leb_ℤ, pos_part}
use mono_finance.Compensation.Tables.{Transaction}
use mono_finance.Compensation.Score.{TextOps, amount_score, time_score, score}

div_mono : (a b n : ℕ) → a ≤ b → a / n ≤ b / n
div_mono a b n h = grind arith

amount_score_mono :
    (remaining a b : ℤ)
    → abs (remaining -ℤ a) ≤ abs (remaining -ℤ b)
    → amount_score remaining b ≤ amount_score remaining a
unfolding amount_score
amount_score_mono remaining a b h =
    let w = pos_part remaining in
    ground (
      arith,
      div_mono (60 * (w - abs (remaining -ℤ b)) + w) (60 * (w - abs (remaining -ℤ a)) + w) (2 * w),
    )

time_score_mono : (a b e : ℕ) → a - e + (e - a) ≤ b - e + (e - b) → time_score b e ≤ time_score a e
unfolding time_score
time_score_mono a b e h = omega arith

bonus_mono :
    (e a b : Bool) → (b ≡ true → a ≡ true) → (if e && b then 10 else 0) ≤ (if e && a then 10 else 0)
bonus_mono e a b h = ground arith

-- Of two incoming transactions with the same description, the one whose amount is no further from
-- what is still open, which lies no further away in time, and which fits into the open amount if
-- the other does, scores at least as much. Every score lies between 35 and 100.
pub score_mono :
    (ops : TextOps) (expense a b : Transaction) (remaining : ℤ) (exact_sum_exists : Bool)
    → a.original_description ≡ b.original_description
    → abs (remaining -ℤ a.original_amount_minor) ≤ abs (remaining -ℤ b.original_amount_minor)
    → a.original_timestamp
        - expense.original_timestamp
        + (expense.original_timestamp - a.original_timestamp)
      ≤ b.original_timestamp
        - expense.original_timestamp
        + (expense.original_timestamp - b.original_timestamp)
    → (leb_ℤ b.original_amount_minor remaining ≡ true
        → leb_ℤ a.original_amount_minor remaining ≡ true)
    → (score ops expense b remaining exact_sum_exists
        ≤ score ops expense a remaining exact_sum_exists)
      × (35 ≤ score ops expense b remaining exact_sum_exists)
      × (score ops expense a remaining exact_sum_exists ≤ 100)
unfolding score
score_mono ops expense a b remaining exact_sum_exists text amount time fits =
    let closer =
      amount_score_mono remaining a.original_amount_minor b.original_amount_minor amount in
    let sooner =
      time_score_mono a.original_timestamp b.original_timestamp expense.original_timestamp time in
    let bonus =
      bonus_mono exact_sum_exists (leb_ℤ a.original_amount_minor remaining)
        (leb_ℤ b.original_amount_minor remaining) fits in
    (rw text (omega (arith, closer, sooner, bonus)), omega arith, omega arith)
