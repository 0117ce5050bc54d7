-- ===== src/RateLimit/Tests.antt =====
-- Runs of the gate of worker/monobank/rate-limit.ts.
use mono_finance.Common.{◌+◌, ◌≤◌, ◌≡◌, refl, ◌↔◌, none, some, List, [], ◌∷◌}
use mono_finance.Common.Int.{pos}
use mono_finance.Common.Action.{ok}
use mono_finance.RateLimit.{Table, acquire, defer, Call, acquires, defers, perform_all}
use mono_finance.RateLimit.Spacing.{acquire_spacing, acquire_retry_after, defer_is_respected}

abbrev empty_table : Table
empty_table scope = none

-- A refused request and a delay of ten seconds, on the scope 7 and on another.
abbrev calls : List Call
calls = acquires 7 60 1010 ∷ defers 8 (pos 10) 1020 ∷ acquires 8 60 1025 ∷ []

acquire_spacing_example : 1060 ≤ 1060
unfolding acquire perform_all
acquire_spacing_example = acquire_spacing 7 60 60 1000 1060 calls empty_table refl refl

abbrev busy_table : Table
busy_table scope = some 1060

acquire_retry_after_example :
    (busy_table ≡ busy_table)
    × (1 ≤ 50)
    × (((acquire 7 60 (1010 + 49) busy_table).0 ≡ ok tt) ↔ (50 ≤ 49))
unfolding acquire
acquire_retry_after_example =
    acquire_retry_after 7 60 60 1010 49 (record { retry_after_seconds = 50 }) busy_table busy_table
      refl

defer_is_respected_example : 1000 + 30 ≤ 1060
unfolding acquire defer perform_all
defer_is_respected_example = defer_is_respected 7 (pos 30) 60 1000 1060 calls empty_table refl
