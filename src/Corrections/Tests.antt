-- ===== src/Corrections/Tests.antt =====
-- Runs of worker/services/transaction-correction-service.ts on small tables.
use mono_finance.Common.{none, some, List, [], ◌∷◌, ◌==◌, ◌≡◌, refl, arith, Bool-cases, inl, inr}
use mono_finance.Common.Int.{pos, negsuc, int}
use mono_finance.Common.Money.{expense}
use mono_finance.Corrections.Tables.{ImportedTransaction, Adjustment, CorrectionTables, put}
use mono_finance.Corrections.Service.{Request, saves, resets, excludes, restores}
use mono_finance.Corrections.Service.Soundness.{IsSound, handle_all, handle_all-IsSound}

abbrev coffee : ImportedTransaction
coffee = record {
  user_id = 9;
  monobank_transaction_id = 501;
  direction = expense;
  original_amount_minor = negsuc 8_499;
  original_currency_code = 980;
  original_description = 77;
  original_mcc = some 5_814;
  original_timestamp = 1_700_000_000;
}

abbrev shared_coffee : Adjustment
shared_coffee = record {
  user_id = 9;
  adjusted_amount_minor = negsuc 4_249;
  note = none;
  created_at = 1_700_001_000;
  updated_at = 1_700_001_000;
}

abbrev bills : CorrectionTables
bills = record {
  imported = λ _. some coffee;
  adjustments = put 4 (some shared_coffee) (λ _. none);
  exclusions = λ _. none;
}

bills-IsSound : IsSound bills
bills-IsSound = record {
  owned = record {
    adjustments =
        λ id. elim (Bool-cases (id == 4)) [ inl four ↦ rw four refl | inr other ↦ rw other tt ];
    exclusions = λ id. tt;
  };
  fits = λ id. elim (Bool-cases (id == 4)) [
    | inl four ↦ rw four (omega arith)
    | inr other ↦ rw other tt
  ];
}

abbrev request : Request
request = saves 1_700_005_000 9 4 (int (negsuc 2_999)) none

abbrev requests : List Request
requests =
    request
    ∷ excludes 1_700_005_100 9 4 none
    ∷ restores 1_700_005_200 9 4
    ∷ resets 9 4
    ∷ saves 1_700_005_300 9 4 (int (pos 5)) none
    ∷ []

handle_all-IsSound_example :
    IsSound (handle_all requests bills) × ((handle_all requests bills).imported ≡ bills.imported)
handle_all-IsSound_example = handle_all-IsSound requests bills bills-IsSound
