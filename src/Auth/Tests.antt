-- ===== src/Auth/Tests.antt =====
-- Runs of worker/auth/auth-service.ts with one owner.
use mono_finance.Common.{
  ℕ, ◌+◌, ◌≤◌, ◌<◌, ◌≡◌, refl, arith, none, some, List, [], ◌∷◌, length, ◌==◌, true,
}
use mono_finance.Common.Action.{ok, err}
use mono_finance.Auth.Tables.{
  AuthOps, AuthTables, UserRecord, Text, public_user, find_user_by_email, record_failed_login,
  clear_login_attempts, failed_row,
}
use mono_finance.Auth.{
  LoginResult, unauthenticated, login, current_session, logout, is_invalid_email,
  is_invalid_password, is_locked, accept,
}
use mono_finance.Auth.Owner.{OwnerOutcome, create_owner_lem}
use mono_finance.Auth.{create_owner}
use mono_finance.Auth.Lockout.{at_most_five_rejections}
use mono_finance.Auth.Session.{login_session}

-- A platform on which a text hashes to its length, and a password fits a hash that is its length.
abbrev platform : AuthOps
platform = record {
  normalize = λ text. text;
  is_address = λ _. true;
  same_email = λ a b. length a == length b;
  hash = length;
  hash_password = length;
  verify = λ password hash. length password == hash;
  dummy_password_hash = 0;
}

abbrev address : Text
address = 97 ∷ 64 ∷ 98 ∷ 46 ∷ 99 ∷ []

abbrev twelve : Text
twelve = 1 ∷ 2 ∷ 3 ∷ 4 ∷ 5 ∷ 6 ∷ 7 ∷ 8 ∷ 9 ∷ 10 ∷ 11 ∷ 12 ∷ []

abbrev thirteen : Text
thirteen = 0 ∷ twelve

abbrev her : UserRecord
her = record { email = address; id = 1; password_hash = 12 }

abbrev home : AuthTables
home = record { owner = some her; login_attempts = λ _. none; sessions = λ _. none }

abbrev guessed : AuthTables
guessed = record_failed_login 12 1_000 900 5 900 home

abbrev guessed_twice : AuthTables
guessed_twice = record_failed_login 12 1_100 900 5 900 guessed

abbrev guesses : List (ℕ × Text)
guesses = (1_000, thirteen) ∷ (1_100, thirteen) ∷ []

at_most_five_rejections_example : length guesses ≤ 5
unfolding login is_invalid_email is_invalid_password is_locked find_user_by_email
    record_failed_login failed_row
at_most_five_rejections_example =
    at_most_five_rejections platform address [] 1_000 thirteen ((1_100, thirteen) ∷ []) home
      guessed_twice refl ((omega arith, omega arith), tt)
      (guessed, 5, [], refl, (guessed_twice, 6, [], refl, refl))

abbrev token : Text
token = 7 ∷ 7 ∷ []

abbrev result : LoginResult
result = record { expires_at = 29_800; token = token; user = public_user her }

abbrev inside : AuthTables
inside = (login platform 5 token 1_000 address twelve [] home).1

login_session_example :
    (2_000 < 1_000 + 28_800
      → current_session platform 2_000 (some token) inside
        ≡ (ok (record { expires_at = 29_800; user = public_user her }), inside))
    × (1_000 + 28_800 ≤ 2_000
        → current_session platform 2_000 (some token) inside ≡ (err unauthenticated, inside))
    × (current_session platform 2_000 (some token) (logout platform 3_000 (some token) inside)
        ≡ (err unauthenticated, logout platform 3_000 (some token) inside))
unfolding login is_invalid_email is_invalid_password is_locked find_user_by_email accept
    clear_login_attempts
login_session_example =
    login_session platform 5 token 1_000 2_000 3_000 address twelve [] home inside result refl

create_owner_lem_example :
    OwnerOutcome platform twelve home (create_owner platform 2 address twelve home)
create_owner_lem_example = create_owner_lem platform 2 address twelve home
