-- ===== src/Auth.antt =====
-- Authentication of the owner: `AuthService` of worker/auth/auth-service.ts over the tables of
-- worker/repositories/auth-repository.ts. Random ids and tokens and the clock are arguments.
pub mod Tables
pub mod Owner
pub mod Lockout
pub mod Session
mod Tests
use mono_finance.Common.{
  Ident, ℕ, ◌+◌, Bool, true, false, ◌||◌, not, Option, none, some, ◌∷◌, ◌++◌, ltb, leb, ◌==◌,
  length, is_none,
}
use mono_finance.Common.Action.{
  ◌>>=◌, ◌>>◌, Result, Action, pure, throw, gets, or_throw, throw_if, modify,
}
use mono_finance.Auth.Tables.{
  Text, AuthOps, UserRecord, SessionRecord, LoginAttempt, AuthTables, AuthenticatedUser, put,
  public_user, clear_login_attempts, insert_owner, find_user_by_email, find_user_by_id,
  record_failed_login, revoke_session,
}

abbrev pub login_lock_seconds : ℕ
login_lock_seconds = 900

abbrev pub login_max_attempts : ℕ
login_max_attempts = 5

abbrev pub login_window_seconds : ℕ
login_window_seconds = 900

abbrev pub session_ttl_seconds : ℕ
session_ttl_seconds = 28_800

-- The codes of `AuthenticationError`, and an error of the database, which is none of them.
data AuthenticationError : Type 0 where
  invalid_credentials invalid_request setup_unavailable too_many_requests unauthenticated
        database_error :
      AuthenticationError

record AuthenticatedSession : Type 0 where
  pub expires_at : ℕ
  pub user : AuthenticatedUser

record LoginResult : Type 0 where
  pub expires_at : ℕ
  pub token : Text
  pub user : AuthenticatedUser

abbrev Call : Type 0 → Type 0
Call = Action AuthTables AuthenticationError

-- The INSERT, given the row that the hash has already.
abbrev inserted : Ident → SessionRecord → Option SessionRecord → Call (Unit {0})
inserted token_hash s none t =
    (Result.ok tt, record t { sessions = put token_hash (some s) t.sessions })
inserted token_hash s (some present) t = (Result.err database_error, t)

abbrev create_session : Ident → SessionRecord → Call (Unit {0})
create_session token_hash s t = inserted token_hash s (t.sessions token_hash) t

-- The tests of `validateEmail`, on the normalized address, and of `validatePassword`.
unfoldable is_invalid_email : AuthOps → Text → Bool
is_invalid_email ops email =
    length email == 0 || ltb 320 (length email) || not (ops.is_address email)

unfoldable is_invalid_password : Text → Bool
is_invalid_password password = ltb (length password) 12 || ltb 1_024 (length password)

unfoldable create_owner : AuthOps → Ident → Text → Text → Call AuthenticatedUser
unfolding is_invalid_email is_invalid_password insert_owner
create_owner ops new_id email_input password = do
  throw_if (is_invalid_email ops (ops.normalize email_input)) invalid_request
  throw_if (is_invalid_password password) invalid_request
  present ← gets (λ t. not (is_none t.owner))
  throw_if present setup_unavailable
  created ← λ t.
      let (created, t') =
        insert_owner
          (record {
            email = ops.normalize email_input;
            id = new_id;
            password_hash = ops.hash_password password;
          })
          t in
      (Result.ok created, t')
  throw_if (not created) setup_unavailable
  pure (record { email = ops.normalize email_input; id = new_id })

-- The key `login:<client>:<address>` of the attempts.
abbrev identifier_hash : AuthOps → Text → Text → Ident
identifier_hash ops client email =
    ops.hash ((108 ∷ 111 ∷ 103 ∷ 105 ∷ 110 ∷ 58 ∷ client) ++ 58 ∷ email)

unfoldable is_locked : ℕ → Option LoginAttempt → Bool
is_locked now none = false
is_locked now (some attempt) = elim attempt.locked_until [
  | none ↦ false
  | some until ↦ ltb now until
]

-- `user?.passwordHash ?? DUMMY_PASSWORD_HASH`
abbrev stored_hash : AuthOps → Option UserRecord → Ident
stored_hash ops none = ops.dummy_password_hash
stored_hash ops (some u) = u.password_hash

-- The failure of `login`, after its attempt has been recorded.
abbrev reject : Ident → ℕ → Call LoginResult
reject key now t = (
  Result.err invalid_credentials,
  record_failed_login key now login_window_seconds login_max_attempts login_lock_seconds t,
)

-- The rest of `login`, once the user is known and the password is right.
unfoldable accept : AuthOps → Ident → Text → Ident → ℕ → UserRecord → Call LoginResult
unfolding clear_login_attempts
accept ops new_id token key now u = do
  modify (clear_login_attempts key)
  create_session (ops.hash token) (record {
    expires_at = now + session_ttl_seconds;
    id = new_id;
    revoked_at = none;
    user_id = u.id;
  })
  pure (record { expires_at = now + session_ttl_seconds; token = token; user = public_user u })

abbrev checked : AuthOps → Ident → Text → Ident → ℕ → Bool → Option UserRecord → Call LoginResult
checked ops new_id token key now matches none = reject key now
checked ops new_id token key now false (some u) = reject key now
checked ops new_id token key now true (some u) = accept ops new_id token key now u

unfoldable login : AuthOps → Ident → Text → ℕ → Text → Text → Text → Call LoginResult
unfolding is_invalid_email is_invalid_password is_locked find_user_by_email accept
    record_failed_login
login ops new_id token now email_input password client = do
  throw_if (is_invalid_email ops (ops.normalize email_input)) invalid_request
  throw_if (is_invalid_password password) invalid_request
  attempt ← gets (λ t. t.login_attempts (identifier_hash ops client (ops.normalize email_input)))
  throw_if (is_locked now attempt) too_many_requests
  user ← gets (find_user_by_email ops (ops.normalize email_input))
  checked ops new_id token (identifier_hash ops client (ops.normalize email_input)) now
      (ops.verify password (stored_hash ops user)) user

abbrev is_dead : ℕ → SessionRecord → Bool
is_dead now s = not (is_none s.revoked_at) || leb s.expires_at now

unfoldable current_session : AuthOps → ℕ → Option Text → Call AuthenticatedSession
unfolding find_user_by_id
current_session ops now none = throw unauthenticated
current_session ops now (some token) = do
  found ← gets (λ t. t.sessions (ops.hash token))
  s ← or_throw found unauthenticated
  throw_if (is_dead now s) unauthenticated
  found_user ← gets (find_user_by_id s.user_id)
  user ← or_throw found_user unauthenticated
  pure (record { expires_at = s.expires_at; user = user })

unfoldable logout : AuthOps → ℕ → Option Text → AuthTables → AuthTables
unfolding revoke_session
logout ops now none t = t
logout ops now (some token) t = revoke_session (ops.hash token) now t
