-- ===== src/Auth/Tables.antt =====
-- The tables `users`, `login_rate_limits` and `sessions` as worker/repositories/auth-repository.ts
-- reads and writes them. `users` holds one row at most, as its column `is_application_owner` is UNIQUE
-- and always 1 (migrations/0001_initial_schema.sql).
use mono_finance.Common.{
  Ident, ℕ, ◌+◌, Bool, true, false, Option, none, some, List, leb, ◌==◌, if◌then◌else◌, is_none,
}

-- A text: its UTF-16 code units.
abbrev pub Text : Type 0
Text = List ℕ

-- What the platform does: `trim().toLowerCase()`, the regular expression of an address, the collation
-- NOCASE, the hash of tokens and login identifiers, and the password hasher.
pub record AuthOps : Type 0 where
  pub normalize : Text → Text
  pub is_address : Text → Bool
  pub same_email : Text → Text → Bool
  pub hash : Text → Ident
  pub hash_password : Text → Ident
  pub verify : Text → Ident → Bool
  pub dummy_password_hash : Ident

pub record UserRecord : Type 0 where
  pub email : Text
  pub id : Ident
  pub password_hash : Ident

pub record SessionRecord : Type 0 where
  pub expires_at : ℕ
  pub id : Ident
  pub revoked_at : Option ℕ
  pub user_id : Ident

pub record LoginAttempt : Type 0 where
  pub failed_attempts : ℕ
  pub locked_until : Option ℕ
  pub window_started_at : ℕ

-- `login_rate_limits` by its identifier hash, and `sessions` by its token hash; both are UNIQUE.
pub record AuthTables : Type 0 where
  pub owner : Option UserRecord
  pub login_attempts : Ident → Option LoginAttempt
  pub sessions : Ident → Option SessionRecord

pub record AuthenticatedUser : Type 0 where
  pub email : Text
  pub id : Ident

abbrev pub put : {A : Type 0} → Ident → Option A → (Ident → Option A) → Ident → Option A
put key row table other = if other == key then row else table other

abbrev pub public_user : UserRecord → AuthenticatedUser
public_user u = record { email = u.email; id = u.id }

unfoldable pub clear_login_attempts : Ident → AuthTables → AuthTables
clear_login_attempts key t = record t { login_attempts = put key none t.login_attempts }

-- `createOwner` of the repository: ON CONFLICT DO NOTHING, and whether a row came.
unfoldable pub insert_owner : UserRecord → AuthTables → Bool × AuthTables
insert_owner u t = elim t.owner [
  | none ↦ (true, record t { owner = some u })
  | some present ↦ (false, t)
]

unfoldable pub find_user_by_email : AuthOps → Text → AuthTables → Option UserRecord
find_user_by_email ops email t = elim t.owner [
  | none ↦ none
  | some u ↦ if ops.same_email u.email email then some u else none
]

unfoldable pub find_user_by_id : Ident → AuthTables → Option AuthenticatedUser
find_user_by_id id t = elim t.owner [
  | none ↦ none
  | some u ↦ if u.id == id then some (public_user u) else none
]

-- The row that `recordFailedLogin` leaves. Where the clock is below the window, the source's
-- `now - windowSeconds` is negative and no window has ended.
unfoldable pub failed_row : ℕ → ℕ → ℕ → ℕ → Option LoginAttempt → LoginAttempt
failed_row now window_seconds max_attempts lock_seconds none = record {
  failed_attempts = 1;
  locked_until = none;
  window_started_at = now;
}
failed_row now window_seconds max_attempts lock_seconds (some row) =
    let ended = leb (row.window_started_at + window_seconds) now in
    let failed = if ended then 1 else row.failed_attempts + 1 in
    record {
      failed_attempts = failed;
      locked_until = if leb max_attempts failed then some (now + lock_seconds) else none;
      window_started_at = if ended then now else row.window_started_at;
    }

unfoldable pub record_failed_login : Ident → ℕ → ℕ → ℕ → ℕ → AuthTables → AuthTables
unfolding failed_row
record_failed_login key now window_seconds max_attempts lock_seconds t = record t {
  login_attempts =
      put key
        (some (failed_row now window_seconds max_attempts lock_seconds (t.login_attempts key)))
        t.login_attempts;
}

abbrev pub revoked_row : ℕ → Option SessionRecord → Option SessionRecord
revoked_row now none = none
revoked_row now (some s) =
    some (if is_none s.revoked_at then record s { revoked_at = some now } else s)

unfoldable pub revoke_session : Ident → ℕ → AuthTables → AuthTables
revoke_session token_hash now t = record t {
  sessions = put token_hash (revoked_row now (t.sessions token_hash)) t.sessions;
}
