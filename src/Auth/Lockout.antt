-- ===== src/Auth/Lockout.antt =====
-- The limit on failed logins (`login` of worker/auth/auth-service.ts and `recordFailedLogin` of
-- worker/repositories/auth-repository.ts).
use mono_finance.Common.{
  Ident, ℕ, ◌+◌, ◌≤◌, ◌<◌, ◌≡◌, refl, sym, ap, Bool, true, false, Option, none, some, List, [], ◌∷◌,
  All, length, leb, ==_self, Bool-cases, Option-cases, inl, inr, arith,
}
use mono_finance.Common.Action.{Result}
use mono_finance.Auth.Tables.{
  AuthOps, AuthTables, LoginAttempt, UserRecord, Text, failed_row, record_failed_login,
  clear_login_attempts,
}
use mono_finance.Auth.{
  invalid_credentials, is_locked, is_invalid_email, is_invalid_password, identifier_hash, accept,
  checked, login,
}

accept_no_rejection :
    (ops : AuthOps) (new_id : Ident) (token : Text) (key : Ident) (now : ℕ) (u : UserRecord)
    (t t' : AuthTables)
    → accept ops new_id token key now u t ≡ (Result.err invalid_credentials, t')
    → ⊥
unfolding accept clear_login_attempts
accept_no_rejection ops new_id token key now u t t' h =
    elim (Option-cases (t.sessions (ops.hash token))) [
      | inl free ↦ cc (rw free at h)
      | inr (present, used) ↦ cc (rw used at h)
    ]

checked_rejects :
    (ops : AuthOps) (new_id : Ident) (token : Text) (key : Ident) (now : ℕ) (matches : Bool)
    (user : Option UserRecord) (t t' : AuthTables)
    → checked ops new_id token key now matches user t ≡ (Result.err invalid_credentials, t')
    → t' ≡ record_failed_login key now 900 5 900 t
checked_rejects ops new_id token key now matches none t t' h = ap (λ p. p.1) (sym h)
checked_rejects ops new_id token key now false (some u) t t' h = ap (λ p. p.1) (sym h)
checked_rejects ops new_id token key now true (some u) t t' h =
    absurd (accept_no_rejection ops new_id token key now u t t' h)

-- A login that is rejected was not locked out, and has been recorded.
login_rejects :
    (ops : AuthOps) (new_id : Ident) (token : Text) (now : ℕ) (email password client : Text)
    (t t' : AuthTables)
    → login ops new_id token now email password client t ≡ (Result.err invalid_credentials, t')
    → (is_locked now (t.login_attempts (identifier_hash ops client (ops.normalize email))) ≡ false)
      × (t'
          ≡ record_failed_login (identifier_hash ops client (ops.normalize email)) now 900 5 900 t)
unfolding login
login_rejects ops new_id token now email password client t t' h =
    elim (Bool-cases (is_invalid_email ops (ops.normalize email))) [
      | inl bad ↦ cc (rw bad at h)
      | inr address ↦ elim (Bool-cases (is_invalid_password password)) [
        | inl bad ↦ cc (rw (address, bad) at h)
        | inr long ↦
            elim (Bool-cases (
              is_locked now
                (t.login_attempts (identifier_hash ops client (ops.normalize email))))) [
                  | inl locked ↦ cc (rw (address, long, locked) at h)
                  | inr unlocked ↦ (
                    unlocked,
                    checked_rejects ops new_id token _ now _ _ t t'
                        (rw (address, long, unlocked) at h),
                  )
                ]
      ]
    ]

-- `k` attempts have failed since `a`; from the fifth on the lock outlasts the window.
record Counted (key : Ident) (a k : ℕ) (t : AuthTables) : Type 0 where
  pub row : LoginAttempt
  pub present : t.login_attempts key ≡ some row
  pub counts : row.failed_attempts ≡ k
  pub starts : row.window_started_at ≡ a
  pub locks : 5 ≤ k → (until : ℕ) × (row.locked_until ≡ some until) × (a + 900 ≤ until)

recorded-Counted :
    (key a k now : ℕ) (t : AuthTables)
    → Counted key a k t
    → a ≤ now
    → now < a + 900
    → Counted key a (k + 1) (record_failed_login key now 900 5 900 t)
unfolding record_failed_login failed_row
recorded-Counted key a k now t c later within =
    let next = failed_row now 900 5 900 (some c.row) in
    let running : leb (c.row.window_started_at + 900) now ≡ false = rw c.starts (ground arith) in
    record {
      row = next;
      present = rw (==_self key, c.present) refl;
      counts = rw (running, c.counts) refl;
      starts = rw running c.starts;
      locks = λ five.
          let reached : leb 5 (c.row.failed_attempts + 1) ≡ true = rw c.counts (ground arith) in
          (now + 900, rw (running, reached) refl, omega arith);
    }

first-Counted :
    (key a : ℕ) (t : AuthTables)
    → t.login_attempts key ≡ none
    → Counted key a 1 (record_failed_login key a 900 5 900 t)
unfolding record_failed_login failed_row
first-Counted key a t missing = record {
  row = failed_row a 900 5 900 none;
  present = rw (==_self key, missing) refl;
  counts = refl;
  starts = refl;
  locks = λ five. absurd (omega arith);
}

module _ (ops : AuthOps) (email client : Text) where
  abbrev key : Ident
  key = identifier_hash ops client (ops.normalize email)

  -- Rejected logins of one client for one address, at these times and with these passwords; random
  -- ids and tokens are drawn for each.
  abbrev pub Rejected : List (ℕ × Text) → AuthTables → AuthTables → Type 0
  Rejected [] t t' = t' ≡ t
  Rejected ((now, password) ∷ rest) t t' =
      (t1 : AuthTables) × (new_id : Ident) × (token : Text) × (login ops new_id token now email
          password client t
        ≡ (Result.err invalid_credentials, t1))
      × Rejected rest t1 t'

  abbrev pub IsDuring : ℕ → ℕ × Text → Type 0
  IsDuring a (now, _) = (a ≤ now) × (now < a + 900)

  Counted-below_five :
      (a k now : ℕ) (t : AuthTables)
      → Counted key a k t
      → now < a + 900
      → is_locked now (t.login_attempts key) ≡ false
      → k ≤ 4
  unfolding is_locked
  Counted-below_five a k now t c within unlocked = elim (Bool-cases (leb 5 k)) [
    | inr below ↦ ground arith
    | inl reached ↦
        let (until, lock, outlasts) = c.locks (ground arith) in
        let still : is_locked now (some c.row) ≡ true = rw (lock, is_locked) (ground arith) in
        cc (rw (c.present, still) at unlocked)
  ]

  Rejected-count :
      (a k : ℕ) (attempts : List (ℕ × Text)) (t t' : AuthTables)
      → Counted key a k t
      → k ≤ 5
      → All (IsDuring a) attempts
      → Rejected attempts t t'
      → k + length attempts ≤ 5
  Rejected-count a k [] t t' c few during h = omega arith
  Rejected-count a k ((now, password) ∷ rest) t t' c few (during, later)
        (t1, new_id, token, rejects, h) =
      let (unlocked, recorded) =
        login_rejects ops new_id token now email password client t t1 rejects in
      let below = Counted-below_five a k now t c during.1 unlocked in
      let c1 : Counted key a (k + 1) t1 =
        rw recorded (recorded-Counted key a k now t c during.0 during.1) in
      let rest_few = Rejected-count a (k + 1) rest t1 t' c1 (omega arith) later h in omega arith

  -- From a client and an address without failed logins, at most five logins in a row are rejected as wrong in
  -- the fifteen minutes from the first, whatever passwords are tried and however often.
  pub at_most_five_rejections :
      (a : ℕ) (password : Text) (rest : List (ℕ × Text)) (t t' : AuthTables)
      → t.login_attempts key ≡ none
      → All (IsDuring a) rest
      → Rejected ((a, password) ∷ rest) t t'
      → length ((a, password) ∷ rest) ≤ 5
  at_most_five_rejections a password rest t t' missing during (t1, new_id, token, rejects, h) =
      let (_, recorded) = login_rejects ops new_id token a email password client t t1 rejects in
      let c1 : Counted key a 1 t1 = rw recorded (first-Counted key a t missing) in
      let bound = Rejected-count a 1 rest t1 t' c1 (omega arith) during h in omega arith
