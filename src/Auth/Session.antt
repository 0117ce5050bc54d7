-- ===== src/Auth/Session.antt =====
-- The life of a session (`login`, `currentSession` and `logout` of worker/auth/auth-service.ts).
use mono_finance.Common.{
  Ident, ℕ, ◌+◌, ◌≤◌, ◌<◌, ◌≡◌, refl, sym, ap, ◌∙◌, Bool, true, false, Option, none, some, ==_self,
  leb, Bool-cases, Option-cases, inl, inr, arith,
}
use mono_finance.Common.Action.{Result, ok, err}
use mono_finance.Auth.Tables.{
  AuthOps, AuthTables, SessionRecord, UserRecord, Text, public_user, clear_login_attempts,
  find_user_by_email, find_user_by_id, revoke_session,
}
use mono_finance.Auth.{
  AuthenticationError, unauthenticated, LoginResult, is_locked, is_invalid_email,
  is_invalid_password, identifier_hash, accept, checked, login, current_session, logout,
}

-- What a login that succeeds leaves: the session under the token's hash, for the user who logged in.
record LoggedIn (ops : AuthOps) (token : Text) (now : ℕ) (r : LoginResult) (t' : AuthTables)
    : Type 0 where
  pub u : UserRecord
  pub session : SessionRecord
  pub owner : t'.owner ≡ some u
  pub stored : t'.sessions (ops.hash token) ≡ some session
  pub for_user : session.user_id ≡ u.id
  pub valid : session.revoked_at ≡ none
  pub expires : session.expires_at ≡ now + 28_800
  pub answer : r ≡ record { expires_at = now + 28_800; token = token; user = public_user u }

abbrev or_result : LoginResult → Result AuthenticationError LoginResult → LoginResult
or_result r (ok r') = r'
or_result r (err e) = r

accept-LoggedIn :
    (ops : AuthOps) (new_id : Ident) (token : Text) (key : Ident) (now : ℕ) (u : UserRecord)
    (t t' : AuthTables) (r : LoginResult)
    → t.owner ≡ some u
    → accept ops new_id token key now u t ≡ (Result.ok r, t')
    → LoggedIn ops token now r t'
unfolding accept clear_login_attempts
accept-LoggedIn ops new_id token key now u t t' r owner h =
    elim (Option-cases (t.sessions (ops.hash token))) [
      | inr (present, used) ↦ cc (rw used at h)
      | inl free ↦
          let h' = rw free at h in
          let tables = ap (λ p. p.1) h' in
          record {
            u = u;
            session = record {
              expires_at = now + 28_800;
              id = new_id;
              revoked_at = none;
              user_id = u.id;
            };
            owner = sym (ap (λ s. s.owner) tables) ∙ owner;
            stored =
                sym (ap (λ s. s.sessions (ops.hash token)) tables)
                ∙ rw (==_self (ops.hash token)) refl;
            for_user = refl;
            valid = refl;
            expires = refl;
            answer = sym (ap (λ p. or_result r p.0) h');
          }
    ]

find_user_by_email-owner :
    (ops : AuthOps) (email : Text) (t : AuthTables) (u : UserRecord)
    → find_user_by_email ops email t ≡ some u
    → t.owner ≡ some u
unfolding find_user_by_email
find_user_by_email-owner ops email t u h = elim (Option-cases t.owner) [
  | inl missing ↦ cc (rw (missing, find_user_by_email) at h)
  | inr (v, present) ↦ elim (Bool-cases (ops.same_email v.email email)) [
    | inl same ↦ present ∙ rw same at (rw (present, find_user_by_email) at h)
    | inr differ ↦ cc (rw differ at (rw (present, find_user_by_email) at h))
  ]
]

checked-LoggedIn :
    (ops : AuthOps) (new_id : Ident) (token : Text) (key : Ident) (now : ℕ) (matches : Bool)
    (email : Text) (user : Option UserRecord) (t t' : AuthTables) (r : LoginResult)
    → find_user_by_email ops email t ≡ user
    → checked ops new_id token key now matches user t ≡ (Result.ok r, t')
    → LoggedIn ops token now r t'
checked-LoggedIn ops new_id token key now matches email none t t' r found h = cc h
checked-LoggedIn ops new_id token key now false email (some u) t t' r found h = cc h
checked-LoggedIn ops new_id token key now true email (some u) t t' r found h =
    accept-LoggedIn ops new_id token key now u t t' r (find_user_by_email-owner ops email t u found)
      h

login-LoggedIn :
    (ops : AuthOps) (new_id : Ident) (token : Text) (now : ℕ) (email password client : Text)
    (t t' : AuthTables) (r : LoginResult)
    → login ops new_id token now email password client t ≡ (Result.ok r, t')
    → LoggedIn ops token now r t'
unfolding login
login-LoggedIn ops new_id token now email password client t t' r h =
    elim (Bool-cases (is_invalid_email ops (ops.normalize email))) [
      | inl bad ↦ cc (rw bad at h)
      | inr address ↦ elim (Bool-cases (is_invalid_password password)) [
        | inl bad ↦ cc (rw (address, bad) at h)
        | inr long ↦
            elim (Bool-cases (
              is_locked now
                (t.login_attempts (identifier_hash ops client (ops.normalize email))))) [
                  | inl locked ↦ cc (rw (address, long, locked) at h)
                  | inr unlocked ↦
                      checked-LoggedIn ops new_id token _ now _ (ops.normalize email) _ t t' r refl
                        (rw (address, long, unlocked) at h)
                ]
      ]
    ]

module _ (ops : AuthOps) (token : Text) (now later : ℕ) (r : LoginResult) (t' : AuthTables)
    (l : LoggedIn ops token now r t') where
  user_found : find_user_by_id l.session.user_id t' ≡ some (public_user l.u)
  unfolding find_user_by_id
  user_found = rw (l.owner, find_user_by_id) (rw (l.for_user, ==_self l.u.id) refl)

  session_lives :
      later < now + 28_800
      → current_session ops later (some token) t'
        ≡ (Result.ok (record { expires_at = r.expires_at; user = r.user }), t')
  unfolding current_session
  session_lives before =
      let alive : leb l.session.expires_at later ≡ false = rw l.expires (ground arith) in
      rw (l.stored, l.valid, alive, user_found, l.answer) (rw l.expires refl)

  session_expires :
      now + 28_800 ≤ later
      → current_session ops later (some token) t' ≡ (Result.err unauthenticated, t')
  unfolding current_session
  session_expires after =
      let dead : leb l.session.expires_at later ≡ true = rw l.expires (ground arith) in
      rw (l.stored, l.valid, dead) refl

  logout_ends :
      (ended : ℕ)
      → current_session ops later (some token) (logout ops ended (some token) t')
        ≡ (Result.err unauthenticated, logout ops ended (some token) t')
  unfolding current_session logout revoke_session
  logout_ends ended = rw (==_self (ops.hash token), l.stored, l.valid) refl

-- After a login that succeeds, its token is a session of the user for eight hours and not longer, and
-- once logged out it is none at any time.
pub login_session :
    (ops : AuthOps) (new_id : Ident) (token : Text) (now later ended : ℕ)
    (email password client : Text) (t t' : AuthTables) (r : LoginResult)
    → login ops new_id token now email password client t ≡ (Result.ok r, t')
    → (later < now + 28_800
        → current_session ops later (some token) t'
          ≡ (Result.ok (record { expires_at = r.expires_at; user = r.user }), t'))
      × (now + 28_800 ≤ later
          → current_session ops later (some token) t' ≡ (Result.err unauthenticated, t'))
      × (current_session ops later (some token) (logout ops ended (some token) t')
          ≡ (Result.err unauthenticated, logout ops ended (some token) t'))
login_session ops new_id token now later ended email password client t t' r h =
    let l = login-LoggedIn ops new_id token now email password client t t' r h in
    (
      session_lives ops token now later r t' l,
      session_expires ops token now later r t' l,
      logout_ends ops token now later r t' l ended,
    )
