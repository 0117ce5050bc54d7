-- ===== src/Sync/Claim/Attempts.antt =====
-- The attempts of `claimNext` (worker/repositories/transaction-sync-repository.ts), each a SELECT and an
-- UPDATE between which other Worker isolates may change the tables.
use mono_finance.Common.{
  Ident, ℕ, zero, suc, ◌≤◌, ◌≡◌, true, false, Option, none, some, arith, sym, ◌∙◌, ap, Option-cases,
  Bool-cases, inl, inr,
}
use mono_finance.Sync.Tables.{SyncState, SyncTables, ClaimedAccount}
use mono_finance.Sync.Claim.{take_lease, claim_attempts, next_candidate, Candidate, claimed}

abbrev pub IsNotBefore : ℕ → Option ℕ → Type 0
IsNotBefore at none = ⊥
IsNotBefore at (some expires) = at ≤ expires

-- There is no lease, or it ran out.
abbrev pub IsOver : ℕ → Option ℕ → Type 0
IsOver now none = Unit
IsOver now (some expires) = expires ≤ now

module _ (others : ℕ → SyncTables → SyncTables) (n : ℕ) (user : Option Ident) (now start : ℕ)
    (t : SyncTables) (c : Candidate)
    (found : next_candidate user now t.sync_state t.accounts ≡ some c) where
  pub attempt_taken :
      (take_lease c.account.id now start (others n t)).0 ≡ true
      → claim_attempts others (suc n) user now start t
        ≡ (some (claimed c start), (take_lease c.account.id now start (others n t)).1)
  unfolding claim_attempts
  attempt_taken e = rw (found, claim_attempts) (rw e)

  attempt_missed :
      (take_lease c.account.id now start (others n t)).0 ≡ false
      → claim_attempts others (suc n) user now start t
        ≡ claim_attempts others n user now start (take_lease c.account.id now start (others n t)).1
  unfolding claim_attempts
  attempt_missed e = rw (found, claim_attempts) (rw e)

-- There is no row, or a lease on it still runs.
abbrev pub IsTaken : ℕ → Option SyncState → Type 0
IsTaken now none = Unit
IsTaken now (some s) = IsNotBefore (suc now) s.lease_expires_at

take_lease_refused :
    (a : Ident) (now start : ℕ) (t : SyncTables)
    → (take_lease a now start t).0 ≡ false
    → ((take_lease a now start t).1 ≡ t) × IsTaken now (t.sync_state a)
unfolding take_lease
take_lease_refused a now start t h = (ground arith, ground arith)

-- The tables at the SELECT of the attempt after which `n` are left: those at the start of the claim,
-- or those at the UPDATE of the attempt before, when the account it found had been taken meanwhile.
pub data SelectSees (others : ℕ → SyncTables → SyncTables) (user : Option Ident) (now : ℕ)
    (t : SyncTables) : ℕ → SyncTables → Type 0 where
  first_attempt : SelectSees others user now t 2 t
  next_attempt :
      {n : ℕ} {v : SyncTables} {c : Candidate}
      → SelectSees others user now t (suc n) v
      → next_candidate user now v.sync_state v.accounts ≡ some c
      → IsTaken now ((others (suc n) v).sync_state c.account.id)
      → SelectSees others user now t n (others (suc n) v)

-- An attempt of the claim whose SELECT found the account on the tables `seen` and whose UPDATE
-- gave it a lease on the tables that the other isolates had left by then.
pub record Granted (others : ℕ → SyncTables → SyncTables) (user : Option Ident) (now start : ℕ)
    (t : SyncTables) (account : ClaimedAccount) (t' : SyncTables) : Type 0 where
  pub left : ℕ
  pub seen : SyncTables
  pub candidate : Candidate
  pub sees : SelectSees others user now t left seen
  pub found : next_candidate user now seen.sync_state seen.accounts ≡ some candidate
  pub answer : account ≡ claimed candidate start
  pub granted : take_lease account.account_id now start (others left seen) ≡ (true, t')

-- The tables on which the UPDATE of that attempt ran.
abbrev pub at_update :
    {others : ℕ → SyncTables → SyncTables} {user : Option Ident} {now start : ℕ} {t t' : SyncTables}
    {account : ClaimedAccount}
    → Granted others user now start t account t'
    → SyncTables
at_update {others = others} attempt = others attempt.left attempt.seen

module _ (others : ℕ → SyncTables → SyncTables) (user : Option Ident) (now start : ℕ)
    (t t' : SyncTables) (account : ClaimedAccount) where
  attempt_wins :
      (n : ℕ) (v : SyncTables) (c : Candidate)
      → SelectSees others user now t n v
      → next_candidate user now v.sync_state v.accounts ≡ some c
      → (take_lease c.account.id now start (others n v)).0 ≡ true
      → claim_attempts others (suc n) user now start v ≡ (some account, t')
      → Granted others user now start t account t'
  attempt_wins n v c sees found e h =
      let same = sym (attempt_taken others n user now start v c found e) ∙ h in
      let who : claimed c start ≡ account = cc same in
      let what : (take_lease c.account.id now start (others n v)).1 ≡ t' = ap (λ p. p.1) same in
      record {
        left = n;
        seen = v;
        candidate = c;
        sees = sees;
        found = found;
        answer = sym who;
        granted = rw (← who) (λ i. (e i, what i));
      }

  -- What is left of the claim after an attempt that was refused.
  attempt_refused :
      (n : ℕ) (v : SyncTables) (c : Candidate)
      → next_candidate user now v.sync_state v.accounts ≡ some c
      → (take_lease c.account.id now start (others n v)).0 ≡ false
      → claim_attempts others (suc n) user now start v ≡ (some account, t')
      → IsTaken now ((others n v).sync_state c.account.id)
        × (claim_attempts others n user now start (others n v) ≡ (some account, t'))
  attempt_refused n v c found e h =
      let (kept, taken) = take_lease_refused c.account.id now start (others n v) e in
      (taken, rw kept at (sym (attempt_missed others n user now start v c found e) ∙ h))

  pub claim_attempts-Granted :
      (n : ℕ) (v : SyncTables)
      → SelectSees others user now t n v
      → claim_attempts others (suc n) user now start v ≡ (some account, t')
      → Granted others user now start t account t'
  unfolding claim_attempts
  claim_attempts-Granted zero v sees h =
      elim (Option-cases (next_candidate user now v.sync_state v.accounts)) [
        | inl nobody ↦ cc (rw (nobody, claim_attempts) at h)
        | inr (c, found) ↦ elim (Bool-cases (take_lease c.account.id now start (others zero v)).0) [
          | inl e ↦ attempt_wins zero v c sees found e h
          | inr e ↦ cc (attempt_refused zero v c found e h).1
        ]
      ]
  claim_attempts-Granted (suc n) v sees h =
      elim (Option-cases (next_candidate user now v.sync_state v.accounts)) [
        | inl nobody ↦ cc (rw (nobody, claim_attempts) at h)
        | inr (c, found) ↦
            elim (Bool-cases (take_lease c.account.id now start (others (suc n) v)).0) [
              | inl e ↦ attempt_wins (suc n) v c sees found e h
              | inr e ↦
                  let (taken, rest) = attempt_refused (suc n) v c found e h in
                  claim_attempts-Granted n (others (suc n) v) (next_attempt sees found taken) rest
            ]
      ]
