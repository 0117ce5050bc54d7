-- ===== src/Auth/Owner.antt =====
-- The one owner (`createOwner` of worker/auth/auth-service.ts).
use mono_finance.Common.{Ident, ◌≡◌, refl, sym, ap, none, some, Bool-cases, Option-cases, inl, inr}
use mono_finance.Common.Action.{Result, ok, err}
use mono_finance.Auth.Tables.{
  AuthOps, AuthTables, AuthenticatedUser, UserRecord, Text, insert_owner, public_user,
}
use mono_finance.Auth.{AuthenticationError, is_invalid_email, is_invalid_password, create_owner}

-- An error changes nothing; a success has stored the first owner, with the hash of the password, and
-- answers who that is.
abbrev pub OwnerOutcome :
    AuthOps → Text → AuthTables → Result AuthenticationError AuthenticatedUser × AuthTables → Type 0
OwnerOutcome ops password t (err c, t') = t' ≡ t
OwnerOutcome ops password t (ok a, t') =
    (t.owner ≡ none)
    × ((u : UserRecord) × (t' ≡ record t { owner = some u })
        × (u.password_hash ≡ ops.hash_password password)
        × (a ≡ public_user u))

-- Creating an owner either throws and changes nothing, or there was none before and the new one is
-- stored: no second account can be created.
pub create_owner_lem :
    (ops : AuthOps) (new_id : Ident) (email password : Text) (t : AuthTables)
    → OwnerOutcome ops password t (create_owner ops new_id email password t)
unfolding create_owner insert_owner
create_owner_lem ops new_id email password t =
    elim (Bool-cases (is_invalid_email ops (ops.normalize email))) [
      | inl bad ↦ rw (bad, OwnerOutcome) refl
      | inr address ↦ elim (Bool-cases (is_invalid_password password)) [
        | inl bad ↦ rw (address, bad, OwnerOutcome) refl
        | inr long ↦ elim (Option-cases t.owner) [
          | inr (present, taken) ↦
              rw (address, long, taken, OwnerOutcome) (ap (λ o. record t { owner = o }) (sym taken))
          | inl free ↦
              rw (address, long, free, OwnerOutcome, insert_owner)
                (
                  free,
                  (
                    record {
                      email = ops.normalize email;
                      id = new_id;
                      password_hash = ops.hash_password password;
                    },
                    refl,
                    refl,
                    refl,
                  ),
                )
        ]
      ]
    ]
