-- ===== src/Recovery/Found.antt =====
-- Which token is found for a recovery link, and what its use leaves.
use kratos.Base.Find.{find, update_where}
use kratos.Base.{
  ◌∷◌, ◌⊎◌, ◌∙◌, ◌≡◌, Option-cases, Bool-cases, Result-cases, ok-injective, >>=-eq-ok, check,
}
use kratos.Base.{err-ne-ok, err, ok, Result, is_no_rows, Err, [], List, some, inr, inl, ap}
use kratos.Base.{String}
use mathlib.Core.Path.{subst}
use kratos.Identity.{RecoveryAddress}
use kratos.Link.{RecoveryToken, Env, is_redeemable, is_row, mark_used, query, try_secrets, no_token}
use kratos.Link.{use_recovery_token, address_of}

-- The token hashes, under one of the secrets, to an unused row of the network: `t`.
abbrev pub IsFound : Env → String → List String → List RecoveryToken → RecoveryToken → Type 0
IsFound E token [] table t = ⊥
IsFound E token (secret ∷ secrets) table t =
    (find (is_redeemable E.nid (E.hmac token secret)) table ≡ some t)
    ⊎ IsFound E token secrets table t

module _ (E : Env) where
  query_found :
      (hash : String) (table : List RecoveryToken) (t : RecoveryToken)
      → query E hash table ≡ ok t
      → find (is_redeemable E.nid hash) table ≡ some t
  unfolding query
  query_found hash table t h = elim (Option-cases (E.query_fault hash)) [
    | inr (e, bad) ↦ absurd (err-ne-ok (rw (bad, query) at h))
    | inl fine ↦ elim (Option-cases (find (is_redeemable E.nid hash) table)) [
      | inl missing ↦ absurd (err-ne-ok (rw (fine, query, missing) at h))
      | inr (t', found) ↦ found ∙ ap some (ok-injective (rw (fine, query, found) at h))
    ]
  ]

  tried_found :
      (token : String) (secrets : List String) (e : Err) (table : List RecoveryToken)
      (t : RecoveryToken)
      → try_secrets E token secrets (err e) table ≡ ok t
      → IsFound E token secrets table t
  unfolding try_secrets
  tried_found token [] e table t h = absurd (err-ne-ok h)
  tried_found token (secret ∷ secrets) e table t h =
      elim (Result-cases (query E (E.hmac token secret) table)) [
        | inl (t', found) ↦ inl (
            query_found (E.hmac token secret) table t
              (found ∙ ap ok (ok-injective (rw (found, try_secrets) at h))))
        | inr (e', missing) ↦ elim (Bool-cases (is_no_rows e')) [
          | inl next ↦
              inr (tried_found token secrets e' table t (rw (missing, try_secrets, next) at h))
          | inr stop ↦ absurd (err-ne-ok (rw (missing, try_secrets, stop) at h))
        ]
      ]

  pub first_found :
      (token secret : String) (secrets : List String) (last : Result RecoveryToken)
      (table : List RecoveryToken) (t : RecoveryToken)
      → try_secrets E token (secret ∷ secrets) last table ≡ ok t
      → IsFound E token (secret ∷ secrets) table t
  unfolding try_secrets
  first_found token secret secrets last table t h =
      elim (Result-cases (query E (E.hmac token secret) table)) [
        | inl (t', found) ↦ inl (
            query_found (E.hmac token secret) table t
              (found ∙ ap ok (ok-injective (rw (found, try_secrets) at h))))
        | inr (e', missing) ↦ elim (Bool-cases (is_no_rows e')) [
          | inl next ↦
              inr (tried_found token secrets e' table t (rw (missing, try_secrets, next) at h))
          | inr stop ↦ absurd (err-ne-ok (rw (missing, try_secrets, stop) at h))
        ]
      ]

-- A token with the address that it was sent to.
abbrev with_address : RecoveryToken → RecoveryAddress → RecoveryToken
with_address t a = record t { recovery_address = some a }

module _ (E : Env) (secret : String) (secrets : List String)
    (configured : E.secrets ≡ secret ∷ secrets) where
  -- A token that is accepted is found in the table, and its row is marked as used.
  pub use_found :
      (token : String) (table table' : List RecoveryToken) (rt : RecoveryToken)
      → use_recovery_token E token table ≡ ok (rt, table')
      → (t : RecoveryToken) × (a : RecoveryAddress) × (IsFound E token (secret ∷ secrets) table t)
        × (with_address t a ≡ rt)
        × (update_where (is_row E.nid t.id) mark_used table ≡ table')
  unfolding use_recovery_token
  use_found token table table' rt h =
      let (t, found, rest) = >>=-eq-ok (try_secrets E token E.secrets (ok no_token) table) _ h in
      let (a, known, end) = >>=-eq-ok (address_of E t) _ rest in
      let (u, fine, same) = >>=-eq-ok (check E.update_fault) _ end in
      (
        t,
        a,
        first_found E token secret secrets (ok no_token) table t
            (subst (λ ss. try_secrets E token ss (ok no_token) table ≡ ok t) configured found),
        ap (λ x. x.0) (ok-injective same),
        ap (λ x. x.1) (ok-injective same),
      )
