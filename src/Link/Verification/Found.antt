-- ===== src/Link/Verification/Found.antt =====
-- Which tokens and addresses are found for a verification link.
use kratos.Base.Find.{find}
use kratos.Base.{◌∷◌, ◌⊎◌, ◌∙◌, ◌≡◌, Option-cases, Bool-cases, Result-cases, ok-injective}
use kratos.Base.{err-ne-ok, err, ok, Result, is_no_rows, Err, [], List, some, inr, inl, ap}
use kratos.Base.{String}
use kratos.Identity.{VerifiableAddress}
use kratos.Link.Verification.Token.{address_of, VerificationToken, TokenEnv, is_redeemable}
use kratos.Link.Verification.Token.{is_address, query, try_secrets}

-- The token hashes, under one of the secrets, to an unused row of the network: `t`.
abbrev pub IsFound :
    TokenEnv → String → List String → List VerificationToken → VerificationToken → Type 0
IsFound E token [] table t = ⊥
IsFound E token (secret ∷ secrets) table t =
    (find (is_redeemable E.nid (E.hmac token secret)) table ≡ some t)
    ⊎ IsFound E token secrets table t

module _ (E : TokenEnv) where
  query_found :
      (hash : String) (table : List VerificationToken) (t : VerificationToken)
      → query E hash table ≡ ok t
      → find (is_redeemable E.nid hash) table ≡ some t
  unfolding query
  query_found hash table t h = elim (Option-cases (E.query_fault hash)) [
    | inr (e, bad) ↦ absurd (err-ne-ok (rw (bad, query) at h))
    | inl fine ↦ elim (Option-cases (find (is_redeemable E.nid hash) table)) [
      | inl missing ↦ absurd (err-ne-ok (rw (fine, query, missing) at h))
      | inr (t', found) ↦ found ∙ ap some (ok-injective (rw (fine, query, found) at h))
    ]
  ]

  tried_found :
      (token : String) (secrets : List String) (e : Err) (table : List VerificationToken)
      (t : VerificationToken)
      → try_secrets E token secrets (err e) table ≡ ok t
      → IsFound E token secrets table t
  unfolding try_secrets
  tried_found token [] e table t h = absurd (err-ne-ok h)
  tried_found token (secret ∷ secrets) e table t h =
      elim (Result-cases (query E (E.hmac token secret) table)) [
        | inl (t', found) ↦ inl (
            query_found (E.hmac token secret) table t
              (found ∙ ap ok (ok-injective (rw (found, try_secrets) at h))))
        | inr (e', missing) ↦ elim (Bool-cases (is_no_rows e')) [
          | inl next ↦
              inr (tried_found token secrets e' table t (rw (missing, try_secrets, next) at h))
          | inr stop ↦ absurd (err-ne-ok (rw (missing, try_secrets, stop) at h))
        ]
      ]

  pub first_found :
      (token secret : String) (secrets : List String) (last : Result VerificationToken)
      (table : List VerificationToken) (t : VerificationToken)
      → try_secrets E token (secret ∷ secrets) last table ≡ ok t
      → IsFound E token (secret ∷ secrets) table t
  unfolding try_secrets
  first_found token secret secrets last table t h =
      elim (Result-cases (query E (E.hmac token secret) table)) [
        | inl (t', found) ↦ inl (
            query_found (E.hmac token secret) table t
              (found ∙ ap ok (ok-injective (rw (found, try_secrets) at h))))
        | inr (e', missing) ↦ elim (Bool-cases (is_no_rows e')) [
          | inl next ↦
              inr (tried_found token secrets e' table t (rw (missing, try_secrets, next) at h))
          | inr stop ↦ absurd (err-ne-ok (rw (missing, try_secrets, stop) at h))
        ]
      ]

  pub address_known :
      (t : VerificationToken) (addresses : List VerifiableAddress) (a : VerifiableAddress)
      → address_of E t addresses ≡ ok a
      → find (is_address E.nid t.verifiable_address_id) addresses ≡ some a
  unfolding address_of
  address_known t addresses a h = elim (Option-cases E.address_fault) [
    | inr (e, bad) ↦ absurd (err-ne-ok (rw (bad, address_of) at h))
    | inl fine ↦ elim (Option-cases (find (is_address E.nid t.verifiable_address_id) addresses)) [
      | inl missing ↦ absurd (err-ne-ok (rw (fine, address_of, missing) at h))
      | inr (a', found) ↦ found ∙ ap some (ok-injective (rw (fine, address_of, found) at h))
    ]
  ]
