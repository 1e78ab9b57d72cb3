-- ===== src/Link/Once.antt =====
-- A recovery token is redeemed at most once.
use mathlib.Core.Option.{some-injective}
use mathlib.Core.Path.{subst}
use kratos.Base.{ℕ, ◌≡◌, ap, ◌∙◌, ◌≢◌, String, true, some, List, [], ◌∷◌, All, nat_eq, string_eq}
use kratos.Base.{arith, inl, inr, Result-cases, Option-cases, Bool-cases, ok, err, Err}
use kratos.Base.{is_no_rows, err-ne-ok, ok-injective}
use kratos.Base.Find.{find, update_where}
use kratos.Link.{redeemed, RecoveryToken, no_token, Env, is_redeemable, is_row, mark_used, query}
use kratos.Link.{try_secrets, address_of, use_recovery_token}

-- Every row with this id in this network is used.
abbrev pub IsSpent : (nid id : ℕ) → List RecoveryToken → Type 0
IsSpent nid id = All (λ t. is_row nid id t ≡ true → t.used ≡ true)

IsSpent-after :
    (nid id : ℕ) (table : List RecoveryToken)
    → IsSpent nid id (update_where (is_row nid id) mark_used table)
IsSpent-after nid id [] = tt
IsSpent-after nid id (t ∷ table) = (λ p. ground (arith, p), IsSpent-after nid id table)

IsSpent-still :
    (nid id id' : ℕ) (table : List RecoveryToken)
    → IsSpent nid id table
    → IsSpent nid id (update_where (is_row nid id') mark_used table)
IsSpent-still nid id id' [] h = tt
IsSpent-still nid id id' (t ∷ table) (h, hs) =
    (λ p. ground (arith, p, h), IsSpent-still nid id id' table hs)

clash :
    (nid id : ℕ) (hash : String) (t : RecoveryToken)
    → is_redeemable nid hash t ≡ true
    → t.id ≡ id
    → (is_row nid id t ≡ true → t.used ≡ true)
    → ⊥
clash nid id hash t fits same spent = ground (arith, spent)

not_found :
    (nid id : ℕ) (hash : String) (table : List RecoveryToken) (t : RecoveryToken)
    → IsSpent nid id table
    → find (is_redeemable nid hash) table ≡ some t
    → t.id ≢ id
not_found nid id hash [] t h k same = cc
not_found nid id hash (x ∷ table) t (h, hs) k same = elim (Bool-cases (is_redeemable nid hash x)) [
  | inl fits ↦
      clash nid id hash x fits (ap (λ y. y.id) (some-injective _ _ (rw fits at k)) ∙ same) h
  | inr skips ↦ not_found nid id hash table t hs (rw skips at k) same
]

-- Distinct identifiers.
abbrev pub IsDistinct : List ℕ → Type 0
IsDistinct [] = Unit
IsDistinct (i ∷ ids) = All (λ j. j ≢ i) ids × IsDistinct ids

module _ (E : Env) where
  query_not :
      (id : ℕ) (hash : String) (table : List RecoveryToken) {rt : RecoveryToken}
      → IsSpent E.nid id table
      → query E hash table ≡ ok rt
      → rt.id ≢ id
  unfolding query
  query_not id hash table {rt} spent h = elim (Option-cases (E.query_fault hash)) [
    | inr (e, bad) ↦ absurd (err-ne-ok (rw (bad, query) at h))
    | inl fine ↦ elim (Option-cases (find (is_redeemable E.nid hash) table)) [
      | inl missing ↦ absurd (err-ne-ok (rw (fine, query, missing) at h))
      | inr (t, found) ↦
          not_found E.nid id hash table rt spent
            (found ∙ ap some (ok-injective (rw (fine, query, found) at h)))
    ]
  ]

  tried_not :
      (id : ℕ) (token : String) (secrets : List String) (e : Err) (table : List RecoveryToken)
      (rt : RecoveryToken)
      → IsSpent E.nid id table
      → try_secrets E token secrets (err e) table ≡ ok rt
      → rt.id ≢ id
  unfolding try_secrets
  tried_not id token [] e table rt spent h = absurd (err-ne-ok h)
  tried_not id token (secret ∷ secrets) e table rt spent h =
      elim (Result-cases (query E (E.hmac token secret) table)) [
        | inl (t, found) ↦
            rw (← ok-injective (rw (found, try_secrets) at h))
              (query_not id (E.hmac token secret) table spent found)
        | inr (e', missing) ↦ elim (Bool-cases (is_no_rows e')) [
          | inl next ↦
              tried_not id token secrets e' table rt spent (rw (missing, try_secrets, next) at h)
          | inr stop ↦ absurd (err-ne-ok (rw (missing, try_secrets, stop) at h))
        ]
      ]

  -- What a use leaves, for the row of `rt` and for any other that was spent before.
  used_once :
      (token : String) (table : List RecoveryToken) (rt : RecoveryToken)
      (table' : List RecoveryToken)
      → use_recovery_token E token table ≡ ok (rt, table')
      → (t : RecoveryToken) × (try_secrets E token E.secrets (ok no_token) table ≡ ok t)
        × (t.id ≡ rt.id)
        × (update_where (is_row E.nid rt.id) mark_used table ≡ table')
  unfolding use_recovery_token
  used_once token table rt table' h =
      elim (Result-cases (try_secrets E token E.secrets (ok no_token) table)) [
        | inr (e, bad) ↦ absurd (err-ne-ok (rw (bad, use_recovery_token) at h))
        | inl (t, found) ↦ elim (Result-cases (address_of E t)) [
          | inr (e, bad) ↦ absurd (err-ne-ok (rw (found, use_recovery_token, bad) at h))
          | inl (ra, known) ↦ elim (Option-cases E.update_fault) [
            | inr (e, bad) ↦ absurd (err-ne-ok (rw (found, use_recovery_token, known, bad) at h))
            | inl fine ↦
                let same = ok-injective (rw (found, use_recovery_token, known, fine) at h) in
                let same_id : t.id ≡ rt.id = ap (λ x. x.0.id) same in
                (t, found, same_id, rw (← same_id) (ap (λ x. x.1) same))
          ]
        ]
      ]

module _ (E : Env) (secret : String) (secrets : List String)
    (configured : E.secrets ≡ secret ∷ secrets) where
  first_not :
      (id : ℕ) (token : String) (table : List RecoveryToken) (rt : RecoveryToken)
      → IsSpent E.nid id table
      → try_secrets E token (secret ∷ secrets) (ok no_token) table ≡ ok rt
      → rt.id ≢ id
  unfolding try_secrets
  first_not id token table rt spent h = elim (Result-cases (query E (E.hmac token secret) table)) [
    | inl (t, found) ↦
        rw (← ok-injective (rw (found, try_secrets) at h))
          (query_not E id (E.hmac token secret) table spent found)
    | inr (e', missing) ↦ elim (Bool-cases (is_no_rows e')) [
      | inl next ↦
          tried_not E id token secrets e' table rt spent (rw (missing, try_secrets, next) at h)
      | inr stop ↦ absurd (err-ne-ok (rw (missing, try_secrets, stop) at h))
    ]
  ]

  -- A row that is spent is not redeemed, by any token.
  redeemed_not :
      (id : ℕ) (tokens : List String) (table : List RecoveryToken)
      → IsSpent E.nid id table
      → All (λ j. j ≢ id) (redeemed E tokens table)
  unfolding redeemed
  redeemed_not id [] table spent = tt
  redeemed_not id (token ∷ tokens) table spent =
      elim (Result-cases (use_recovery_token E token table)) [
        | inr (e, refused) ↦ rw (refused, redeemed) (redeemed_not id tokens table spent)
        | inl ((rt, table'), accepted) ↦
            let (t, found, same, marked) = used_once E token table rt table' accepted in
            rw (accepted, redeemed)
              (
                λ equal.
                    first_not id token table t spent
                      (subst (λ ss. try_secrets E token ss (ok no_token) table ≡ ok t) configured
                        found)
                      (same ∙ equal),
                redeemed_not id tokens table'
                    (rw (← marked) (IsSpent-still E.nid id rt.id table spent)),
              )
      ]

  -- However many recovery links are submitted one after another, with whatever tokens, no row of
  -- the tokens table is redeemed twice, provided that at least one session secret is configured.
  pub redeemed-IsDistinct :
      (tokens : List String) (table : List RecoveryToken) → IsDistinct (redeemed E tokens table)
  unfolding redeemed
  redeemed-IsDistinct [] table = tt
  redeemed-IsDistinct (token ∷ tokens) table =
      elim (Result-cases (use_recovery_token E token table)) [
        | inr (e, refused) ↦ rw (refused, redeemed) (redeemed-IsDistinct tokens table)
        | inl ((rt, table'), accepted) ↦
            let (t, found, same, marked) = used_once E token table rt table' accepted in
            rw (accepted, redeemed)
              (
                redeemed_not rt.id tokens table' (rw (← marked) (IsSpent-after E.nid rt.id table)),
                redeemed-IsDistinct tokens table',
              )
      ]
