-- ===== src/Lookup/Spent.antt =====
-- A login spends its recovery code.
mod Tests
use kratos.Base.{
  sym, ℕ, false, ◌≡◌, refl, ap, String, Option, none, some, List, ◌==◌, string_eq, Option-cases,
  Bool-cases, is_no_rows, Result-cases, inl, inr,
}
use kratos.Base.{Result, ok, err, lookup_already_used, err-ne-ok, ok-injective}
use kratos.Base.{◌>>◌, ◌∙◌}
use kratos.Http.{Request}
use kratos.Session.{Session}
use kratos.Identity.Aal.{aal2}
use kratos.Login.{Flow, check_aal}
use kratos.Flow.{ensure_csrf, method_enabled_and_allowed_from_request}
use kratos.Lookup.Login.{Payload, login, guards}
use kratos.Identity.{Identity, Credentials, set_credentials, credentials_type_lookup}
use kratos.Identity.Manager.{Pool}
use kratos.Lookup.{RecoveryCode, use_code}
use kratos.Lookup.OneTime.{use_code-twice}
use kratos.Lookup.Login.{
  guards, login, Env, redeem, find_codes, store_codes, or_internal, or_update_failed,
  no_rows_is_no_lookup,
}

or_internal-ok :
    {A : Type 0} (why : String) (o : Option A) {a : A} → or_internal why o ≡ ok a → o ≡ some a
or_internal-ok why none h = absurd (err-ne-ok h)
or_internal-ok why (some b) h = ap some (ok-injective h)

or_update_failed-ok : {A : Type 0} (q : Result A) {a : A} → or_update_failed q ≡ ok a → q ≡ ok a
or_update_failed-ok (ok b) h = h
or_update_failed-ok (err e) h = absurd (err-ne-ok h)

no_rows_is_no_lookup-ok :
    {A : Type 0} (q : Result A) {a : A} → no_rows_is_no_lookup q ≡ ok a → q ≡ ok a
no_rows_is_no_lookup-ok (ok b) h = h
no_rows_is_no_lookup-ok (err e) h = elim (Bool-cases (is_no_rows e)) [
  | inl missing ↦ absurd (err-ne-ok (rw missing at h))
  | inr differs ↦ absurd (err-ne-ok (rw differs at h))
]

module _ (P : Pool) (E : Env P)
    -- encoding/json reads what it writes, which is never the empty text
    (unmarshal-marshal : (codes : List RecoveryCode) (text : String)
      → E.marshal codes ≡ some text
      → E.unmarshal text ≡ some codes)
    (marshal_nonempty : (codes : List RecoveryCode) (text : String)
      → E.marshal codes ≡ some text
      → (text == "") ≡ false) where
  find_codes-ok :
      (st : P.State) (iid : ℕ) (i : Identity) (c : Credentials) (codes : List RecoveryCode)
      → find_codes P E st iid ≡ ok ((i, c), codes)
      → E.find_by_credentials_identifier st credentials_type_lookup (E.id_string iid) ≡ ok (i, c)
  unfolding find_codes
  find_codes-ok st iid i c codes h =
      let query = E.find_by_credentials_identifier st credentials_type_lookup (E.id_string iid) in
      elim (Result-cases (no_rows_is_no_lookup query)) [
        | inr (e, missing) ↦ absurd (err-ne-ok (rw (missing, find_codes) at h))
        | inl (found, known) ↦ elim (Option-cases (E.unmarshal found.1.config)) [
          | inl garbled ↦ absurd (err-ne-ok (rw (known, find_codes, garbled) at h))
          | inr (codes', decoded) ↦
              no_rows_is_no_lookup-ok query
                (rw (ap (λ x. x.0) (ok-injective (rw (known, find_codes, decoded) at h))) at known)
        ]
      ]

  find_codes-found :
      (now : ℕ) (st : P.State) (iid : ℕ) (i : Identity) (c : Credentials)
      (codes : List RecoveryCode)
      → E.find_by_credentials_identifier st credentials_type_lookup (E.id_string iid) ≡ ok (i, c)
      → E.unmarshal c.config ≡ some codes
      → find_codes P (record E { now = now }) st iid ≡ ok ((i, c), codes)
  unfolding find_codes
  find_codes-found now st iid i c codes h k = rw (h, find_codes) (rw k refl)

  store_codes-ok :
      (st st' : P.State) (iid : ℕ) (c : Credentials) (marked : List RecoveryCode)
      → store_codes P E st iid c marked ≡ ok st'
      → (encoded : String) × (i : Identity) × (E.marshal marked ≡ some encoded)
        × (P.get_identity_confidential st iid ≡ ok i)
        × (P.update_identity st
              (set_credentials credentials_type_lookup (record c { config = encoded }) i)
            ≡ ok st')
  unfolding store_codes
  store_codes-ok st st' iid c marked h = elim (Result-cases (P.get_identity_confidential st iid)) [
    | inr (e, missing) ↦ absurd (err-ne-ok (rw (missing, store_codes) at h))
    | inl (i, known) ↦ elim (Option-cases (E.marshal marked)) [
      | inl unwritten ↦ absurd (err-ne-ok (rw (known, store_codes, unwritten) at h))
      | inr (encoded, written) ↦ (
        encoded,
        i,
        written,
        known,
        or_update_failed-ok _ (rw (known, store_codes, written) at h),
      )
    ]
  ]

  guards-payload : (r : Request) (f : Flow) (p : Payload) → guards P E r f ≡ ok p → E.payload ≡ ok p
  unfolding guards
  guards-payload r f p h =
      let method =
        method_enabled_and_allowed_from_request E.enabled E.method credentials_type_lookup in
      elim (Result-cases (check_aal f aal2)) [
        | inr (e, bad) ↦ absurd (err-ne-ok (rw (bad, guards) at h))
        | inl (_, yes1) ↦ elim (Result-cases method) [
          | inr (e, bad) ↦ absurd (err-ne-ok (rw (yes1, guards, bad) at h))
          | inl (_, yes2) ↦ elim (Result-cases E.payload) [
            | inr (e, bad) ↦ absurd (err-ne-ok (rw (yes1, guards, yes2, bad) at h))
            | inl (p', given) ↦ given ∙ ap ok (checked p' (rw (yes1, guards, yes2, given) at h))
          ]
        ]
      ]
    where
      checked :
          (p' : Payload)
          → (do
            ensure_csrf E.has_cookies E.token_is_valid E.csrf_reason r f.type
                E.disable_api_flow_enforcement p'.csrf_token
            ok p')
            ≡ ok p
          → p' ≡ p
      checked p' k =
          elim (Result-cases (
            ensure_csrf E.has_cookies E.token_is_valid E.csrf_reason r f.type
              E.disable_api_flow_enforcement p'.csrf_token)) [
                | inr (e, bad) ↦ absurd (err-ne-ok (rw bad at k))
                | inl (_, yes3) ↦ ok-injective (rw yes3 at k)
              ]

  module _ (st : P.State) (iid : ℕ)
      -- what an update writes for the lookup credentials that were found is found after it
      (found_after : (i owner : Identity) (c : Credentials) (text : String) (st' : P.State)
        → E.find_by_credentials_identifier st credentials_type_lookup (E.id_string iid) ≡ ok (i, c)
        → P.get_identity_confidential st iid ≡ ok owner
        → (text == "") ≡ false
        → P.update_identity st
            (set_credentials credentials_type_lookup (record c { config = text }) owner)
          ≡ ok st'
        → (i' : Identity) × (c' : Credentials) × (E.find_by_credentials_identifier st'
              credentials_type_lookup
              (E.id_string iid)
            ≡ ok (i', c'))
          × (c'.config ≡ text)) where
    found_stored :
        (now : ℕ) (st' : P.State) (i : Identity) (c : Credentials)
        (codes marked : List RecoveryCode)
        → find_codes P E st iid ≡ ok ((i, c), codes)
        → store_codes P E st iid c marked ≡ ok st'
        → (i' : Identity) × (c' : Credentials) × (find_codes P (record E { now = now }) st' iid
            ≡ ok ((i', c'), marked))
    found_stored now st' i c codes marked known saved =
        let (encoded, owner, written, read, updated) = store_codes-ok st st' iid c marked saved in
        let (i', c', back, config) =
          found_after i owner c encoded st' (find_codes-ok st iid i c codes known) read
            (marshal_nonempty marked encoded written) updated in
        (
          i',
          c',
          find_codes-found now st' iid i' c' marked back
              (rw config (unmarshal-marshal marked encoded written)),
        )

    redeem-twice :
        (now : ℕ) (st' : P.State) (code : String) (i : Identity)
        → redeem P E st iid code ≡ ok (st', i)
        → redeem P (record E { now = now }) st' iid code ≡ err lookup_already_used
    unfolding redeem
    redeem-twice now st' code i h = elim (Result-cases (find_codes P E st iid)) [
      | inr (e, missing) ↦ absurd (err-ne-ok (rw (missing, redeem) at h))
      | inl (found, known) ↦ elim (Result-cases (use_code E.now code found.1)) [
        | inr (e, refused) ↦ absurd (err-ne-ok (rw (known, redeem, refused) at h))
        | inl (marked, accepted) ↦ elim (Result-cases (store_codes P E st iid found.0.1 marked)) [
          | inr (e, unsaved) ↦ absurd (err-ne-ok (rw (known, redeem, accepted, unsaved) at h))
          | inl (st'', saved) ↦
              let same : st'' ≡ st' =
                ap (λ x. x.0) (ok-injective (rw (known, redeem, accepted, saved) at h)) in
              let (i', c', again) =
                found_stored now st' found.0.0 found.0.1 found.1 marked known (rw same at saved) in
              rw (again, redeem) (rw (use_code-twice E.now now code found.1 accepted))
        ]
      ]
    ]

    -- A recovery code logs in once: after a login has succeeded for the identity of the session, the
    -- same form for the same identity does not log in again, at any later time, with any request and
    -- in any flow. It is assumed that the persister finds what an update writes for the lookup
    -- credentials of this identity, in the state in which the first login finds it, and that
    -- encoding/json reads what it writes, which is never the empty text.
    pub login-twice :
        (r r' : Request) (f f' : Flow) (ss ss' : Session) (now : ℕ) (i : Identity)
        → ss.identity_id ≡ iid
        → ss'.identity_id ≡ iid
        → (login P E st r f ss).result ≡ ok i
        → (i' : Identity)
        → ¬ (
            (login P (record E { now = now }) (login P E st r f ss).state r' f' ss').result ≡ ok i')
    unfolding login guards
    login-twice r r' f f' ss ss' now i mine same h i' k = elim (Result-cases (guards P E r f)) [
      | inr (e, refused) ↦ absurd (err-ne-ok (rw (refused, login) at h))
      | inl (p, passed) ↦ elim (Result-cases (redeem P E st iid p.code)) [
        | inr (e, refused) ↦ absurd (err-ne-ok (rw (passed, login, mine, refused) at h))
        | inl ((st', owner), redeemed) ↦
            again st' p (guards-payload r f p passed) (redeem-twice now st' p.code owner redeemed)
              (rw (passed, login, mine, redeemed) at k)
      ]
    ]
      where
        again :
            (st' : P.State) (p : Payload)
            → E.payload ≡ ok p
            → redeem P (record E { now = now }) st' iid p.code ≡ err lookup_already_used
            → (login P (record E { now = now }) st' r' f' ss').result ≡ ok i'
            → ⊥
        again st' p given spent_before k' =
            elim (Result-cases (guards P (record E { now = now }) r' f')) [
              | inr (e, refused) ↦ err-ne-ok (rw (refused, login) at k')
              | inl (p', passed) ↦
                  let given' : E.payload ≡ ok p' = guards-payload r' f' p' passed in
                  let code : p'.code ≡ p.code =
                    ap (λ x. x.code) (ok-injective (sym given' ∙ given)) in
                  err-ne-ok (rw (passed, login, same, code, spent_before) at k')
            ]
