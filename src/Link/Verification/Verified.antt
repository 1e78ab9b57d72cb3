-- ===== src/Link/Verification/Verified.antt =====
-- Which addresses a verification link verifies.
use kratos.Base.Find.{update_where, find}
use kratos.Base.{>>=-eq-ok, check, ◌≤◌, ltb, arith, sym, ◌∷◌, ◌⊎◌, ◌∙◌, ◌≡◌, Option-cases}
use kratos.Base.{Bool-cases, Result-cases, ok-injective, err-ne-ok, err, ok, Result, is_no_rows}
use kratos.Base.{Err, List, some, inr, inl, ap, refl, String, suc, ℕ}
use mathlib.Core.Path.{subst}
use kratos.Flow.{type_browser}
use kratos.Identity.{VerifiableAddress}
use kratos.Link.Verification.{if_valid, verification_use_token, flow_of, run_hooks, passed}
use kratos.Link.Verification.{return_of, pass, verify_address, World, Answer, Env, created}
use kratos.Link.Verification.{retry_with_message, retry_with_error, or_retry, completed}
use kratos.Link.Verification.{challenge, is_expired}
use kratos.Link.Verification.Flow.{token_invalid_or_used, update_flow, VerificationFlow, Message}
use kratos.Link.Verification.Flow.{create_flow, new_flow}
use kratos.Link.Verification.Token.{no_token, use_token, address_of, VerificationToken}
use kratos.Link.Verification.Token.{is_address, valid, try_secrets, update_verifiable_address}
use kratos.Link.Verification.Found.{IsFound, first_found, address_known}

module _ (E : Env) where
  created_keeps :
      (w : World) (f : Result VerificationFlow) → (created E w f).0.addresses ≡ w.addresses
  created_keeps w (err e) = refl
  created_keeps w (ok f) = elim (Result-cases (create_flow E.flow f w.flows)) [
    | inl (flows, done) ↦ rw (created, done) refl
    | inr (e, refused) ↦ rw (created, refused) refl
  ]

  message_keeps :
      (w : World) (n : ℕ) (t : String) (message : Message)
      → (retry_with_message E w n t message).0.addresses ≡ w.addresses
  unfolding retry_with_message
  message_keeps w n t message = created_keeps w _

  error_keeps : (w : World) (n : ℕ) (e : Err) → (retry_with_error E w n e).0.addresses ≡ w.addresses
  unfolding retry_with_error
  error_keeps w n e = elim (Result-cases (new_flow E.flow n E.regenerated type_browser)) [
    | inr (e', refused) ↦ rw (refused, retry_with_error) refl
    | inl (f, fresh) ↦ elim (Option-cases (is_expired e)) [
      | inl unexpired ↦
          rw (fresh, retry_with_error, unexpired) (created_keeps w (E.parse_error e f))
      | inr (at, late) ↦ rw (fresh, retry_with_error, late) (message_keeps w (suc n) type_browser _)
    ]
  ]

  -- What holds of a retry and of what follows holds of the two together.
  or_retry_cases {ℓ κ} :
      {A : Type ℓ} (P : Answer → Type κ) (w : World) (r : Result A) (next : A → Answer)
      → ((e : Err) → P (retry_with_error E w 1 e))
      → ((a : A) → r ≡ ok a → P (next a))
      → P (or_retry E w r next)
  or_retry_cases P w (err e) next retries goes_on = retries e
  or_retry_cases P w (ok a) next retries goes_on = goes_on a refl

  valid_until : (t : VerificationToken) (u : Unit {0}) → valid E.now t ≡ ok u → E.now ≤ t.expires_at
  unfolding valid
  valid_until t u h = elim (Bool-cases (ltb t.expires_at E.now)) [
    | inl late ↦ absurd (err-ne-ok (rw (valid, late) at h))
    | inr in_time ↦ ground (arith, in_time)
  ]

  updated :
      (a : VerifiableAddress) (addresses addresses' : List VerifiableAddress)
      → update_verifiable_address E.tokens E.update_address_fault a addresses ≡ ok addresses'
      → addresses'
        ≡ update_where
            (is_address E.tokens.nid a.id)
            (λ _. record a { nid = E.tokens.nid })
            addresses
  unfolding update_verifiable_address
  updated a addresses addresses' h = elim (Option-cases E.update_address_fault) [
    | inr (e, bad) ↦ absurd (err-ne-ok (rw (bad, update_verifiable_address) at h))
    | inl fine ↦ elim (Option-cases (find (is_address E.tokens.nid a.id) addresses)) [
      | inl missing ↦ absurd (err-ne-ok (rw (fine, update_verifiable_address, missing) at h))
      | inr (row, found) ↦ sym (ok-injective (rw (fine, update_verifiable_address, found) at h))
    ]
  ]

  -- The table with the address marked as verified now.
  abbrev pub verified_in : VerifiableAddress → List VerifiableAddress → List VerifiableAddress
  verified_in a addresses =
      update_where (is_address E.tokens.nid a.id)
        (λ _. record (completed E a) { nid = E.tokens.nid }) addresses

  -- The steps of a redemption, the last ones first, and the addresses that they leave.
  module _ (t : VerificationToken) (a : VerifiableAddress) where
    abbrev KeepsOrVerifies : World → Answer → Type 0
    KeepsOrVerifies w answer =
        (answer.0.addresses ≡ w.addresses) ⊎ (answer.0.addresses ≡ verified_in a w.addresses)

    kept : (w : World) (e : Err) → KeepsOrVerifies w (retry_with_error E w 1 e)
    kept w e = inl (error_keeps w 1 e)

    verify_address-KeepsOrVerifies :
        (w : World) (f : VerificationFlow) → KeepsOrVerifies w (verify_address E w a f)
    verify_address-KeepsOrVerifies w f =
        or_retry_cases (KeepsOrVerifies w) w
          (update_verifiable_address E.tokens E.update_address_fault (completed E a) w.addresses)
          (λ addresses. (record w { addresses = addresses }, return_of E f)) (kept w)
          (λ addresses done. inr (updated (completed E a) w.addresses addresses done))

    pass-KeepsOrVerifies : (w : World) (f : VerificationFlow) → KeepsOrVerifies w (pass E w a f)
    pass-KeepsOrVerifies w f =
        or_retry_cases (KeepsOrVerifies w) w (update_flow E.flow (passed E f) w.flows)
          (λ flows. run_hooks E (record w { flows = flows }) a (passed E f)) (kept w)
          λ flows _.
            let w' = record w { flows = flows } in
            or_retry_cases (KeepsOrVerifies w) w' (check (E.get_identity a.identity_id))
              (λ _. or_retry E w' (check E.post_hook) λ _. verify_address E w' a (passed E f))
              (kept w')
              λ _ _.
                or_retry_cases (KeepsOrVerifies w) w' (check E.post_hook)
                  (λ _. verify_address E w' a (passed E f)) (kept w')
                  λ _ _. verify_address-KeepsOrVerifies w' (passed E f)

    abbrev Challenged : World → Answer → Type 0
    Challenged w answer =
        (answer.0.addresses ≡ w.addresses)
        ⊎ (E.now ≤ t.expires_at × answer.0.addresses ≡ verified_in a w.addresses)

    timely :
        (w : World) (answer : Answer)
        → E.now ≤ t.expires_at
        → KeepsOrVerifies w answer
        → Challenged w answer
    timely w answer in_time (inl same) = inl same
    timely w answer in_time (inr changed) = inr (in_time, changed)

    challenge-Challenged : (w : World) → Challenged w (challenge E w t a)
    unfolding challenge
    challenge-Challenged w =
        or_retry_cases (Challenged w) w (flow_of E t w.flows)
          (λ fs. if_valid E (record w { flows = fs.1 }) t a fs.0) (λ e. inl (error_keeps w 1 e))
          λ fs _.
            let w' = record w { flows = fs.1 } in
            or_retry_cases (Challenged w) w' (valid E.now t) (λ _. pass E w' a fs.0)
              (λ e. inl (error_keeps w' 1 e))
              λ u in_time.
                timely w (pass E w' a fs.0) (valid_until t u in_time) (pass-KeepsOrVerifies w' fs.0)

module _ (E : Env) (secret : String) (secrets : List String)
    (configured : E.tokens.secrets ≡ secret ∷ secrets) where
  used :
      (token : String) (table tokens : List VerificationToken) (addresses : List VerifiableAddress)
      (t : VerificationToken) (a : VerifiableAddress)
      → use_token E.tokens token table addresses ≡ ok (t, a, tokens)
      → (IsFound E.tokens token (secret ∷ secrets) table t)
        × (find (is_address E.tokens.nid t.verifiable_address_id) addresses ≡ some a)
  unfolding use_token
  used token table tokens addresses t a h =
      let (rt, found, rest) = >>=-eq-ok _ _ h in
      let (va, known, end) = >>=-eq-ok (address_of E.tokens rt addresses) _ rest in
      let (u, fine, same) = >>=-eq-ok (check E.tokens.update_fault) _ end in
      let same_token : rt ≡ t = ap (λ x. x.0) (ok-injective same) in
      let same_address : va ≡ a = ap (λ x. x.1) (ok-injective same) in
      (
        first_found E.tokens token secret secrets (ok no_token) table t (
            subst (λ ss. try_secrets E.tokens token ss (ok no_token) table ≡ ok t) configured
              (found ∙ ap ok same_token)),
        address_known E.tokens t addresses a (
            subst (λ x. address_of E.tokens x addresses ≡ ok a) same_token
              (known ∙ ap ok same_address)),
      )

  -- A verification link changes the table of addresses only by marking one address as verified,
  -- now, and only if its token hashes, under a configured session secret, to an unused token of the
  -- network that has not expired and that was issued for this address. At least one session secret
  -- has to be configured.
  pub verification_use_token-addresses :
      (w : World) (token : String)
      → ((verification_use_token E w token).0.addresses ≡ w.addresses)
        ⊎ ((t : VerificationToken) × (a : VerifiableAddress) × (IsFound E.tokens token
              (secret ∷ secrets)
              w.tokens
              t)
            × (find (is_address E.tokens.nid t.verifiable_address_id) w.addresses ≡ some a)
            × (E.now ≤ t.expires_at)
            × ((verification_use_token E w token).0.addresses ≡ verified_in E a w.addresses))
  unfolding verification_use_token
  verification_use_token-addresses w token =
      elim (Result-cases (use_token E.tokens token w.tokens w.addresses)) [
        | inr (e, refused) ↦ elim (Bool-cases (is_no_rows e)) [
          | inl missing ↦
              rw (refused, verification_use_token, missing)
                (inl (message_keeps E w 0 type_browser token_invalid_or_used))
          | inr bad ↦ rw (refused, verification_use_token, bad) (inl (error_keeps E w 0 e))
        ]
        | inl ((t, a, tokens), redeemed) ↦
            let (found, known) = used token w.tokens tokens w.addresses t a redeemed in
            elim (challenge-Challenged E t a (record w { tokens = tokens })) [
              | inl same ↦ inl (rw (redeemed, verification_use_token) same)
              | inr (in_time, changed) ↦
                  inr (t, a, found, known, in_time, rw (redeemed, verification_use_token) changed)
            ]
      ]
