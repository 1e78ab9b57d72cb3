-- ===== src/Link/Sender/Arrives.antt =====
-- The link that is mailed is one that can be redeemed.
use kratos.Base.Find.{find_replaced, find-append, find_fits, update_where, find}
use kratos.Base.{◌+◌, nat_eq, arith, ◌∙◌, string_eq, false, ap, sym, ◌++◌, ◌∷◌, ◌≡◌, Bool-cases}
use kratos.Base.{ok, [], List, some, none, true, Bool, inr, inl, refl, String, ℕ}
use mathlib.Core.Path.{subst}
use mathlib.Core.Option.{some-injective}
use kratos.Identity.{VerifiableAddress}
use kratos.Link.Verification.Token.{VerificationToken, no_token, mark_used, is_row, is_address}
use kratos.Link.Verification.Token.{is_redeemable, new_self_service_verification_token}
use kratos.Link.Verification.Token.{create_token, hmac_value, update_verifiable_address, query}
use kratos.Link.Verification.Token.{try_secrets, address_of, use_token}
use kratos.Link.Sender.{Env, State, Mail, verification_valid, send, send_verification_link}
use kratos.Link.Sender.{send_verification_token_to, find_verifiable_address_by_value, is_value}

false-ne-true : false ≡ true → ⊥
false-ne-true h = cc

also_found {ℓ} :
    {A : Type ℓ} (p q : A → Bool) (xs : List A) {a : A}
    → find p xs ≡ some a
    → q a ≡ true
    → (b : A) × (find q xs ≡ some b)
also_found p q [] h k = cc
also_found p q (x ∷ xs) {a} h k = elim (Bool-cases (q x)) [
  | inl fits ↦ (x, rw fits refl)
  | inr skips ↦ elim (Bool-cases (p x)) [
    | inl first ↦ absurd (false-ne-true (sym skips ∙ ap q (some-injective _ _ (rw first at h)) ∙ k))
    | inr later ↦ rw skips (also_found p q xs {a = a} (rw later at h) k)
  ]
]

module _ (E : Env) (secret : String) (secrets : List String)
    (configured : E.tokens.secrets ≡ secret ∷ secrets) (no_find_fault : E.find_fault ≡ none)
    (no_map_fault : E.struct_to_map ≡ none) (no_create_fault : E.create_fault ≡ none)
    (no_queue_fault : E.queue_fault ≡ none) (no_update_fault : E.update_fault ≡ none) where
  abbrev pub issued : (flow_id : ℕ) → VerifiableAddress → VerificationToken
  issued flow_id a =
      record (new_self_service_verification_token E.new_id E.new_token E.now a flow_id E.lifespan) {
        token = E.tokens.hmac E.new_token secret;
        nid = E.tokens.nid;
      }

  abbrev pub marked_sent : VerifiableAddress → VerifiableAddress
  marked_sent a = record a { status = "sent"; nid = E.tokens.nid }

  found :
      (to : String) (addresses : List VerifiableAddress) (a : VerifiableAddress)
      → find (is_value E "email" to) addresses ≡ some a
      → find_verifiable_address_by_value E "email" to addresses ≡ ok a
  unfolding find_verifiable_address_by_value
  found to addresses a known = rw (find_verifiable_address_by_value, no_find_fault, known) refl

  created :
      (t : VerificationToken) (tokens : List VerificationToken)
      → create_token E.tokens E.create_fault t tokens
        ≡ ok (tokens ++ record t { token = E.tokens.hmac t.token secret; nid = E.tokens.nid } ∷ [])
  unfolding create_token
  created t tokens = rw (create_token, hashed t.token, no_create_fault) refl
    where
      hashed :
          (token : String)
          → hmac_value E.tokens E.tokens.secrets token ≡ ok (E.tokens.hmac token secret)
      hashed token =
          subst (λ ss. hmac_value E.tokens ss token ≡ ok (E.tokens.hmac token secret))
            (sym configured) refl

  queued :
      (via : String) (mail : Mail) (outbox : List Mail)
      → via ≡ "email"
      → send E via mail outbox ≡ ok (outbox ++ mail ∷ [])
  unfolding send
  queued via mail outbox email =
      let same = (string_eq.beq_iff via "email").1 email in rw (send, same, no_queue_fault) refl

  updated :
      (a b : VerifiableAddress) (addresses : List VerifiableAddress)
      → find (is_address E.tokens.nid a.id) addresses ≡ some b
      → update_verifiable_address E.tokens E.update_fault (record a { status = "sent" }) addresses
        ≡ ok (update_where (is_address E.tokens.nid a.id) (λ _. marked_sent a) addresses)
  unfolding update_verifiable_address
  updated a b addresses row = rw (update_verifiable_address, no_update_fault, row) refl

  sent :
      (s : State) (flow_id : ℕ) (to : String) (a : VerifiableAddress)
      → find (is_value E "email" to) s.addresses ≡ some a
      → a.via ≡ "email"
      → E.get_identity a.identity_id ≡ none
      → (b : VerifiableAddress) → find (is_address E.tokens.nid a.id) s.addresses ≡ some b
      → send_verification_link E s flow_id "email" to ≡ (
        record {
          outbox = s.outbox ++ verification_valid a.value E.new_token flow_id ∷ [];
          tokens = s.tokens ++ issued flow_id a ∷ [];
          addresses = update_where (is_address E.tokens.nid a.id) (λ _. marked_sent a) s.addresses;
        },
        ok tt,
      )
  unfolding send_verification_link send_verification_token_to send
      new_self_service_verification_token
  sent s flow_id to a known mail identified b row =
      let t = new_self_service_verification_token E.new_id E.new_token E.now a flow_id E.lifespan in
      rw
        (
          send_verification_link,
          found to s.addresses a known,
          identified,
          created t s.tokens,
          send_verification_token_to,
          no_map_fault,
          queued a.via (verification_valid a.value t.token flow_id) s.outbox mail,
          updated a b s.addresses row,
        )
        refl

  of_network :
      (a : VerifiableAddress) (to : String)
      → is_value E "email" to a ≡ true
      → is_address E.tokens.nid a.id a ≡ true
  of_network a to h = ground (arith, nat_eq.beq_iff a.id a.id)

  tried :
      (table : List VerificationToken) (t : VerificationToken)
      → E.tokens.query_fault (E.tokens.hmac E.new_token secret) ≡ none
      → find (is_redeemable E.tokens.nid (E.tokens.hmac E.new_token secret)) table ≡ some t
      → try_secrets E.tokens E.new_token E.tokens.secrets (ok no_token) table ≡ ok t
  unfolding try_secrets query
  tried table t answered token =
      subst (λ ss. try_secrets E.tokens E.new_token ss (ok no_token) table ≡ ok t) (sym configured)
        (rw (try_secrets, query, answered, token) refl)

  located :
      (t : VerificationToken) (addresses : List VerifiableAddress) (a : VerifiableAddress)
      → E.tokens.address_fault ≡ none
      → find (is_address E.tokens.nid t.verifiable_address_id) addresses ≡ some a
      → address_of E.tokens t addresses ≡ ok a
  unfolding address_of
  located t addresses a readable row = rw (address_of, readable, row) refl

  redeemed :
      (t : VerificationToken) (table : List VerificationToken) (addresses : List VerifiableAddress)
      (a : VerifiableAddress)
      → E.tokens.query_fault (E.tokens.hmac E.new_token secret) ≡ none
      → E.tokens.address_fault ≡ none
      → E.tokens.update_fault ≡ none
      → find (is_redeemable E.tokens.nid (E.tokens.hmac E.new_token secret)) table ≡ some t
      → find (is_address E.tokens.nid t.verifiable_address_id) addresses ≡ some a
      → use_token E.tokens E.new_token table addresses
        ≡ ok (t, a, update_where (is_row E.tokens.nid t.id) mark_used table)
  unfolding use_token
  redeemed t table addresses a answered readable written token row =
      rw (use_token, tried table t answered token, located t addresses a readable row, written) refl

  -- A verification link that is sent to an address that is known works: the mail carries a token
  -- and the flow, and redeeming that token, on the tables that the sending leaves, finds the token
  -- that belongs to this address and this flow and expires after the lifespan. It is assumed that no
  -- statement of the database and no other step of the sending fails, that the database answers the
  -- queries of the redemption, that a session secret is configured, and that no token of the table
  -- has the same hash.
  pub use_token-send_verification_link :
      (s : State) (flow_id : ℕ) (to : String) (a : VerifiableAddress)
      → find (is_value E "email" to) s.addresses ≡ some a
      → a.via ≡ "email"
      → E.get_identity a.identity_id ≡ none
      → find (is_redeemable E.tokens.nid (E.tokens.hmac E.new_token secret)) s.tokens ≡ none
      → E.tokens.query_fault (E.tokens.hmac E.new_token secret) ≡ none
      → E.tokens.address_fault ≡ none
      → E.tokens.update_fault ≡ none
      → let after = send_verification_link E s flow_id "email" to in
        (after.1 ≡ ok tt)
        × (after.0.outbox ≡ s.outbox ++ verification_valid a.value E.new_token flow_id ∷ [])
        × ((t : VerificationToken) × (rest : List VerificationToken) × (use_token E.tokens
                E.new_token after.0.tokens after.0.addresses
              ≡ ok (t, marked_sent a, rest))
            × (t.verifiable_address_id ≡ a.id)
            × (t.flow_id ≡ some flow_id)
            × (t.expires_at ≡ E.now + E.lifespan))
  unfolding new_self_service_verification_token
  use_token-send_verification_link s flow_id to a known mail identified fresh answered readable
        written =
      let t = issued flow_id a in
      let (b, row) =
        also_found (is_value E "email" to) (is_address E.tokens.nid a.id) s.addresses {a = a} known
          (of_network a to (find_fits (is_value E "email" to) s.addresses {a = a} known)) in
      rw (sent s flow_id to a known mail identified b row) (
        refl,
        refl,
        (
          t,
          update_where (is_row E.tokens.nid E.new_id) mark_used (s.tokens ++ t ∷ []),
          redeemed t (s.tokens ++ t ∷ []) _ (marked_sent a) answered readable written
              (find-append (is_redeemable E.tokens.nid t.token) s.tokens t fresh (
                ground (
                  arith,
                  string_eq.beq_iff t.token t.token,
                  nat_eq.beq_iff E.tokens.nid E.tokens.nid,
                )))
              (find_replaced (is_address E.tokens.nid a.id) (is_address E.tokens.nid a.id)
                (marked_sent a) s.addresses {y = b} row (λ x h. h)
                (ground
                  (arith, nat_eq.beq_iff a.id a.id, nat_eq.beq_iff E.tokens.nid E.tokens.nid))),
          refl,
          refl,
          refl,
        ),
      )
