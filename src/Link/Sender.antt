-- ===== src/Link/Sender.antt =====
-- selfservice/strategy/link/sender.go: the mails with verification links. Link.Sender.Recovery has those
-- with recovery links.
--
-- The outbox is the queue of mails, of which only the receiver and the link are kept.
pub mod Arrives
pub mod Recovery
mod Tests
use kratos.Base.Find.{find}
use kratos.Base.{nat_eq, string_eq, ◌>>◌, ◌>>=◌, if◌then◌else◌, ◌==◌, ◌++◌, ◌∷◌, ◌&&◌, other}
use kratos.Base.{unknown_address, no_rows, check, err, ok, Result, is_no_rows, Err, [], List}
use kratos.Base.{some, none, Option, Bool, String, ℕ}
use kratos.Identity.{VerifiableAddress}
use kratos.Link.Verification.Token.{VerificationToken, TokenEnv}
use kratos.Link.Verification.Token.{new_self_service_verification_token, create_token}
use kratos.Link.Verification.Token.{update_verifiable_address}

-- A link is a token and the id of its flow.
pub data Mail : Type 0 where
  verification_invalid : (to : String) → Mail
  verification_valid : (to token : String) → (flow_id : ℕ) → Mail

pub record State : Type 0 where
  pub outbox : List Mail
  pub tokens : List VerificationToken
  pub addresses : List VerifiableAddress

pub record Env : Type 0 where
  pub tokens : TokenEnv
  pub now : ℕ
  pub lifespan : ℕ
  -- the uuid and the token that are drawn
  pub new_id : ℕ
  pub new_token : String
  -- LOWER of the database, and strings.ToLower
  pub lower : String → String
  pub to_lower : String → String
  pub get_identity : (id : ℕ) → Option Err
  -- x.StructToMap of the identity
  pub struct_to_map : Option Err
  -- what the database answers to each statement
  pub find_fault : Option Err
  pub create_fault : Option Err
  pub queue_fault : Option Err
  pub update_fault : Option Err

abbrev pub Sent : Type 0
Sent = State × Result (Unit {0})

-- `if err != nil { return err }`, with the state that has been reached.
abbrev pub or_stop {ℓ} : {A : Type ℓ} → State → Result A → (A → Sent) → Sent
or_stop s (err e) next = (s, err e)
or_stop s (ok a) next = next a

module _ (E : Env) where
  abbrev pub is_value : (via value : String) → VerifiableAddress → Bool
  is_value via value a =
      a.nid == E.tokens.nid && a.via == via && E.lower a.value == E.to_lower value

  unfoldable pub find_verifiable_address_by_value :
      (via value : String) → List VerifiableAddress → Result VerifiableAddress
  find_verifiable_address_by_value via value addresses = do
    check E.find_fault
    elim (find (is_value via value) addresses) [ none ↦ err no_rows | some a ↦ ok a ]

  unfoldable pub send : (via : String) → Mail → List Mail → Result (List Mail)
  send via mail outbox =
      if via == "email"
      then (check E.queue_fault >> ok (outbox ++ mail ∷ []))
      else err (other "received unexpected via type")

  unfoldable pub send_verification_token_to :
      State → (flow_id : ℕ) → VerifiableAddress → VerificationToken → Sent
  send_verification_token_to s flow_id address t = or_stop s (check E.struct_to_map) λ _.
      or_stop s (send address.via (verification_valid address.value t.token flow_id) s.outbox)
        λ outbox.
          or_stop (record s { outbox = outbox })
            (update_verifiable_address E.tokens E.update_fault (record address { status = "sent" })
              s.addresses)
            λ addresses. (record s { outbox = outbox; addresses = addresses }, ok tt)

  abbrev pub send_invalid : State → (via to : String) → Sent
  send_invalid s via to =
      or_stop s (send via (verification_invalid to) s.outbox)
        λ outbox. (record s { outbox = outbox }, err unknown_address)

  abbrev pub send_to : State → (flow_id : ℕ) → VerifiableAddress → Sent
  send_to s flow_id address =
      let t =
        new_self_service_verification_token E.new_id E.new_token E.now address flow_id E.lifespan in
      or_stop s (check (E.get_identity address.identity_id)) λ _.
        or_stop s (create_token E.tokens E.create_fault t s.tokens)
          λ tokens. send_verification_token_to (record s { tokens = tokens }) flow_id address t

  unfoldable pub send_verification_link : State → (flow_id : ℕ) → (via to : String) → Sent
  send_verification_link s flow_id via to =
      elim (find_verifiable_address_by_value via to s.addresses) [
        | err e ↦ if is_no_rows e then send_invalid s via to else (s, err e)
        | ok address ↦ send_to s flow_id address
      ]
