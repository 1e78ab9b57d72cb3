-- ===== src/Link/Sender/Recovery.antt =====
-- selfservice/strategy/link/sender.go: the mails with recovery links.
mod Tests
use kratos.Base.Find.{find}
use kratos.Base.{nat_eq, string_eq, ◌>>◌, ◌>>=◌, if◌then◌else◌, ◌==◌, ◌++◌, ◌∷◌, ◌&&◌, other}
use kratos.Base.{unknown_address, no_rows, check, err, ok, Result, Err, [], List, some, none}
use kratos.Base.{Option, Bool, String, ℕ}
use kratos.Identity.{RecoveryAddress}
use kratos.Link.{RecoveryToken, new_self_service_recovery_token, create_recovery_token}
use kratos.Link as Tokens

-- A link is a token and the id of its flow.
pub data Mail : Type 0 where
  recovery_invalid : (to : String) → Mail
  recovery_valid : (to token : String) → (flow_id : ℕ) → Mail

pub record State : Type 0 where
  pub outbox : List Mail
  pub tokens : List RecoveryToken

-- As in Link.Sender.
pub record Env : Type 0 where
  pub tokens : Tokens.Env
  pub addresses : List RecoveryAddress
  pub now : ℕ
  pub lifespan : ℕ
  pub new_id : ℕ
  pub new_token : String
  pub lower : String → String
  pub to_lower : String → String
  pub get_identity : (id : ℕ) → Option Err
  pub struct_to_map : Option Err
  pub find_fault : Option Err
  pub create_fault : Option Err
  pub queue_fault : Option Err

abbrev pub Sent : Type 0
Sent = State × Result (Unit {0})

abbrev pub or_stop {ℓ} : {A : Type ℓ} → State → Result A → (A → Sent) → Sent
or_stop s (err e) next = (s, err e)
or_stop s (ok a) next = next a

module _ (E : Env) where
  abbrev pub is_value : (via value : String) → RecoveryAddress → Bool
  is_value via value a =
      a.nid == E.tokens.nid && a.via == via && E.lower a.value == E.to_lower value

  unfoldable pub find_recovery_address_by_value : (via value : String) → Result RecoveryAddress
  find_recovery_address_by_value via value = do
    check E.find_fault
    elim (find (is_value via value) E.addresses) [ none ↦ err no_rows | some a ↦ ok a ]

  unfoldable pub send_mail : (via : String) → Mail → List Mail → Result (List Mail)
  send_mail via mail outbox =
      if via == "email"
      then (check E.queue_fault >> ok (outbox ++ mail ∷ []))
      else err (other "received unexpected via type")

  unfoldable pub send_recovery_token_to :
      State → (flow_id : ℕ) → RecoveryAddress → RecoveryToken → Sent
  send_recovery_token_to s flow_id address t = or_stop s (check E.struct_to_map) λ _.
      or_stop s (send_mail address.via (recovery_valid address.value t.token flow_id) s.outbox)
        λ outbox. (record s { outbox = outbox }, ok tt)

  abbrev pub send_invalid : State → (via to : String) → Sent
  send_invalid s via to =
      or_stop s (send_mail via (recovery_invalid to) s.outbox)
        λ outbox. (record s { outbox = outbox }, err unknown_address)

  abbrev pub send_to : State → (flow_id : ℕ) → RecoveryAddress → Sent
  send_to s flow_id address =
      let t =
        new_self_service_recovery_token E.new_id E.new_token E.now (some address) flow_id
          E.lifespan in
      or_stop s (check (E.get_identity address.identity_id)) λ _.
        or_stop s (create_recovery_token E.tokens E.create_fault t s.tokens)
          λ tokens. send_recovery_token_to (record s { tokens = tokens }) flow_id address t

  -- Any error of the query counts as an unknown address. The address is sought as an email, whatever
  -- `via` is.
  unfoldable pub send_recovery_link : State → (flow_id : ℕ) → (via to : String) → Sent
  send_recovery_link s flow_id via to = elim (find_recovery_address_by_value "email" to) [
    | err e ↦ send_invalid s via to
    | ok address ↦ send_to s flow_id address
  ]
