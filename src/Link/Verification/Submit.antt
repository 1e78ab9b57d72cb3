-- ===== src/Link/Verification/Submit.antt =====
-- Verify and the submission of the form in selfservice/strategy/link/strategy_verification.go.
use kratos.Flow.{ensure_csrf, method_enabled_and_allowed}
use kratos.Flow.State.{state_choose_method, state_email_sent, state_passed_challenge}
use kratos.Base.{
  string_eq, ◌>>=◌, if◌then◌else◌, ◌==◌, ◌∷◌, err, ok, Result, Err, [], List, not, false, true,
  Bool, String, bad_request, unknown_address,
}
use kratos.Http.{Request}
use kratos.Link.Sender.{State, Mail, send_verification_link}
use kratos.Link.Sender as Mails
use kratos.Link.Verification.Flow.{VerificationFlow, update_flow, valid}
use kratos.Link.Verification.Flow.{retry_success, state_failure, email_sent}
use kratos.Link.Verification.{
  World, Outcome, Env, failed, verification_use_token, retry_with_message,
}

pub record Payload : Type 0 where
  pub method : String
  pub token : String
  pub csrf_token : String
  pub email : String

-- What a submission needs beside the redemption of a link: the decoder's answer, the configured
-- strategies, the checks of nosurf as in Flow, and the sender of mails.
pub record SubmitEnv : Type 0 where
  pub body : Result Payload
  pub request : Request
  pub enabled : String → Bool
  pub has_cookies : String → Bool
  pub token_is_valid : Request → String → Bool
  pub csrf_reason : Request → Err
  pub disable_api_flow_enforcement : Bool
  pub mails : Mails.Env

-- The strategy has answered, or the handler is to show the flow.
pub data Submitted : Type 0 where
  answered : Outcome → Submitted
  shows : VerificationFlow → Submitted

abbrev verification_strategy_id : String
verification_strategy_id = "link"

abbrev verification_node_group : String
verification_node_group = "link"

abbrev pub is_unknown_address : Err → Bool
is_unknown_address unknown_address = true
is_unknown_address _ = false

-- ErrUnknownAddress is no error: whether an address is known is not told.
abbrev pub unless_unknown : Result (Unit {0}) → Result (Unit {0})
unless_unknown (ok u) = ok tt
unless_unknown (err e) = if is_unknown_address e then ok tt else err e

abbrev pub sent_flow : VerificationFlow → VerificationFlow
sent_flow f = record f {
  active = verification_node_group;
  state = state_email_sent;
  messages = email_sent ∷ [];
}

module _ (E : Env) (S : SubmitEnv) where
  -- The world and the mails that are sent.
  abbrev pub Done : Type 0
  Done = World × List Mail × Submitted

  abbrev pub or_fail {ℓ} : {A : Type ℓ} → World → List Mail → Result A → (A → Done) → Done
  or_fail w outbox (err e) next = (w, outbox, answered (failed e))
  or_fail w outbox (ok a) next = next a

  abbrev pub by_strategy : List Mail → World × Outcome → Done
  by_strategy outbox (w, o) = (w, outbox, answered o)

  abbrev pub checked_form : VerificationFlow → Result String
  checked_form f = do
    body ← S.body
    _ ←
        if body.email == ""
        then err (bad_request "email is required")
        else ensure_csrf S.has_cookies S.token_is_valid S.csrf_reason S.request f.type_
            S.disable_api_flow_enforcement body.csrf_token
    ok body.email

  unfoldable pub verification_handle_form_submission : World → List Mail → VerificationFlow → Done
  verification_handle_form_submission w outbox f = or_fail w outbox (checked_form f) λ email.
      let sent =
        send_verification_link S.mails
          (record { outbox = outbox; tokens = w.tokens; addresses = w.addresses }) f.id "email"
          email in
      let w' = record w { tokens = sent.0.tokens; addresses = sent.0.addresses } in
      or_fail w' sent.0.outbox (unless_unknown sent.1) λ _.
        or_fail w' sent.0.outbox (update_flow E.flow (sent_flow f) w'.flows)
          λ flows. (record w' { flows = flows }, sent.0.outbox, shows (sent_flow f))

  abbrev pub by_state : World → List Mail → VerificationFlow → Done
  by_state w outbox f =
      if f.state == state_choose_method
      then verification_handle_form_submission w outbox f
      else if f.state == state_email_sent
      then verification_handle_form_submission w outbox f
      else if f.state == state_passed_challenge
      then by_strategy outbox (retry_with_message E w 0 f.type_ retry_success)
      else by_strategy outbox (retry_with_message E w 0 f.type_ state_failure)

  abbrev pub with_body : World → List Mail → VerificationFlow → Payload → Done
  with_body w outbox f body =
      if not (body.token == "")
      then (or_fail w outbox
          (method_enabled_and_allowed S.enabled verification_strategy_id verification_strategy_id)
          λ _. by_strategy outbox (verification_use_token E w body.token))
      else or_fail w outbox
          (method_enabled_and_allowed S.enabled verification_strategy_id body.method)
          λ _. or_fail w outbox (valid E.now f) λ _. by_state w outbox f

  unfoldable verify : World → List Mail → VerificationFlow → Done
  verify w outbox f = or_fail w outbox S.body (with_body w outbox f)
