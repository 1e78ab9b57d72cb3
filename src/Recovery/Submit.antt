-- ===== src/Recovery/Submit.antt =====
-- Recover, the submission of the form and createRecoveryLink of
-- selfservice/strategy/link/strategy_recovery.go.
use kratos.Flow.{ensure_csrf, method_enabled_and_allowed, type_browser}
use kratos.Flow.State.{state_choose_method, state_email_sent, state_passed_challenge}
use kratos.Base.{
  string_eq, ◌>>=◌, if◌then◌else◌, ◌==◌, ◌∷◌, ◌+◌, err, ok, Result, Err, [], List, some, none,
  Option, not, false, true, Bool, String, ℕ, or_end, bad_request, unknown_address,
}
use kratos.Http.{Request}
use kratos.Link.{new_recovery_token, create_recovery_token}
use kratos.Link.Sender.Recovery.{State, Mail, send_recovery_link}
use kratos.Link.Sender.Recovery as Mails
use kratos.Recovery.Flow.{RecoveryFlow, new_flow, create_flow, get_flow, update_flow, valid}
use kratos.Recovery.Flow.{retry_success, state_failure, email_sent}
use kratos.Recovery.{World, Outcome, Env, failed, recovery_use_token, retry_with_message}

pub record Payload : Type 0 where
  pub method : String
  pub token : String
  pub csrf_token : String
  pub flow : ℕ
  pub email : String

-- What a submission needs beside the redemption of a link: the decoder's answer, the configured
-- strategies, the checks of nosurf as in Flow, and the sender of mails.
pub record SubmitEnv : Type 0 where
  pub body : Result Payload
  pub enabled : String → Bool
  pub has_cookies : String → Bool
  pub token_is_valid : Request → String → Bool
  pub csrf_reason : Request → Err
  pub disable_api_flow_enforcement : Bool
  pub mails : Mails.Env

-- The strategy has answered, or the handler is to show the flow.
pub data Submitted : Type 0 where
  answered : Outcome → Submitted
  shows : RecoveryFlow → Submitted

abbrev recovery_strategy_id : String
recovery_strategy_id = "link"

abbrev recovery_node_group : String
recovery_node_group = "link"

abbrev pub is_unknown_address : Err → Bool
is_unknown_address unknown_address = true
is_unknown_address _ = false

-- ErrUnknownAddress is no error: whether an address is known is not told.
abbrev pub unless_unknown : Result (Unit {0}) → Result (Unit {0})
unless_unknown (ok u) = ok tt
unless_unknown (err e) = if is_unknown_address e then ok tt else err e

abbrev pub sent_flow : RecoveryFlow → RecoveryFlow
sent_flow f = record f {
  active = recovery_node_group;
  state = state_email_sent;
  messages = email_sent ∷ [];
}

-- The world and the mails that are sent.
abbrev pub Done : (B X : Type 0) → Type 0
Done B X = World B X × List Mail × Submitted

module _ {P B : Type 0} (E : Env P B) (S : SubmitEnv) where
  abbrev pub checked_form : RecoveryFlow → Result String
  checked_form f = do
    body ← S.body
    _ ←
        if body.email == ""
        then err (bad_request "email is required")
        else ensure_csrf S.has_cookies S.token_is_valid S.csrf_reason E.request f.type_
            S.disable_api_flow_enforcement body.csrf_token
    ok body.email

  module _ {X : Type 0} where
    abbrev pub or_fail {ℓ} :
        {A : Type ℓ} → World B X → List Mail → Result A → (A → Done B X) → Done B X
    or_fail w outbox (err e) next = (w, outbox, answered (failed e))
    or_fail w outbox (ok a) next = next a

    abbrev pub by_strategy : List Mail → World B X × Outcome → Done B X
    by_strategy outbox (w, o) = (w, outbox, answered o)

    unfoldable pub recovery_handle_form_submission : World B X → List Mail → RecoveryFlow → Done B X
    recovery_handle_form_submission w outbox f = or_fail w outbox (checked_form f) λ email.
        let sent =
          send_recovery_link S.mails (record { outbox = outbox; tokens = w.tokens }) f.id "email"
            email in
        let w' = record w { tokens = sent.0.tokens } in
        or_fail w' sent.0.outbox (unless_unknown sent.1) λ _.
          or_fail w' sent.0.outbox (update_flow E.flow (sent_flow f) w'.flows)
            λ flows. (record w' { flows = flows }, sent.0.outbox, shows (sent_flow f))

    abbrev pub by_state : World B X → List Mail → RecoveryFlow → Done B X
    by_state w outbox f =
        if f.state == state_choose_method
        then recovery_handle_form_submission w outbox f
        else if f.state == state_email_sent
        then recovery_handle_form_submission w outbox f
        else if f.state == state_passed_challenge
        then by_strategy outbox (retry_with_message E w 0 f.type_ retry_success)
        else by_strategy outbox (retry_with_message E w 0 f.type_ state_failure)

    abbrev pub with_body : World B X → List Mail → Payload → Done B X
    with_body w outbox body =
        if not (body.token == "")
        then (or_fail w outbox
            (method_enabled_and_allowed S.enabled recovery_strategy_id recovery_strategy_id)
            λ _. by_strategy outbox (recovery_use_token E w body.token))
        else or_fail w outbox
            (method_enabled_and_allowed S.enabled recovery_strategy_id body.method)
            λ _.
              or_fail w outbox (get_flow E.flow body.flow w.flows)
                λ f. or_fail w outbox (valid E.now f) λ _. by_state w outbox f

    unfoldable recover : World B X → List Mail → Done B X
    recover w outbox = or_fail w outbox S.body (with_body w outbox)

-- The body of createRecoveryLink, whose duration may be missing or not be parsed. A duration is not
-- negative here, so that the expiry is never before now.
record LinkBody : Type 0 where
  pub identity_id : ℕ
  pub expires_in : Option (Option ℕ)

record RecoveryLink : Type 0 where
  pub expires_at : ℕ
  pub token : String
  pub flow_id : ℕ

abbrev lifespan_of : ℕ → Option (Option ℕ) → Result ℕ
lifespan_of default_ none = ok default_
lifespan_of default_ (some none) = err (bad_request "expires_in")
lifespan_of default_ (some (some d)) = ok d

module _ {P B X : Type 0} (E : Env P B) where
  -- `token_id` and `token` are drawn.
  unfoldable create_recovery_link :
      (link_lifespan token_id : ℕ)
      → String
      → Option Err
      → Result LinkBody
      → World B X
      → World B X × Result RecoveryLink
  create_recovery_link link_lifespan token_id token fault body w = or_end w body λ p.
      or_end w (lifespan_of link_lifespan p.expires_in) λ expires_in.
        or_end w (new_flow E.flow 0 (E.now + expires_in) E.csrf_token type_browser) λ f.
          or_end w (create_flow E.flow f w.flows) λ flows.
            let w' = record w { flows = flows } in
            or_end w' (E.sessions.get_identity p.identity_id) λ i.
              let t = new_recovery_token token_id token E.now i.id expires_in in
              or_end w' (create_recovery_token E.tokens fault t w'.tokens) λ tokens. (
                record w' { tokens = tokens },
                ok (record { expires_at = f.expires_at; token = token; flow_id = f.id }),
              )
