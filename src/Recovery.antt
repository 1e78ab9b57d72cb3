-- ===== src/Recovery.antt =====
-- The redemption of a recovery link in selfservice/strategy/link/strategy_recovery.go: the token, the
-- flow that it belongs to, the session that is issued, and the settings flow that follows.
--
-- The user interface of a flow is left out but for its messages, `parse_error` is what the container
-- makes of an error, and `post_hook` the first error of a hook after recovery.
pub mod Flow
pub mod Found
pub mod Quiet
pub mod Made
pub mod Granted
pub mod Submit
mod Tests
use kratos.Flow.{type_browser}
use kratos.Flow.State.{state_passed_challenge}
use kratos.Base.{
  string_eq, ◌>>◌, ◌>>=◌, ◌>>=◌, if◌then◌else◌, ◌==◌, ◌++◌, ◌∷◌, ◌+◌, other, flow_expired, check,
  err, ok, Result, is_no_rows, Err, [], List, some, none, Option, true, String, suc, ℕ,
}
use kratos.Base.Find.{find}
use kratos.Http.{Request}
use kratos.Identity.{Identity, VerifiableAddress, RecoveryAddress, credentials_type_recovery_link}
use kratos.Session.{Session, new_active_session}
use kratos.Session.Manager as Manager
use kratos.Session.Manager.Cookie.{CookieOptions, Issued, upsert_and_issue_cookie}
use kratos.Link as Tokens
use kratos.Link.{RecoveryToken, use_recovery_token}
use kratos.Link.Verification.Token.{TokenEnv, update_verifiable_address}
use kratos.Settings as Settings
use kratos.Settings.{SettingsFlow}
use kratos.Recovery.Flow.{
  RecoveryFlow, Message, FlowEnv, new_flow, create_flow, get_flow, update_flow,
}
use kratos.Recovery.Flow.{token_invalid_or_used, flow_expired_ago}

pub record World (B X : Type 0) : Type 0 where
  pub tokens : List RecoveryToken
  pub flows : List RecoveryFlow
  pub addresses : List VerifiableAddress
  pub sessions : List Session
  -- the cookies that the response carries
  pub issued : List Issued
  pub settings : Settings.World B X

-- How the request is answered: by a redirect to a new flow, by one to the settings, or by an error.
pub data Outcome : Type 0 where
  retried recovered : (flow_id : ℕ) → Outcome
  failed : Err → Outcome

pub record Env (P B : Type 0) : Type 1 where
  pub flow : FlowEnv
  pub tokens : Tokens.Env
  pub addresses : TokenEnv
  pub sessions : Manager.Env
  pub settings : Settings.FlowEnv P B
  pub request : Request
  pub now : ℕ
  -- the CSRF tokens: a new one, that of the request, and that which the flow is given
  pub regenerated : String
  pub csrf_token : String
  pub flow_csrf_token : String
  -- the session that is drawn, and the options of the store's cookie
  pub session_id : ℕ
  pub session_token : String
  pub logout_token : String
  pub cookie_options : CookieOptions
  pub parse_error : Err → RecoveryFlow → Result RecoveryFlow
  pub post_hook : Option Err
  pub update_address_fault : Option Err
  -- the settings flow's URL with the `return_to` of the recovery flow's, if both can be parsed
  pub take_over : (settings_url recovery_url : String) → Option String
  pub privileged_until : ℕ

abbrev pub is_expired : Err → Option ℕ
is_expired (flow_expired at) = some at
is_expired _ = none

abbrev pub or_bad_url : Option String → Result String
or_bad_url none = err (other "url")
or_bad_url (some url) = ok url

abbrev pub extended : List Issued → Result Issued → List Issued
extended issued (ok c) = issued ++ c ∷ []
extended issued (err e) = issued

abbrev value_of : Option RecoveryAddress → String
value_of none = ""
value_of (some a) = a.value

module _ {P B : Type 0} (E : Env P B) where
  abbrev pub fresh : ℕ → String → Result RecoveryFlow
  fresh n flow_type = new_flow E.flow n (E.now + E.flow.lifespan) E.regenerated flow_type

  -- The flow that the token belongs to, or a new one, and the table of flows.
  unfoldable pub flow_of :
      RecoveryToken → List RecoveryFlow → Result (RecoveryFlow × List RecoveryFlow)
  flow_of t flows = elim t.flow_id [
    | none ↦ do
      f ← new_flow E.flow 0 t.expires_at E.csrf_token type_browser
      flows' ← create_flow E.flow f flows
      ok (f, flows')
    | some id ↦ get_flow E.flow id flows >>= λ f. ok (f, flows)
  ]

  abbrev pub passed : RecoveryFlow → Identity → RecoveryFlow
  passed f i = record f {
    messages = [];
    state = state_passed_challenge;
    csrf_token = E.flow_csrf_token;
    recovered_identity_id = some i.id;
  }

  abbrev pub successful : SettingsFlow → String → SettingsFlow
  successful sf url = record sf {
    request_url = url;
    messages = Settings.recovery_successful E.privileged_until ∷ [];
  }

  abbrev pub activated : Identity → Result Session
  activated i =
      new_active_session E.session_id E.session_token E.logout_token E.now (some i)
        E.sessions.session_lifespan E.now credentials_type_recovery_link

  abbrev pub completed : VerifiableAddress → VerifiableAddress
  completed a = record a { verified = true; verified_at = some E.now; status = "completed" }

  -- The first verifiable address of the identity with the value of the recovery address.
  unfoldable pub mark_recovery_address_verified :
      Identity → Option RecoveryAddress → List VerifiableAddress → Result (List VerifiableAddress)
  mark_recovery_address_verified i ra addresses =
      elim (find (λ va. va.value == value_of ra) i.verifiable_addresses) [
        | none ↦ ok addresses
        | some va ↦
            if va.verified
            then ok addresses
            else update_verifiable_address E.addresses E.update_address_fault (completed va)
                addresses
      ]

  -- Only for a token that a self-service flow has sent.
  abbrev pub marked :
      RecoveryToken → Identity → List VerifiableAddress → Result (List VerifiableAddress)
  marked t i addresses = elim t.flow_id [
    | none ↦ ok addresses
    | some id ↦ mark_recovery_address_verified i t.recovery_address addresses
  ]

  module _ {X : Type 0} where
    abbrev pub created : World B X → Result RecoveryFlow → World B X × Outcome
    created w (err e) = (w, failed e)
    created w (ok f) = elim (create_flow E.flow f w.flows) [
      | err e ↦ (w, failed e)
      | ok flows ↦ (record w { flows = flows }, retried f.id)
    ]

    -- Each flow of a request gets an id of its own: the number counts them.
    unfoldable pub retry_with_message : World B X → ℕ → String → Message → World B X × Outcome
    retry_with_message w n flow_type message =
        created w
          (do f ← fresh n flow_type; ok (record f { messages = f.messages ++ message ∷ [] }))

    unfoldable pub retry_with_error : World B X → ℕ → String → Err → World B X × Outcome
    retry_with_error w n flow_type rec_err = elim (fresh n flow_type) [
      | err e ↦ (w, failed e)
      | ok f ↦ elim (is_expired rec_err) [
        | some at ↦ retry_with_message w (suc n) flow_type (flow_expired_ago at)
        | none ↦ created w (E.parse_error rec_err f)
      ]
    ]

    -- `if err != nil { return s.retryRecoveryFlowWithError(w, r, flow.TypeBrowser, err) }`
    abbrev pub or_retry {ℓ} :
        {A : Type ℓ} → World B X → Result A → (A → World B X × Outcome) → World B X × Outcome
    or_retry w (ok a) next = next a
    or_retry w (err e) next = retry_with_error w 1 type_browser e

    -- The steps of the session's issue, the last ones first.
    abbrev pub store_settings : World B X → SettingsFlow → World B X × Outcome
    store_settings w sf =
        or_retry w (Settings.update_flow E.settings sf w.settings.flows)
          λ flows. (record w { settings = record w.settings { flows = flows } }, recovered sf.id)

    abbrev pub to_settings : World B X → RecoveryFlow → SettingsFlow → World B X × Outcome
    to_settings w f sf =
        or_retry w (or_bad_url (E.take_over sf.request_url f.request_url))
          λ url. or_retry w (check E.post_hook) λ _. store_settings w (successful sf url)

    unfoldable pub begin_settings : World B X → RecoveryFlow → Session → World B X × Outcome
    begin_settings w f s =
        let begun = Settings.new_flow E.settings 2 s.identity type_browser w.settings in
        let w' = record w { settings = begun.0 } in or_retry w' begun.1 λ sf. to_settings w' f sf

    abbrev pub after_upsert :
        World B X → RecoveryFlow → Session → List Session × Result Issued → World B X × Outcome
    after_upsert w f s r =
        let w' = record w { sessions = r.0; issued = extended w.issued r.1 } in
        or_retry w' r.1 λ _. begin_settings w' f s

    unfoldable pub issue_session : World B X → RecoveryFlow → Identity → World B X × Outcome
    issue_session w f i = or_retry w (update_flow E.flow (passed f i) w.flows) λ flows.
        let w' = record w { flows = flows } in
        or_retry w' (activated i) λ s.
          after_upsert w' (passed f i) s
            (upsert_and_issue_cookie E.sessions E.cookie_options w'.sessions E.request s)

    unfoldable pub recover_identity : World B X → RecoveryToken → RecoveryFlow → World B X × Outcome
    recover_identity w t f = elim (E.sessions.get_identity t.identity_id) [
      | err e ↦ (w, failed e)
      | ok i ↦ elim (marked t i w.addresses) [
        | err e ↦ (w, failed e)
        | ok addresses ↦ issue_session (record w { addresses = addresses }) f i
      ]
    ]

    abbrev pub if_valid : World B X → RecoveryToken → RecoveryFlow → World B X × Outcome
    if_valid w t f = or_retry w (Tokens.valid E.now t) λ _. recover_identity w t f

    unfoldable pub redeem : World B X → RecoveryToken → World B X × Outcome
    redeem w t = or_retry w (flow_of t w.flows) λ fs. if_valid (record w { flows = fs.1 }) t fs.0

    unfoldable pub recovery_use_token : World B X → String → World B X × Outcome
    recovery_use_token w token = elim (use_recovery_token E.tokens token w.tokens) [
      | err e ↦
          if is_no_rows e
          then retry_with_message w 0 type_browser token_invalid_or_used
          else retry_with_error w 0 type_browser e
      | ok (t, tokens) ↦ redeem (record w { tokens = tokens }) t
    ]
