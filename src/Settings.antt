-- ===== src/Settings.antt =====
-- The self-service settings of an identity: the flow (selfservice/flow/settings/flow.go), its table
-- (persistence/sql/persister_settings.go) and how the handler begins one
-- (selfservice/flow/settings/handler.go). Its children are the handlers, the hook and the errors.
--
-- The user interface of a flow is left out but for its messages. The sorting of its nodes is a
-- parameter. `P` is the type of a payload of the continuity manager, `B` what a browser holds, and
-- `X` the state of the identity pool.
pub mod Hook
pub mod Written
pub mod Resumed
pub mod Handler
pub mod Kept
pub mod Tests
use kratos.Base.Find.{update_where, find}
use kratos.Base.{◌>>◌, ◌>>=◌, if◌then◌else◌, ltb, bad_request, panic, flow_expired, no_rows}
use kratos.Base.{check, err, ok, Result, Err, [], List, some, none, Option, not, Bool, nat_eq}
use kratos.Base.{◌==◌, ◌++◌, ◌∷◌, ◌&&◌, ◌+◌, String, ℕ, or_end, after}
use kratos.Redirect
use kratos.Redirect.{RedirectOption, Url, secure_redirect_to, allow_urls, allow_self_service_urls}
use kratos.Redirect.{use_source_url}
use kratos.Identity.{Identity}
use kratos.Continuity as Continuity
use kratos.Continuity.{abort}

-- text/message_settings.go.
pub data Message : Type 0 where
  update_success : Message
  settings_expired : ℕ → Message
  recovery_successful : ℕ → Message
  from_error : Err → Message

abbrev pub state_show_form : String
state_show_form = "show_form"

abbrev pub state_success : String
state_success = "success"

pub record SettingsFlow : Type 0 where
  pub id : ℕ
  pub type_ : String
  pub expires_at : ℕ
  pub issued_at : ℕ
  pub request_url : String
  pub active : String
  pub messages : List Message
  pub state : String
  pub internal_context : String
  pub identity_id : ℕ
  pub identity : Option Identity
  pub nid : ℕ

-- What the settings handlers read and write.
pub record World (B X : Type 0) : Type 0 where
  pub continuity : Continuity.State B
  pub flows : List SettingsFlow
  pub pool : X

-- A strategy of `SettingsStrategies`, as a new flow uses it.
pub record Populator : Type 0 where
  pub id : String
  pub populate : Identity → SettingsFlow → Result SettingsFlow

-- The configuration, the request and the database, as far as flows read them.
pub record FlowEnv (P B : Type 0) : Type 1 where
  pub redirect : Redirect.Env
  pub default_return_to : Url
  pub whitelist : List Url
  pub public_url : Url
  pub lifespan : ℕ
  pub now : ℕ
  -- the n-th uuid that is drawn, and x.RequestURL(r).String()
  pub new_id : ℕ → ℕ
  pub request_url : String
  pub strategies : List Populator
  pub sort_nodes : SettingsFlow → Result SettingsFlow
  pub continuity : Continuity.Env P B
  -- ContinuityKey, and whether gjson takes a text for an object
  pub continuity_key : String → String
  pub is_object : String → Bool
  pub get_identity : ℕ → Result Identity
  pub nid : ℕ
  -- what the database answers to the statement on a flow
  pub create_fault : Option Err
  pub get_fault : Option Err
  pub update_fault : Option Err

unfoldable pub valid : (now : ℕ) → SettingsFlow → Identity → Result (Unit {0})
valid now f i =
    if ltb f.expires_at now
    then err (flow_expired f.expires_at)
    else if not (f.identity_id == i.id)
    then err (bad_request "initiated by another person")
    else ok tt

module _ {P B : Type 0} (E : FlowEnv P B) where
  abbrev pub redirect_options : String → List RedirectOption
  redirect_options source =
      use_source_url source ∷ allow_urls E.whitelist ∷ allow_self_service_urls E.public_url ∷ []

  unfoldable pub blank_flow : ℕ → Identity → String → Result SettingsFlow
  blank_flow n i flow_type = do
    _ ← secure_redirect_to E.redirect E.default_return_to (redirect_options E.request_url)
    ok (record {
      id = E.new_id n;
      type_ = flow_type;
      expires_at = E.now + E.lifespan;
      issued_at = E.now;
      request_url = E.request_url;
      active = "";
      messages = [];
      state = state_show_form;
      internal_context = "{}";
      identity_id = i.id;
      identity = some i;
      nid = 0;
    })

  abbrev with_context : SettingsFlow → SettingsFlow
  with_context f =
      if E.is_object f.internal_context then f else record f { internal_context = "{}" }

  abbrev in_network : SettingsFlow → SettingsFlow
  in_network f = record (with_context f) { nid = E.nid }

  -- A row has no identity: it is read with the flow.
  abbrev row_of : SettingsFlow → SettingsFlow
  row_of f = record (in_network f) { identity = none }

  abbrev pub is_flow : ℕ → SettingsFlow → Bool
  is_flow id f = f.id == id && f.nid == E.nid

  unfoldable pub create_flow : SettingsFlow → List SettingsFlow → Result (List SettingsFlow)
  create_flow f flows = do check E.create_fault; ok (flows ++ row_of f ∷ [])

  unfoldable pub get_flow : ℕ → List SettingsFlow → Result SettingsFlow
  get_flow id flows = do
    check E.get_fault
    f ← elim (find (is_flow id) flows) [ none ↦ err no_rows | some f ↦ ok f ]
    i ← E.get_identity f.identity_id
    ok (record f { identity = some i })

  -- A copy with the network's id is written over the row.
  unfoldable pub update_flow : SettingsFlow → List SettingsFlow → Result (List SettingsFlow)
  update_flow f flows = do
    check E.update_fault
    elim (find (is_flow f.id) flows) [
      | none ↦ err no_rows
      | some row ↦ ok (update_where (is_flow f.id) (λ _. row_of f) flows)
    ]

  -- The loop over the strategies: what an earlier flow has paused is given up.
  unfoldable pub populate_all :
      {X : Type 0}
      → List Populator
      → Identity
      → SettingsFlow
      → World B X
      → World B X × Result SettingsFlow
  populate_all [] i f w = (w, ok f)
  populate_all (strategy ∷ rest) i f w =
      let aborted = abort E.continuity w.continuity (E.continuity_key strategy.id) in
      let w' = record w { continuity = aborted.0 } in
      or_end w' aborted.1 λ _. or_end w' (strategy.populate i f) λ f'. populate_all rest i f' w'

  abbrev pub stored : {X : Type 0} → World B X → SettingsFlow → World B X × Result SettingsFlow
  stored w f =
      or_end w (create_flow f w.flows) λ flows. (record w { flows = flows }, ok (in_network f))

  -- Each flow of a request gets an id of its own, by the first argument. `i.ID` and the strategies
  -- dereference the identity.
  unfoldable pub new_flow :
      {X : Type 0} → ℕ → Option Identity → String → World B X → World B X × Result SettingsFlow
  new_flow n none flow_type w =
      or_end w (secure_redirect_to E.redirect E.default_return_to (redirect_options E.request_url))
        λ _. (w, err panic)
  new_flow n (some i) flow_type w = or_end w (blank_flow n i flow_type) λ f.
      after (populate_all E.strategies i f w)
        λ w' f'. or_end w' (E.sort_nodes f') λ f''. stored w' f''

  unfoldable pub from_old_flow :
      {X : Type 0}
      → ℕ
      → Option Identity
      → SettingsFlow
      → World B X
      → World B X × Result SettingsFlow
  from_old_flow n i old w =
      after (new_flow n i old.type_ w) λ w' f. (w', ok (record f { request_url = old.request_url }))
