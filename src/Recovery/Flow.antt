-- ===== src/Recovery/Flow.antt =====
-- selfservice/flow/recovery/flow.go, and the flows in persistence/sql/persister_recovery.go.
use kratos.Base.Find.{update_where, find}
use kratos.Base.{
  if◌then◌else◌, nat_eq, ◌>>◌, ◌>>=◌, ◌==◌, ◌++◌, ◌∷◌, ◌&&◌, no_rows, check, err, ok, Result,
}
use kratos.Base.{Err, [], List, some, none, Option, Bool, String, ℕ, ltb, flow_expired}
use kratos.Redirect
use kratos.Redirect.{Url, secure_redirect_to, allow_urls, allow_self_service_urls, use_source_url}
use kratos.Flow.State.{state_choose_method}

-- The messages of text/message_recovery.go that the strategy sets.
pub data Message : Type 0 where
  token_invalid_or_used retry_success state_failure email_sent : Message
  flow_expired_ago : ℕ → Message

pub record RecoveryFlow : Type 0 where
  pub id : ℕ
  pub type_ : String
  pub expires_at : ℕ
  pub issued_at : ℕ
  pub request_url : String
  pub active : String
  pub messages : List Message
  pub state : String
  pub csrf_token : String
  pub recovered_identity_id : Option ℕ
  pub nid : ℕ

-- The configuration, the request and the database, as far as flows read them.
pub record FlowEnv : Type 0 where
  pub redirect : Redirect.Env
  pub default_return_to : Url
  pub whitelist : List Url
  pub public_url : Url
  pub lifespan : ℕ
  pub now : ℕ
  -- the n-th uuid that is drawn, and x.RequestURL(r).String()
  pub new_id : ℕ → ℕ
  pub request_url : String
  -- the first error of a strategy that fills in its form
  pub populate : Option Err
  pub nid : ℕ
  -- what the database answers to the statement on a flow
  pub create_fault : (id : ℕ) → Option Err
  pub get_fault : Option Err
  pub update_fault : Option Err

-- f.Valid().
unfoldable pub valid : (now : ℕ) → RecoveryFlow → Result (Unit {0})
valid now f = if ltb f.expires_at now then err (flow_expired f.expires_at) else ok tt

module _ (E : FlowEnv) where
  -- `expires_at` is the time now and the lifespan that the caller gives.
  unfoldable pub new_flow : ℕ → (expires_at : ℕ) → String → String → Result RecoveryFlow
  new_flow n expires_at csrf flow_type = do
    _ ← secure_redirect_to E.redirect E.default_return_to (
        use_source_url E.request_url
        ∷ allow_urls E.whitelist
        ∷ allow_self_service_urls E.public_url
        ∷ [])
    check E.populate
    ok (record {
      id = E.new_id n;
      type_ = flow_type;
      expires_at = expires_at;
      issued_at = E.now;
      request_url = E.request_url;
      active = "";
      messages = [];
      state = state_choose_method;
      csrf_token = csrf;
      recovered_identity_id = none;
      nid = 0;
    })

  unfoldable pub create_flow : RecoveryFlow → List RecoveryFlow → Result (List RecoveryFlow)
  create_flow f flows = do check (E.create_fault f.id); ok (flows ++ record f { nid = E.nid } ∷ [])

  abbrev pub is_flow : ℕ → RecoveryFlow → Bool
  is_flow id f = f.id == id && f.nid == E.nid

  unfoldable pub get_flow : ℕ → List RecoveryFlow → Result RecoveryFlow
  get_flow id flows = do
    check E.get_fault
    elim (find (is_flow id) flows) [ none ↦ err no_rows | some f ↦ ok f ]

  -- A copy with the network's id is written over the row.
  unfoldable pub update_flow : RecoveryFlow → List RecoveryFlow → Result (List RecoveryFlow)
  update_flow f flows = do
    check E.update_fault
    elim (find (is_flow f.id) flows) [
      | none ↦ err no_rows
      | some row ↦ ok (update_where (is_flow f.id) (λ _. record f { nid = E.nid }) flows)
    ]
