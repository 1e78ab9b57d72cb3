-- ===== src/Link/Verification/Flow.antt =====
-- selfservice/flow/verification/flow.go, and the flows in persistence/sql/persister_verification.go.
use kratos.Base.Find.{update_where, find}
use kratos.Base.{
  if◌then◌else◌, ltb, flow_expired, nat_eq, ◌>>◌, ◌>>=◌, ◌==◌, ◌++◌, ◌∷◌, ◌&&◌, ◌+◌, no_rows, check,
  err, ok, Result,
}
use kratos.Base.{Err, [], List, some, none, Option, Bool, String, ℕ}
use kratos.Redirect
use kratos.Redirect.{Url, secure_redirect_to, allow_urls, allow_self_service_urls, use_source_url}
use kratos.Flow.State.{state_choose_method}

-- The messages of text/message_verification.go that a redemption sets.
pub data Message : Type 0 where
  token_invalid_or_used successful retry_success state_failure email_sent : Message
  expired : ℕ → Message

pub record VerificationFlow : Type 0 where
  pub id : ℕ
  pub type_ : String
  pub expires_at : ℕ
  pub issued_at : ℕ
  pub request_url : String
  pub active : String
  pub messages : List Message
  pub state : String
  pub csrf_token : String
  pub nid : ℕ

-- The configuration, the request and the database, as far as flows read them.
pub record FlowEnv : Type 0 where
  pub redirect : Redirect.Env
  pub default_return_to : Url
  pub whitelist : List Url
  pub public_url : Url
  pub lifespan : ℕ
  pub now : ℕ
  -- the n-th uuid that is drawn, and x.RequestURL(r).String()
  pub new_id : ℕ → ℕ
  pub request_url : String
  -- the first error of a strategy that fills in its form
  pub populate : Option Err
  pub nid : ℕ
  -- what the database answers to the statement on a flow
  pub create_fault : (id : ℕ) → Option Err
  pub get_fault : Option Err
  pub update_fault : Option Err

-- f.Valid().
unfoldable pub valid : (now : ℕ) → VerificationFlow → Result (Unit {0})
valid now f = if ltb f.expires_at now then err (flow_expired f.expires_at) else ok tt

module _ (E : FlowEnv) where
  unfoldable pub new_flow : ℕ → String → String → Result VerificationFlow
  new_flow n csrf flow_type = do
    _ ← secure_redirect_to E.redirect E.default_return_to (
        use_source_url E.request_url
        ∷ allow_urls E.whitelist
        ∷ allow_self_service_urls E.public_url
        ∷ [])
    check E.populate
    ok (record {
      id = E.new_id n;
      type_ = flow_type;
      expires_at = E.now + E.lifespan;
      issued_at = E.now;
      request_url = E.request_url;
      active = "";
      messages = [];
      state = state_choose_method;
      csrf_token = csrf;
      nid = 0;
    })

  unfoldable pub create_flow :
      VerificationFlow → List VerificationFlow → Result (List VerificationFlow)
  create_flow f flows = do check (E.create_fault f.id); ok (flows ++ record f { nid = E.nid } ∷ [])

  abbrev pub is_flow : ℕ → VerificationFlow → Bool
  is_flow id f = f.id == id && f.nid == E.nid

  unfoldable pub get_flow : ℕ → List VerificationFlow → Result VerificationFlow
  get_flow id flows = do
    check E.get_fault
    elim (find (is_flow id) flows) [ none ↦ err no_rows | some f ↦ ok f ]

  -- A copy with the network's id is written over the row.
  unfoldable pub update_flow :
      VerificationFlow → List VerificationFlow → Result (List VerificationFlow)
  update_flow f flows = do
    check E.update_fault
    elim (find (is_flow f.id) flows) [
      | none ↦ err no_rows
      | some row ↦ ok (update_where (is_flow f.id) (λ _. record f { nid = E.nid }) flows)
    ]
