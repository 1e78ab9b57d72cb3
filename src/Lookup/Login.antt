-- ===== src/Lookup/Login.antt =====
-- selfservice/strategy/lookup/login.go: the second factor of a login.
use kratos.Base.{is_no_rows, if◌then◌else◌}
use kratos.Base.{
  ℕ, String, Bool, Option, none, some, List, Result, ok, err, Err, ◌>>=◌, ◌>>◌, no_lookup_defined,
  internal,
}
use kratos.Identity.{Identity, Credentials, set_credentials, credentials_type_lookup}
use kratos.Identity.Aal.{aal2}
use kratos.Identity.Manager.{Pool}
use kratos.Http.{Request}
use kratos.Session.{Session}
use kratos.Flow.{ensure_csrf, method_enabled_and_allowed_from_request}
use kratos.Login.{Flow, check_aal}
use kratos.Lookup.{RecoveryCode, use_code}

-- The submitted form, as the decoder gives it.
pub record Payload : Type 0 where
  pub csrf_token : String
  pub code : String

-- The other parties of one submission.
pub record Env (P : Pool) : Type 0 where
  pub now : ℕ
  pub enabled : String → Bool
  pub method : Result String
  pub payload : Result Payload
  pub has_cookies : String → Bool
  pub token_is_valid : Request → String → Bool
  pub csrf_reason : Request → Err
  pub disable_api_flow_enforcement : Bool
  pub find_by_credentials_identifier : P.State → String → String → Result (Identity × Credentials)
  pub id_string : ℕ → String
  -- encoding/json on the configuration
  pub unmarshal : String → Option (List RecoveryCode)
  pub marshal : List RecoveryCode → Option String
  -- what the database answers to the update of the flow
  pub flow_fault : Option Err

abbrev pub or_internal {ℓ} : {A : Type ℓ} → String → Option A → Result A
or_internal why none = err (internal why)
or_internal why (some a) = ok a

abbrev pub no_rows_is_no_lookup {ℓ} : {A : Type ℓ} → Result A → Result A
no_rows_is_no_lookup (ok a) = ok a
no_rows_is_no_lookup (err e) = if is_no_rows e then err no_lookup_defined else err e

abbrev pub or_update_failed {ℓ} : {A : Type ℓ} → Result A → Result A
or_update_failed (ok a) = ok a
or_update_failed (err e) = err (internal "Unable to update identity.")

module _ (P : Pool) (E : Env P) where
  -- The guards of a submission, up to the payload.
  unfoldable pub guards : Request → Flow → Result Payload
  guards r f = do
    check_aal f aal2
    method_enabled_and_allowed_from_request E.enabled E.method credentials_type_lookup
    p ← E.payload
    ensure_csrf E.has_cookies E.token_is_valid E.csrf_reason r f.type E.disable_api_flow_enforcement
        p.csrf_token
    ok p

  unfoldable pub find_codes :
      P.State → (session_identity_id : ℕ) → Result ((Identity × Credentials) × List RecoveryCode)
  find_codes st iid = do
    found ←
        no_rows_is_no_lookup
          (E.find_by_credentials_identifier st credentials_type_lookup (E.id_string iid))
    codes ←
        or_internal "The lookup secrets could not be decoded properly" (E.unmarshal found.1.config)
    ok (found, codes)

  unfoldable pub store_codes : P.State → ℕ → Credentials → List RecoveryCode → Result P.State
  store_codes st iid c marked = do
    to_update ← P.get_identity_confidential st iid
    encoded ← or_internal "Unable to encoded updated lookup secrets." (E.marshal marked)
    or_update_failed (
        P.update_identity st
          (set_credentials credentials_type_lookup (record c { config = encoded }) to_update))

  -- The new state of the pool, and the identity that logs in.
  unfoldable pub redeem : P.State → (session_identity_id : ℕ) → String → Result (P.State × Identity)
  redeem st iid code = do
    found ← find_codes st iid
    marked ← use_code E.now code found.1
    st' ← store_codes st iid found.0.1 marked
    ok (st', found.0.0)

  -- The state, the flow and the returned identity. A flow that cannot be updated is an error after
  -- the code has been spent.
  abbrev pub LoggedIn : Type 0
  LoggedIn = record { state : P.State; flow : Flow; result : Result Identity }

  abbrev pub spent : P.State → Flow → Result (P.State × Identity) → LoggedIn
  spent st f (err e) = record { state = st; flow = f; result = err e }
  spent st f (ok (st', i)) = record {
    state = st';
    flow = record f { active = credentials_type_lookup };
    result = elim E.flow_fault [ none ↦ ok i | some e ↦ err (internal "Could not update flow.") ];
  }

  unfoldable pub login : P.State → Request → Flow → Session → LoggedIn
  login st r f ss = spent st f (do p ← guards r f; redeem st ss.identity_id p.code)
