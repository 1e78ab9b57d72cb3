-- ===== src/Link/Verification.antt =====
-- selfservice/strategy/link/token_verification.go, the redemption of a verification link in
-- selfservice/strategy/link/strategy_verification.go, the flow that it runs in
-- (selfservice/flow/verification/flow.go) and persistence/sql/persister_verification.go.
--
-- The user interface of a flow is left out but for its messages, `parse_error` is what the container
-- makes of an error, and `post_hook` the first error of a hook after verification.
pub mod Flow
pub mod Token
pub mod Found
pub mod Verified
pub mod Submit
mod Tests
use kratos.Base.{string_eq, ◌>>◌, ◌>>=◌, if◌then◌else◌, ◌==◌, ◌++◌, ◌∷◌, flow_expired, check, err}
use kratos.Base.{ok, Result, is_no_rows, Err, [], List, some, none, Option, true, String, suc, ℕ}
use kratos.Redirect
use kratos.Redirect.{Url, coalesce, secure_redirect_to, allow_urls, allow_self_service_urls}
use kratos.Redirect.{use_source_url}
use kratos.Flow.{type_browser}
use kratos.Identity.{VerifiableAddress}
use kratos.Flow.State.{state_passed_challenge}
use kratos.Link.Verification.Flow.{VerificationFlow, Message, token_invalid_or_used, expired}
use kratos.Link.Verification.Flow.{successful, new_flow, FlowEnv, create_flow, get_flow}
use kratos.Link.Verification.Flow.{update_flow}
use kratos.Link.Verification.Token.{VerificationToken, TokenEnv, use_token, valid}
use kratos.Link.Verification.Token.{update_verifiable_address}

pub record World : Type 0 where
  pub tokens : List VerificationToken
  pub flows : List VerificationFlow
  pub addresses : List VerifiableAddress

-- How the request is answered: by a redirect to the user interface with a new flow, by one to where
-- the flow leads, or by an error.
pub data Outcome : Type 0 where
  retried : (flow_id : ℕ) → Outcome
  returned : Url → Outcome
  failed : Err → Outcome

abbrev pub Answer : Type 0
Answer = World × Outcome

pub record Env : Type 0 where
  pub flow : FlowEnv
  pub tokens : TokenEnv
  -- the CSRF tokens: a new one, and that of the request
  pub regenerated : String
  pub csrf_token : String
  pub now : ℕ
  pub parse_error : Err → VerificationFlow → Result VerificationFlow
  pub get_identity : (id : ℕ) → Option Err
  pub post_hook : Option Err
  pub update_address_fault : Option Err
  -- the address to return to from a flow, and urlx.Parse
  pub default_redirect : (flow_id : ℕ) → Url
  pub parse_url : String → Option Url

-- x.RequestURL of a request that has an URL only.
unfoldable pub request_url_of : Url → Url
request_url_of url = record url {
  host = coalesce url.host "";
  scheme = if url.scheme == "" then "http" else url.scheme;
}

abbrev pub is_expired : Err → Option ℕ
is_expired (flow_expired at) = some at
is_expired _ = none

module _ (E : Env) where
  abbrev pub created : World → Result VerificationFlow → Answer
  created w (err e) = (w, failed e)
  created w (ok f) = elim (create_flow E.flow f w.flows) [
    | err e ↦ (w, failed e)
    | ok flows ↦ (record w { flows = flows }, retried f.id)
  ]

  -- Each flow of a request gets an id of its own: the second argument counts them.
  unfoldable pub retry_with_message : World → ℕ → String → Message → Answer
  retry_with_message w n flow_type message = created w (do
    f ← new_flow E.flow n E.regenerated flow_type
    ok (record f { messages = f.messages ++ message ∷ [] }))

  unfoldable pub retry_with_error : World → ℕ → Err → Answer
  retry_with_error w n ver_err = elim (new_flow E.flow n E.regenerated type_browser) [
    | err e ↦ (w, failed e)
    | ok f ↦ elim (is_expired ver_err) [
      | some at ↦ retry_with_message w (suc n) type_browser (expired at)
      | none ↦ created w (E.parse_error ver_err f)
    ]
  ]

  -- `if err != nil { return s.retryVerificationFlowWithError(..., err) }`
  abbrev pub or_retry {ℓ} : {A : Type ℓ} → World → Result A → (A → Answer) → Answer
  or_retry w (ok a) next = next a
  or_retry w (err e) next = retry_with_error w 1 e

  -- The flow that the token belongs to, or a new one, and the table of flows.
  unfoldable pub flow_of :
      VerificationToken → List VerificationFlow → Result (VerificationFlow × List VerificationFlow)
  flow_of t flows = elim t.flow_id [
    | none ↦ do
      f ← new_flow E.flow 0 E.csrf_token type_browser
      flows' ← create_flow E.flow f flows
      ok (f, flows')
    | some id ↦ get_flow E.flow id flows >>= λ f. ok (f, flows)
  ]

  abbrev pub passed : VerificationFlow → VerificationFlow
  passed f = record f {
    messages = successful ∷ [];
    state = state_passed_challenge;
    csrf_token = if E.csrf_token == "" then E.regenerated else E.csrf_token;
  }

  abbrev pub completed : VerifiableAddress → VerifiableAddress
  completed a = record a { verified = true; verified_at = some E.now; status = "completed" }

  unfoldable pub return_of : VerificationFlow → Outcome
  return_of f = elim (E.parse_url f.request_url) [
    | none ↦ returned (E.default_redirect f.id)
    | some url ↦
        elim (secure_redirect_to (record E.flow.redirect { request_url = request_url_of url })
          (E.default_redirect f.id)
          (allow_self_service_urls E.flow.public_url ∷ allow_urls E.flow.whitelist ∷ [])) [
            | ok url' ↦ returned url'
            | err e ↦ returned (E.default_redirect f.id)
          ]
  ]

  -- The part after the token has been found, the last steps first.
  abbrev pub verify_address : World → VerifiableAddress → VerificationFlow → Answer
  verify_address w a f =
      or_retry w
        (update_verifiable_address E.tokens E.update_address_fault (completed a) w.addresses)
        (λ addresses. (record w { addresses = addresses }, return_of f))

  abbrev pub run_hooks : World → VerifiableAddress → VerificationFlow → Answer
  run_hooks w a f =
      or_retry w (check (E.get_identity a.identity_id))
        λ _. or_retry w (check E.post_hook) λ _. verify_address w a f

  abbrev pub pass : World → VerifiableAddress → VerificationFlow → Answer
  pass w a f =
      or_retry w (update_flow E.flow (passed f) w.flows)
        λ flows. run_hooks (record w { flows = flows }) a (passed f)

  abbrev pub if_valid : World → VerificationToken → VerifiableAddress → VerificationFlow → Answer
  if_valid w t a f = or_retry w (valid E.now t) λ _. pass w a f

  unfoldable pub challenge : World → VerificationToken → VerifiableAddress → Answer
  challenge w t a =
      or_retry w (flow_of t w.flows) λ fs. if_valid (record w { flows = fs.1 }) t a fs.0

  unfoldable pub verification_use_token : World → String → Answer
  verification_use_token w token = elim (use_token E.tokens token w.tokens w.addresses) [
    | err e ↦
        if is_no_rows e
        then retry_with_message w 0 type_browser token_invalid_or_used
        else retry_with_error w 0 e
    | ok (t, a, tokens) ↦ challenge (record w { tokens = tokens }) t a
  ]
