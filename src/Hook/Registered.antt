-- ===== src/Hook/Registered.antt =====
-- selfservice/hook/session_issuer.go and verification.go: hooks that run after a registration, the
-- second also after settings.
use kratos.Flow.{type_api}
use kratos.Base.{
  string_eq, ◌>>=◌, if◌then◌else◌, ◌==◌, ◌∷◌, err, ok, Result, [], List, some, none, Option, false,
  true, Bool, suc, String, ℕ, or_end, after, hook_abort_flow,
}
use kratos.Http.{Request}
use kratos.Identity.{VerifiableAddress}
use kratos.Session.{Session}
use kratos.Session.Manager as Manager
use kratos.Session.Manager.Cookie.{CookieOptions, Issued, issue_cookie}
use kratos.Session.Persister.{upsert_session}
use kratos.Link.Verification.Flow.{VerificationFlow, FlowEnv, new_flow, create_flow}
use kratos.Link.Verification.Token.{new_self_service_verification_token, create_token}
use kratos.Link.Sender as Sender
use kratos.Link.Sender.{send_verification_token_to}

-- What the session issuer writes: nothing, or the session, with its token for API clients.
pub data Written : Type 0 where
  nothing_written : Written
  session_written : (with_token : Bool) → Session → Written

record Issue : Type 0 where
  pub table : List Session
  pub cookie : Option Issued
  pub written : Written
  pub result : Result (Unit {0})

module _ (E : Manager.Env) (defaults : CookieOptions) where
  abbrev with_cookie : Request → Session → List Session → Result Issued → Issue
  with_cookie r s table (err e) = record {
    table = table;
    cookie = none;
    written = nothing_written;
    result = err e;
  }
  with_cookie r s table (ok c) = record {
    table = table;
    cookie = some c;
    written = if r.is_json then session_written false s else nothing_written;
    result = if r.is_json then err hook_abort_flow else ok tt;
  }

  unfoldable execute_session_issuer : String → Request → List Session → Session → Issue
  execute_session_issuer flow_type r table session =
      let s = record session { authenticated_at = E.now } in
      elim (upsert_session E.upsert_fault E.nid s table) [
        | err e ↦ record { table = table; cookie = none; written = nothing_written; result = err e }
        | ok table' ↦
            if flow_type == type_api
            then record {
              table = table';
              cookie = none;
              written = session_written true s;
              result = err hook_abort_flow;
            }
            else with_cookie r s table' (issue_cookie E defaults table' r s)
      ]

record VerifierEnv : Type 0 where
  pub flow : FlowEnv
  pub sender : Sender.Env
  pub csrf_token : String
  -- the request URL of the flow with its `after_verification_return_to` as `return_to`
  pub post_hook_url : String → String
  -- the uuid and the token that are drawn for the n-th address
  pub token_id : ℕ → ℕ
  pub token : ℕ → String

record Verifying : Type 0 where
  pub flows : List VerificationFlow
  pub sent : Sender.State

module _ (V : VerifierEnv) where
  unfoldable new_post_hook_flow : ℕ → (flow_type request_url : String) → Result VerificationFlow
  new_post_hook_flow n flow_type request_url = do
    f ← new_flow V.flow n V.csrf_token flow_type
    ok (record f { request_url = V.post_hook_url request_url })

  -- The mail for one address, `n` counts them.
  unfoldable verify_pending :
      ℕ
      → (flow_type request_url : String) → VerifiableAddress
      → Verifying
      → Verifying × Result (Unit {0})
  verify_pending n flow_type request_url a w =
      or_end w (new_post_hook_flow n flow_type request_url) λ f.
        or_end w (create_flow V.flow f w.flows) λ flows.
          let w1 = record w { flows = flows } in
          let t =
            new_self_service_verification_token (V.token_id n) (V.token n) V.sender.now a f.id
              V.sender.lifespan in
          or_end w1 (create_token V.sender.tokens V.sender.create_fault t w1.sent.tokens) λ tokens.
            let s = record w1.sent { tokens = tokens } in
            let mailed = send_verification_token_to V.sender s f.id a t in
            (record w1 { sent = mailed.0 }, mailed.1)

  abbrev is_pending : VerifiableAddress → Bool
  is_pending a = a.status == "pending"

  -- The loop over the addresses of the identity.
  unfoldable verifier :
      ℕ
      → (flow_type request_url : String) → List VerifiableAddress
      → Verifying
      → Verifying × Result (Unit {0})
  verifier n flow_type request_url [] w = (w, ok tt)
  verifier n flow_type request_url (a ∷ rest) w =
      if is_pending a
      then (after (verify_pending n flow_type request_url a w)
          λ w' _. verifier (suc n) flow_type request_url rest w')
      else verifier n flow_type request_url rest w
