-- ===== src/Logout.antt =====
-- selfservice/flow/logout/handler.go: the end of a session, for browsers and for API clients.
--
-- The CSRF token that a logout renews is left out, since nothing here reads it.
pub mod Ends
mod Tests
use kratos.Base.{string_eq, if◌then◌else◌, ◌==◌, ◌∷◌, other, bad_request, err, ok, Result}
use kratos.Base.{is_no_rows, Err, [], List, not, false, Bool, String}
use kratos.Http.{Request}
use kratos.Redirect
use kratos.Redirect.{Url, secure_redirect_to, use_source_url, allow_urls, allow_self_service_urls}
use kratos.Session.{Session}
use kratos.Session.Persister.{revoke_session_by_token}
use kratos.Session.Manager.{Env, fetch_from_request, purge_from_request}

-- What is written. `forwarded` sends the browser to the user interface for errors.
pub data Reply : Type 0 where
  wrote_url : (logout_token logout_url : String) → Reply
  forwarded : Err → Reply
  failed : Err → Reply
  forbidden : Reply
  no_content : Reply
  redirected : Url → Reply

pub record Left : Type 0 where
  pub table : List Session
  pub cleared : Bool
  pub reply : Reply

-- The parts of the request and of the configuration that only the logout reads.
pub record Params : Type 0 where
  -- the query's `token`, and the decoded body of an API request
  pub token : String
  pub decode : Result String
  pub request_uri : String
  pub redirect : Redirect.Env
  pub logout_redirect_url : Url
  pub whitelist : List Url
  pub public_url : Url
  -- the URL of the flow with a token
  pub logout_url : String → String

module _ (E : Env) (C : Params) where
  unfoldable pub create_self_service_logout_url_for_browsers : List Session → Request → Reply
  create_self_service_logout_url_for_browsers table r = elim (fetch_from_request E table r) [
    | err e ↦ failed e
    | ok sess ↦ wrote_url sess.logout_token (C.logout_url sess.logout_token)
  ]

  abbrev pub revoked : List Session → Result (List Session) → Left
  revoked table (ok table') = record { table = table'; cleared = false; reply = no_content }
  revoked table (err e) = record {
    table = table;
    cleared = false;
    reply = if is_no_rows e then forbidden else failed e;
  }

  unfoldable pub submit_self_service_logout_flow_without_browser : List Session → Left
  submit_self_service_logout_flow_without_browser table = elim C.decode [
    | err e ↦ record { table = table; cleared = false; reply = failed e }
    | ok session_token ↦
        revoked table (revoke_session_by_token E.revoke_fault E.nid session_token table)
  ]

  unfoldable pub complete_logout : Request → Reply
  complete_logout r =
      elim (secure_redirect_to C.redirect C.logout_redirect_url (
        use_source_url C.request_uri
        ∷ allow_urls C.whitelist
        ∷ allow_self_service_urls C.public_url
        ∷ [])) [ err e ↦ forwarded e | ok ret ↦ if r.is_json then no_content else redirected ret ]

  abbrev pub finished : Request → Result (Unit {0}) → Reply
  finished r (ok u) = complete_logout r
  finished r (err e) = forwarded e

  abbrev pub purged : List Session → Request → Left
  purged table r =
      let p = purge_from_request E table r in
      record { table = p.table; cleared = p.cleared; reply = finished r p.result }

  unfoldable pub submit_logout : List Session → Request → Left
  submit_logout table r =
      if C.token == ""
      then record {
        table = table;
        cleared = false;
        reply = forwarded (bad_request "Please include a token in the URL query.");
      }
      else elim (fetch_from_request E table r) [
        | err e ↦ record { table = table; cleared = false; reply = forwarded e }
        | ok sess ↦
            if not (sess.logout_token == C.token)
            then record {
              table = table;
              cleared = false;
              reply = forwarded (other "the logout token does not match the session cookie");
            }
            else purged table r
      ]
