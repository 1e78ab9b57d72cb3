-- ===== src/Logout/Tests.antt =====
-- Logging out of the sessions of Session.Tests.
use kratos.Base.{string_eq, ◌==◌, ◌≡◌, ok, [], some, false, true, refl}
use kratos.Http.{bearer_token_from_request}
use kratos.Redirect.{Url, secure_redirect_to, redirect_with, redirect_within}
use kratos.Identity.{is_active as is_active_identity, copy_without_credentials}
use kratos.Session.Manager.{revoke_bearer, fetch_from_request, fetch_session, extract_token}
use kratos.Session.Manager.{effective_request, purge_from_request, revoke_cookie}
use kratos.Session.{Session, is_active, declassify}
use kratos.Session.Tests.{here, table, by_cookie}
use kratos.Session.Persister.{get_session_by_token, revoke_session_by_token}
use kratos.Session.Manager.Purge.{purged_token}
use kratos.Logout.{Params, submit_logout, complete_logout}
use kratos.Logout.Ends.{is_success, submit_logout_ends_session}

abbrev home : Url
home = record { scheme = "https"; host = "www.ory.sh"; path = "/"; raw_query = "" }

abbrev leaving : Params
leaving = record {
  token = "out2";
  decode = ok "tok2";
  request_uri = "/self-service/logout?token=out2";
  redirect = record {
    parse_request_uri = λ s. some home;
    return_to = λ q. "";
    to_lower = λ s. s;
    equal_fold = λ a b. a == b;
    append_path = λ url p. record url { path = p };
    request_url = home;
  };
  logout_redirect_url = home;
  whitelist = [];
  public_url = home;
  logout_url = λ t. t;
}

bundle : Unit {0}
unfolding fetch_from_request fetch_session extract_token effective_request get_session_by_token
    declassify is_active is_active_identity copy_without_credentials bearer_token_from_request
    purge_from_request revoke_cookie revoke_bearer revoke_session_by_token submit_logout
    complete_logout secure_redirect_to redirect_with redirect_within purged_token
bundle = tt

logs_out : is_success (submit_logout here leaving table by_cookie).reply ≡ true
unfolding bundle
logs_out = refl

-- A session that was presented in the header X-Session-Token is not ended, though this is a success.
by_header :
    is_success
      (submit_logout here leaving table
        (record by_cookie { x_session_token = "tok2"; cookie = "" })).reply
    ≡ true
unfolding bundle
by_header = refl

not_ended :
    (submit_logout here leaving table
      (record by_cookie { x_session_token = "tok2"; cookie = "" })).table
    ≡ table
unfolding bundle
not_ended = refl

submit_logout_ends_session_example :
    ((s : Session) × (fetch_from_request here table by_cookie ≡ ok s)
      × (s.logout_token ≡ "out2")
      × (false ≡ false))
    × (purged_token here by_cookie ≡ some (extract_token here by_cookie)
        → (s : Session)
        → ¬ (
            fetch_from_request here (submit_logout here leaving table by_cookie).table by_cookie
            ≡ ok s))
unfolding bundle
submit_logout_ends_session_example = submit_logout_ends_session here leaving table by_cookie refl
