-- ===== src/Session/Api/Tests.antt =====
-- The endpoints at a concrete table of sessions.
use kratos.Base.{string_eq, ◌==◌, if◌then◌else◌, ◌≡◌, refl, true, false, none, some, [], ok}
use kratos.Http.{Request, bearer_token_from_request}
use kratos.Identity.{is_active as is_active_identity, copy_without_credentials}
use kratos.Identity.Aal.{determine_aal}
use kratos.Identity.Tests.{ada}
use kratos.Session.{Session, methods, is_active, declassify, set_authenticator_assurance_level}
use kratos.Session.Persister.{get_session_by_token, revoke_sessions_identity_except}
use kratos.Session.Manager.{
  Env, extract_token, effective_request, fetch_session, fetch_from_request, highest_available,
  does_session_satisfy, types_of,
}
use kratos.Session.Manager.Aal.{is_enough}
use kratos.Session.Manager.Fetch.{IsUsable}
use kratos.Session.Tests.{here, table, by_cookie, laptop}
use kratos.Session.Api.{Params, whoami, revoke_sessions, revoke_one_session, parse_bool}
use kratos.Session.Api.Revoke.{revoke_one_session-fetch, revoke_sessions-fetch}
use kratos.Session.Api.Whoami.{whoami-IsUsable}

abbrev served : Params
served = record {
  parse_uuid = λ s. if s == "11" then some 11 else if s == "12" then some 12 else none;
  page = λ sessions. sessions;
  whoami_aal = highest_available;
}

bundle : Unit {0}
unfolding fetch_from_request fetch_session extract_token effective_request get_session_by_token
    declassify is_active is_active_identity bearer_token_from_request copy_without_credentials
    revoke_sessions revoke_sessions_identity_except whoami does_session_satisfy
    set_authenticator_assurance_level determine_aal
bundle = tt

abbrev shown : Session
shown = record laptop { identity = some (record ada { credentials = [] }) }

revoke_one_session-fetch_example :
    fetch_from_request here (revoke_one_session here served table by_cookie "11").table by_cookie
    ≡ fetch_from_request here table by_cookie
revoke_one_session-fetch_example = revoke_one_session-fetch here served table by_cookie "11"

revoke_sessions-fetch_example :
    (fetch_from_request here (revoke_sessions here served table by_cookie).table by_cookie
      ≡ ok shown)
    × ((r' : Request) (s' : Session)
        → fetch_from_request here (revoke_sessions here served table by_cookie).table r' ≡ ok s'
        → s'.identity_id ≡ 7
        → s'.id ≡ 12)
unfolding bundle
revoke_sessions-fetch_example = revoke_sessions-fetch here served table by_cookie shown 1 refl refl

abbrev with_password_only : Env
with_password_only = record here { get_identity_confidential = λ id. ok ada }

whoami-IsUsable_example :
    IsUsable 100 shown
    × (shown.token ≡ extract_token with_password_only by_cookie)
    × (is_enough (types_of with_password_only ada) (methods shown) ≡ true)
unfolding bundle
whoami-IsUsable_example =
    whoami-IsUsable with_password_only served table by_cookie shown ada refl refl refl

parse_bool_tests :
    (parse_bool "T" ≡ some true) × (parse_bool "0" ≡ some false) × (parse_bool "yes" ≡ none)
unfolding parse_bool
parse_bool_tests = (refl, refl, refl)
