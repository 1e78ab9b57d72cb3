-- ===== src/Session/Tests.antt =====
-- Sessions, requests and a configuration to try the definitions on, and the theorems there.
use kratos.Identity.{copy_without_credentials}
use kratos.Base.{
  ℕ, ◌≡◌, ◌≢◌, refl, ◌⊎◌, String, true, false, none, some, List, [], ◌∷◌, if◌then◌else◌, ◌==◌,
  nat_eq, string_eq,
}
use kratos.Base.{Result, ok, err, no_rows, unknown_aal, aal_not_satisfied}
use kratos.Http.{Request, bearer_token_from_request}
use kratos.Identity.{Identity, is_active as is_active_identity}
use kratos.Identity.Tests.{ada, password}
use kratos.Session.{AuthenticationMethod, Session, methods, is_active, declassify}
use kratos.Session.Persister.{
  get_session, get_session_by_token, upsert_session, revoke_session_by_token,
}
use kratos.Session.Persister.Laws.{get_session-upsert_session}
use kratos.Session.Manager.{
  Env, CookieResult, extract_token, effective_request, fetch_session, fetch_from_request,
  purge_from_request, revoke_cookie, does_session_satisfy, types_of, highest_available,
}
use kratos.Session.Manager.Fetch.{IsUsable, fetch_from_request-IsUsable}
use kratos.Session.Manager.Purge.{purge_ends_session}
use kratos.Session.Manager.Aal.{is_enough, has_first, highest_available_lem, aal1_lem}
use kratos.Session.Manager.Cookie.{
  CookieOptions, issue_cookie, issue_with, save_cookie, cookie_options, with_path_and_domain,
  issue_cookie_csrf,
}
use kratos.Identity.Aal.{aal1}

abbrev pub by_password : AuthenticationMethod
by_password = record { method = "password"; completed_at = 50 }

abbrev pub phone : Session
phone = record {
  id = 11;
  active = true;
  expires_at = 500;
  authenticated_at = 50;
  authenticator_assurance_level = "aal1";
  amr = by_password ∷ [];
  issued_at = 50;
  logout_token = "out1";
  identity = none;
  identity_id = 7;
  token = "tok1";
  nid = 3;
}

abbrev pub laptop : Session
laptop = record phone { id = 12; token = "tok2"; logout_token = "out2" }

abbrev pub table : List Session
table = phone ∷ laptop ∷ []

abbrev pub only_ada : ℕ → Result Identity
only_ada id = if id == 7 then ok ada else err no_rows

abbrev pub with_totp : Identity
with_totp = record ada {
  credentials = ("password", password) ∷ ("totp", record password { type = "totp" }) ∷ [];
}

abbrev pub one_cookie : String → CookieResult
one_cookie header =
    if header == "ory_kratos_session=c2"
    then record { session = some (some "tok2"); error = none }
    else record { session = some none; error = none }

abbrev pub here : Env
here = record {
  now = 100;
  nid = 3;
  get_identity = only_ada;
  get_identity_confidential = λ id. ok with_totp;
  decode_cookie = one_cookie;
  get_fault = none;
  upsert_fault = none;
  revoke_fault = none;
  save_fault = none;
  session_name = "ory_kratos_session";
  session_path = "/";
  session_domain = "";
  self_public_url = "https://id.example.org/";
  self_public_hostname = "id.example.org";
  self_public_path = "/";
  session_same_site_mode = 2;
  session_persistent_cookie = true;
  session_lifespan = 86_400_000_000_000;
  login_browser_url = "https://id.example.org/self-service/login/browser?aal=aal2";
}

abbrev pub by_cookie : Request
by_cookie = record {
  x_session_token = "";
  x_session_cookie = "";
  authorization = "";
  cookie = "ory_kratos_session=c2";
  origin = "";
  is_json = false;
  refresh = "";
  aal = "";
}

abbrev pub no_options : CookieOptions
no_options = record { path = ""; domain = ""; same_site = 0; max_age = 0 }

bundle : Unit {0}
unfolding fetch_from_request fetch_session extract_token effective_request get_session_by_token
    declassify is_active is_active_identity bearer_token_from_request purge_from_request
    revoke_cookie revoke_session_by_token
bundle = tt

cookie_bundle : Unit {0}
unfolding bundle issue_cookie issue_with save_cookie cookie_options with_path_and_domain
cookie_bundle = tt

fetch_from_request-IsUsable_example :
    IsUsable 100 (record laptop { identity = some (record ada { credentials = [] }) })
    × ("tok2" ≡ extract_token here by_cookie)
    × (laptop.nid ≡ here.nid)
    × (extract_token here by_cookie ≢ "")
unfolding bundle copy_without_credentials
fetch_from_request-IsUsable_example = fetch_from_request-IsUsable here table by_cookie refl

purge_ends_session_example : ¬ (
    fetch_from_request here (purge_from_request here table by_cookie).table by_cookie ≡ ok laptop)
unfolding bundle
purge_ends_session_example = purge_ends_session here table by_cookie refl refl laptop

highest_available_lem_example : (does_session_satisfy here phone highest_available).1 ≡ (
    if is_enough (types_of here with_totp) (methods phone)
    then ok tt
    else err (aal_not_satisfied here.login_browser_url))
highest_available_lem_example = highest_available_lem here phone with_totp refl

aal1_lem_example :
    (does_session_satisfy here phone aal1).1
    ≡ (if has_first (methods phone) then ok tt else err (unknown_aal aal1))
aal1_lem_example = aal1_lem here phone

abbrev pub mine : Session
mine = record laptop { identity = some ada }

issue_cookie_csrf_example :
    (mine.token ≡ laptop.token)
    × ((false ≡ true)
        ⊎ ((old : Session) × (j : Identity) × (fetch_from_request here table by_cookie ≡ ok old)
            × (old.identity ≡ some j)
            × (j.id ≡ 7)))
unfolding cookie_bundle copy_without_credentials
issue_cookie_csrf_example = issue_cookie_csrf here no_options table by_cookie mine ada refl refl

get_session-upsert_session_example :
    get_session only_ada none 3 12 (phone ∷ record laptop { active = false } ∷ [])
    ≡ ok (record laptop { active = false; identity = some ada })
unfolding upsert_session
get_session-upsert_session_example =
    get_session-upsert_session only_ada 3 (record laptop { active = false }) ada table
      (phone ∷ record laptop { active = false } ∷ []) refl refl
