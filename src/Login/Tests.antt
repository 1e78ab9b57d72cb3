-- ===== src/Login/Tests.antt =====
-- Login flows at concrete sessions.
use kratos.Base.{◌≡◌, refl, ◌⊎◌, false, [], ◌∷◌, ok}
use kratos.Identity.Aal.{aal1, aal2}
use kratos.Identity.Tests.{ada}
use kratos.Session.{Session}
use kratos.Session.Tests.{here, laptop, table, by_cookie, no_options}
use kratos.Login.{Flow}
use kratos.Login.Gate.{
  with_aal, may_create, may_submit, new_login_flow, new_login_flow-may_submit, continue_with,
}
use kratos.Hook.{execute_session_destroyer}
use kratos.Base.{none, some, err}
use kratos.Base.{map}
use kratos.Base.{String, true}
use kratos.Base.Find.{find}
use kratos.Session.Persister.{has_id}
use kratos.Session.Manager.Cookie.{Issued}
use kratos.Login.Only.{HasOnly}
use kratos.Login.Destroyed.{session_destroyer, post_login_hook-HasOnly}
use kratos.Login.Hook.{
  Response, Hooked, aborted, redirect_to, post_login_hook, prepare, respond, respond_browser,
  Config, LoginHook,
}
use kratos.Login.Submit.{Strategy}

abbrev step_up : Flow
step_up = record {
  id = 1;
  nid = 3;
  type = "browser";
  expires_at = 900;
  issued_at = 90;
  internal_context = "{}";
  request_url = "";
  active = "";
  csrf_token = "";
  refresh = false;
  requested_aal = "aal2";
}

abbrev blank : Session
blank = record laptop { id = 20; active = false; amr = []; identity_id = 0; token = "tok9" }

abbrev always : Strategy Unit
always = record { id = "totp"; login = λ w r f s. record { world = w; flow = f; result = ok ada } }

abbrev config : Config
config = record {
  whoami_aal = "highest_available";
  cookie_defaults = no_options;
  return_to = ok "https://www.ory.sh/";
  hooks = session_destroyer none 3 ∷ [];
}

login_bundle : Unit {0}
unfolding post_login_hook prepare respond respond_browser kratos.Session.activate
    kratos.Session.set_authenticator_assurance_level kratos.Session.declassify
    kratos.Session.is_active kratos.Identity.is_active kratos.Identity.Aal.determine_aal
    execute_session_destroyer kratos.Session.Persister.delete_sessions_by_identity
    kratos.Session.Manager.Cookie.upsert_and_issue_cookie kratos.Session.Persister.upsert_session
    kratos.Session.Manager.Cookie.issue_cookie kratos.Session.Manager.Cookie.issue_with
    kratos.Session.Manager.Cookie.save_cookie kratos.Session.Manager.Cookie.cookie_options
    kratos.Session.Manager.Cookie.with_path_and_domain kratos.Session.Manager.fetch_from_request
    kratos.Session.Manager.fetch_session kratos.Session.Manager.extract_token
    kratos.Session.Manager.effective_request kratos.Session.Persister.get_session_by_token
    kratos.Http.bearer_token_from_request kratos.Identity.copy_without_credentials
    kratos.Login.Hook.requires_aal2 kratos.Session.Manager.does_session_satisfy
login_bundle = tt

abbrev done : Hooked
done = post_login_hook here config by_cookie step_up ada table blank

-- The destroyer ends the sessions of the identity, and the new one is written.
destroyed_first : map (λ (s : Session). s.id) done.table ≡ 20 ∷ []
unfolding login_bundle
destroyed_first = refl

abbrev answer : Response
answer = elim done.result [ ok response ↦ response | err e ↦ aborted ]

redirect_to-ne : (issued : Issued) (url : String) → ¬ (redirect_to issued url ≡ aborted)
redirect_to-ne issued url h = cc

post_login_hook-HasOnly_example :
    HasOnly 3 7 20 done.table
    × ((row : Session) × (find (has_id 3 20) done.table ≡ some row)
        × (row.identity_id ≡ 7)
        × (row.active ≡ true))
unfolding login_bundle
post_login_hook-HasOnly_example =
    post_login_hook-HasOnly here config none refl by_cookie step_up ada table blank answer
      (redirect_to-ne _ _) refl

new_login_flow-may_submit_example :
    ((aal2 ≡ aal1) ⊎ ((aal2 ≡ aal2) × (sess : Session) × (ok laptop ≡ ok sess)))
    × (may_submit false blank (ok laptop) step_up ≡ continue_with laptop)
unfolding new_login_flow with_aal may_create
new_login_flow-may_submit_example =
    new_login_flow-may_submit (ok step_up) (ok laptop) (λ f. ok tt) [] refl false blank
