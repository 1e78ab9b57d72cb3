-- ===== src/Recovery/Tests.antt =====
-- A recovery link in a concrete world.
use kratos.Base.{map, String, ◌≡◌, ◌⊎◌, refl, [], ◌∷◌, some, none, ok, ◌+◌, ◌≤◌}
use kratos.Base.{string_eq, nat_eq}
use kratos.Base.Find.{update_where}
use kratos.Identity.{Identity}
use kratos.Continuity.Cookie.{Values}
use kratos.Link.{
  RecoveryToken, is_row, mark_used, use_recovery_token, try_secrets, query, address_of,
}
use kratos.Recovery.{
  retry_with_message, retry_with_error, redeem, flow_of, recover_identity, issue_session,
  begin_settings, mark_recovery_address_verified, World, Env, recovery_use_token,
}
use kratos.Recovery.Found.{IsFound}
use kratos.Recovery.Granted.{IsGranted, recovery_use_token-IsGranted}
use kratos.Session.Manager.Cookie.{Issued}
use kratos.Session.{Session}

abbrev opening : World Values Identity
opening = record {
  tokens = kratos.Link.Tests.stored ∷ [];
  flows = [];
  addresses = [];
  sessions = [];
  issued = [];
  settings = record kratos.Settings.Tests.opening { flows = [] };
}

abbrev site : Env String Values
site = record {
  flow = record {
    redirect = kratos.Settings.Tests.site.redirect;
    default_return_to = kratos.Settings.Tests.home;
    whitelist = [];
    public_url = kratos.Settings.Tests.home;
    lifespan = 60;
    now = 500;
    new_id = λ n. n + 20;
    request_url = "https://www.ory.sh/";
    populate = none;
    nid = 3;
    create_fault = λ id. none;
    get_fault = none;
    update_fault = none;
  };
  tokens = kratos.Link.Tests.rotated;
  addresses = record {
    nid = 3;
    secrets = "new" ∷ [];
    hmac = λ token secret. token;
    query_fault = λ hash. none;
    address_fault = none;
    update_fault = none;
  };
  sessions = kratos.Session.Tests.here;
  settings = kratos.Settings.Tests.site;
  request = kratos.Session.Tests.by_cookie;
  now = 500;
  regenerated = "c2";
  csrf_token = "c1";
  flow_csrf_token = "c1";
  session_id = 77;
  session_token = "fresh";
  logout_token = "out";
  cookie_options = kratos.Session.Tests.no_options;
  parse_error = λ e f. ok f;
  post_hook = none;
  update_address_fault = none;
  take_over = λ a b. some a;
  privileged_until = 600;
}

-- The token is redeemed once: the second submission issues nothing.
token_tests :
    (map (λ (c : Issued). c.session_token) (recovery_use_token site opening "abc").0.issued
      ≡ "fresh" ∷ [])
    × (map (λ (s : Session). s.identity_id) (recovery_use_token site opening "abc").0.sessions
        ≡ 7 ∷ [])
    × ((recovery_use_token (record site { now = 901 }) opening "abc").0.sessions ≡ [])
    × (map
          (λ (s : Session). s.identity_id)
          (recovery_use_token site (recovery_use_token site opening "abc").0 "abc").0.sessions
        ≡ 7 ∷ [])
unfolding recovery_use_token retry_with_message retry_with_error redeem flow_of recover_identity
    issue_session begin_settings mark_recovery_address_verified kratos.Recovery.Flow.new_flow
    kratos.Recovery.Flow.create_flow kratos.Recovery.Flow.get_flow kratos.Recovery.Flow.update_flow
    use_recovery_token try_secrets query address_of kratos.Link.valid
    kratos.Session.new_active_session kratos.Session.activate kratos.Session.completed_login_for
    kratos.Session.new_inactive_session kratos.Session.set_authenticator_assurance_level
    kratos.Session.is_active kratos.Session.declassify kratos.Identity.is_active
    kratos.Identity.Aal.determine_aal kratos.Session.Manager.Cookie.upsert_and_issue_cookie
    kratos.Session.Persister.upsert_session kratos.Session.Manager.Cookie.issue_cookie
    kratos.Session.Manager.Cookie.issue_with kratos.Session.Manager.Cookie.save_cookie
    kratos.Session.Manager.Cookie.cookie_options kratos.Session.Manager.Cookie.with_path_and_domain
    kratos.Session.Manager.fetch_from_request kratos.Session.Manager.fetch_session
    kratos.Session.Manager.extract_token kratos.Session.Manager.effective_request
    kratos.Session.Persister.get_session_by_token kratos.Http.bearer_token_from_request
    kratos.Settings.new_flow kratos.Settings.create_flow kratos.Settings.blank_flow
    kratos.Settings.populate_all kratos.Settings.update_flow kratos.Redirect.secure_redirect_to
    kratos.Redirect.redirect_with kratos.Redirect.redirect_within kratos.Redirect.is_allowed_by
    kratos.Redirect.is_white_listed_host kratos.Redirect.has_prefix
token_tests = (refl, refl, refl, refl)

recovery_use_token-IsGranted_example :
    let v = (recovery_use_token site opening "abc").0 in
    ((v.sessions ≡ []) × (v.issued ≡ []))
    ⊎ ((t : RecoveryToken) × (IsFound kratos.Link.Tests.rotated "abc"
          ("new" ∷ "old" ∷ [])
          opening.tokens
          t)
        × (500 ≤ t.expires_at)
        × IsGranted site
            (record opening { tokens = update_where (is_row 3 t.id) mark_used opening.tokens })
            v
            t)
recovery_use_token-IsGranted_example =
    recovery_use_token-IsGranted site "new" ("old" ∷ []) refl opening "abc"
