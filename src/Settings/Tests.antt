-- ===== src/Settings/Tests.antt =====
-- The settings of one identity, in a table with one flow.
use kratos.Identity.Aal.{determine_aal}
use kratos.Session.Manager.{fetch_from_request, fetch_session, extract_token, effective_request}
use kratos.Session.Manager.{does_session_satisfy}
use kratos.Session.Persister.{get_session_by_token}
use kratos.Http.{bearer_token_from_request}
use kratos.Identity.{copy_without_credentials, is_active as is_active_identity, Identity}
use kratos.Identity.Equality.{credentials_equal}
use kratos.Redirect.{is_white_listed_host, has_prefix, is_allowed_by, redirect_within}
use kratos.Redirect.{redirect_with, secure_redirect_to, Url}
use kratos.Session.{is_active, declassify, set_authenticator_assurance_level}
use kratos.Identity.Manager.{guarded_update, requires_privileged_access, new_manager_options}
use kratos.Identity.Manager.{update, validate, store}
use kratos.Settings.Hook.Privileged.{IsProtectedUpdate, post_settings_hook-IsProtectedUpdate}
use kratos.Settings.Handler.Gate.{IsOpenFor, submit_settings_flow-IsOpenFor}
use kratos.Settings.Hook.{get_session_identity, get_identity_to_update, manager_options}
use kratos.Settings.Hook.{run_hooks, respond, show_success, persisted, update_identity}
use kratos.Settings.Hook.{return_to_of, post_settings_hook, Work, HookEnv}
use kratos.Settings.{populate_all, blank_flow, create_flow, new_flow, update_flow, valid}
use kratos.Settings.{get_flow, World, SettingsFlow, FlowEnv, state_show_form}
use kratos.Session.Tests.{by_cookie, table, here, laptop}
use kratos.Base.Dict.{HasUniqueKeys}
use kratos.Base.{Bool-cases, ok-injective, err-ne-ok, inr, inl, if◌then◌else◌, ◌⊎◌, ◌≡◌, no_rows}
use kratos.Base.{err, refl, ℕ, ok, none, some, [], ◌∷◌, true, false, String, ◌+◌, string_eq, ◌==◌}
use kratos.Base.{nat_eq}
use kratos.Identity.Tests.{single, ada, accept}
use kratos.Continuity.Cookie.{Values}
use kratos.Continuity.Tests as Paused
use kratos.Settings.Written.{ErrorEnv}
use kratos.Settings.Handler.{get_flow_id, session_of, choose, submit_settings_flow, Strategy}

abbrev pub home : Url
home = record { scheme = "https"; host = "www.ory.sh"; path = "/"; raw_query = "" }

abbrev pub site : FlowEnv String Values
site = record {
  redirect = record {
    parse_request_uri = λ s. some home;
    return_to = λ q. "";
    to_lower = λ s. s;
    equal_fold = λ a b. a == b;
    append_path = λ url p. record url { path = p };
    request_url = home;
  };
  default_return_to = home;
  whitelist = [];
  public_url = home;
  lifespan = 60;
  now = 100;
  new_id = λ n. n + 20;
  request_url = "https://www.ory.sh/";
  strategies = [];
  sort_nodes = λ f. ok f;
  continuity = Paused.site;
  continuity_key = λ id. id;
  is_object = λ t. true;
  get_identity = λ id. ok ada;
  nid = 3;
  create_fault = none;
  get_fault = none;
  update_fault = none;
}

abbrev open_flow : SettingsFlow
open_flow = record {
  id = 31;
  type_ = "browser";
  expires_at = 160;
  issued_at = 90;
  request_url = "https://www.ory.sh/";
  active = "";
  messages = [];
  state = state_show_form;
  internal_context = "{}";
  identity_id = 7;
  identity = none;
  nid = 3;
}

abbrev hooks : HookEnv Values Identity
hooks = record {
  is_json = false;
  settings_return_to = λ t f. home;
  privileged_session_max_age = 10;
  pre_persist = λ t. [];
  post_persist = λ t. [];
  run_validator = accept;
}

abbrev errors : ErrorEnv
errors = record { is_json = false; parse_error = λ e f. ok f; get_schema = λ id. none }

abbrev pub opening : World Values Identity
opening = record { continuity = Paused.blank; flows = open_flow ∷ []; pool = ada }

-- It sets the traits.
abbrev profile : Strategy Values Identity
profile = record {
  id = "profile";
  settings = λ w r f s. record {
    world = w;
    flow = f;
    result =
        ok (some (record { session = some s; to_update = some (record ada { traits = "new" }) }));
  };
}

bundle : Unit {0}
unfolding submit_settings_flow choose session_of get_flow get_flow_id valid post_settings_hook
    return_to_of update_identity persisted show_success respond run_hooks manager_options
    update_flow new_flow create_flow blank_flow populate_all get_identity_to_update
    get_session_identity secure_redirect_to redirect_with redirect_within is_allowed_by
    is_white_listed_host has_prefix update new_manager_options requires_privileged_access validate
    guarded_update store credentials_equal fetch_from_request fetch_session extract_token
    effective_request get_session_by_token declassify is_active is_active_identity
    bearer_token_from_request does_session_satisfy set_authenticator_assurance_level
    copy_without_credentials determine_aal
bundle = tt

submit_tests :
    (submit_settings_flow site here "aal1" table single errors hooks
      (profile ∷ [])
      by_cookie
      31
      opening).0.pool
    ≡ record ada { traits = "new" }
unfolding bundle
submit_tests = refl

submit_settings_flow-IsOpenFor_example :
    ((submit_settings_flow site here "aal1" table single errors hooks
        (profile ∷ [])
        by_cookie
        31
        opening).0.pool
      ≡ ada)
    ⊎ ((f : SettingsFlow) × (get_flow site 31 (open_flow ∷ []) ≡ ok f)
        × IsOpenFor site here "aal1" table single errors hooks (profile ∷ []) by_cookie f)
submit_settings_flow-IsOpenFor_example =
    submit_settings_flow-IsOpenFor site here "aal1" table single errors hooks (profile ∷ [])
      by_cookie 31 opening

known_keys :
    (id : ℕ) (i : Identity)
    → (if 7 == id then ok ada else err no_rows) ≡ ok i
    → HasUniqueKeys i.credentials
known_keys id i found = elim (Bool-cases (7 == id)) [
  | inl same ↦ rw (← ok-injective (rw same at found)) (refl, tt)
  | inr differs ↦ absurd (err-ne-ok (rw differs at found))
]

abbrev renaming : Work Values Identity
renaming = record { world = opening; flow = open_flow; identity = record ada { traits = "new" } }

post_settings_hook-IsProtectedUpdate_example :
    let p =
      (post_settings_hook site single hooks "profile" none (some laptop) renaming).0.world.pool in
    (p ≡ ada) ⊎ IsProtectedUpdate site single hooks ada p
unfolding bundle
post_settings_hook-IsProtectedUpdate_example =
    post_settings_hook-IsProtectedUpdate site single hooks laptop refl "profile" renaming tt tt
      (refl, tt) (λ id i found. known_keys id i found)
