-- ===== src/Settings/Hook.antt =====
-- selfservice/flow/settings/hook.go, and the UpdateContext of
-- selfservice/flow/settings/strategy_helper.go: what follows once a strategy has made of an identity
-- what it is to become.
pub mod Privileged
use kratos.Flow.{type_api}
use kratos.Base.{string_eq, panic, hook_abort_flow, protected_field_modified, unique_violation}
use kratos.Base.{needs_re_auth, other, if◌then◌else◌, ◌==◌, ◌++◌, ◌∷◌, ◌||◌, ◌+◌, ltb, err, ok}
use kratos.Base.{Result, Err, [], List, some, none, Option, false, true, Bool, String, ℕ, or_end}
use kratos.Base.{after}
use kratos.Redirect.{override_default_return_to, Url, secure_redirect_to}
use kratos.Identity.{Identity, copy_without_credentials}
use kratos.Identity.Manager.{expose_validation_errors_for_internal_type_assertion, Pool}
use kratos.Identity.Manager.{ManagerOption, allow_write_protected_traits, update}
use kratos.Session.{Session}
use kratos.Settings.{update_success, redirect_options, World, SettingsFlow, FlowEnv, new_flow}
use kratos.Settings.{update_flow, get_flow, state_success}

-- A nil pointer is `none`. The third field, the flow, is that of the request with every strategy.
pub record UpdateContext : Type 0 where
  pub session : Option Session
  pub to_update : Option Identity

unfoldable pub get_session_identity : UpdateContext → Option Identity
get_session_identity c = elim c.session [ none ↦ none | some s ↦ s.identity ]

unfoldable pub get_identity_to_update : UpdateContext → Option Identity
get_identity_to_update c = elim c.to_update [ none ↦ get_session_identity c | some i ↦ some i ]

-- What a submission works on: the flow and the identity are behind pointers that every part shares.
pub record Work (B X : Type 0) : Type 0 where
  pub world : World B X
  pub flow : SettingsFlow
  pub identity : Identity

pub record PersistHook (B X : Type 0) : Type 0 where
  pub execute : Work B X → Work B X × Result (Unit {0})

pub data Response : Type 0 where
  nothing_written : Response
  wrote_flow : SettingsFlow → Response
  negotiated : Identity → Url → Response

pub record HookEnv (B X : Type 0) : Type 0 where
  pub is_json : Bool
  -- SelfServiceFlowSettingsReturnTo, and SelfServiceFlowSettingsPrivilegedSessionMaxAge
  pub settings_return_to : String → SettingsFlow → Url
  pub privileged_session_max_age : ℕ
  -- the configured hooks, by the type of settings
  pub pre_persist : String → List (PersistHook B X)
  pub post_persist : String → List (PersistHook B X)
  pub run_validator : Identity → Identity × Result (Unit {0})

-- ErrHookAbortRequest.
abbrev pub is_abort : Err → Bool
is_abort hook_abort_flow = true
is_abort _ = false

abbrev is_protected_field : Err → Bool
is_protected_field protected_field_modified = true
is_protected_field _ = false

abbrev is_unique_violation : Err → Bool
is_unique_violation unique_violation = true
is_unique_violation _ = false

-- The error of the identity manager, as the hook reports it.
unfoldable pub update_error : Err → Err
update_error e =
    if is_protected_field e
    then needs_re_auth
    else if is_unique_violation e
    then other "duplicate credentials"
    else e

-- A loop over hooks: whether all of them ran, or one asked to end the request.
unfoldable pub run_hooks :
    {B X : Type 0} → List (PersistHook B X) → Work B X → Work B X × Result Bool
run_hooks [] w = (w, ok true)
run_hooks (hook ∷ rest) w =
    let done = hook.execute w in
    elim done.1 [
      | ok _ ↦ run_hooks rest done.0
      | err e ↦ if is_abort e then (done.0, ok false) else (done.0, err e)
    ]

module _ {P B : Type 0} (E : FlowEnv P B) (I : Pool) (H : HookEnv B I.State) where
  abbrev pub Hooked : Type 0
  Hooked = Work B I.State × Result Response

  -- A session that has been authenticated recently may write the protected fields.
  unfoldable pub manager_options : Session → List ManagerOption
  manager_options s =
      expose_validation_errors_for_internal_type_assertion
      ∷ (if ltb E.now (s.authenticated_at + H.privileged_session_max_age)
          then allow_write_protected_traits ∷ []
          else [])

  unfoldable pub update_identity :
      Option Session → Work B I.State → Work B I.State × Result (Unit {0})
  update_identity none w = (w, err panic)
  update_identity (some s) w =
      let r = update I H.run_validator w.world.pool w.identity (manager_options s) in
      (
        record w { world = record w.world { pool = r.pool }; identity = r.identity },
        elim r.result [ ok _ ↦ ok tt | err e ↦ err (update_error e) ],
      )

  -- The answer, once all is done.
  unfoldable pub respond : Url → Work B I.State → Hooked
  respond return_to w =
      if w.flow.type_ == type_api || H.is_json
      then (or_end w (get_flow E w.flow.id w.world.flows) λ f. (w, ok (wrote_flow f)))
      else (w, ok (negotiated (copy_without_credentials w.identity) return_to))

  abbrev pub unless_aborted : Bool → Work B I.State → (Work B I.State → Hooked) → Hooked
  unless_aborted true w next = next w
  unless_aborted false w next = (w, ok nothing_written)

  -- The flow shows the form of a new flow, `n` counts those of the request.
  unfoldable pub show_success : ℕ → Work B I.State → Work B I.State × Result (Unit {0})
  show_success n w =
      let begun = new_flow E n (some w.identity) w.flow.type_ w.world in
      let w' = record w { world = begun.0 } in
      or_end w' begun.1 λ f.
        let w'' = record w' { flow = record w'.flow { messages = update_success ∷ [] } } in
        or_end w'' (update_flow E w''.flow w''.world.flows)
          λ flows. (record w'' { world = record w''.world { flows = flows } }, ok tt)

  abbrev call_back :
      Option (Work B I.State → Work B I.State × Result (Unit {0}))
      → Work B I.State
      → Work B I.State × Result (Unit {0})
  call_back none w = (w, ok tt)
  call_back (some f) w = f w

  -- From the write on: `cb` is the callback of WithCallback, `settings_type` the strategy's name.
  unfoldable pub persisted :
      String
      → Option (Work B I.State → Work B I.State × Result (Unit {0}))
      → Url
      → Work B I.State
      → Hooked
  persisted settings_type cb return_to w =
      let w' = record w { flow = record w.flow { state = state_success } } in
      after (call_back cb w') λ w1 _. after (show_success 0 w1) λ w2 _.
        after (run_hooks (H.post_persist settings_type) w2)
          λ w3 goes_on. unless_aborted goes_on w3 (respond return_to)

  -- Where the browser goes in the end, verified before anything else.
  unfoldable pub return_to_of : String → SettingsFlow → Result Url
  return_to_of settings_type f = secure_redirect_to E.redirect E.default_return_to (
      redirect_options E f.request_url
      ++ override_default_return_to (H.settings_return_to settings_type f) ∷ [])

  abbrev pub updated :
      String
      → Option (Work B I.State → Work B I.State × Result (Unit {0}))
      → Option Session
      → Url
      → Work B I.State
      → Hooked
  updated settings_type cb s return_to w =
      after (update_identity s w) λ w' _. persisted settings_type cb return_to w'

  abbrev pub run_all :
      String
      → Option (Work B I.State → Work B I.State × Result (Unit {0}))
      → Option Session
      → Work B I.State
      → Url
      → Hooked
  run_all settings_type cb s w return_to =
      after (run_hooks (H.pre_persist settings_type) w)
        λ w' goes_on. unless_aborted goes_on w' (updated settings_type cb s return_to)

  unfoldable pub post_settings_hook :
      String
      → Option (Work B I.State → Work B I.State × Result (Unit {0}))
      → Option Session
      → Work B I.State
      → Hooked
  post_settings_hook settings_type cb s w =
      or_end w (return_to_of settings_type w.flow) (run_all settings_type cb s w)
