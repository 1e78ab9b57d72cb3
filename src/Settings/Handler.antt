-- ===== src/Settings/Handler.antt =====
-- selfservice/flow/settings/handler.go: beginning, reading and submitting a settings flow.
pub mod Gate
use kratos.Flow.{type_api, type_browser}
use kratos.Base.{◌>>◌, is_no_rows, ◌∷◌, ltb, panic, flow_expired, [], nat_eq, ◌>>=◌}
use kratos.Base.{if◌then◌else◌, ◌==◌, other, err, ok, Result, Err, List, some, none, Option}
use kratos.Base.{false, true, Bool, String, ℕ, bad_request, strategy_not_responsible}
use kratos.Base.{completed_by_strategy}
use kratos.Http.{Request}
use kratos.Identity.{Identity}
use kratos.Identity.Manager.{Pool}
use kratos.Session.{Session}
use kratos.Session.Manager.{fetch_from_request, does_session_satisfy}
use kratos.Session.Manager as Manager
use kratos.Settings.{World, SettingsFlow, FlowEnv, new_flow, get_flow, valid}
use kratos.Settings.Hook.{UpdateContext, HookEnv, Work, get_identity_to_update}
use kratos.Settings.Hook.{post_settings_hook, Response}
use kratos.Settings.Written.{flow_written, ErrorEnv, Answer, write_flow_error, written, forwarded}
use kratos.Settings.Written.{by_strategy, responded, crashed, is_panic, to_ui}

-- A strategy, as a submission uses it: it may work on everything that the handler does.
pub record Strategy (B X : Type 0) : Type 0 where
  pub id : String
  pub settings :
      World B X
      → Request
      → SettingsFlow
      → Session
      → record { world : World B X; flow : SettingsFlow; result : Result (Option UpdateContext) }

-- What the loop over the strategies ends with.
pub data Chosen : Type 0 where
  answered : Chosen
  stopped : Err → Chosen
  updates : (settings_type : String) → UpdateContext → Chosen

abbrev chosen_of : String → Option UpdateContext → Chosen
chosen_of id none = stopped (other "no settings strategy responsible")
chosen_of id (some c) = updates id c

unfoldable pub get_flow_id : ℕ → Result ℕ
get_flow_id id = if id == 0 then err (bad_request "flow is missing or malformed") else ok id

abbrev pub or_not_found : Err → Err
or_not_found e = if is_no_rows e then other "not found" else e

-- f.Valid, which dereferences the session's identity only where the flow has not expired.
abbrev pub valid_for : (now : ℕ) → SettingsFlow → Option Identity → Result (Unit {0})
valid_for now f none = if ltb f.expires_at now then err (flow_expired f.expires_at) else err panic
valid_for now f (some i) = valid now f i

abbrev is_not_responsible : Err → Bool
is_not_responsible strategy_not_responsible = true
is_not_responsible _ = false

abbrev is_completed : Err → Bool
is_completed completed_by_strategy = true
is_completed _ = false

-- `A` is the environment of the session manager, `required_aal` SelfServiceSettingsRequiredAAL.
-- Requests read the sessions `table`.
module _ {P B : Type 0} (E : FlowEnv P B) (A : Manager.Env) (required_aal : String)
    (table : List Session) where
  -- A session that satisfies the required level.
  unfoldable pub session_of : Request → Result Session
  session_of r = do
    s ← fetch_from_request A table r
    _ ← (does_session_satisfy A s required_aal).1
    ok (does_session_satisfy A s required_aal).0

  module _ {X : Type 0} where
    unfoldable init_api_flow : Request → World B X → World B X × Answer
    init_api_flow r w = elim (session_of r) [
      | err e ↦ (w, written e)
      | ok s ↦
          let begun = new_flow E 0 s.identity type_api w in
          (begun.0, elim begun.1 [ err e ↦ written e | ok f ↦ flow_written f ])
    ]

    -- Errors of the session go to the error page, those of its level are written to no flow.
    unfoldable init_browser_flow : ErrorEnv → Request → World B X → World B X × Answer
    init_browser_flow W r w = elim (fetch_from_request A table r) [
      | err e ↦ (w, forwarded e)
      | ok s ↦ elim (does_session_satisfy A s required_aal).1 [
        | err e ↦ write_flow_error E W w none none e
        | ok _ ↦
            let begun =
              new_flow E 0 (does_session_satisfy A s required_aal).0.identity type_browser w in
            (
              begun.0,
              elim begun.1 [
                | err e ↦ forwarded e
                | ok f ↦ if r.is_json then flow_written f else to_ui f.id
              ],
            )
      ]
    ]

  abbrev owner_checked : SettingsFlow → Option Identity → Result (Unit {0})
  owner_checked f none = err panic
  owner_checked f (some i) =
      if f.identity_id == i.id then ok tt else err (bad_request "made for another identity")

  -- The flow that is shown. An expired one is answered with ErrGone.
  unfoldable fetch_flow : Request → ℕ → List SettingsFlow → Result SettingsFlow
  fetch_flow r id flows = do
    f ← get_flow E id flows
    s ← fetch_from_request A table r
    _ ← owner_checked f s.identity
    _ ← (does_session_satisfy A s required_aal).1
    if ltb f.expires_at E.now then err (flow_expired f.expires_at) else ok f

  module _ (I : Pool) where
    -- The loop over AllSettingsStrategies.
    unfoldable pub choose :
        Request
        → Session
        → List (Strategy B I.State)
        → World B I.State
        → SettingsFlow
        → record { world : World B I.State; flow : SettingsFlow; chosen : Chosen }
    choose r s [] w f = record {
      world = w;
      flow = f;
      chosen = stopped (other "no settings strategy responsible");
    }
    choose r s (strategy ∷ rest) w f =
        let out = strategy.settings w r f s in
        elim out.result [
          | ok c ↦ record { world = out.world; flow = out.flow; chosen = chosen_of strategy.id c }
          | err e ↦
              if is_not_responsible e
              then choose r s rest out.world out.flow
              else if is_completed e
              then record { world = out.world; flow = out.flow; chosen = answered }
              else record { world = out.world; flow = out.flow; chosen = stopped e }
        ]

    module _ (W : ErrorEnv) (H : HookEnv B I.State) (strategies : List (Strategy B I.State)) where
      abbrev pub hooked :
          Option Identity → Work B I.State × Result Response → World B I.State × Answer
      hooked i (done, ok response) = (done.world, responded response)
      hooked i (done, err e) =
          if is_panic e
          then (done.world, crashed)
          else write_flow_error E W done.world (some done.flow) i e

      abbrev pub updated :
          World B I.State
          → SettingsFlow
          → Session
          → String
          → UpdateContext
          → World B I.State × Answer
      updated w f s settings_type c = elim (get_identity_to_update c) [
        | none ↦ (w, crashed)
        | some i ↦ hooked s.identity (
            post_settings_hook E I H settings_type none c.session
              (record { world = w; flow = f; identity = i }))
      ]

      abbrev pub finish :
          Session
          → record { world : World B I.State; flow : SettingsFlow; chosen : Chosen }
          → World B I.State × Answer
      finish s l = elim l.chosen [
        | answered ↦ (l.world, by_strategy)
        | stopped e ↦ write_flow_error E W l.world (some l.flow) s.identity e
        | updates settings_type c ↦ updated l.world l.flow s settings_type c
      ]

      abbrev pub on_flow : Request → World B I.State → SettingsFlow → World B I.State × Answer
      on_flow r w f = elim (session_of r) [
        | err e ↦ write_flow_error E W w (some f) none e
        | ok s ↦ elim (valid_for E.now f s.identity) [
          | err e ↦
              if is_panic e then (w, crashed) else write_flow_error E W w (some f) s.identity e
          | ok _ ↦ finish s (choose r s strategies w f)
        ]
      ]

      -- `id` is the flow of the query, 0 where it is missing or malformed.
      unfoldable pub submit_settings_flow : Request → ℕ → World B I.State → World B I.State × Answer
      submit_settings_flow r id w =
          let found = get_flow_id id >>= λ rid. get_flow E rid w.flows in
          elim found [
            | err e ↦ write_flow_error E W w none none (or_not_found e)
            | ok f ↦ on_flow r w f
          ]
