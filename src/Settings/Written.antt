-- ===== src/Settings/Written.antt =====
-- selfservice/flow/settings/error.go: how an error of a settings flow is answered.
use kratos.Flow.{type_api, type_browser}
use kratos.Base.{string_eq, if◌then◌else◌, ◌==◌, ◌++◌, ◌∷◌, ◌||◌, ◌&&◌, err, ok, Result, Err, []}
use kratos.Base.{some, none, Option, not, false, true, Bool, no_active_session, aal_not_satisfied}
use kratos.Base.{asks_to_return_to_ui, needs_re_auth, panic, String, ℕ, or_end, after}
use kratos.Base.{flow_expired}
use kratos.Identity.{Identity}
use kratos.Settings.{settings_expired, World, SettingsFlow, FlowEnv, from_old_flow, update_flow}
use kratos.Settings.{get_flow}
use kratos.Settings.Hook.{Response}

pub data Answer : Type 0 where
  -- written as JSON, or shown on the error page
  written forwarded : Err → Answer
  -- a redirect to the login, for a second factor or not, to the login that refreshes a session, and
  -- to the user interface of a flow
  to_login : (second_factor : Bool) → Answer
  to_refresh : Answer
  to_ui : (flow_id : ℕ) → Answer
  flow_written : SettingsFlow → Answer
  -- an answer to which an empty one is added
  then_nothing : Answer → Answer
  responded : Response → Answer
  by_strategy crashed : Answer

abbrev pub is_no_active_session : Err → Bool
is_no_active_session no_active_session = true
is_no_active_session _ = false

abbrev pub is_aal_not_satisfied : Err → Bool
is_aal_not_satisfied (aal_not_satisfied url) = true
is_aal_not_satisfied _ = false

abbrev pub asks_for_ui : Err → Bool
asks_for_ui asks_to_return_to_ui = true
asks_for_ui _ = false

abbrev pub is_re_auth : Err → Bool
is_re_auth needs_re_auth = true
is_re_auth _ = false

abbrev pub is_panic : Err → Bool
is_panic panic = true
is_panic _ = false

abbrev pub is_expired : Err → Option ℕ
is_expired (flow_expired at) = some at
is_expired _ = none

abbrev is_api : Option SettingsFlow → Bool
is_api none = false
is_api (some f) = f.type_ == type_api

pub record ErrorEnv : Type 0 where
  pub is_json : Bool
  -- f.UI.ParseError, and the error of IdentityTraitsSchemas(...).GetByID
  pub parse_error : Err → SettingsFlow → Result SettingsFlow
  pub get_schema : String → Option Err

module _ (W : ErrorEnv) where
  abbrev pub forward : Option SettingsFlow → Err → Answer
  forward f e = if is_api f || W.is_json then written e else forwarded e

module _ {P B X : Type 0} (E : FlowEnv P B) (W : ErrorEnv) where
  -- A new flow in place of one that has expired.
  unfoldable pub prepare_replacement :
      World B X → SettingsFlow → Option Identity → ℕ → World B X × Result SettingsFlow
  prepare_replacement w f i at = after (from_old_flow E 1 i f w) λ w' a.
      let a' = record a { messages = a.messages ++ settings_expired at ∷ [] } in
      or_end w' (update_flow E a' w'.flows) λ flows. (record w' { flows = flows }, ok a')

  abbrev pub replaced : SettingsFlow → Err → World B X × Result SettingsFlow → World B X × Answer
  replaced f e (w, ok a) = (w, if f.type_ == type_api || W.is_json then written e else to_ui a.id)
  replaced f e (w, err inner) = (w, if is_panic inner then crashed else forward W (some f) e)

  -- The flow with the error in its form, once it is stored.
  unfoldable pub show_stored : World B X → SettingsFlow → Answer
  show_stored w f =
      if f.type_ == type_browser && not W.is_json
      then to_ui f.id
      else elim (get_flow E f.id w.flows) [
        | err inner ↦ then_nothing (forward W none inner)
        | ok updated ↦ flow_written updated
      ]

  unfoldable pub store_shown : World B X → SettingsFlow → World B X × Answer
  store_shown w f = elim (E.sort_nodes f) [
    | err e ↦ (w, forward W (some f) e)
    | ok f' ↦ elim (update_flow E f' w.flows) [
      | err e ↦ (w, forward W (some f') e)
      | ok flows ↦ (record w { flows = flows }, show_stored (record w { flows = flows }) f')
    ]
  ]

  unfoldable pub show_error : World B X → SettingsFlow → Option Identity → Err → World B X × Answer
  show_error w f i e = elim (W.parse_error e f) [
    | err e' ↦ (w, forward W (some f) e')
    | ok f' ↦ elim i [
      | none ↦ (w, crashed)
      | some i' ↦ elim (W.get_schema i'.schema_id) [
        | some e' ↦ (w, forward W (some f') e')
        | none ↦ store_shown w f'
      ]
    ]
  ]

  unfoldable pub write_on_flow :
      World B X → SettingsFlow → Option Identity → Err → World B X × Answer
  write_on_flow w f i e = elim (is_expired e) [
    | some at ↦ replaced f e (prepare_replacement w f i at)
    | none ↦
        if asks_for_ui e
        then (w, if is_api (some f) || W.is_json then flow_written f else to_ui f.id)
        else if is_re_auth e
        then (w, if is_api (some f) || W.is_json then written e else to_refresh)
        else show_error w f i e
  ]

  unfoldable pub write_flow_error :
      World B X → Option SettingsFlow → Option Identity → Err → World B X × Answer
  write_flow_error w f i e =
      let json = W.is_json || is_api f in
      if is_no_active_session e
      then (w, if json then written e else to_login false)
      else if is_aal_not_satisfied e
      then (w, if json then written e else to_login true)
      else elim f [ none ↦ (w, forward W none e) | some f' ↦ write_on_flow w f' i e ]
