-- ===== src/Settings/Resumed.antt =====
-- PrepareUpdate of selfservice/flow/settings/strategy_helper.go: what a strategy does first, which
-- takes up an update that was paused for a new login.
use kratos.Flow.{type_api}
use kratos.Base.{
  nat_eq, string_eq, if◌then◌else◌, ◌==◌, ◌∷◌, ◌||◌, ◌*◌, err, ok, Err, [], List, some, none,
  Option, Bool, String, ℕ,
}
use kratos.Identity.{Identity}
use kratos.Continuity.{
  Env, State, ManagerOption, with_payload, with_identity, with_lifespan, continue, second,
  is_not_resumable,
}
use kratos.Settings.{SettingsFlow}

-- What the payloads of strategies have in common.
pub record UpdatePayload (P : Type 0) : Type 0 where
  pub get_flow_id : P → ℕ
  pub set_flow_id : ℕ → P → P

-- An update as submitted, one that was paused (ErrContinuePreviousAction), or an error. The payload is
-- what the strategy holds afterwards.
pub data Prepared (P : Type 0) : Type 0 where
  submitted : P → Prepared P
  continued : P → Prepared P
  unprepared : Err → Prepared P

abbrev id_of : Option Identity → Option ℕ
id_of none = none
id_of (some i) = some i.id

abbrev or_same : {P : Type 0} → P → Option P → P
or_same p none = p
or_same p (some q) = q

module _ {P B : Type 0} (E : Env P B) (U : UpdatePayload P) where
  unfoldable continuity_options : P → Option Identity → List (ManagerOption P)
  continuity_options p i =
      with_payload p ∷ with_identity (id_of i) ∷ with_lifespan (15 * 60 * second) ∷ []

  -- A container of another flow has replaced the payload, but the update counts as submitted.
  abbrev pub resumed : SettingsFlow → P → Prepared P
  resumed f p = if U.get_flow_id p == f.id then continued p else submitted p

  unfoldable prepare_update :
      (now : ℕ)
      → (is_json : Bool) → State B
      → String
      → SettingsFlow
      → Option Identity
      → P
      → State B × Prepared P
  prepare_update now is_json s name f i payload =
      let p = U.set_flow_id f.id payload in
      let done = continue E now s name (continuity_options p i) in
      if f.type_ == type_api || is_json then (s, submitted p) else (
        done.0,
        elim done.1 [
          | ok (c, q) ↦ resumed f (or_same p q)
          | err e ↦ if is_not_resumable E e then submitted p else unprepared e
        ],
      )
