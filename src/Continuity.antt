-- ===== src/Continuity.antt =====
-- continuity: containers that pause a flow, keep its state in the database and its key in a cookie,
-- and continue it in a later request (container.go, manager.go and manager_cookie.go, with
-- persistence/sql/persister_continuity.go and the cookies of x/cookie.go).
--
-- `P` is the type of a payload, `B` what a browser holds. encoding/json, the uuid library and the
-- cookie store are parameters.
pub mod Cookie
pub mod Table
pub mod Resumed
pub mod Once
pub mod Tests
use kratos.Base.{nat_eq, string_eq, ◌>>◌, ◌>>=◌, if◌then◌else◌, ◌==◌, ◌∷◌, ◌/◌, ◌*◌, ◌+◌}
use kratos.Base.{internal, not_resumable, err, ok, Result, is_no_rows, Err, [], List, some, none}
use kratos.Base.{Option, false, true, Bool, String, ℕ}
use kratos.Continuity.Cookie.{Store, get_string, unset_key, persist_values}
use kratos.Continuity.Table.{Container, is_row, save, get, delete, is_valid_for}

pub data ManagerOption (P : Type 0) : Type 0 where
  dont_clean_up : ManagerOption P
  with_identity : Option ℕ → ManagerOption P
  with_lifespan : ℕ → ManagerOption P
  with_payload : P → ManagerOption P

-- `iid` is 0 for no identity.
pub record ManagerOptions (P : Type 0) : Type 0 where
  pub iid : ℕ
  pub ttl : ℕ
  pub payload : Option String
  pub payload_raw : Option P
  pub clean_up : Bool

pub record Env (P B : Type 0) : Type 0 where
  pub store : Store B
  pub nid : ℕ
  -- encoding/json
  pub encode : P → Option String
  pub decode : String → Option P
  -- c.ID.String() and x.ParseUUID, which gives 0 for a text that is no uuid
  pub show_uuid : ℕ → String
  pub parse_uuid : String → ℕ
  -- what the database answers to each statement
  pub save_fault : Option Err
  pub get_fault : Option Err
  pub delete_fault : Option Err

pub record State (B : Type 0) : Type 0 where
  pub browser : B
  pub table : List Container

abbrev pub second : ℕ
second = 1000000000

module _ {P B : Type 0} (E : Env P B) where
  abbrev pub apply_option : ManagerOption P → ManagerOptions P → Result (ManagerOptions P)
  apply_option dont_clean_up o = ok (record o { clean_up = false })
  apply_option (with_identity none) o = ok o
  apply_option (with_identity (some i)) o = ok (record o { iid = i })
  apply_option (with_lifespan ttl) o = ok (record o { ttl = ttl })
  apply_option (with_payload p) o = elim (E.encode p) [
    | none ↦ err (internal "json")
    | some b ↦ ok (record o { payload = some b; payload_raw = some p })
  ]

  abbrev pub apply_options : List (ManagerOption P) → ManagerOptions P → Result (ManagerOptions P)
  apply_options [] o = ok o
  apply_options (opt ∷ opts) o = apply_option opt o >>= λ o'. apply_options opts o'

  unfoldable pub new_manager_options : List (ManagerOption P) → Result (ManagerOptions P)
  new_manager_options opts =
      apply_options opts
        (record { iid = 0; ttl = 60 * second; payload = none; payload_raw = none; clean_up = true })

  -- The expiry is cut to a whole second, and the network set when the container is saved.
  unfoldable pub new_container : (id now : ℕ) → String → ManagerOptions P → Container
  new_container id now name o = record {
    id = id;
    nid = 0;
    name = name;
    identity_id = if o.iid == 0 then none else some o.iid;
    expires_at = (now + o.ttl) / second * second;
    payload = o.payload;
  }

  -- The state that is left, and the error if any. `id` is the uuid that is drawn.
  unfoldable pub pause :
      (id now : ℕ) → State B → String → List (ManagerOption P) → State B × Result (Unit {0})
  pause id now s name opts =
      if name == ""
      then (s, err (internal "continuity container name must be set"))
      else elim (new_manager_options opts) [
        | err e ↦ (s, err e)
        | ok o ↦ elim (persist_values E.store s.browser name (E.show_uuid id)) [
          | err e ↦ (s, err e)
          | ok browser ↦ elim (save E.save_fault E.nid (new_container id now name o) s.table) [
            | err e ↦ (record s { browser = browser }, err e)
            | ok table ↦ (record { browser = browser; table = table }, ok tt)
          ]
        ]
      ]

  -- `_ = x.SessionUnsetKey(...)`
  abbrev pub cleaned : State B → String → State B
  cleaned s name = elim (unset_key E.store s.browser name) [
    | ok browser ↦ record s { browser = browser }
    | err e ↦ s
  ]

  unfoldable pub sid : State B → String → State B × Result ℕ
  sid s name = elim (get_string E.store s.browser name) [
    | err e ↦ (cleaned s name, err not_resumable)
    | ok text ↦
        if E.parse_uuid text == 0
        then (cleaned s name, err not_resumable)
        else (s, ok (E.parse_uuid text))
  ]

  unfoldable pub container : State B → String → State B × Result Container
  container s name =
      let found = sid s name in
      elim found.1 [
        | err e ↦ (found.0, err e)
        | ok id ↦ elim (get E.get_fault E.nid id s.table) [
          | err e ↦ (cleaned s name, err (if is_no_rows e then not_resumable else e))
          | ok c ↦ (s, ok c)
        ]
      ]

  -- Decoded only where both a place for it and a payload are given.
  abbrev pub decoded : Option P → Option String → Result (Option P)
  decoded none text = ok none
  decoded (some raw) none = ok (some raw)
  decoded (some raw) (some text) = elim (E.decode text) [
    | some p ↦ ok (some p)
    | none ↦ err (internal "json")
  ]

  -- The checks that a container passes, and the payload that the caller gets.
  unfoldable pub admitted : (now : ℕ) → List (ManagerOption P) → Container → Result (Option P)
  admitted now opts c = do
    o ← new_manager_options opts
    is_valid_for now o.iid c
    decoded o.payload_raw c.payload

  -- A row that is already gone is no error.
  unfoldable pub removed : ℕ → List Container → Result (List Container)
  removed id table = elim (delete E.delete_fault E.nid id table) [
    | ok table' ↦ ok table'
    | err e ↦ if is_no_rows e then ok table else err e
  ]

  unfoldable pub continue :
      (now : ℕ)
      → State B
      → String
      → List (ManagerOption P)
      → State B × Result (Container × Option P)
  continue now s name opts =
      let found = container s name in
      elim found.1 [
        | err e ↦ (found.0, err e)
        | ok c ↦ elim (admitted now opts c) [
          | err e ↦ (s, err e)
          | ok payload ↦ elim (unset_key E.store s.browser name) [
            | err e ↦ (s, err e)
            | ok browser ↦ elim (removed c.id s.table) [
              | err e ↦ (record s { browser = browser }, err e)
              | ok table ↦ (record { browser = browser; table = table }, ok (c, payload))
            ]
          ]
        ]
      ]

  abbrev pub is_not_resumable : Err → Bool
  is_not_resumable not_resumable = true
  is_not_resumable _ = false

  unfoldable pub abort : State B → String → State B × Result (Unit {0})
  abort s name =
      let found = sid s name in
      elim found.1 [
        | err e ↦ (found.0, if is_not_resumable e then ok tt else err e)
        | ok id ↦ elim (unset_key E.store s.browser name) [
          | err e ↦ (s, err e)
          | ok browser ↦ elim (removed id s.table) [
            | err e ↦ (record s { browser = browser }, err e)
            | ok table ↦ (record { browser = browser; table = table }, ok tt)
          ]
        ]
      ]
