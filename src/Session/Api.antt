-- ===== src/Session/Api.antt =====
-- session/handler.go: the HTTP endpoints on sessions, and the wrappers that ask for a session.
--
-- `parse_uuid` is uuid.FromString on a path parameter, and `page` what the pagination parameters of
-- a request make of a list. Audit logs are left out.
pub mod Revoke
pub mod Whoami
mod Tests
use kratos.Base.{panic, ℕ, ◌≡◌, String, Bool, true, false, not, ◌||◌, Option, none, some}
use kratos.Base.{List, if◌then◌else◌, ◌==◌, nat_eq, string_eq, Result, ok, err, Err}
use kratos.Base.{no_active_session, aal_not_satisfied, bad_request}
use kratos.Http.{Request}
use kratos.Session.{Session, declassify}
use kratos.Session.Persister.{revoke_session, revoke_sessions_identity_except}
use kratos.Session.Persister.{list_sessions_by_identity, delete_sessions_by_identity}
use kratos.Session.Manager.{Env, fetch_from_request, does_session_satisfy}

-- What an endpoint writes. `unauthorized` wraps an error, `failed` passes one on.
pub data Reply : Type 0 where
  wrote : Session → Reply
  wrote_list : List Session → Reply
  wrote_count : ℕ → Reply
  no_content : Reply
  unauthorized : Err → Reply
  failed : Err → Reply
  forbidden : Reply

-- The reply, and the table of sessions.
pub record Served : Type 0 where
  pub table : List Session
  pub reply : Reply

-- The parts of the request that only these endpoints read.
pub record Params : Type 0 where
  pub parse_uuid : String → Option ℕ
  pub page : List Session → List Session
  pub whoami_aal : String

-- strconv.ParseBool
unfoldable pub parse_bool : String → Option Bool
parse_bool s =
    if s == "1" || s == "t" || s == "T" || s == "TRUE" || s == "true" || s == "True"
    then some true
    else if s == "0" || s == "f" || s == "F" || s == "FALSE" || s == "false" || s == "False"
    then some false
    else none

-- errors.As(err, &ErrAALNotSatisfied{})
abbrev pub is_aal_error : Err → Bool
is_aal_error (aal_not_satisfied url) = true
is_aal_error _ = false

abbrev pub aal_reply : Result Session → Result (Unit {0}) → Reply
aal_reply (ok s) (ok _) = wrote s
aal_reply (err e) (ok _) = failed e
aal_reply shown (err e) = if is_aal_error e then failed e else unauthorized e

-- A table that the database layer changed, or the error of its statement.
abbrev pub written {ℓ} : {A : Type ℓ} → List Session → Result A → (A → Served) → Served
written table (ok a) f = f a
written table (err e) f = record { table = table; reply = failed e }

abbrev pub is_session_missing : Err → Bool
is_session_missing no_active_session = true
is_session_missing _ = false

module _ (E : Env) (C : Params) where
  -- The error of a missing identity, `panic`, is that of CopyWithoutCredentials.
  unfoldable pub whoami : List Session → Request → Reply
  whoami table r = elim (fetch_from_request E table r) [
    | err e ↦ unauthorized e
    | ok s ↦
        let answer = does_session_satisfy E s C.whoami_aal in
        aal_reply (declassify answer.0) answer.1
  ]

  unfoldable pub admin_delete_identity_sessions : Option Err → List Session → String → Served
  admin_delete_identity_sessions fault table id = elim (C.parse_uuid id) [
    | none ↦ record { table = table; reply = failed (bad_request "could not parse UUID") }
    | some iid ↦
        written table (delete_sessions_by_identity fault E.nid iid table)
          (λ table'. record { table = table'; reply = no_content })
  ]

  -- An empty parameter means all sessions, and an unreadable one is an error.
  abbrev pub active_of : String → Result (Option Bool)
  active_of raw = if raw == "" then ok none else elim (parse_bool raw) [
    | some b ↦ ok (some b)
    | none ↦ err (bad_request "could not parse parameter active")
  ]

  abbrev pub reply_list : Result (List Session) → Reply
  reply_list (ok sessions) = wrote_list sessions
  reply_list (err e) = failed e

  unfoldable pub admin_list_identity_sessions : List Session → (id active_raw : String) → Reply
  admin_list_identity_sessions table id active_raw = elim (C.parse_uuid id) [
    | none ↦ failed (bad_request "could not parse UUID")
    | some iid ↦ elim (active_of active_raw) [
      | err e ↦ failed e
      | ok active ↦
          reply_list
            (list_sessions_by_identity E.get_identity E.get_fault E.nid iid active C.page 0 table)
    ]
  ]

  unfoldable pub revoke_sessions : List Session → Request → Served
  revoke_sessions table r = elim (fetch_from_request E table r) [
    | err e ↦ record { table = table; reply = unauthorized e }
    | ok s ↦
        written table
          (revoke_sessions_identity_except E.revoke_fault E.nid s.identity_id s.id table)
          (λ done. record { table = done.0; reply = wrote_count done.1 })
  ]

  abbrev pub revoke_by_id : List Session → Session → Option ℕ → Served
  revoke_by_id table s none = record {
    table = table;
    reply = failed (bad_request "could not parse UUID");
  }
  revoke_by_id table s (some session_id) =
      if session_id == s.id
      then record { table = table; reply = failed (bad_request "cannot revoke current session") }
      else elim s.identity [
        | none ↦ record { table = table; reply = failed panic }
        | some i ↦
            written table (revoke_session E.revoke_fault E.nid i.id session_id table)
              (λ table'. record { table = table'; reply = no_content })
      ]

  unfoldable pub revoke_one_session : List Session → Request → String → Served
  revoke_one_session table r sid =
      if sid == "whoami"
      then record { table = table; reply = whoami table r }
      else elim (fetch_from_request E table r) [
        | err e ↦ record { table = table; reply = unauthorized e }
        | ok s ↦ revoke_by_id table s (C.parse_uuid sid)
      ]

  unfoldable pub list_sessions : List Session → Request → Reply
  list_sessions table r = elim (fetch_from_request E table r) [
    | err e ↦ unauthorized e
    | ok s ↦ reply_list (
        list_sessions_by_identity E.get_identity E.get_fault E.nid s.identity_id (some true) C.page
          s.id table)
  ]

  -- The wrappers choose between two handlers; a missing second one means an error of their own.
  module _ {ℓ} {A : Type ℓ} (wrap : A) (other : Option A) (write : Reply → A) where
    unfoldable pub is_authenticated : List Session → Request → A
    is_authenticated table r = elim (fetch_from_request E table r) [
      | ok s ↦ wrap
      | err e ↦ elim other [
        | some on_unauthenticated ↦ on_unauthenticated
        | none ↦ write (failed no_active_session)
      ]
    ]

    unfoldable pub is_not_authenticated : List Session → Request → A
    is_not_authenticated table r = elim (fetch_from_request E table r) [
      | err e ↦ if is_session_missing e then wrap else write (failed e)
      | ok s ↦ elim other [ some on_authenticated ↦ on_authenticated | none ↦ write forbidden ]
    ]
