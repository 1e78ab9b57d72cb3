-- ===== src/Session/Manager.antt =====
-- session/manager_http.go: sessions as HTTP requests present them and as responses issue them.
pub mod Fetch
pub mod Purge
pub mod Aal
pub mod Cookie
use Prim.Native.String
use kratos.Base.{ℕ, ◌+◌, ◌/◌, ◌≡◌, String, Bool, true, false, not, ◌&&◌, Option, none, some}
use kratos.Base.{List, [], ◌∷◌, ◌++◌, map, if◌then◌else◌, ◌==◌, nat_eq, string_eq, text_ge}
use kratos.Base.{Result, ok, err, Err, ◌>>=◌, ◌>>◌, check, is_no_rows, no_active_session, panic}
use kratos.Base.{aal_not_satisfied, unknown_aal}
use kratos.Http.{Request, bearer_token_from_request}
use kratos.Identity.{Identity}
use kratos.Identity.Aal.{determine_aal, aal1}
use kratos.Session.{Session, is_active, declassify, set_authenticator_assurance_level}
use kratos.Session.{completed_login_for}
use kratos.Session.Persister.{get_session, get_session_by_token, upsert_session}
use kratos.Session.Persister.{revoke_session_by_token}

-- What the cookie store gives for a Cookie header: gorilla's session, whose `session_token` may be
-- missing, and an error. A store may give both.
pub record CookieResult : Type 0 where
  pub session : Option (Option String)
  pub error : Option Err

-- The configuration, the clock and the other parties of one request.
pub record Env : Type 0 where
  pub now : ℕ
  pub nid : ℕ
  pub get_identity : ℕ → Result Identity
  pub get_identity_confidential : ℕ → Result Identity
  pub decode_cookie : String → CookieResult
  -- what the database answers to the statements, and the store to a save
  pub get_fault : Option Err
  pub upsert_fault : Option Err
  pub revoke_fault : Option Err
  pub save_fault : Option Err
  -- configuration
  pub session_name : String
  pub session_path : String
  pub session_domain : String
  pub self_public_url : String
  pub self_public_hostname : String
  pub self_public_path : String
  pub session_same_site_mode : ℕ
  pub session_persistent_cookie : Bool
  pub session_lifespan : ℕ
  pub login_browser_url : String

abbrev or_bearer : Option String → String
or_bearer none = ""
or_bearer (some token) = token

abbrev cookie_token : CookieResult → Request → String
cookie_token c r = elim c.error [
  | some e ↦ or_bearer (bearer_token_from_request r)
  | none ↦ elim c.session [
    | some (some token) ↦ token
    | _ ↦ or_bearer (bearer_token_from_request r)
  ]
]

abbrev pub highest_available : String
highest_available = "highest_available"

module _ (E : Env) where
  -- With X-Session-Cookie the headers are replaced by that one cookie.
  unfoldable pub effective_request : Request → Request
  effective_request r = if r.x_session_cookie == "" then r else record r {
    x_session_token = "";
    x_session_cookie = "";
    authorization = "";
    cookie = String.◌++◌ E.session_name (String.◌++◌ "=" r.x_session_cookie);
    origin = "";
  }

  unfoldable pub extract_token : Request → String
  unfolding effective_request
  extract_token r =
      if not (r.x_session_token == "")
      then r.x_session_token
      else let r' = effective_request r in cookie_token (E.decode_cookie r'.cookie) r'

  unfoldable pub fetch_session : Result Session → Result Session
  fetch_session (err e) = if is_no_rows e then err no_active_session else err e
  fetch_session (ok se) = if not (is_active E.now se) then err no_active_session else declassify se

  unfoldable pub fetch_from_request : List Session → Request → Result Session
  unfolding fetch_session
  fetch_from_request table r =
      let token = extract_token r in
      if token == ""
      then err no_active_session
      else fetch_session (get_session_by_token E.get_identity E.get_fault E.nid token table)

  -- The table, whether the cookie was cleared, and the returned error.
  abbrev pub Purged : Type 0
  Purged = record { table : List Session; cleared : Bool; result : Result (Unit {0}) }

  unfoldable pub revoke_bearer : List Session → Result (List Session) → Purged
  revoke_bearer table (ok table') = record { table = table'; cleared = false; result = ok tt }
  revoke_bearer table (err e) = record { table = table; cleared = false; result = err e }

  unfoldable pub revoke_cookie : List Session → Result (List Session) → Purged
  revoke_cookie table (ok table') = elim E.save_fault [
    | none ↦ record { table = table'; cleared = true; result = ok tt }
    | some e ↦ record { table = table'; cleared = false; result = err e }
  ]
  revoke_cookie table (err e) = record { table = table; cleared = false; result = err e }

  unfoldable pub purge_from_request : List Session → Request → Purged
  unfolding revoke_bearer revoke_cookie
  purge_from_request table r =
      let revoke = λ (token : String). revoke_session_by_token E.revoke_fault E.nid token table in
      elim (bearer_token_from_request r) [
        | some token ↦ revoke_bearer table (revoke token)
        | none ↦ elim (E.decode_cookie r.cookie).session [
          | none ↦ record { table = table; cleared = false; result = err panic }
          | some none ↦ record { table = table; cleared = false; result = ok tt }
          | some (some token) ↦ revoke_cookie table (revoke token)
        ]
      ]

  abbrev pub types_of : Identity → List String
  types_of i = map (λ c. c.0) i.credentials

  -- The session, whose level is set anew, and the returned error. A session below "aal1" falls out
  -- of the switch. The keys of the credentials map come in some order.
  unfoldable pub does_session_satisfy : Session → String → Session × Result (Unit {0})
  does_session_satisfy sess requested =
      let s = set_authenticator_assurance_level sess in
      if requested == aal1
      then (if text_ge s.authenticator_assurance_level aal1
          then (s, ok tt)
          else (s, err (unknown_aal requested)))
      else if requested == highest_available
      then elim (E.get_identity_confidential s.identity_id) [
        | err e ↦ (s, err e)
        | ok i ↦
            if text_ge s.authenticator_assurance_level (determine_aal (types_of i))
            then (s, ok tt)
            else (s, err (aal_not_satisfied E.login_browser_url))
      ]
      else (s, err (unknown_aal requested))

  complete_all : List String → Session → Session
  complete_all [] s = s
  complete_all (m ∷ ms) s = complete_all ms (completed_login_for E.now m s)

  unfoldable pub session_add_authentication_method :
      ℕ → List String → List Session → Result (List Session)
  unfolding complete_all
  session_add_authentication_method sid ms table = do
    sess ← get_session E.get_identity E.get_fault E.nid sid table
    upsert_session E.upsert_fault E.nid (set_authenticator_assurance_level (complete_all ms sess))
        table
