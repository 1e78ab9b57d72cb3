-- ===== src/Login/Hook.antt =====
-- PostLoginHook of selfservice/flow/login/hook.go: from a session that completed its strategies to
-- a response.
use kratos.Base.{
  String, Bool, true, false, Option, none, some, List, [], ◌∷◌, if◌then◌else◌, ◌==◌, string_eq,
}
use kratos.Base.{Result, ok, err, Err, ◌>>=◌, hook_abort_flow, aal_not_satisfied}
use kratos.Http.{Request}
use kratos.Identity.{Identity}
use kratos.Session.{Session, activate, declassify}
use kratos.Session.Persister.{upsert_session}
use kratos.Session.Manager.{Env, does_session_satisfy}
use kratos.Session.Manager.Cookie.{CookieOptions, Issued, upsert_and_issue_cookie}
use kratos.Login.{Flow}

-- What the hook answers. A hook that aborts the flow has answered itself.
pub data Response : Type 0 where
  aborted : Response
  api_response : Session → String → Response
  json_response : Issued → Session → Response
  redirect_to : Issued → String → Response

abbrev pub is_abort : Err → Bool
is_abort hook_abort_flow = true
is_abort _ = false

-- A hook's ExecuteLoginPostHook, on the flow, the session and the table of the sessions: the table
-- that it leaves, which the session destroyer shortens, and its error. No hook of the repository
-- changes the session that it is given.
abbrev pub LoginHook : Type 0
LoginHook = Flow → Session → List Session → List Session × Option Err

-- The configuration of the hook. `return_to` is what SecureRedirectTo gives for the flow.
pub record Config : Type 0 where
  pub whoami_aal : String
  pub cookie_defaults : CookieOptions
  pub return_to : Result String
  pub hooks : List LoginHook

-- The table that the hooks leave, and whether every hook passed, a hook aborted, or one failed. No
-- hook runs after one that gives an error.
abbrev pub run_hooks : List LoginHook → Flow → Session → List Session → List Session × Result Bool
run_hooks [] a s table = (table, ok true)
run_hooks (h ∷ hooks) a s table =
    let (table', answer) = h a s table in
    elim answer [
      | none ↦ run_hooks hooks a s table'
      | some e ↦ (table', if is_abort e then ok false else err e)
    ]

abbrev pub aal_redirect : Result (Unit {0}) → Option String
aal_redirect (err (aal_not_satisfied url)) = some url
aal_redirect _ = none

abbrev pub Hooked : Type 0
Hooked = record { table : List Session; result : Result Response }

module _ (E : Env) (C : Config) where
  -- The error's redirect if the session's level is below what "whoami" asks for. DoesSessionSatisfy
  -- sets the level of the session that it is given.
  unfoldable pub requires_aal2 : Session → Session × Option String
  requires_aal2 s =
      let answer = does_session_satisfy E s C.whoami_aal in (answer.0, aal_redirect answer.1)

  -- Without the identity where the level is too low.
  abbrev pub shown : Session × Option String → Session
  shown (s, none) = s
  shown (s, some url) = record s { identity = none }

  unfoldable pub respond_api : List Session → Session → Hooked
  respond_api table s = elim (upsert_session E.upsert_fault E.nid s table) [
    | err e ↦ record { table = table; result = err e }
    | ok table' ↦ record {
      table = table';
      result = ok (api_response (shown (requires_aal2 s)) s.token);
    }
  ]

  abbrev pub redirect_or : Issued → String → Option String → Response
  redirect_or issued return_to none = redirect_to issued return_to
  redirect_or issued return_to (some url) = redirect_to issued url

  unfoldable pub respond_browser : Request → String → List Session → Session → Hooked
  respond_browser r return_to table s =
      let written = upsert_and_issue_cookie E C.cookie_defaults table r s in
      elim written.1 [
        | err e ↦ record { table = written.0; result = err e }
        | ok issued ↦ record {
          table = written.0;
          result = ok (
              if r.is_json
              then json_response issued (shown (requires_aal2 (record s { token = "" })))
              else redirect_or issued return_to (requires_aal2 s).1);
        }
      ]

  unfoldable pub respond : Request → Flow → String → List Session → Session → Bool → Hooked
  respond r a return_to table s false = record { table = table; result = ok aborted }
  respond r a return_to table s true =
      if a.type == "api" then respond_api table s else respond_browser r return_to table s

  -- What the hooks get, a session that is written once they have run.
  unfoldable pub prepare : Identity → Session → Result (Session × String)
  prepare i s = do
    s1 ← activate (some i) E.session_lifespan E.now s
    return_to ← C.return_to
    s2 ← declassify s1
    ok (s2, return_to)

  abbrev pub after_hooks : Request → Flow → String → Session → List Session × Result Bool → Hooked
  after_hooks r a return_to s (table, ok passed) = respond r a return_to table s passed
  after_hooks r a return_to s (table, err e) = record { table = table; result = err e }

  unfoldable pub post_login_hook : Request → Flow → Identity → List Session → Session → Hooked
  post_login_hook r a i table s = elim (prepare i s) [
    | err e ↦ record { table = table; result = err e }
    | ok (s', return_to) ↦ after_hooks r a return_to s' (run_hooks C.hooks a s' table)
  ]
