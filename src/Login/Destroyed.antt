-- ===== src/Login/Destroyed.antt =====
-- A login where the session destroyer of selfservice/hook/session_destroyer.go is configured.
use kratos.Base.{
  ◌≢◌, string_eq, false, true, Bool, ap, sym, nat_eq, ◌==◌, ◌∷◌, ◌∙◌, ◌≡◌, Bool-cases, Result-cases,
  ok-injective, err-ne-ok, err, ok, Result, Err, [], List, some, none, Option, inr, inl, refl,
  String, ℕ,
}
use kratos.Login.Only.{HasOnly, upsert-HasOnly, upserted_row}
use mathlib.Core.Path.{subst}
use kratos.Session.Persister.{has_id, delete_where, delete_sessions_by_identity}
use kratos.Login.Hook.{is_abort}
use kratos.Login.Logs.{prepare_parts}
use kratos.Base.Find.{find}
use kratos.Http.{Request}
use kratos.Hook.{execute_session_destroyer}
use kratos.Hook.Destroyer.{HasNone, execute_session_destroyer_lem}
use kratos.Identity.{Identity, is_active as is_active_identity, copy_without_credentials}
use kratos.Session.{Session, activate, declassify, set_authenticator_assurance_level}
use kratos.Session.Persister.{has_id, upsert_session}
use kratos.Session.Manager.{Env}
use kratos.Session.Manager.Cookie.{upsert_and_issue_cookie}
use kratos.Login.{Flow}
use kratos.Login.Hook.{
  Config, LoginHook, Response, aborted, prepare, respond, respond_api, respond_browser, after_hooks,
  run_hooks, post_login_hook,
}

-- The session destroyer as a hook. The table stays as it was when the hook fails.
abbrev pub destroyed : List Session → Result (List Session) → List Session × Option Err
destroyed table (ok left) = (left, none)
destroyed table (err e) = (table, some e)

abbrev pub session_destroyer : Option Err → ℕ → LoginHook
session_destroyer fault nid f s table =
    destroyed table (execute_session_destroyer fault nid s table)

ok-false-ne : ◌≢◌ {A = Result Bool} (ok false) (ok true)
ok-false-ne h = cc

module _ (E : Env) (C : Config) where
  -- What is written when there is an answer.
  respond_api-written :
      (table : List Session) (s : Session) (response : Response)
      → (respond_api E C table s).result ≡ ok response
      → upsert_session E.upsert_fault E.nid s table ≡ ok (respond_api E C table s).table
  unfolding respond_api
  respond_api-written table s response h =
      elim (Result-cases (upsert_session E.upsert_fault E.nid s table)) [
        | inr (e, bad) ↦ absurd (err-ne-ok (rw (bad, respond_api) at h))
        | inl (table', written) ↦ written ∙ rw (written, respond_api) refl
      ]

  respond_browser-written :
      (r : Request) (return_to : String) (table : List Session) (s : Session) (response : Response)
      → (respond_browser E C r return_to table s).result ≡ ok response
      → upsert_session E.upsert_fault E.nid s table
        ≡ ok (respond_browser E C r return_to table s).table
  unfolding respond_browser upsert_and_issue_cookie
  respond_browser-written r return_to table s response h =
      elim (Result-cases (upsert_session E.upsert_fault E.nid s table)) [
        | inr (e, bad) ↦
            absurd (err-ne-ok (rw (respond_browser, upsert_and_issue_cookie, bad) at h))
        | inl (table', written) ↦
            elim (Result-cases (upsert_and_issue_cookie E C.cookie_defaults table r s).1) [
              | inr (e, bad) ↦ absurd (err-ne-ok (rw (respond_browser, bad) at h))
              | inl (issued, fine) ↦
                  written ∙ rw (respond_browser, fine, upsert_and_issue_cookie, written) refl
            ]
      ]

  after_hooks-written :
      (r : Request) (a : Flow) (return_to : String) (s : Session) (ran : List Session × Result Bool)
      (response : Response)
      → ¬ (response ≡ aborted)
      → (after_hooks E C r a return_to s ran).result ≡ ok response
      → (ran.1 ≡ ok true)
        × (upsert_session E.upsert_fault E.nid s ran.0
            ≡ ok (after_hooks E C r a return_to s ran).table)
  unfolding respond
  after_hooks-written r a return_to s (table, err e) response given h = absurd (err-ne-ok h)
  after_hooks-written r a return_to s (table, ok false) response given h =
      absurd (given (sym (ok-injective h)))
  after_hooks-written r a return_to s (table, ok true) response given h =
      elim (Bool-cases (a.type == "api")) [
        | inl api ↦
            rw (respond, api) (refl, respond_api-written table s response (rw (respond, api) at h))
        | inr browser ↦
            rw (respond, browser)
              (
                refl,
                respond_browser-written r return_to table s response (rw (respond, browser) at h),
              )
      ]

  prepared :
      (i : Identity) (s : Session) {s' : Session} {return_to : String}
      → prepare E C i s ≡ ok (s', return_to)
      → (s'.identity ≡ some (copy_without_credentials i)) × (s'.id ≡ s.id)
  unfolding prepare activate set_authenticator_assurance_level declassify
  prepared i s h = elim (Bool-cases (is_active_identity i)) [
    | inr inactive ↦ absurd (err-ne-ok (rw (prepare, activate, inactive) at h))
    | inl active ↦ elim (Result-cases C.return_to) [
      | inr (e, bad) ↦ absurd (err-ne-ok (rw (prepare, activate, active, bad) at h))
      | inl (url, fine) ↦
          let same = ok-injective (rw (prepare, activate, active, fine) at h) in
          (ap (λ x. x.0.identity) (sym same), ap (λ x. x.0.id) (sym same))
    ]
  ]

  destroyer-HasNone :
      (fault : Option Err) (i : Identity) (s : Session) (table left : List Session)
      → s.identity ≡ some i
      → execute_session_destroyer fault E.nid s table ≡ ok left
      → HasNone E.nid i.id left
  unfolding execute_session_destroyer delete_sessions_by_identity delete_where
  destroyer-HasNone (some e) i s table left known done =
      absurd (err-ne-ok (rw (execute_session_destroyer, known) at done))
  destroyer-HasNone none i s table left known done =
      (execute_session_destroyer_lem E.nid s i table known).0 left done

  run_hooks-HasNone :
      (a : Flow) (i : Identity) (s : Session) (table : List Session) (q : Result (List Session))
      → ((left : List Session) → q ≡ ok left → HasNone E.nid i.id left)
      → let ran = run_hooks ((λ f s table. destroyed table q) ∷ []) a s table in
        ran.1 ≡ ok true → HasNone E.nid i.id ran.0
  run_hooks-HasNone a i s table (ok left) none_left passed = none_left left refl
  run_hooks-HasNone a i s table (err e) none_left passed = elim (Bool-cases (is_abort e)) [
    | inl aborts ↦ absurd (ok-false-ne (rw aborts at passed))
    | inr fails ↦ absurd (err-ne-ok (rw fails at passed))
  ]

  -- A login where the session destroyer is the one hook, and which is answered: afterwards the
  -- session of this login is the only one that the identity has in the network. Its row is found
  -- under its id, is active and is of the identity, and every other session of the identity is gone.
  pub post_login_hook-HasOnly :
      (fault : Option Err)
      → C.hooks ≡ session_destroyer fault E.nid ∷ []
      → (r : Request) (a : Flow) (i : Identity) (table : List Session) (s : Session)
        (response : Response)
      → ¬ (response ≡ aborted)
      → (post_login_hook E C r a i table s).result ≡ ok response
      → HasOnly E.nid i.id s.id (post_login_hook E C r a i table s).table
        × ((row : Session) × (find (has_id E.nid s.id) (post_login_hook E C r a i table s).table
              ≡ some row)
            × (row.identity_id ≡ i.id)
            × (row.active ≡ true))
  unfolding post_login_hook copy_without_credentials
  post_login_hook-HasOnly fault configured r a i table s response given h =
      elim (Result-cases (prepare E C i s)) [
        | inr (e, bad) ↦ absurd (err-ne-ok (rw (post_login_hook, bad) at h))
        | inl ((s', return_to), ready) ↦
            let (known, same_id) = prepared i s ready in
            let ran = run_hooks C.hooks a s' table in
            let (passed, written) =
              after_hooks-written r a return_to s' ran response given
                (rw (post_login_hook, ready) at h) in
            let i' = copy_without_credentials i in
            let gone : HasNone E.nid i.id ran.0 = run_table a i' s' table configured passed known in
            let activated = prepare_parts E C i s ready in
            rw (post_login_hook, ready)
              (rw (← same_id) (
                upsert-HasOnly E.upsert_fault E.nid i.id s' ran.0 _ gone written,
                (
                  record s' { nid = E.nid; identity = none },
                  upserted_row E.upsert_fault E.nid s' ran.0 _ written,
                  activated.owner,
                  activated.active,
                ),
              ))
      ]
    where
      run_table :
          (a : Flow) (i' : Identity) (s' : Session) (table : List Session)
          → C.hooks ≡ session_destroyer fault E.nid ∷ []
          → (run_hooks C.hooks a s' table).1 ≡ ok true
          → s'.identity ≡ some i'
          → HasNone E.nid i'.id (run_hooks C.hooks a s' table).0
      run_table a i' s' table one passed known =
          subst
            (λ hooks.
              (run_hooks hooks a s' table).1 ≡ ok true
              → HasNone E.nid i'.id (run_hooks hooks a s' table).0)
            (sym one)
            (run_hooks-HasNone a i' s' table (execute_session_destroyer fault E.nid s' table)
              (λ left done. destroyer-HasNone fault i' s' table left known done))
            passed
