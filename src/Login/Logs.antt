-- ===== src/Login/Logs.antt =====
-- What PostLoginHook writes, after its hooks: the session that it activated, or nothing.
use kratos.Base.{
  err, Result, ℕ, ◌+◌, ◌≡◌, refl, sym, ap, ◌∙◌, String, Bool, true, false, Option, some, List, ◌==◌,
  nat_eq, ◌⊎◌, inl, inr, Result-cases, Bool-cases, Option-cases,
}
use kratos.Base.{ok, err-ne-ok, ok-injective}
use kratos.Base.{string_eq}
use kratos.Http.{Request}
use kratos.Identity.{Identity, is_active as is_active_identity}
use kratos.Identity.Aal.{determine_aal}
use kratos.Session.{
  Session, methods, activate, declassify, set_authenticator_assurance_level, AuthenticationMethod,
}
use kratos.Session.Persister.{upsert_session}
use kratos.Session.Manager.{Env}
use kratos.Session.Manager.Cookie.{upsert_and_issue_cookie}
use kratos.Login.{Flow}
use kratos.Login.Hook.{
  Config, respond, respond_api, respond_browser, prepare, post_login_hook, run_hooks, after_hooks,
}
use kratos.Login.Submit.{}

-- The session `s` is active for `i` from now on, at the level of its methods, which are given.
pub record IsActivated (E : Env) (i : Identity) (amr : List AuthenticationMethod) (s : Session)
    : Type 0 where
  pub active : s.active ≡ true
  pub owner : s.identity_id ≡ i.id
  pub owner_active : is_active_identity i ≡ true
  pub expiry : s.expires_at ≡ E.now + E.session_lifespan
  pub level : s.authenticator_assurance_level ≡ determine_aal (methods s)
  pub same_amr : s.amr ≡ amr

activate_parts :
    (i : Identity) (lifespan now : ℕ) (s : Session) {s' : Session}
    → activate (some i) lifespan now s ≡ ok s'
    → (is_active_identity i ≡ true)
      × (s'.active ≡ true)
      × (s'.identity_id ≡ i.id)
      × (s'.expires_at ≡ now + lifespan)
      × (s'.amr ≡ s.amr)
      × (s'.authenticator_assurance_level ≡ determine_aal (methods s'))
unfolding activate set_authenticator_assurance_level
activate_parts i lifespan now s h = elim (Bool-cases (is_active_identity i)) [
  | inr inactive ↦ absurd (err-ne-ok (rw (inactive, activate) at h))
  | inl live ↦ rw (← ok-injective (rw (live, activate) at h)) (live, refl, refl, refl, refl, refl)
]

declassify_parts :
    (s : Session) {s' : Session}
    → declassify s ≡ ok s'
    → (i : Option Identity) × (s' ≡ record s { identity = i })
unfolding declassify
declassify_parts s h = elim (Option-cases s.identity) [
  | inl missing ↦ absurd (err-ne-ok (rw (missing, declassify) at h))
  | inr (i, known) ↦ (_, sym (ok-injective (rw (known, declassify) at h)))
]

module _ (E : Env) (C : Config) where
  Writes : List Session → List Session → Session → Type 0
  Writes table table' s =
      (table' ≡ table) ⊎ (upsert_session E.upsert_fault E.nid s table ≡ ok table')

  respond_api-Writes :
      (table : List Session) (s : Session) → Writes table (respond_api E C table s).table s
  unfolding respond_api Writes
  respond_api-Writes table s = elim (Result-cases (upsert_session E.upsert_fault E.nid s table)) [
    | inr (e, bad) ↦ inl (rw (bad, respond_api) refl)
    | inl (table', written) ↦ inr (written ∙ rw (written, respond_api) refl)
  ]

  cookie-Writes :
      (table : List Session) (r : Request) (s : Session)
      → Writes table (upsert_and_issue_cookie E C.cookie_defaults table r s).0 s
  unfolding upsert_and_issue_cookie Writes
  cookie-Writes table r s = elim (Result-cases (upsert_session E.upsert_fault E.nid s table)) [
    | inr (e, bad) ↦ inl (rw (bad, upsert_and_issue_cookie) refl)
    | inl (table', written) ↦ inr (written ∙ rw (written, upsert_and_issue_cookie) refl)
  ]

  respond_browser_table :
      (r : Request) (return_to : String) (table : List Session) (s : Session)
      → (respond_browser E C r return_to table s).table
        ≡ (upsert_and_issue_cookie E C.cookie_defaults table r s).0
  unfolding respond_browser
  respond_browser_table r return_to table s =
      elim (Result-cases (upsert_and_issue_cookie E C.cookie_defaults table r s).1) [
        | inr (e, bad) ↦ rw (bad, respond_browser) refl
        | inl (issued, fine) ↦ rw (fine, respond_browser) refl
      ]

  respond-Writes :
      (r : Request) (a : Flow) (return_to : String) (table : List Session) (s : Session)
      (passed : Bool)
      → Writes table (respond E C r a return_to table s passed).table s
  unfolding respond Writes
  respond-Writes r a return_to table s false = inl refl
  respond-Writes r a return_to table s true = elim (Bool-cases (a.type == "api")) [
    | inl api ↦ rw api (respond_api-Writes table s)
    | inr browser ↦
        rw browser (rw (respond_browser_table r return_to table s) (cookie-Writes table r s))
  ]

  pub prepare_parts :
      (i : Identity) (s : Session) {s' : Session} {return_to : String}
      → prepare E C i s ≡ ok (s', return_to)
      → IsActivated E i s.amr s'
  unfolding prepare
  prepare_parts i s h = elim (Result-cases (activate (some i) E.session_lifespan E.now s)) [
    | inr (e, bad) ↦ absurd (err-ne-ok (rw (bad, prepare) at h))
    | inl (s1, started) ↦ elim (Result-cases C.return_to) [
      | inr (e, bad) ↦ absurd (err-ne-ok (rw (started, prepare, bad) at h))
      | inl (url, fine) ↦ elim (Result-cases (declassify s1)) [
        | inr (e, bad) ↦ absurd (err-ne-ok (rw (started, prepare, fine, bad) at h))
        | inl (s2, shown) ↦
            let same : s2 ≡ _ =
              ap (λ x. x.0) (ok-injective (rw (started, prepare, fine, shown) at h)) in
            rw (← same) (activated s1 s2 started shown)
      ]
    ]
  ]
    where
      activated :
          (s1 s2 : Session)
          → activate (some i) E.session_lifespan E.now s ≡ ok s1
          → declassify s1 ≡ ok s2
          → IsActivated E i s.amr s2
      activated s1 s2 started shown =
          let (owner_active, active, owner, expiry, same_amr, level) =
            activate_parts i E.session_lifespan E.now s started in
          let (identity, same) = declassify_parts s1 shown in
          rw same (record {
            active = active;
            owner = owner;
            owner_active = owner_active;
            expiry = expiry;
            level = level;
            same_amr = same_amr;
          })

  -- The hooks ran on a session that was activated from `amr`. Their table is left, or the session
  -- was written to it, which happens only where every hook passed.
  abbrev pub Hooks :
      Flow → List Session → List Session → Identity → List AuthenticationMethod → Type 0
  Hooks f table table' i amr =
      (s : Session) × IsActivated E i amr s
      × ((table' ≡ (run_hooks C.hooks f s table).0)
          ⊎ (((run_hooks C.hooks f s table).1 ≡ ok true)
              × (upsert_session E.upsert_fault E.nid s (run_hooks C.hooks f s table).0
                  ≡ ok table')))

  -- Nothing happened, or the hooks ran.
  unfoldable pub Logs :
      Flow → List Session → List Session → Identity → List AuthenticationMethod → Type 0
  Logs f table table' i amr = (table' ≡ table) ⊎ Hooks f table table' i amr

  hooks_end :
      (r : Request) (a : Flow) (return_to : String) (s : Session) (ran : List Session × Result Bool)
      → ((after_hooks E C r a return_to s ran).table ≡ ran.0)
        ⊎ ((ran.1 ≡ ok true)
            × (upsert_session E.upsert_fault E.nid s ran.0
                ≡ ok (after_hooks E C r a return_to s ran).table))
  unfolding Writes respond
  hooks_end r a return_to s (table, err e) = inl refl
  hooks_end r a return_to s (table, ok false) = inl refl
  hooks_end r a return_to s (table, ok true) = elim (respond-Writes r a return_to table s true) [
    | inl same ↦ inl same
    | inr written ↦ inr (refl, written)
  ]

  pub post_login_hook-Logs :
      (r : Request) (a : Flow) (i : Identity) (table : List Session) (s : Session)
      → Logs a table (post_login_hook E C r a i table s).table i s.amr
  unfolding Logs post_login_hook
  post_login_hook-Logs r a i table s = elim (Result-cases (prepare E C i s)) [
    | inr (e, bad) ↦ inl (rw (bad, post_login_hook) refl)
    | inl ((s', return_to), prepared) ↦
        rw (prepared, post_login_hook)
          (inr (
            s',
            prepare_parts i s prepared,
            hooks_end r a return_to s' (run_hooks C.hooks a s' table),
          ))
  ]
