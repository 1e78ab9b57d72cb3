-- ===== src/Session/Manager/Cookie.antt =====
-- IssueCookie and UpsertAndIssueCookie of session/manager_http.go.
use kratos.Base.{
  Option-cases, err-ne-ok, ok-injective, sym, ◌∙◌, ℕ, ◌/◌, ◌≡◌, String, Bool, true, not, Option,
  none, some, List, arith,
}
use kratos.Base.{
  if◌then◌else◌, ◌==◌, nat_eq, string_eq, Result, ok, err, Err, panic, ◌⊎◌, inl, inr, Result-cases,
  Bool-cases,
}
use kratos.Http.{Request}
use kratos.Identity.{Identity}
use kratos.Session.{Session}
use kratos.Session.Persister.{upsert_session}
use kratos.Session.Manager.{Env, fetch_from_request}

pub record CookieOptions : Type 0 where
  pub path : String
  pub domain : String
  pub same_site : ℕ
  pub max_age : ℕ

-- What the response carries: the saved cookie, and whether the anti-CSRF token was drawn anew.
pub record Issued : Type 0 where
  pub options : CookieOptions
  pub session_token : String
  pub csrf_regenerated : Bool

-- `old.Identity.ID != session.Identity.ID`; a nil identity is a nil pointer dereference.
abbrev principal_changed : Option Identity → Option Identity → Result Bool
principal_changed (some old) (some i) = ok (not (old.id == i.id))
principal_changed none _ = err panic
principal_changed (some _) none = err panic

abbrev csrf_after : Result Session → Session → Result Bool
csrf_after (err e) session = ok true
csrf_after (ok old) session = principal_changed old.identity session.identity

module _ (E : Env) where
  -- The alias is the public URL itself, so the branch on it is never taken.
  unfoldable pub with_path_and_domain : CookieOptions → CookieOptions
  with_path_and_domain o =
      let p = if E.session_path == "" then o else record o { path = E.session_path } in
      let d = if E.session_domain == "" then p else record p { domain = E.session_domain } in
      let alias = E.self_public_url in
      if not (E.self_public_url == alias)
      then record d { domain = E.self_public_hostname; path = E.self_public_path }
      else d

  unfoldable pub cookie_options : CookieOptions → CookieOptions
  cookie_options o =
      let d = with_path_and_domain o in
      let m =
        if E.session_same_site_mode == 0
        then d
        else record d { same_site = E.session_same_site_mode } in
      record m {
        max_age = if E.session_persistent_cookie then E.session_lifespan / 1_000_000_000 else 0;
      }

  unfoldable pub save_cookie : CookieOptions → Session → Bool → Result Issued
  save_cookie options session regenerated = elim E.save_fault [
    | some e ↦ err e
    | none ↦ ok (record {
      options = options;
      session_token = session.token;
      csrf_regenerated = regenerated;
    })
  ]

  -- `defaults` are the options of the cookie that the store gives.
  unfoldable pub issue_with : CookieOptions → List Session → Request → Session → Result Issued
  issue_with defaults table r session = elim (csrf_after (fetch_from_request E table r) session) [
    | err e ↦ err e
    | ok regenerated ↦ save_cookie (cookie_options defaults) session regenerated
  ]

  abbrev refuse_cookie : Option (Option String) → Option Err → Option Err
  refuse_cookie none (some e) = some e
  refuse_cookie _ _ = none

  unfoldable pub issue_cookie : CookieOptions → List Session → Request → Session → Result Issued
  issue_cookie defaults table r session =
      let c = E.decode_cookie r.cookie in
      elim (refuse_cookie c.session c.error) [
        | some e ↦ err e
        | none ↦ issue_with defaults table r session
      ]

  -- The table after the call, and what was issued. The cookie is looked up after the write.
  unfoldable pub upsert_and_issue_cookie :
      CookieOptions → List Session → Request → Session → List Session × Result Issued
  upsert_and_issue_cookie defaults table r session =
      elim (upsert_session E.upsert_fault E.nid session table) [
        | err e ↦ (table, err e)
        | ok table' ↦ (table', issue_cookie defaults table' r session)
      ]

  save_cookie_parts :
      (options : CookieOptions) (session : Session) (b : Bool) {issued : Issued}
      → save_cookie options session b ≡ ok issued
      → (issued.session_token ≡ session.token)
        × (issued.csrf_regenerated ≡ b)
        × (issued.options ≡ options)
  unfolding save_cookie
  save_cookie_parts options session b h = ground arith

  issue_cookie_inner :
      (defaults : CookieOptions) (table : List Session) (r : Request) (session : Session)
      {issued : Issued}
      → issue_cookie defaults table r session ≡ ok issued
      → issue_with defaults table r session ≡ ok issued
  unfolding issue_cookie
  issue_cookie_inner defaults table r session h =
      let c = E.decode_cookie r.cookie in
      elim (Option-cases (refuse_cookie c.session c.error)) [
        | inl fine ↦ rw (fine, issue_cookie) at h
        | inr (e, refused) ↦ absurd (err-ne-ok (rw (refused, issue_cookie) at h))
      ]

  issue_with_parts :
      (defaults : CookieOptions) (table : List Session) (r : Request) (session : Session)
      {issued : Issued}
      → issue_with defaults table r session ≡ ok issued
      → (b : Bool) × (csrf_after (fetch_from_request E table r) session ≡ ok b)
        × (issued.session_token ≡ session.token)
        × (issued.csrf_regenerated ≡ b)
        × (issued.options ≡ cookie_options defaults)
  unfolding issue_with
  issue_with_parts defaults table r session h =
      elim (Result-cases (csrf_after (fetch_from_request E table r) session)) [
        | inr (e, failed) ↦ absurd (err-ne-ok (rw (failed, issue_with) at h))
        | inl (b, fine) ↦
            let (token, csrf, options) =
              save_cookie_parts (cookie_options defaults) session b (rw (fine, issue_with) at h) in
            (b, fine, token, csrf, options)
      ]

  principal_kept :
      (old session : Session) (i : Identity) (b : Bool)
      → session.identity ≡ some i
      → csrf_after (ok old) session ≡ ok b
      → (b ≡ true) ⊎ ((j : Identity) × (old.identity ≡ some j) × (j.id ≡ i.id))
  principal_kept old session i b p h = elim (Option-cases old.identity) [
    | inl missing ↦ absurd (err-ne-ok (rw missing at h))
    | inr (j, known) ↦
        let q : not (j.id == i.id) ≡ b = ok-injective (rw (known, p) at h) in
        elim (Bool-cases (j.id == i.id)) [
          | inl same ↦ inr (j, known, (nat_eq.beq_iff j.id i.id).0 same)
          | inr other ↦ inl (sym q ∙ rw other)
        ]
  ]

  -- The anti-CSRF token is kept only if the request already carried an active session of the
  -- identity that the new cookie is for. Without a session, with an expired or revoked one, or with
  -- one of another identity it is drawn anew. The cookie holds the new session's token.
  pub issue_cookie_csrf :
      (defaults : CookieOptions) (table : List Session) (r : Request) (session : Session)
      (i : Identity) {issued : Issued}
      → session.identity ≡ some i
      → issue_cookie defaults table r session ≡ ok issued
      → (issued.session_token ≡ session.token)
        × ((issued.csrf_regenerated ≡ true)
            ⊎ ((old : Session) × (j : Identity) × (fetch_from_request E table r ≡ ok old)
                × (old.identity ≡ some j)
                × (j.id ≡ i.id)))
  issue_cookie_csrf defaults table r session i p h =
      let (b, fresh, token, csrf, _) =
        issue_with_parts defaults table r session (issue_cookie_inner defaults table r session h) in
      elim (Result-cases (fetch_from_request E table r)) [
        | inr (e, failed) ↦ (token, inl (csrf ∙ sym (ok-injective (rw failed at fresh))))
        | inl (old, found) ↦ elim (principal_kept old session i b p (rw found at fresh)) [
          | inl changed ↦ (token, inl (csrf ∙ changed))
          | inr (j, known, same) ↦ (token, inr (old, j, found, known, same))
        ]
      ]
