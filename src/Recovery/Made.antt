-- ===== src/Recovery/Made.antt =====
-- The session that a recovery makes, and what the session manager does with it.
use kratos.Session.{
  completed_login_for, new_inactive_session, new_active_session, set_authenticator_assurance_level,
}
use kratos.Recovery.{activated}
use kratos.Base.{
  ◌+◌, ◌+◌, ltb, arith, ok-injective, err-ne-ok, some, true, ap, sym, Err, List, err, ok, Result, ℕ,
  ◌≡◌, ◌⊎◌, inl, inr, refl, Bool-cases, Result-cases, ◌≤◌,
}
use kratos.Identity.{Identity, is_active}
use kratos.Session.{Session, activate}
use kratos.Session.Persister.{upsert_session}
use kratos.Session.Manager.Cookie.{Issued, issue_cookie, upsert_and_issue_cookie, issue_cookie_csrf}
use kratos.Link.{RecoveryToken, is_row, mark_used, use_recovery_token}
use kratos.Recovery.{Env}
use kratos.Recovery.Quiet.{}

pub valid_until :
    (now : ℕ) (t : RecoveryToken) (u : Unit {0})
    → kratos.Link.valid now t ≡ ok u
    → now ≤ t.expires_at
unfolding kratos.Link.valid
valid_until now t u h = elim (Bool-cases (ltb t.expires_at now)) [
  | inl late ↦ absurd (err-ne-ok (rw (kratos.Link.valid, late) at h))
  | inr in_time ↦ ground (arith, in_time)
]

-- What is stored of a session: an active one, of the identity, with the new token, for one lifespan.
pub record IsSessionOf {P B : Type 0} (E : Env P B) (i : Identity) (s : Session) : Type 0 where
  pub owner : s.identity_id ≡ i.id
  pub active : s.active ≡ true
  pub token : s.token ≡ E.session_token
  pub expiry : s.expires_at ≡ E.now + E.sessions.session_lifespan

module _ {P B : Type 0} (E : Env P B) where
  pub activated_parts :
      (i : Identity) (s : Session)
      → activated E i ≡ ok s
      → (is_active i ≡ true) × (s.identity ≡ some i) × IsSessionOf E i s
  unfolding new_active_session activate set_authenticator_assurance_level completed_login_for
      new_inactive_session
  activated_parts i s h = elim (Bool-cases (is_active i)) [
    | inr inactive ↦ absurd (err-ne-ok (rw inactive at h))
    | inl active ↦
        let same = ok-injective (rw active at h) in
        (
          active,
          ap (λ x. x.identity) (sym same),
          rw (← same) (record { owner = refl; active = refl; token = refl; expiry = refl }),
        )
  ]

  -- What the session manager leaves: all as before, the session written but no cookie, or both.
  abbrev pub Upserted : List Session → Session → List Session × Result Issued → Type 0
  Upserted sessions s r =
      ((r.0 ≡ sessions) × ((e : Err) × (r.1 ≡ err e)))
      ⊎ ((upsert_session E.sessions.upsert_fault E.sessions.nid s sessions ≡ ok r.0)
          × (((e : Err) × (r.1 ≡ err e))
              ⊎ ((c : Issued) × (r.1 ≡ ok c) × (c.session_token ≡ s.token))))

  pub upsert_parts :
      (sessions : List Session) (s : Session) (i : Identity)
      → s.identity ≡ some i
      → Upserted sessions s
          (upsert_and_issue_cookie E.sessions E.cookie_options sessions E.request s)
  unfolding upsert_and_issue_cookie
  upsert_parts sessions s i owner =
      elim (Result-cases (upsert_session E.sessions.upsert_fault E.sessions.nid s sessions)) [
        | inr (e, bad) ↦ rw (bad, upsert_and_issue_cookie) (inl (refl, (e, refl)))
        | inl (table, done) ↦
            elim (Result-cases (issue_cookie E.sessions E.cookie_options table E.request s)) [
              | inr (e, bad) ↦ rw (upsert_and_issue_cookie, done) (inr (refl, inl (e, bad)))
              | inl (c, sent) ↦
                  rw (upsert_and_issue_cookie, done)
                    (inr (
                      refl,
                      inr (
                        c,
                        sent,
                        (issue_cookie_csrf E.sessions E.cookie_options table E.request s i owner
                            sent).0,
                      ),
                    ))
            ]
      ]
