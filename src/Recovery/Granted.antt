-- ===== src/Recovery/Granted.antt =====
-- For whom a recovery link issues a session.
use kratos.Recovery.{
  token_invalid_or_used, redeem, recover_identity, flow_of, if_valid, marked, recovery_use_token,
  activated, passed, issue_session,
}
use kratos.Base.Find.{update_where}
use kratos.Base.{
  is_no_rows, ◌++◌, ◌∷◌, [], some, true, ap, sym, List, ok, Result, String, ◌≡◌, ◌⊎◌, inl, inr,
  refl, Bool-cases, Result-cases, ◌≤◌, ◌∙◌,
}
use kratos.Identity.{Identity, is_active}
use kratos.Session.{Session}
use kratos.Session.Persister.{upsert_session}
use kratos.Session.Manager.Cookie.{Issued, upsert_and_issue_cookie}
use kratos.Flow.{type_browser}
use kratos.Link.{RecoveryToken, is_row, mark_used, use_recovery_token}
use kratos.Recovery.Flow.{RecoveryFlow}
use kratos.Recovery.{update_flow, after_upsert, extended, World, Outcome, Env}
use kratos.Recovery.Found.{IsFound, use_found}
use kratos.Recovery.Quiet.{
  IsQuiet, also, same-IsQuiet, message-IsQuiet, retry_with_error-IsQuiet, or_retry_cases,
  retry-IsQuiet, after_upsert-IsQuiet,
}
use kratos.Recovery.Made.{IsSessionOf, valid_until, activated_parts, Upserted, upsert_parts}

module _ {P B X : Type 0} (E : Env P B) where
  -- The session `session` is written. Its row is active and of the identity of the token, which is
  -- active itself, and any cookie that is issued carries the session's token.
  pub record IsGranted (w v : World B X) (t : RecoveryToken) : Type 0 where
    pub identity : Identity
    pub session : Session
    pub known : E.sessions.get_identity t.identity_id ≡ ok identity
    pub active : is_active identity ≡ true
    pub owner : session.identity ≡ some identity
    pub row : IsSessionOf E identity session
    pub written :
        upsert_session E.sessions.upsert_fault E.sessions.nid session w.sessions ≡ ok v.sessions
    pub cookie :
        (v.issued ≡ w.issued)
        ⊎ ((c : Issued) × (v.issued ≡ w.issued ++ c ∷ []) × (c.session_token ≡ session.token))
    pub tokens : v.tokens ≡ w.tokens

  IsGranted-then :
      (w v u : World B X) (t : RecoveryToken) → IsGranted w v t → IsQuiet v u → IsGranted w u t
  IsGranted-then w v u t h k = record {
    identity = h.identity;
    session = h.session;
    known = h.known;
    active = h.active;
    owner = h.owner;
    row = h.row;
    written = rw k.sessions h.written;
    cookie = rw k.issued h.cookie;
    tokens = k.tokens ∙ h.tokens;
  }

  after_upsert-Ends :
      (w : World B X) (t : RecoveryToken) (f : RecoveryFlow) (i : Identity) (s : Session)
      (r : List Session × Result Issued)
      → E.sessions.get_identity t.identity_id ≡ ok i
      → is_active i ≡ true
      → s.identity ≡ some i
      → IsSessionOf E i s
      → Upserted E w.sessions s r
      → IsQuiet w (after_upsert E w f s r).0 ⊎ IsGranted w (after_upsert E w f s r).0 t
  after_upsert-Ends w t f i s (table, res) known active owner row (inl (same, (e, bad))) =
      let w' = record w { sessions = table; issued = extended w.issued res } in
      inl (
        also w w' _ (record { sessions = same; issued = rw bad refl; tokens = refl })
          (after_upsert-IsQuiet E w f s (table, res)))
  after_upsert-Ends w t f i s (table, res) known active owner row (inr (written, sent)) =
      let w' = record w { sessions = table; issued = extended w.issued res } in
      inr (
        IsGranted-then w w' _ t
          (record {
            identity = i;
            session = s;
            known = known;
            active = active;
            owner = owner;
            row = row;
            written = written;
            cookie = elim sent [
              | inl (e, bad) ↦ inl (rw bad refl)
              | inr (c, issued, token) ↦ inr (c, rw issued refl, token)
            ];
            tokens = refl;
          })
          (after_upsert-IsQuiet E w f s (table, res)))

  abbrev pub Ends : World B X → RecoveryToken → World B X × Outcome → Type 0
  Ends w t a = IsQuiet w a.0 ⊎ IsGranted w a.0 t

  -- From a quiet beginning.
  or_from_start :
      (w v : World B X) (t : RecoveryToken)
      → IsQuiet w v
      → (a : World B X × Outcome) → Ends v t a
      → Ends w t a
  or_from_start w v t h a (inl quiet) = inl (also w v a.0 h quiet)
  or_from_start w v t h a (inr g) = inr (record {
    identity = g.identity;
    session = g.session;
    known = g.known;
    active = g.active;
    owner = g.owner;
    row = g.row;
    written = rw (← h.sessions) g.written;
    cookie = rw (← h.issued) g.cookie;
    tokens = g.tokens ∙ h.tokens;
  })

  issue_session-Ends :
      (w : World B X) (t : RecoveryToken) (f : RecoveryFlow) (i : Identity)
      → E.sessions.get_identity t.identity_id ≡ ok i
      → Ends w t (issue_session E w f i)
  unfolding issue_session
  issue_session-Ends w t f i known =
      or_retry_cases E (Ends w t) w (update_flow E.flow (passed E f i) w.flows) _
        (λ e. inl (retry-IsQuiet E w w (same-IsQuiet w) e))
        λ flows _.
          let w' = record w { flows = flows } in
          let h : IsQuiet w w' = record { sessions = refl; issued = refl; tokens = refl } in
          or_retry_cases E (Ends w t) w' (activated E i)
            (λ s.
              after_upsert E w' (passed E f i) s
                (upsert_and_issue_cookie E.sessions E.cookie_options w'.sessions E.request s))
            (λ e. inl (retry-IsQuiet E w w' h e))
            λ s made.
              let (active, owner, row) = activated_parts E i s made in
              let r = upsert_and_issue_cookie E.sessions E.cookie_options w'.sessions E.request s in
              or_from_start w w' t h (after_upsert E w' (passed E f i) s r) (
                after_upsert-Ends w' t (passed E f i) i s r known active owner row
                  (upsert_parts E w'.sessions s i owner))

  recover_identity-Ends :
      (w : World B X) (t : RecoveryToken) (f : RecoveryFlow) → Ends w t (recover_identity E w t f)
  unfolding recover_identity
  recover_identity-Ends w t f = elim (Result-cases (E.sessions.get_identity t.identity_id)) [
    | inr (e, missing) ↦ rw (missing, recover_identity) (inl (same-IsQuiet w))
    | inl (i, known) ↦ elim (Result-cases (marked E t i w.addresses)) [
      | inr (e, bad) ↦ rw (known, recover_identity, bad) (inl (same-IsQuiet w))
      | inl (addresses, done) ↦
          let w' = record w { addresses = addresses } in
          let h : IsQuiet w w' = record { sessions = refl; issued = refl; tokens = refl } in
          rw (known, recover_identity, done)
            (or_from_start w w' t h (issue_session E w' f i) (issue_session-Ends w' t f i known))
    ]
  ]

  -- A token whose time is over grants nothing.
  abbrev Redeems : World B X → RecoveryToken → World B X × Outcome → Type 0
  Redeems w t a = IsQuiet w a.0 ⊎ (E.now ≤ t.expires_at × IsGranted w a.0 t)

  redeem-Redeems : (w : World B X) (t : RecoveryToken) → Redeems w t (redeem E w t)
  unfolding redeem
  redeem-Redeems w t =
      or_retry_cases E (Redeems w t) w (flow_of E t w.flows)
        (λ fs. if_valid E (record w { flows = fs.1 }) t fs.0)
        (λ e. inl (retry-IsQuiet E w w (same-IsQuiet w) e))
        λ fs _.
          let w' = record w { flows = fs.1 } in
          let h : IsQuiet w w' = record { sessions = refl; issued = refl; tokens = refl } in
          or_retry_cases E (Redeems w t) w' (kratos.Link.valid E.now t)
            (λ _. recover_identity E w' t fs.0) (λ e. inl (retry-IsQuiet E w w' h e))
            λ u fine.
              elim (or_from_start w w' t h (recover_identity E w' t fs.0)
                (recover_identity-Ends w' t fs.0)) [
                  | inl quiet ↦ inl quiet
                  | inr granted ↦ inr (valid_until E.now t u fine, granted)
                ]

  IsGranted-to :
      (w w' : World B X) (t rt : RecoveryToken) {v : World B X}
      → t.identity_id ≡ rt.identity_id
      → w'.tokens ≡ update_where (is_row E.tokens.nid t.id) mark_used w.tokens
      → (w'.sessions ≡ w.sessions)
      → (w'.issued ≡ w.issued)
      → IsGranted w' v rt
      → IsGranted
          (record w { tokens = update_where (is_row E.tokens.nid t.id) mark_used w.tokens })
          v
          t
  IsGranted-to w w' t rt same used sessions issued g = record {
    identity = g.identity;
    session = g.session;
    known = rw same g.known;
    active = g.active;
    owner = g.owner;
    row = g.row;
    written = rw (← sessions) g.written;
    cookie = rw (← issued) g.cookie;
    tokens = g.tokens ∙ used;
  }

module _ {P B X : Type 0} (E : Env P B) (secret : String) (secrets : List String)
    (configured : E.tokens.secrets ≡ secret ∷ secrets) where
  -- A recovery link issues a session, and a cookie with its token, only for an active identity to
  -- which a token of the network was issued that has not expired, and which the submitted token
  -- hashes to, under a configured session secret, while it is unused. The row that is written has
  -- the id of this identity as its owner, is active, and expires one lifespan from now. The token
  -- is then marked as used. In every other case no session is written, no cookie is issued. At least one session
  -- secret has to be configured.
  pub recovery_use_token-IsGranted :
      (w : World B X) (token : String)
      → let v = (recovery_use_token E w token).0 in
        ((v.sessions ≡ w.sessions) × (v.issued ≡ w.issued))
        ⊎ ((t : RecoveryToken) × (IsFound E.tokens token (secret ∷ secrets) w.tokens t)
            × (E.now ≤ t.expires_at)
            × IsGranted E
                (record w { tokens = update_where (is_row E.tokens.nid t.id) mark_used w.tokens })
                v
                t)
  unfolding recovery_use_token
  recovery_use_token-IsGranted w token =
      elim (Result-cases (use_recovery_token E.tokens token w.tokens)) [
        | inr (e, refused) ↦ elim (Bool-cases (is_no_rows e)) [
          | inl missing ↦
              let quiet = message-IsQuiet E w 0 type_browser token_invalid_or_used in
              rw (refused, recovery_use_token, missing) (inl (quiet.sessions, quiet.issued))
          | inr bad ↦
              let quiet = retry_with_error-IsQuiet E w 0 type_browser e in
              rw (refused, recovery_use_token, bad) (inl (quiet.sessions, quiet.issued))
        ]
        | inl ((rt, tokens), accepted) ↦
            let (t, a, found, same, used) =
              use_found E.tokens secret secrets configured token w.tokens tokens rt accepted in
            let w' = record w { tokens = tokens } in
            elim (redeem-Redeems E w' rt) [
              | inl quiet ↦ rw (accepted, recovery_use_token) (inl (quiet.sessions, quiet.issued))
              | inr (in_time, g) ↦
                  rw (accepted, recovery_use_token)
                    (inr (
                      t,
                      found,
                      rw (ap (λ x. x.expires_at) same) in_time,
                      IsGranted-to E w w' t rt (ap (λ x. x.identity_id) same) (sym used) refl refl
                          g,
                    ))
            ]
      ]
