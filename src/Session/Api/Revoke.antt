-- ===== src/Session/Api/Revoke.antt =====
-- What the endpoints that revoke sessions leave of the caller's session and of the others.
use kratos.Base.{ℕ, ◌≡◌, refl, sym, ap, ◌∙◌, String, Bool, true, false, Option, none, some, List}
use kratos.Base.{◌==◌, nat_eq, string_eq, arith, Bool-cases, Result-cases, Option-cases, inl, inr}
use kratos.Base.{Result, ok, err, Err, err-ne-ok, ok-injective}
use kratos.Http.{Request}
use kratos.Session.{is_active}
use kratos.Session.{Session}
use kratos.Session.Persister.{get_session_by_token, revoke_session, is_owned, is_other}
use kratos.Session.Persister.{revoke_sessions_identity_except}
use kratos.Session.Persister.Laws.{
  get_session_by_token-eq-ok, map_result, revoked, revoke_session_lem,
  revoke_sessions_identity_except_lem,
}
use kratos.Session.Manager.{Env, fetch_from_request, fetch_session, extract_token}
use kratos.Session.Manager.Fetch.{true-ne-false, declassify_cases, fetch_from_request_row}
use kratos.Session.Api.{
  Params, Served, revoke_one_session, revoke_sessions, revoke_by_id, written, wrote_count, failed,
}

failed-ne-count : {e : Err} {n : ℕ} → failed e ≡ wrote_count n → ⊥
failed-ne-count h = cc

-- A row keeps its ids when its session is fetched.
module _ (E : Env) where
  fetched_ids :
      (se : Session) {s : Session}
      → fetch_session E (ok se) ≡ ok s
      → (s.id ≡ se.id) × (s.identity_id ≡ se.identity_id)
  unfolding fetch_session
  fetched_ids se h = elim (Bool-cases (is_active E.now se)) [
    | inr inactive ↦ absurd (err-ne-ok (rw (inactive, fetch_session) at h))
    | inl live ↦
        let (i, _, same) = declassify_cases E se (rw (live, fetch_session) at h) in
        (sym (ap (λ x. x.id) same), sym (ap (λ x. x.identity_id) same))
  ]

  -- What a revocation with the condition `p` does to every token.
  Revokes : (Session → Bool) → List Session → List Session → Type 0
  Revokes p table table' =
      (nid : ℕ) (token : String)
      → get_session_by_token E.get_identity none nid token table'
        ≡ map_result (revoked p) (get_session_by_token E.get_identity none nid token table)

  spared_result :
      (p : Session → Bool) (q : Result Session) (se : Session)
      → q ≡ ok se
      → p se ≡ false
      → map_result (revoked p) q ≡ q
  spared_result p (ok x) se h k = rw (ok-injective h) (rw k refl)
  spared_result p (err e) se h k = absurd (err-ne-ok h)

  -- A row that the condition spares is given as before, whatever the database answers.
  spared :
      (fault : Option Err) (p : Session → Bool) (table table' : List Session) (nid : ℕ)
      (token : String) (se : Session)
      → Revokes p table table'
      → get_session_by_token E.get_identity fault nid token table ≡ ok se
      → p se ≡ false
      → get_session_by_token E.get_identity fault nid token table'
        ≡ get_session_by_token E.get_identity fault nid token table
  unfolding Revokes get_session_by_token
  spared none p table table' nid token se all h k = all nid token ∙ spared_result p _ se h k
  spared (some e) p table table' nid token se all h k = refl

  fetch_spared :
      (p : Session → Bool) (table table' : List Session) (r : Request) {s : Session}
      → fetch_from_request E table r ≡ ok s
      → Revokes p table table'
      → ((se : Session) → s.id ≡ se.id → p se ≡ false)
      → fetch_from_request E table' r ≡ fetch_from_request E table r
  unfolding fetch_from_request
  fetch_spared p table table' r h all keep =
      let (se, found, _, back, _) = fetch_from_request_row E table r h in
      rw
        (spared E.get_fault p table table' E.nid (extract_token E r) se all found
          (keep se (fetched_ids se back).0))
        refl

  other_row_left :
      (fault : Option Err) (iid sid : ℕ) (table table' : List Session)
      → revoke_session fault E.nid iid sid table ≡ ok table'
      → Revokes (is_owned E.nid iid sid) table table'
  unfolding Revokes revoke_session
  other_row_left (some e) iid sid table table' h = absurd (err-ne-ok h)
  other_row_left none iid sid table table' h =
      λ nid token. revoke_session_lem E.get_identity E.nid iid sid table table' h nid token

  others_revoked :
      (fault : Option Err) (iid sid : ℕ) (table table' : List Session) (n : ℕ)
      → revoke_sessions_identity_except fault E.nid iid sid table ≡ ok (table', n)
      → Revokes (is_other E.nid iid sid) table table'
  unfolding Revokes revoke_sessions_identity_except
  others_revoked (some e) iid sid table table' n h = absurd (err-ne-ok h)
  others_revoked none iid sid table table' n h = λ nid token.
      (revoke_sessions_identity_except_lem E.get_identity E.nid iid sid table table' n h).0 nid
        token

  revoke_spares :
      (fault : Option Err) (iid sid : ℕ) (table : List Session) (r : Request) (s : Session)
      (served : List Session → Served)
      → ((table' : List Session) → (served table').table ≡ table')
      → fetch_from_request E table r ≡ ok s
      → (sid == s.id) ≡ false
      → fetch_from_request E
          (written table (revoke_session fault E.nid iid sid table) served).table
          r
        ≡ fetch_from_request E table r
  revoke_spares fault iid sid table r s served kept h other_id =
      elim (Result-cases (revoke_session fault E.nid iid sid table)) [
        | inr (e, bad) ↦ rw bad refl
        | inl (table', done) ↦ rw done (
            rw (kept table') (
              fetch_spared (is_owned E.nid iid sid) table table' r h
                (other_row_left fault iid sid table table' done)
                (λ se same. ground (arith, same, other_id))))
      ]

  spared_active :
      (p : Session → Bool) (q : Result Session) (se : Session)
      → map_result (revoked p) q ≡ ok se
      → se.active ≡ true
      → (q ≡ ok se) × (p se ≡ false)
  spared_active p (err e) se h k = absurd (err-ne-ok h)
  spared_active p (ok x) se h k = elim (Bool-cases (p x)) [
    | inl fits ↦
        absurd (true-ne-false (sym k ∙ sym (ap (λ y. y.active) (ok-injective (rw fits at h)))))
    | inr spares ↦
        let same : x ≡ se = ok-injective (rw spares at h) in (ap ok same, rw (← same) spares)
  ]

  without_fault :
      (fault : Option Err) (nid : ℕ) (token : String) (table : List Session) (se : Session)
      → get_session_by_token E.get_identity fault nid token table ≡ ok se
      → get_session_by_token E.get_identity none nid token table ≡ ok se
  unfolding get_session_by_token
  without_fault none nid token table se h = h
  without_fault (some e) nid token table se h = absurd (err-ne-ok h)

  own_id :
      (s se : Session)
      → is_other E.nid s.identity_id s.id se ≡ false
      → se.nid ≡ E.nid
      → se.identity_id ≡ s.identity_id
      → se.id ≡ s.id
  own_id s se spares of_nid owner = ground arith

  -- After the revocation of all others but `s`, a session of its identity is `s`.
  only_own :
      (s : Session) (table table' : List Session) (r' : Request) (s' : Session)
      → Revokes (is_other E.nid s.identity_id s.id) table table'
      → fetch_from_request E table' r' ≡ ok s'
      → s'.identity_id ≡ s.identity_id
      → s'.id ≡ s.id
  unfolding Revokes
  only_own s table table' r' s' all h same =
      let p = is_other E.nid s.identity_id s.id in
      let token = extract_token E r' in
      let (se, found, active, back, _) = fetch_from_request_row E table' r' h in
      let found' = without_fault E.get_fault E.nid token table' se found in
      let (before, spares) = spared_active p _ se (sym (all E.nid token) ∙ found') active in
      let (_, of_nid) = get_session_by_token-eq-ok E.get_identity none E.nid token table before in
      let (same_id, same_owner) = fetched_ids se back in
      same_id ∙ own_id s se spares of_nid (sym same_owner ∙ same)

module _ (E : Env) (C : Params) where
  -- Revoking a session by its id never ends the caller's own: whatever id is asked for, and whatever
  -- the answer, the same request obtains from the table that is left what it obtained before.
  pub revoke_one_session-fetch :
      (table : List Session) (r : Request) (sid : String)
      → fetch_from_request E (revoke_one_session E C table r sid).table r
        ≡ fetch_from_request E table r
  unfolding revoke_one_session
  revoke_one_session-fetch table r sid = elim (Bool-cases (sid == "whoami")) [
    | inl special ↦ rw (special, revoke_one_session) refl
    | inr plain ↦ elim (Result-cases (fetch_from_request E table r)) [
      | inr (e, refused) ↦ rw (plain, revoke_one_session, refused) refused
      | inl (s, fetched) ↦
          rw (plain, revoke_one_session) (rw fetched (by_id (C.parse_uuid sid) s fetched ∙ fetched))
    ]
  ]
    where
      by_id :
          (id : Option ℕ) (s : Session)
          → fetch_from_request E table r ≡ ok s
          → fetch_from_request E (revoke_by_id E C table s id).table r
            ≡ fetch_from_request E table r
      by_id none s fetched = refl
      by_id (some session_id) s fetched = elim (Bool-cases (session_id == s.id)) [
        | inl own ↦ rw own refl
        | inr other_id ↦ rw other_id (elim (Option-cases s.identity) [
          | inl missing ↦ rw missing refl
          | inr (i, known) ↦ rw known (
              revoke_spares E E.revoke_fault i.id session_id table r s _ (λ t. refl) fetched
                other_id)
        ])
      ]

  refused_reply :
      (table : List Session) (r : Request) (s : Session) (e : Err)
      → fetch_from_request E table r ≡ ok s
      → revoke_sessions_identity_except E.revoke_fault E.nid s.identity_id s.id table ≡ err e
      → (revoke_sessions E C table r).reply ≡ failed e
  unfolding revoke_sessions
  refused_reply table r s e fetched bad = rw (fetched, revoke_sessions, bad) refl

  revoked_table :
      (table : List Session) (r : Request) (s : Session) (table' : List Session) (n : ℕ)
      → fetch_from_request E table r ≡ ok s
      → revoke_sessions_identity_except E.revoke_fault E.nid s.identity_id s.id table
        ≡ ok (table', n)
      → (revoke_sessions E C table r).table ≡ table'
  unfolding revoke_sessions
  revoked_table table r s table' n fetched done = rw (fetched, revoke_sessions, done) refl

  -- "Log out everywhere else": once it has answered with a count, the caller's request obtains what
  -- it obtained before, and every request that still obtains a session of the same identity obtains
  -- the caller's own.
  pub revoke_sessions-fetch :
      (table : List Session) (r : Request) (s : Session) (n : ℕ)
      → fetch_from_request E table r ≡ ok s
      → (revoke_sessions E C table r).reply ≡ wrote_count n
      → (fetch_from_request E (revoke_sessions E C table r).table r ≡ ok s)
        × ((r' : Request) (s' : Session)
            → fetch_from_request E (revoke_sessions E C table r).table r' ≡ ok s'
            → s'.identity_id ≡ s.identity_id
            → s'.id ≡ s.id)
  revoke_sessions-fetch table r s n fetched replied =
      elim (Result-cases
        (revoke_sessions_identity_except E.revoke_fault E.nid s.identity_id s.id table)) [
          | inr (e, bad) ↦
              absurd (failed-ne-count (sym (refused_reply table r s e fetched bad) ∙ replied))
          | inl ((table', n'), done) ↦ rw (revoked_table table r s table' n' fetched done) (
            fetch_spared E (is_other E.nid s.identity_id s.id) table table' r fetched
                  (others_revoked E E.revoke_fault s.identity_id s.id table table' n' done)
                  (λ se same. ground (arith, same))
                ∙ fetched,
            λ r' s' h same.
                only_own E s table table' r' s'
                  (others_revoked E E.revoke_fault s.identity_id s.id table table' n' done) h same,
          )
        ]
