-- ===== src/Session/Manager/Fetch.antt =====
-- Which sessions a request obtains, and that a purged session is obtained no more.
use kratos.Base.{
  sym, ◌∙◌, Result-cases, Option-cases, Bool-cases, inl, inr, err-ne-ok, ok-injective, [], ℕ, ◌<◌,
  ◌≡◌, refl, ◌≢◌, true, false, List, some, arith,
}
use kratos.Base.{◌==◌, nat_eq, string_eq, ok, err, Err}
use kratos.Http.{Request}
use kratos.Identity.{Identity, is_active as is_active_identity, copy_without_credentials}
use kratos.Session.{Session, is_active, declassify}
use kratos.Session.Persister.{get_session_by_token}
use kratos.Session.Persister.Laws.{get_session_by_token-eq-ok}
use kratos.Session.Manager.{Env, extract_token, fetch_session, fetch_from_request}

-- What a fetched session is good for.
pub record IsUsable (now : ℕ) (s : Session) : Type 0 where
  pub active : s.active ≡ true
  pub unexpired : now < s.expires_at
  pub declassified :
      (i : Identity) × (s.identity ≡ some i) × (i.credentials ≡ []) × (is_active_identity i ≡ true)

pub true-ne-false : true ≡ false → ⊥
true-ne-false h = cc

module _ (E : Env) where
  fetch_session_failed : (e : Err) {s : Session} → fetch_session E (err e) ≡ ok s → ⊥
  unfolding fetch_session
  fetch_session_failed e h = ground arith

  pub declassify_cases :
      (se : Session) {s : Session}
      → declassify se ≡ ok s
      → (i : Identity) × (se.identity ≡ some i)
        × (record se { identity = some (copy_without_credentials i) } ≡ s)
  unfolding declassify
  declassify_cases se h = elim (Option-cases se.identity) [
    | inl missing ↦ absurd (err-ne-ok (rw (missing, declassify) at h))
    | inr (i, known) ↦ (i, known, ok-injective (rw (known, declassify) at h))
  ]

  is_active_parts :
      (now : ℕ) (se : Session) (i : Identity)
      → se.identity ≡ some i
      → is_active now se ≡ true
      → (se.active ≡ true) × (now < se.expires_at) × (is_active_identity i ≡ true)
  unfolding is_active
  is_active_parts now se i known h = ground (arith)

  active_of : (se : Session) → is_active E.now se ≡ true → se.active ≡ true
  unfolding is_active
  active_of se h = ground arith

  fetched_active : (se : Session) {s : Session} → fetch_session E (ok se) ≡ ok s → se.active ≡ true
  unfolding fetch_session is_active
  fetched_active se h = elim (Bool-cases (is_active E.now se)) [
    | inr inactive ↦ absurd (err-ne-ok (rw (inactive, fetch_session) at h))
    | inl live ↦ active_of se live
  ]

  fetch_session-IsUsable :
      (se : Session) {s : Session}
      → fetch_session E (ok se) ≡ ok s
      → IsUsable E.now s × (s.token ≡ se.token) × (s.nid ≡ se.nid)
  unfolding fetch_session copy_without_credentials is_active_identity
  fetch_session-IsUsable se h = elim (Bool-cases (is_active E.now se)) [
    | inr inactive ↦ absurd (err-ne-ok (rw (inactive, fetch_session) at h))
    | inl live ↦
        let (i, known, same) = declassify_cases se (rw (live, fetch_session) at h) in
        let (active, unexpired, fine) = is_active_parts E.now se i known live in
        rw (← same) (
          record {
            active = active;
            unexpired = unexpired;
            declassified = (copy_without_credentials i, refl, refl, fine);
          },
          refl,
          refl,
        )
  ]

  -- The row behind a session that a request obtains is active.
  pub fetch_from_request_row :
      (table : List Session) (r : Request) {s : Session}
      → fetch_from_request E table r ≡ ok s
      → (se : Session) × (get_session_by_token E.get_identity E.get_fault E.nid
            (extract_token E r)
            table
          ≡ ok se)
        × (se.active ≡ true)
        × (fetch_session E (ok se) ≡ ok s)
        × ((extract_token E r == "") ≡ false)
  unfolding fetch_from_request
  fetch_from_request_row table r h =
      let token = extract_token E r in
      let answer = get_session_by_token E.get_identity E.get_fault E.nid token table in
      elim (Bool-cases (token == "")) [
        | inl empty ↦ absurd (err-ne-ok (rw (empty, fetch_from_request) at h))
        | inr given ↦
            let h' : fetch_session E answer ≡ ok _ = rw (given, fetch_from_request) at h in
            elim (Result-cases answer) [
              | inr (e, failed) ↦ absurd (fetch_session_failed e (rw failed at h'))
              | inl (se, found) ↦
                  let back = rw found at h' in (se, found, fetched_active se back, back, given)
            ]
      ]

  -- Every session that a request obtains is active, unexpired, of an identity that is active and
  -- is handed out without credentials, and the token of its row is the one that the request
  -- presents, in the network of the request.
  pub fetch_from_request-IsUsable :
      (table : List Session) (r : Request) {s : Session}
      → fetch_from_request E table r ≡ ok s
      → IsUsable E.now s
        × (s.token ≡ extract_token E r)
        × (s.nid ≡ E.nid)
        × (extract_token E r ≢ "")
  fetch_from_request-IsUsable table r h =
      let (se, found, _, back, given) = fetch_from_request_row table r h in
      let (usable, same_token, same_nid) = fetch_session-IsUsable se back in
      let (of_token, of_nid) =
        get_session_by_token-eq-ok E.get_identity E.get_fault E.nid (extract_token E r) table
          found in
      (
        usable,
        same_token ∙ of_token,
        same_nid ∙ of_nid,
        λ none_given.
            true-ne-false (sym ((string_eq.beq_iff (extract_token E r) "").1 none_given) ∙ given),
      )
