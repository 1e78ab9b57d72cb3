-- ===== src/Session/Manager/Purge.antt =====
-- A purged session is obtained no more.
use mathlib.Core.Option.{some-injective, none-ne-some}
use kratos.Base.{Bool-cases, Bool, arith, Result, none, Option, String, ap}
use kratos.Base.{
  sym, ◌∙◌, Option-cases, inl, inr, err-ne-ok, ok-injective, ℕ, ◌≡◌, refl, true, false, List, some,
}
use kratos.Base.{nat_eq, string_eq, ok, err, Err}
use kratos.Http.{bearer_token_from_request, Request}
use kratos.Session.{Session}
use kratos.Session.Persister.{get_session_by_token, revoke_session_by_token, has_token}
use kratos.Session.Persister.Laws.{
  get_session_by_token-eq-ok, revoke_session_by_token_lem, map_result, revoked,
}
use kratos.Session.Manager.{
  revoke_cookie, revoke_bearer, purge_from_request, Env, extract_token, fetch_from_request,
}
use kratos.Session.Manager.Fetch.{fetch_from_request_row, true-ne-false}

-- A bearer token, or else the cookie's.
abbrev purged_by : Option String → Option (Option String) → Option String
purged_by (some token) _ = some token
purged_by none (some (some token)) = some token
purged_by none (some none) = none
purged_by none none = none

has_token_refl :
    (nid : ℕ) (token : String) (s : Session)
    → s.token ≡ token
    → s.nid ≡ nid
    → has_token nid token s ≡ true
has_token_refl nid token s h k = ground (arith, string_eq.beq_iff s.token token)

revoked_inactive : (p : Session → Bool) (s : Session) → p s ≡ true → (revoked p s).active ≡ false
revoked_inactive p s h = rw h

revoked_same :
    (p : Session → Bool) (s : Session)
    → ((revoked p s).token ≡ s.token) × ((revoked p s).nid ≡ s.nid)
revoked_same p s = elim (Bool-cases (p s)) [ inl h ↦ rw h (refl, refl) | inr h ↦ rw h (refl, refl) ]

map_result-eq-ok :
    (f : Session → Session) (q : Result Session) {s : Session}
    → map_result f q ≡ ok s
    → (s0 : Session) × (q ≡ ok s0) × (f s0 ≡ s)
map_result-eq-ok f (ok s0) h = (s0, refl, ok-injective h)
map_result-eq-ok f (err e) h = absurd (err-ne-ok h)

module _ (E : Env) where
  -- The token that a purge takes from a request: a bearer token, or the cookie's. It does not look
  -- at the headers X-Session-Token and X-Session-Cookie, which a fetch prefers.
  abbrev pub purged_token : Request → Option String
  purged_token r = purged_by (bearer_token_from_request r) (E.decode_cookie r.cookie).session

  revoke_bearer_ok :
      (table : List Session) (q : Result (List Session))
      → (revoke_bearer E table q).result ≡ ok tt
      → q ≡ ok (revoke_bearer E table q).table
  unfolding revoke_bearer
  revoke_bearer_ok table (ok table') h = refl
  revoke_bearer_ok table (err e) h = absurd (err-ne-ok h)

  revoke_cookie_ok :
      (table : List Session) (q : Result (List Session))
      → (revoke_cookie E table q).result ≡ ok tt
      → q ≡ ok (revoke_cookie E table q).table
  unfolding revoke_cookie
  revoke_cookie_ok table (ok table') h = elim (Option-cases E.save_fault) [
    | inl saved ↦ rw (saved, revoke_cookie)
    | inr (e, unsaved) ↦ absurd (err-ne-ok (rw (unsaved, revoke_cookie) at h))
  ]
  revoke_cookie_ok table (err e) h = absurd (err-ne-ok h)

  purge_by_cookie :
      (table : List Session) (r : Request) (token : String) (c : Option (Option String))
      → bearer_token_from_request r ≡ none
      → (E.decode_cookie r.cookie).session ≡ c
      → purged_by none c ≡ some token
      → (purge_from_request E table r).result ≡ ok tt
      → revoke_session_by_token E.revoke_fault E.nid token table
        ≡ ok (purge_from_request E table r).table
  unfolding purge_from_request
  purge_by_cookie table r token none no_bearer cookie p h = absurd (none-ne-some token p)
  purge_by_cookie table r token (some none) no_bearer cookie p h = absurd (none-ne-some token p)
  purge_by_cookie table r token (some (some t)) no_bearer cookie p h =
      let same : t ≡ token = some-injective _ _ p in
      rw (no_bearer, cookie, purge_from_request)
        (rw (← same) (
          revoke_cookie_ok table (revoke_session_by_token E.revoke_fault E.nid t table)
            (rw (no_bearer, cookie, purge_from_request) at h)))

  purge_revokes :
      (table : List Session) (r : Request) (token : String)
      → purged_token r ≡ some token
      → (purge_from_request E table r).result ≡ ok tt
      → revoke_session_by_token E.revoke_fault E.nid token table
        ≡ ok (purge_from_request E table r).table
  unfolding purge_from_request
  purge_revokes table r token p h = elim (Option-cases (bearer_token_from_request r)) [
    | inr (t, bearer) ↦
        let same : t ≡ token = some-injective _ _ (rw bearer at p) in
        rw (bearer, purge_from_request)
          (rw (← same) (
            revoke_bearer_ok table (revoke_session_by_token E.revoke_fault E.nid t table)
              (rw (bearer, purge_from_request) at h)))
    | inl no_bearer ↦
        purge_by_cookie table r token (E.decode_cookie r.cookie).session no_bearer refl
          (rw no_bearer at p) h
  ]

  revoked_row :
      (nid : ℕ) (token : String) (table table' : List Session) (fault fault' : Option Err)
      {se : Session}
      → revoke_session_by_token fault nid token table ≡ ok table'
      → get_session_by_token E.get_identity fault' nid token table' ≡ ok se
      → se.active ≡ false
  unfolding revoke_session_by_token get_session_by_token
  revoked_row nid token table table' (some e) fault' h k = absurd (err-ne-ok h)
  revoked_row nid token table table' none (some e) h k = absurd (err-ne-ok k)
  revoked_row nid token table table' none none h k =
      let lem = revoke_session_by_token_lem E.get_identity nid token table table' h nid token in
      let (s0, _, same) = map_result-eq-ok (revoked (has_token nid token)) _ (sym lem ∙ k) in
      let (of_token, of_nid) = get_session_by_token-eq-ok E.get_identity none nid token table' k in
      let (t, n) = revoked_same (has_token nid token) s0 in
      rw (← same) (
        revoked_inactive (has_token nid token) s0 (
          has_token_refl nid token s0 (sym t ∙ ap (λ x. x.token) same ∙ of_token)
            (sym n ∙ ap (λ x. x.nid) same ∙ of_nid)))

  -- When a purge succeeds for a request whose bearer token or cookie is the token that a fetch
  -- takes from it, the same request obtains no session from the table that the purge leaves.
  pub purge_ends_session :
      (table : List Session) (r : Request)
      → purged_token r ≡ some (extract_token E r)
      → (purge_from_request E table r).result ≡ ok tt
      → (s : Session) → ¬ (fetch_from_request E (purge_from_request E table r).table r ≡ ok s)
  purge_ends_session table r same done s h =
      let (se, found, active, _, _) =
        fetch_from_request_row E (purge_from_request E table r).table r h in
      true-ne-false (
        sym active
        ∙ revoked_row E.nid (extract_token E r) table _ E.revoke_fault E.get_fault
            (purge_revokes table r (extract_token E r) same done) found)
