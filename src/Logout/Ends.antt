-- ===== src/Logout/Ends.antt =====
-- What a logout that reports success has done.
use kratos.Base.{err, Result, ◌==◌, string_eq, Bool-cases, Result-cases, some, inr, inl, sym}
use kratos.Base.{refl, ◌≡◌, ok, List, false, true, Bool}
use mathlib.Core.Path.{subst}
use kratos.Http.{Request}
use kratos.Session.{Session}
use kratos.Session.Manager.{Env, fetch_from_request, purge_from_request, extract_token}
use kratos.Session.Manager.Purge.{purged_token, purge_ends_session}
use kratos.Logout.{Params, Reply, submit_logout, finished, no_content, redirected}

-- The reply of a logout that succeeded.
abbrev pub is_success : Reply → Bool
is_success no_content = true
is_success (redirected url) = true
is_success _ = false

true-ne-false : false ≡ true → ⊥
true-ne-false h = cc

module _ (E : Env) (C : Params) where
  finished_ok :
      (r : Request) (x : Result (Unit {0})) → is_success (finished E C r x) ≡ true → x ≡ ok tt
  finished_ok r (ok u) h = refl
  finished_ok r (err e) h = absurd (true-ne-false h)

  -- The session of a logout that succeeded, and the purge that it did.
  succeeded :
      (table : List Session) (r : Request)
      → is_success (submit_logout E C table r).reply ≡ true
      → (s : Session) × (fetch_from_request E table r ≡ ok s)
        × (s.logout_token ≡ C.token)
        × ((C.token == "") ≡ false)
        × ((submit_logout E C table r).table ≡ (purge_from_request E table r).table)
        × ((purge_from_request E table r).result ≡ ok tt)
  unfolding submit_logout
  succeeded table r success = elim (Bool-cases (C.token == "")) [
    | inl missing ↦ absurd (true-ne-false (rw (submit_logout, missing) at success))
    | inr given ↦ elim (Result-cases (fetch_from_request E table r)) [
      | inr (e, refused) ↦ absurd (true-ne-false (rw (submit_logout, given, refused) at success))
      | inl (s, fetched) ↦ elim (Bool-cases (s.logout_token == C.token)) [
        | inr differs ↦
            absurd (true-ne-false (rw (submit_logout, given, fetched, differs) at success))
        | inl matches ↦ (
          s,
          fetched,
          (string_eq.beq_iff s.logout_token C.token).0 matches,
          given,
          rw (submit_logout, given, fetched, matches) refl,
          finished_ok r (purge_from_request E table r).result
              (rw (submit_logout, given, fetched, matches) at success),
        )
      ]
    ]
  ]

  -- A logout succeeds only for a request that obtains a session, and only with the logout token of
  -- that session, which is not empty. When the bearer token or the cookie that is purged is the token
  -- that the request presents, the same request obtains no session afterwards.
  pub submit_logout_ends_session :
      (table : List Session) (r : Request)
      → is_success (submit_logout E C table r).reply ≡ true
      → ((s : Session) × (fetch_from_request E table r ≡ ok s)
          × (s.logout_token ≡ C.token)
          × ((C.token == "") ≡ false))
        × (purged_token E r ≡ some (extract_token E r)
            → (s : Session) → ¬ (fetch_from_request E (submit_logout E C table r).table r ≡ ok s))
  submit_logout_ends_session table r success =
      let (s, fetched, same, given, purged_table, done) = succeeded table r success in
      (
        (s, fetched, same, given),
        λ presented t.
            subst (λ x. ¬ (fetch_from_request E x r ≡ ok t)) (sym purged_table)
              (purge_ends_session E table r presented done t),
      )
