-- ===== src/Session/Api/Whoami.antt =====
-- Whom "whoami" answers.
use mathlib.Core.Path.{subst}
use mathlib.Core.Option.{some-injective}
use kratos.Identity.{is_active, copy_without_credentials}
use kratos.Session.Api.{is_aal_error}
use kratos.Base.{
  ◌≡◌, refl, sym, ap, ◌∙◌, Bool, true, false, List, if◌then◌else◌, string_eq, Bool-cases,
  Result-cases, inl, inr,
}
use kratos.Base.{Result, ok, err, Err, err-ne-ok, aal_not_satisfied, text_ge}
use kratos.Http.{Request}
use kratos.Identity.{Identity}
use kratos.Identity.Aal.{determine_aal}
use kratos.Session.{Session, methods, declassify, set_authenticator_assurance_level}
use kratos.Session.Manager.{
  Env, fetch_from_request, does_session_satisfy, extract_token, highest_available, types_of,
}
use kratos.Session.Manager.Fetch.{IsUsable, fetch_from_request-IsUsable, declassify_cases}
use kratos.Session.Manager.Aal.{is_enough, highest_available_lem}
use kratos.Session.Api.{Params, whoami, aal_reply, wrote, unauthorized, failed}

unauthorized-ne-wrote : {e : Err} {s : Session} → unauthorized e ≡ wrote s → ⊥
unauthorized-ne-wrote h = cc

failed-ne-wrote : {e : Err} {s : Session} → failed e ≡ wrote s → ⊥
failed-ne-wrote h = cc

wrote-injective : {s t : Session} → wrote s ≡ wrote t → s ≡ t
wrote-injective h = cc

refused-ne-wrote :
    (e : Err) (s : Session) → (if is_aal_error e then failed e else unauthorized e) ≡ wrote s → ⊥
refused-ne-wrote e s h = elim (Bool-cases (is_aal_error e)) [
  | inl aal ↦ failed-ne-wrote (rw aal at h)
  | inr plain ↦ unauthorized-ne-wrote (rw plain at h)
]

-- A session is written only if it satisfies the level and has an identity.
aal_reply-eq-wrote :
    (shown : Result Session) (answer : Result (Unit {0})) (s : Session)
    → aal_reply shown answer ≡ wrote s
    → (shown ≡ ok s) × (answer ≡ ok tt)
aal_reply-eq-wrote (ok s0) (ok _) s h = (ap ok (wrote-injective h), refl)
aal_reply-eq-wrote (err e) (ok _) s h = absurd (failed-ne-wrote h)
aal_reply-eq-wrote (ok s0) (err e) s h = absurd (refused-ne-wrote e s h)
aal_reply-eq-wrote (err e0) (err e) s h = absurd (refused-ne-wrote e s h)

passed :
    (b : Bool) (e : Err)
    → (if◌then◌else◌ {A = Result (Unit {0})} b (ok tt) (err e)) ≡ ok tt
    → b ≡ true
passed true e h = refl
passed false e h = absurd (err-ne-ok h)

if-first :
    (b : Bool) (s : Session) (x y : Session × Result (Unit {0}))
    → x.0 ≡ s
    → y.0 ≡ s
    → (if b then x else y).0 ≡ s
if-first true s x y h k = h
if-first false s x y h k = k

module _ (E : Env) (C : Params) where
  satisfying :
      (s : Session)
      → (does_session_satisfy E s highest_available).0 ≡ set_authenticator_assurance_level s
  unfolding does_session_satisfy
  satisfying s = go (E.get_identity_confidential (set_authenticator_assurance_level s).identity_id)
    where
      go :
          (q : Result Identity)
          → (elim q as (λ _. Session × Result (Unit {0})) [
            | err e ↦ (set_authenticator_assurance_level s, err e)
            | ok i ↦
                if text_ge
                  (set_authenticator_assurance_level s).authenticator_assurance_level
                  (determine_aal (types_of E i))
                then (set_authenticator_assurance_level s, ok tt)
                else (
                  set_authenticator_assurance_level s,
                  err (aal_not_satisfied E.login_browser_url),
                )
          ]).0
            ≡ set_authenticator_assurance_level s
      go (err e) = refl
      go (ok i) =
          if-first
            (text_ge (set_authenticator_assurance_level s).authenticator_assurance_level
              (determine_aal (types_of E i)))
            _ _ _ refl refl

  -- The level of a session plays no part in what it is good for.
  levelled-IsUsable :
      (s : Session) {s' : Session}
      → IsUsable E.now s
      → declassify (set_authenticator_assurance_level s) ≡ ok s'
      → IsUsable E.now s'
        × (s'.token ≡ s.token)
        × (methods s' ≡ methods s)
        × (s'.identity_id ≡ s.identity_id)
  unfolding set_authenticator_assurance_level copy_without_credentials is_active
  levelled-IsUsable s u h =
      let (i, known, same) = declassify_cases E (set_authenticator_assurance_level s) h in
      let (i0, known0, _, live) = u.declassified in
      let same_i : i0 ≡ i = some-injective _ _ (sym known0 ∙ known) in
      rw (← same) (
        record {
          active = u.active;
          unexpired = u.unexpired;
          declassified = (copy_without_credentials i, refl, refl, rw (← same_i) live);
        },
        refl,
        refl,
        refl,
      )

  -- With the level "highest_available" configured, "whoami" writes a session only to a request that
  -- presents its token, and the session is active, unexpired, of an active identity, without
  -- credentials, and has used a second factor if the identity has both, and a first if it has one.
  pub whoami-IsUsable :
      (table : List Session) (r : Request) (s : Session) (i : Identity)
      → C.whoami_aal ≡ highest_available
      → whoami E C table r ≡ wrote s
      → E.get_identity_confidential s.identity_id ≡ ok i
      → IsUsable E.now s
        × (s.token ≡ extract_token E r)
        × (is_enough (types_of E i) (methods s) ≡ true)
  unfolding whoami
  whoami-IsUsable table r s i level h known = elim (Result-cases (fetch_from_request E table r)) [
    | inr (e, refused) ↦ absurd (unauthorized-ne-wrote (rw (refused, whoami) at h))
    | inl (s0, fetched) ↦
        let (shown, satisfied) = aal_reply-eq-wrote _ _ s (rw (fetched, whoami) at h) in
        let of_level = satisfying s0 in
        let shown0 = subst (λ x. declassify x ≡ ok s) of_level (rw level at shown) in
        let (usable0, token0, _, _) = fetch_from_request-IsUsable E table r fetched in
        let (usable, token, same_methods, owner) = levelled-IsUsable s0 usable0 shown0 in
        let enough =
          sym (highest_available_lem E s0 i (rw (← owner) known)) ∙ rw level at satisfied in
        (usable, token ∙ token0, rw same_methods (passed _ _ enough))
  ]
