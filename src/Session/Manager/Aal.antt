-- ===== src/Session/Manager/Aal.antt =====
-- What DoesSessionSatisfy promises of a session's assurance level.
use kratos.Base.{unknown_aal, ◌≡◌, refl, String, Bool, true, false, ◌&&◌, List, any}
use kratos.Base.{if◌then◌else◌, text_ge, Result, ok, err, aal_not_satisfied}
use kratos.Identity.{Identity}
use kratos.Identity.Aal.{
  determine_aal, determine_aal_lem, is_first_factor, is_second_factor, aal1, aal2, no_aal,
}
use kratos.Session.{Session, methods, set_authenticator_assurance_level}
use kratos.Session.Manager.{Env, does_session_satisfy, types_of, highest_available}

-- The order of the strings is the order of the ranks, on levels that DetermineAAL gives.
text_ge_levels :
    (p q p' q' : Bool)
    → text_ge
        (if p then (if q then aal2 else aal1) else no_aal)
        (if p' then (if q' then aal2 else aal1) else no_aal)
      ≡ (if p' then (if q' then p && q else p) else true)
text_ge_levels true true true true = refl
text_ge_levels true true true false = refl
text_ge_levels true true false q = refl
text_ge_levels true false true true = refl
text_ge_levels true false true false = refl
text_ge_levels true false false q = refl
text_ge_levels false q true true = refl
text_ge_levels false q true false = refl
text_ge_levels false q false q' = refl

abbrev pub has_first : List String → Bool
has_first cts = any is_first_factor cts

abbrev pub has_second : List String → Bool
has_second cts = any is_second_factor cts

-- What a set of credentials asks of the methods of a session.
abbrev pub is_enough : (available used : List String) → Bool
is_enough available used =
    if has_first available
    then (if has_second available then has_first used && has_second used else has_first used)
    else true

text_ge-determine_aal :
    (used available : List String)
    → text_ge (determine_aal used) (determine_aal available) ≡ is_enough available used
text_ge-determine_aal used available =
    rw (determine_aal_lem used) (rw (determine_aal_lem available) (text_ge_levels _ _ _ _))

text_ge-aal1 : (p q : Bool) → text_ge (if p then (if q then aal2 else aal1) else no_aal) aal1 ≡ p
text_ge-aal1 true true = refl
text_ge-aal1 true false = refl
text_ge-aal1 false q = refl

if-second :
    (b : Bool) (s : Session) (x y : Result (Unit {0}))
    → (if◌then◌else◌ {A = Session × Result (Unit {0})} b (s, x) (s, y)).1 ≡ (if b then x else y)
if-second true s x y = refl
if-second false s x y = refl

module _ (E : Env) where
  -- "highest_available", for an identity that the pool has: the session passes exactly when it used
  -- a first factor, if the identity has one, and a second factor too, if the identity has both. The
  -- level that is stored with the session plays no part. Where it fails, the error sends the browser
  -- to the login for the second factor.
  pub highest_available_lem :
      (s : Session) (i : Identity)
      → E.get_identity_confidential s.identity_id ≡ ok i
      → (does_session_satisfy E s highest_available).1 ≡ (
          if is_enough (types_of E i) (methods s)
          then ok tt
          else err (aal_not_satisfied E.login_browser_url))
  unfolding does_session_satisfy set_authenticator_assurance_level
  highest_available_lem s i found =
      rw (found, does_session_satisfy)
        (rw (text_ge-determine_aal (methods s) (types_of E i)) (rw if-second))

  -- "aal1": the session passes exactly when one of its methods is a first factor.
  pub aal1_lem :
      (s : Session)
      → (does_session_satisfy E s aal1).1
        ≡ (if has_first (methods s) then ok tt else err (unknown_aal aal1))
  unfolding does_session_satisfy set_authenticator_assurance_level
  aal1_lem s =
      rw (determine_aal_lem (methods s))
        (rw (text_ge-aal1 (has_first (methods s)) (has_second (methods s))) (rw if-second))
