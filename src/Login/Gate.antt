-- ===== src/Login/Gate.antt =====
-- NewLoginFlow of selfservice/flow/login/handler.go: which login flows are created, and which
-- sessions may submit them.
use kratos.Base.{◌≡◌, refl, Bool, true, false, ◌||◌, Option, List, [], ◌∷◌}
use kratos.Base.{
  if◌then◌else◌, ◌==◌, string_eq, text_lt, text_ge, Result, ok, err, Err, ◌>>=◌, ◌>>◌, check,
}
use kratos.Base.{no_active_session, session_required_for_higher_aal, already_logged_in, bad_request}
use kratos.Base.{arith, Bool-cases, Result-cases, inl, inr, err-ne-ok, ok-injective, ◌⊎◌}
use kratos.Base.{ap}
use kratos.Identity.Aal.{aal1, aal2}
use kratos.Session.{Session}
use kratos.Login.{Flow}

-- errors.As(err, &ErrNoActiveSessionFound{})
abbrev pub is_no_active_session : Err → Bool
is_no_active_session no_active_session = true
is_no_active_session _ = false

-- An empty level means aal1, and any level but aal1 and aal2 is refused.
unfoldable pub with_aal : Flow → Result Flow
with_aal f =
    let g = if f.requested_aal == "" then record f { requested_aal = aal1 } else f in
    if g.requested_aal == aal1
    then ok (record g { requested_aal = aal1 })
    else if g.requested_aal == aal2
    then ok (record g { requested_aal = aal2 })
    else err (bad_request "Unable to parse AuthenticationMethod Assurance Level (AAL)")

-- The switch on the session of the request.
unfoldable pub may_create : Result Session → Flow → Result (Unit {0})
may_create (err e) f =
    if is_no_active_session e
    then (if text_lt aal1 f.requested_aal then err session_required_for_higher_aal else ok tt)
    else err e
may_create (ok sess) f =
    if f.refresh
    then ok tt
    else if f.requested_aal == aal1
    then err already_logged_in
    else if text_ge sess.authenticator_assurance_level f.requested_aal
    then err already_logged_in
    else ok tt

-- The loops over the strategies and hooks, each of which may refuse the flow.
run_all : List (Flow → Option Err) → Flow → Result (Unit {0})
run_all [] f = ok tt
run_all (s ∷ steps) f = check (s f) >> run_all steps f

unfoldable pub populate :
    (strategies : List (Flow → Option Err))
    → Option Err
    → (hooks : List (Flow → Option Err)) → Option Err
    → Flow
    → Result (Unit {0})
unfolding run_all
populate strategies sort_fault hooks create_fault f = do
  run_all strategies f
  check sort_fault
  run_all hooks f
  check create_fault

-- `new_flow` is what NewFlow gives for the request, and `populated` the error, if there is one, of
-- what follows the switch.
unfoldable pub new_login_flow :
    Result Flow
    → Result Session
    → (Flow → Result (Unit {0}))
    → List Flow
    → Result (Flow × List Flow)
new_login_flow new_flow fetched populated table = do
  f0 ← new_flow
  f ← with_aal f0
  may_create fetched f
  populated f
  ok (f, f ∷ table)

-- The switch of submitFlow on the session of the request: the session to log in with, an error, or
-- a redirect to the default URL. `fresh` is a new inactive session.
pub data Continued : Type 0 where
  continue_with : Session → Continued
  refused : Err → Continued
  redirected : Continued

unfoldable pub may_submit : (is_json : Bool) → (fresh : Session) → Result Session → Flow → Continued
may_submit is_json fresh (ok sess) f =
    if f.refresh
    then continue_with sess
    else if text_lt sess.authenticator_assurance_level f.requested_aal
    then continue_with sess
    else if is_json || f.type == "api"
    then refused already_logged_in
    else redirected
may_submit is_json fresh (err e) f =
    if is_no_active_session e
    then (if text_lt aal1 f.requested_aal
        then refused session_required_for_higher_aal
        else continue_with fresh)
    else refused e

abbrev pub session_of : Session → Result Session → Session
session_of fresh (ok sess) = sess
session_of fresh (err e) = fresh

gates_agree :
    (is_json : Bool) (fresh : Session) (fetched : Result Session) (f : Flow)
    → may_create fetched f ≡ ok tt
    → may_submit is_json fresh fetched f ≡ continue_with (session_of fresh fetched)
unfolding may_create may_submit
gates_agree is_json fresh (ok sess) f h = ground arith
gates_agree is_json fresh (err e) f h = ground arith

no_higher : (e : Err) (f : Flow) → f.requested_aal ≡ aal2 → may_create (err e) f ≡ ok tt → ⊥
unfolding may_create
no_higher e f two h = elim (Bool-cases (is_no_active_session e)) [
  | inl none_active ↦ err-ne-ok (rw (none_active, may_create, two) at h)
  | inr other ↦ err-ne-ok (rw (other, may_create) at h)
]

with_aal-level :
    (f0 : Flow) {f : Flow}
    → with_aal f0 ≡ ok f
    → (f.requested_aal ≡ aal1) ⊎ (f.requested_aal ≡ aal2)
unfolding with_aal
with_aal-level f0 h = ground arith

created :
    (new_flow : Result Flow) (fetched : Result Session) (populated : Flow → Result (Unit {0}))
    (table : List Flow) {f : Flow} {table' : List Flow}
    → new_login_flow new_flow fetched populated table ≡ ok (f, table')
    → (f0 : Flow) × (with_aal f0 ≡ ok f) × (may_create fetched f ≡ ok tt)
unfolding new_login_flow
created (err e) fetched populated table h = absurd (err-ne-ok h)
created (ok f0) fetched populated table {f} h = elim (Result-cases (with_aal f0)) [
  | inr (e, bad) ↦ absurd (err-ne-ok (rw (bad, new_login_flow) at h))
  | inl (f1, levelled) ↦ elim (Result-cases (may_create fetched f1)) [
    | inr (e, bad) ↦ absurd (err-ne-ok (rw (levelled, new_login_flow, bad) at h))
    | inl (_, admitted) ↦ elim (Result-cases (populated f1)) [
      | inr (e, bad) ↦ absurd (err-ne-ok (rw (levelled, new_login_flow, admitted, bad) at h))
      | inl (_, fine) ↦
          let same : f1 ≡ f =
            ap (λ x. x.0) (ok-injective (rw (levelled, new_login_flow, admitted, fine) at h)) in
          (f0, rw (← same) levelled, rw (← same) admitted)
    ]
  ]
]

-- A login flow that was created is for level aal1 or aal2, and its submission with the same session
-- is not turned away by the switch on the session: it continues with that session, or with a fresh
-- one where the request has none. It is for aal2 only if the request has an active session.
pub new_login_flow-may_submit :
    (new_flow : Result Flow) (fetched : Result Session) (populated : Flow → Result (Unit {0}))
    (table : List Flow) {f : Flow} {table' : List Flow}
    → new_login_flow new_flow fetched populated table ≡ ok (f, table')
    → (is_json : Bool) (fresh : Session)
    → ((f.requested_aal ≡ aal1)
        ⊎ ((f.requested_aal ≡ aal2) × (sess : Session) × (fetched ≡ ok sess)))
      × (may_submit is_json fresh fetched f ≡ continue_with (session_of fresh fetched))
new_login_flow-may_submit new_flow fetched populated table {f} h is_json fresh =
    let (f0, levelled, admitted) = created new_flow fetched populated table h in
    (
      level_of f fetched (with_aal-level f0 levelled) admitted,
      gates_agree is_json fresh fetched f admitted,
    )
  where
    level_of :
        (f : Flow) (fetched : Result Session)
        → (f.requested_aal ≡ aal1) ⊎ (f.requested_aal ≡ aal2)
        → may_create fetched f ≡ ok tt
        → (f.requested_aal ≡ aal1)
          ⊎ ((f.requested_aal ≡ aal2) × (sess : Session) × (fetched ≡ ok sess))
    level_of f fetched (inl one) k = inl one
    level_of f (ok sess) (inr two) k = inr (two, sess, refl)
    level_of f (err e) (inr two) k = absurd (no_higher e f two k)
