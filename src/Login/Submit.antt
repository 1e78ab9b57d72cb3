-- ===== src/Login/Submit.antt =====
-- submitFlow of selfservice/flow/login/handler.go, from where the flow has been read.
use kratos.Base.{ℕ, String, not, ◌&&◌, List, [], ◌∷◌, if◌then◌else◌, ◌==◌, nat_eq, string_eq}
use kratos.Base.{
  Result, ok, err, Err, strategy_not_responsible, completed_by_strategy,
  no_login_strategy_responsible,
}
use kratos.Http.{Request}
use kratos.Identity.{Identity}
use kratos.Session.{Session, completed_login_for}
use kratos.Session.Manager.{Env, fetch_from_request}
use kratos.Login.{Flow, valid}
use kratos.Login.Gate.{may_submit, continue_with, refused, redirected}
use kratos.Login.Hook.{Config, Hooked, Response, post_login_hook}

-- A strategy works on the state of the other components, here unknown, and on the flow.
pub record Strategy (W : Type 0) : Type 0 where
  pub id : String
  pub login :
      W → Request → Flow → Session → record { world : W; flow : Flow; result : Result Identity }

pub data Answer : Type 0 where
  not_responsible completed : Answer
  failed : Err → Answer
  found : Identity → Answer

abbrev pub classify : Result Identity → Answer
classify (ok i) = found i
classify (err strategy_not_responsible) = not_responsible
classify (err completed_by_strategy) = completed
classify (err e) = failed e

-- A session of another identity is replaced by a fresh one.
unfoldable pub renewed : Session → Identity → Session → Session
renewed fresh i sess =
    if not (sess.identity_id == 0) && not (sess.identity_id == i.id) then fresh else sess

-- What the loop over the strategies ends with.
pub data Chosen : Type 0 where
  answered : Chosen
  stopped : Err → Chosen
  logged_in : Identity → Session → Chosen

-- The answer of the handler: the hook's, an error that is written, a strategy's own answer, or a
-- redirect to the default URL.
pub data Submitted : Type 0 where
  responded : Response → Submitted
  flow_error : Err → Submitted
  by_strategy : Submitted
  default_redirect : Submitted

module _ (W : Type 0) where
  abbrev pub Looped : Type 0
  Looped = record { world : W; flow : Flow; chosen : Chosen }

  unfoldable pub choose :
      (now : ℕ) → (fresh : Session) → Request → List (Strategy W) → W → Flow → Session → Looped
  choose now fresh r [] w f sess = record {
    world = w;
    flow = f;
    chosen = stopped no_login_strategy_responsible;
  }
  choose now fresh r (ss ∷ rest) w f sess =
      let out = ss.login w r f sess in
      elim (classify out.result) [
        | not_responsible ↦ choose now fresh r rest out.world out.flow sess
        | completed ↦ record { world = out.world; flow = out.flow; chosen = answered }
        | failed e ↦ record { world = out.world; flow = out.flow; chosen = stopped e }
        | found i ↦ record {
          world = out.world;
          flow = out.flow;
          chosen = logged_in i (completed_login_for now ss.id (renewed fresh i sess));
        }
      ]

  abbrev pub End : Type 0
  End = record { world : W; flow : Flow; table : List Session; answer : Submitted }

  -- ErrAddressNotVerified of a hook is written as the validation error of that name.
  abbrev pub hooked : W → Flow → Hooked → End
  hooked w f h = record {
    world = w;
    flow = f;
    table = h.table;
    answer = elim h.result [ ok response ↦ responded response | err e ↦ flow_error e ];
  }

  module _ (E : Env) (C : Config) (strategies : List (Strategy W)) (fresh : Session) where
    abbrev pub finish : Request → List Session → Looped → End
    finish r table l = elim l.chosen [
      | answered ↦ record { world = l.world; flow = l.flow; table = table; answer = by_strategy }
      | stopped e ↦ record { world = l.world; flow = l.flow; table = table; answer = flow_error e }
      | logged_in i sess ↦ hooked l.world l.flow (post_login_hook E C r l.flow i table sess)
    ]

    abbrev pub continue_login : Request → List Session → W → Flow → Session → End
    continue_login r table w f sess = elim (valid E.now f) [
      | err e ↦ record { world = w; flow = f; table = table; answer = flow_error e }
      | ok _ ↦ finish r table (choose E.now fresh r strategies w f sess)
    ]

    unfoldable pub submit_flow : Request → List Session → W → Flow → End
    submit_flow r table w f = elim (may_submit r.is_json fresh (fetch_from_request E table r) f) [
      | refused e ↦ record { world = w; flow = f; table = table; answer = flow_error e }
      | redirected ↦ record { world = w; flow = f; table = table; answer = default_redirect }
      | continue_with sess ↦ continue_login r table w f sess
    ]
