-- ===== src/Login/Fresh.antt =====
-- Which session a submitted login flow writes.
use kratos.Base.{true, ◌≡◌, List, [], ◌∷◌, ◌++◌, ◌⊎◌}
use kratos.Base.{ok, Err}
use kratos.Base.{string_eq}
use kratos.Login.Gate.{Continued, continue_with, refused, redirected}
use kratos.Http.{Request}
use kratos.Identity.{Identity}
use kratos.Session.{Session, AuthenticationMethod}
use kratos.Session.Persister.{upsert_session}
use kratos.Session.Manager.{Env, fetch_from_request}
use kratos.Login.{Flow}
use kratos.Login.Hook.{Config, run_hooks}
use kratos.Login.Submit.{Answer, not_responsible, completed, failed, found}
use kratos.Login.Logs.{IsActivated, Logs}

data IsContinued (c : Continued) : Type 0 where
  goes_on : (s : Session) → c ≡ continue_with s → IsContinued c
  is_refused : (e : Err) → c ≡ refused e → IsContinued c
  is_redirected : c ≡ redirected → IsContinued c

continue_with-injective : {s t : Session} → continue_with s ≡ continue_with t → s ≡ t
continue_with-injective h = cc

data IsAnswer (a : Answer) : Type 0 where
  no_one : a ≡ not_responsible → IsAnswer a
  by_itself : a ≡ completed → IsAnswer a
  badly : (e : Err) → a ≡ failed e → IsAnswer a
  well : (i : Identity) → a ≡ found i → IsAnswer a

-- The session that a login goes on from: a fresh one, or the request's own, of no identity yet or of
-- the identity that logs in.
pub IsBase : Env → List Session → Request → Session → Identity → Session → Type 0
IsBase E table r fresh i old =
    (old ≡ fresh)
    ⊎ ((fetch_from_request E table r ≡ ok old) × ((old.identity_id ≡ 0) ⊎ (old.identity_id ≡ i.id)))

module _ (W : Type 0) (E : Env) (C : Config) (fresh : Session) where
  -- The table that a submission leaves is the one it found, or what the hooks and the write make of
  -- it for a session that was activated from `old`, with one method more. `f` is the flow.
  pub Submits : List Session → List Session → Request → Flow → Type 0
  Submits table table' r f =
      (table' ≡ table)
      ⊎ ((i : Identity) × (old : Session) × (m : AuthenticationMethod) × IsBase E table r fresh i
            old
          × (s : Session) × IsActivated E i (old.amr ++ m ∷ []) s
          × ((table' ≡ (run_hooks C.hooks f s table).0)
              ⊎ (((run_hooks C.hooks f s table).1 ≡ ok true)
                  × (upsert_session E.upsert_fault E.nid s (run_hooks C.hooks f s table).0
                      ≡ ok table'))))
