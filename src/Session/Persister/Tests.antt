-- ===== src/Session/Persister/Tests.antt =====
-- A run of statements on a concrete table of sessions.
use kratos.Base.{◌∷◌, db_error, Err, [], List, some, none, Option, refl}
use kratos.Session.{Session}
use kratos.Session.Tests.{laptop}
use kratos.Session.Persister.Rows.{read}
use kratos.Session.Persister.Runs.{Write, upsert, delete, revoke_others, run, replay}
use kratos.Session.Persister.Runs.Refines.{Implements, run_refines}

abbrev phone : Session
phone = record laptop { id = 99; token = "phone"; identity = none }

-- The deletion does not reach the database.
abbrev writes : List (Option Err × Write)
writes =
    (none, upsert phone)
    ∷ (some (db_error "timeout"), delete 99)
    ∷ (none, revoke_others laptop.identity_id laptop.id)
    ∷ []

run_refines_example :
    Implements
      (run laptop.nid writes (laptop ∷ []))
      (replay laptop.nid writes (λ id. read (laptop ∷ []) id))
run_refines_example =
    run_refines laptop.nid writes (laptop ∷ []) (λ id. read (laptop ∷ []) id)
      ((refl, tt), λ id. refl)
