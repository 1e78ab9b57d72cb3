-- ===== src/Hook/Tests.antt =====
-- The hooks on the sessions of Session.Tests.
use kratos.Base.{◌∷◌, ◌≡◌, no_rows, err, ok, [], List, some, none, refl}
use kratos.Session.{Session}
use kratos.Session.Tests.{laptop}
use kratos.Identity.Tests.{ada}
use kratos.Session.Persister.{delete_where, delete_sessions_by_identity}
use kratos.Hook.{execute_session_destroyer}
use kratos.Hook.Destroyer.{HasNone, execute_session_destroyer_lem}

abbrev fresh : Session
fresh = record laptop { identity = some ada }

first_login : execute_session_destroyer none 3 fresh [] ≡ err no_rows
unfolding execute_session_destroyer delete_where delete_sessions_by_identity
first_login = refl

execute_session_destroyer_lem_example :
    ((table' : List Session)
      → execute_session_destroyer none 3 fresh (laptop ∷ []) ≡ ok table'
      → HasNone 3 7 table')
    × (HasNone 3 7 (laptop ∷ [])
        → execute_session_destroyer none 3 fresh (laptop ∷ []) ≡ err no_rows)
execute_session_destroyer_lem_example = execute_session_destroyer_lem 3 fresh ada (laptop ∷ []) refl
