-- ===== src/Session/Persister/Runs.antt =====
-- Any sequence of the statements of persistence/sql/persister_session.go that write, seen as changes
-- of a function from ids to rows.
pub mod Refines
use kratos.Base.Find.{map_option, update_if}
use kratos.Base.{nat_eq, if◌then◌else◌, ◌==◌, ◌∷◌, err, ok, Result, Err, [], List, some, none}
use kratos.Base.{Option, String, ℕ}
use kratos.Session.{Session}
use kratos.Session.Persister.{upsert_session, delete_session, delete_sessions_by_identity}
use kratos.Session.Persister.{delete_session_by_token, revoke_session_by_token, revoke_session}
use kratos.Session.Persister.{revoke_sessions_identity_except, has_id, has_identity, has_token}
use kratos.Session.Persister.{is_owned, is_other, deactivate}
use kratos.Session.Persister.Rows.{drop_if}

pub data Write : Type 0 where
  upsert : Session → Write
  delete : ℕ → Write
  delete_by_identity : ℕ → Write
  delete_by_token : String → Write
  revoke_by_token : String → Write
  revoke : (iid sid : ℕ) → Write
  revoke_others : (iid sid : ℕ) → Write

abbrev pub table_of : Result (List Session × ℕ) → Result (List Session)
table_of (ok p) = ok p.0
table_of (err e) = err e

unfoldable pub write : ℕ → Option Err → Write → List Session → Result (List Session)
write nid fault (upsert s) table = upsert_session fault nid s table
write nid fault (delete sid) table = delete_session fault nid sid table
write nid fault (delete_by_identity iid) table = delete_sessions_by_identity fault nid iid table
write nid fault (delete_by_token token) table = delete_session_by_token fault nid token table
write nid fault (revoke_by_token token) table = revoke_session_by_token fault nid token table
write nid fault (revoke iid sid) table = revoke_session fault nid iid sid table
write nid fault (revoke_others iid sid) table =
    table_of (revoke_sessions_identity_except fault nid iid sid table)

-- A statement that fails leaves the table as it was.
abbrev pub left_by : Result (List Session) → List Session → List Session
left_by (ok table') table = table'
left_by (err e) table = table

-- Each statement with what the database answers to it.
unfoldable pub run : ℕ → List (Option Err × Write) → List Session → List Session
run nid [] table = table
run nid ((fault, w) ∷ ws) table = run nid ws (left_by (write nid fault w table) table)

-- The specification: what a statement does to the row of each id.
abbrev pub change : ℕ → Write → ℕ → Option Session → Option Session
change nid (upsert s) id row =
    if id == s.id then some (record s { nid = nid; identity = none }) else row
change nid (delete sid) id row = drop_if (has_id nid sid) row
change nid (delete_by_identity iid) id row = drop_if (has_identity nid iid) row
change nid (delete_by_token token) id row = drop_if (has_token nid token) row
change nid (revoke_by_token token) id row =
    map_option (update_if (has_token nid token) deactivate) row
change nid (revoke iid sid) id row = map_option (update_if (is_owned nid iid sid) deactivate) row
change nid (revoke_others iid sid) id row =
    map_option (update_if (is_other nid iid sid) deactivate) row

abbrev pub answered : Option Err → Option Session → Option Session → Option Session
answered none before after = after
answered (some e) before after = before

abbrev pub replay : ℕ → List (Option Err × Write) → (ℕ → Option Session) → ℕ → Option Session
replay nid [] rows = rows
replay nid ((fault, w) ∷ ws) rows =
    replay nid ws (λ id. answered fault (rows id) (change nid w id (rows id)))
