-- ===== src/Session/Persister.antt =====
-- persistence/sql/persister_session.go: the sessions table, and the statements on it.
--
-- A row is a session without its identity. Each operation takes, as `fault`, what the database
-- answers to its statement: `none`, or the error that ends the operation with the table unchanged.
-- `nid` is the network that the context gives. Identities come from the pool, `get_identity`.
pub mod Laws
pub mod Rows
pub mod Runs
mod Tests
use kratos.Base.{ℕ, ◌≡◌, String, Bool, true, false, not, ◌&&◌, Option, none, some, List, [], ◌∷◌}
use kratos.Base.{◌++◌, if◌then◌else◌, ◌==◌, nat_eq, string_eq, Result, ok, err, Err, ◌>>=◌, ◌>>◌}
use kratos.Base.{check, no_rows}
use kratos.Base.Find.{find, filter, update_where, count}
use kratos.Identity.{Identity}
use kratos.Session.{Session}

abbrev pub has_id : (nid id : ℕ) → Session → Bool
has_id nid id s = s.id == id && s.nid == nid

abbrev pub has_token : ℕ → String → Session → Bool
has_token nid token s = s.token == token && s.nid == nid

abbrev pub has_identity : (nid identity_id : ℕ) → Session → Bool
has_identity nid identity_id s = s.identity_id == identity_id && s.nid == nid

-- `First`, with sqlcon.HandleError.
abbrev pub first : Option Session → Result Session
first none = err no_rows
first (some s) = ok s

module _ (get_identity : ℕ → Result Identity) where
  with_identity : Session → Result Session
  with_identity s = do i ← get_identity s.identity_id; ok (record s { identity = some i })

  unfoldable pub get_session : Option Err → (nid sid : ℕ) → List Session → Result Session
  unfolding with_identity
  get_session fault nid sid table = do
    check fault
    s ← first (find (has_id nid sid) table)
    with_identity s

  unfoldable pub get_session_by_token : Option Err → ℕ → String → List Session → Result Session
  unfolding with_identity
  get_session_by_token fault nid token table = do
    check fault
    s ← first (find (has_token nid token) table)
    with_identity s

  with_identities : List Session → Result (List Session)
  with_identities [] = ok []
  with_identities (s ∷ rest) = do
    s' ← with_identity s
    rest' ← with_identities rest
    ok (s' ∷ rest')

  abbrev pub is_not : ℕ → Session → Bool
  is_not except s = if except == 0 then true else not (s.id == except)

  abbrev pub has_active : Option Bool → Session → Bool
  has_active none s = true
  has_active (some true) s = s.active
  has_active (some false) s = not s.active

  -- `page` stands for LIMIT and OFFSET.
  unfoldable pub list_sessions_by_identity :
      Option Err
      → (nid iid : ℕ) → Option Bool
      → (List Session → List Session)
      → ℕ
      → List Session
      → Result (List Session)
  unfolding with_identities with_identity
  list_sessions_by_identity fault nid iid active page except table = do
    check fault
    with_identities (
        page (filter (λ s. has_identity nid iid s && is_not except s && has_active active s) table))

-- The existence check goes by the id alone, whatever network the row is in, and so does the update.
unfoldable pub upsert_session : Option Err → ℕ → Session → List Session → Result (List Session)
upsert_session fault nid s table = do
  check fault
  let row = record s { nid = nid; identity = none }
  elim (find (λ t. t.id == s.id) table) [
    | none ↦ ok (table ++ row ∷ [])
    | some _ ↦ ok (update_where (λ t. t.id == s.id) (λ _. row) table)
  ]

-- A DELETE or UPDATE that must affect a row.
abbrev pub affecting {ℓ} : {A : Type ℓ} → ℕ → A → Result A
affecting n a = if n == 0 then err no_rows else ok a

unfoldable pub delete_where : Option Err → (Session → Bool) → List Session → Result (List Session)
delete_where fault p table = do
  check fault
  affecting (count p table) (filter (λ s. not (p s)) table)

unfoldable pub delete_session : Option Err → (nid sid : ℕ) → List Session → Result (List Session)
unfolding delete_where
delete_session fault nid sid = delete_where fault (has_id nid sid)

unfoldable pub delete_sessions_by_identity :
    Option Err → (nid iid : ℕ) → List Session → Result (List Session)
unfolding delete_where
delete_sessions_by_identity fault nid iid = delete_where fault (has_identity nid iid)

unfoldable pub delete_session_by_token :
    Option Err → ℕ → String → List Session → Result (List Session)
unfolding delete_where
delete_session_by_token fault nid token = delete_where fault (has_token nid token)

abbrev pub deactivate : Session → Session
deactivate s = record s { active = false }

unfoldable pub revoke_session_by_token :
    Option Err → ℕ → String → List Session → Result (List Session)
revoke_session_by_token fault nid token table = do
  check fault
  affecting (count (has_token nid token) table)
      (update_where (has_token nid token) deactivate table)

abbrev pub is_owned : (nid iid sid : ℕ) → Session → Bool
is_owned nid iid sid s = s.id == sid && has_identity nid iid s

-- A session that is not there, or is another identity's, is no error.
unfoldable pub revoke_session :
    Option Err → (nid iid sid : ℕ) → List Session → Result (List Session)
revoke_session fault nid iid sid table = do
  check fault
  ok (update_where (is_owned nid iid sid) deactivate table)

abbrev pub is_other : (nid iid sid : ℕ) → Session → Bool
is_other nid iid sid s = has_identity nid iid s && not (s.id == sid)

-- The table, and the number of rows that the statement affected.
unfoldable pub revoke_sessions_identity_except :
    Option Err → (nid iid sid : ℕ) → List Session → Result (List Session × ℕ)
revoke_sessions_identity_except fault nid iid sid table = do
  check fault
  ok (update_where (is_other nid iid sid) deactivate table, count (is_other nid iid sid) table)
