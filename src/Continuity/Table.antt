-- ===== src/Continuity/Table.antt =====
-- continuity/container.go and persistence/sql/persister_continuity.go: a container, and the table of
-- containers. Left out are created_at and updated_at, which nothing reads.

use kratos.Base.Find.{filter, find}
use kratos.Base.{nat_eq, ◌>>◌, if◌then◌else◌, ◌==◌, ◌++◌, ◌∷◌, ◌&&◌, ltb, bad_request, no_rows}
use kratos.Base.{check, err, ok, Result, Err, [], List, some, none, Option, not, Bool, String, ℕ}

pub record Container : Type 0 where
  pub id : ℕ
  pub nid : ℕ
  pub name : String
  pub identity_id : Option ℕ
  pub expires_at : ℕ
  pub payload : Option String

abbrev pub deref_uuid : Option ℕ → ℕ
deref_uuid none = 0
deref_uuid (some id) = id

-- `identity` is 0 for uuid.Nil.
unfoldable pub is_valid_for : (now identity : ℕ) → Container → Result (Unit {0})
is_valid_for now identity c =
    if ltb c.expires_at now
    then err (bad_request "the resumable session has expired")
    else if not (identity == 0) && not (deref_uuid c.identity_id == identity)
    then err (bad_request "the resumable session was initiated by another person")
    else ok tt

abbrev pub is_row : (nid id : ℕ) → Container → Bool
is_row nid id c = c.id == id && c.nid == nid

unfoldable pub save : Option Err → (nid : ℕ) → Container → List Container → Result (List Container)
save fault nid c table = do check fault; ok (table ++ record c { nid = nid } ∷ [])

unfoldable pub get : Option Err → (nid id : ℕ) → List Container → Result Container
get fault nid id table = do
  check fault
  elim (find (is_row nid id) table) [ none ↦ err no_rows | some c ↦ ok c ]

unfoldable pub delete : Option Err → (nid id : ℕ) → List Container → Result (List Container)
delete fault nid id table = do
  check fault
  elim (find (is_row nid id) table) [
    | none ↦ err no_rows
    | some c ↦ ok (filter (λ c. not (is_row nid id c)) table)
  ]
