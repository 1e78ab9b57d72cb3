-- ===== src/Link.antt =====
-- selfservice/strategy/link/token_recovery.go and persistence/sql/persister_recovery.go: the tokens
-- that recovery links carry.
--
-- The tokens table is a list of rows. `used` is a column of it and no field of the Go struct. Left
-- out are created_at, updated_at and used_at, which nothing reads.
pub mod Once
pub mod Verification
pub mod Sender
pub mod Tests
use kratos.Base.{◌++◌, panic, ℕ, ◌+◌, ◌≡◌, String, Bool, true, false, not, ◌&&◌, Option, none}
use kratos.Base.{some, List, [], ◌∷◌, ltb, if◌then◌else◌, ◌==◌, nat_eq, string_eq, Result, ok}
use kratos.Base.{err, Err, ◌>>=◌, ◌>>◌, check, no_rows, is_no_rows, flow_expired}
use kratos.Base.Find.{find, filter, update_where}
use kratos.Identity.{RecoveryAddress}

pub record RecoveryToken : Type 0 where
  pub id : ℕ
  pub token : String
  pub recovery_address : Option RecoveryAddress
  pub expires_at : ℕ
  pub issued_at : ℕ
  pub recovery_address_id : Option ℕ
  pub flow_id : Option ℕ
  pub nid : ℕ
  pub identity_id : ℕ
  pub used : Bool

-- The zero values that the database layer reads a row into.
abbrev pub no_token : RecoveryToken
no_token = record {
  id = 0;
  token = "";
  recovery_address = none;
  expires_at = 0;
  issued_at = 0;
  recovery_address_id = none;
  flow_id = none;
  nid = 0;
  identity_id = 0;
  used = false;
}

abbrev pub no_address : RecoveryAddress
no_address = record { id = 0; value = ""; via = ""; identity_id = 0; nid = 0 }

abbrev pub owner_of : Option RecoveryAddress → ℕ × ℕ
owner_of none = (0, 0)
owner_of (some a) = (a.identity_id, a.id)

-- `id` and `token` are drawn by the caller, `now` is time.Now().
unfoldable pub new_self_service_recovery_token :
    (id : ℕ)
    → String
    → (now : ℕ) → Option RecoveryAddress
    → (flow_id expires_in : ℕ) → RecoveryToken
new_self_service_recovery_token id token now address flow_id expires_in = record {
  id = id;
  token = token;
  recovery_address = address;
  expires_at = now + expires_in;
  issued_at = now;
  recovery_address_id = some (owner_of address).1;
  flow_id = some flow_id;
  nid = 0;
  identity_id = (owner_of address).0;
  used = false;
}

unfoldable pub new_recovery_token :
    (id : ℕ) → String → (now identity_id expires_in : ℕ) → RecoveryToken
new_recovery_token id token now identity_id expires_in = record {
  id = id;
  token = token;
  recovery_address = none;
  expires_at = now + expires_in;
  issued_at = now;
  recovery_address_id = none;
  flow_id = none;
  nid = 0;
  identity_id = identity_id;
  used = false;
}

unfoldable pub valid : (now : ℕ) → RecoveryToken → Result (Unit {0})
valid now f = if ltb f.expires_at now then err (flow_expired f.expires_at) else ok tt

-- The database, and the keys. `secrets` are the session secrets, the current one first, and `hmac`
-- is the keyed hash of a token under a secret.
pub record Env : Type 0 where
  pub nid : ℕ
  pub secrets : List String
  pub hmac : String → String → String
  -- what the database answers to a query for a hash, for an address, and to an update
  pub query_fault : String → Option Err
  pub get_address : Option ℕ → Result RecoveryAddress
  pub update_fault : Option Err

abbrev pub is_redeemable : ℕ → String → RecoveryToken → Bool
is_redeemable nid hash t = t.token == hash && t.nid == nid && not t.used

abbrev pub is_row : (nid id : ℕ) → RecoveryToken → Bool
is_row nid id t = t.id == id && t.nid == nid

abbrev pub mark_used : RecoveryToken → RecoveryToken
mark_used t = record t { used = true }

module _ (E : Env) where
  unfoldable pub query : String → List RecoveryToken → Result RecoveryToken
  query hash table = do
    check (E.query_fault hash)
    elim (find (is_redeemable E.nid hash) table) [ none ↦ err no_rows | some t ↦ ok t ]

  -- The loop over the secrets. `last` is what `rt` and `err` hold when a round begins: without any
  -- secret that is the zero token and no error. A query that finds no row goes on to the next
  -- secret, any other error ends the function, and so does, in the end, a last query without a row.
  unfoldable pub try_secrets :
      String → List String → Result RecoveryToken → List RecoveryToken → Result RecoveryToken
  try_secrets token [] last table = last
  try_secrets token (secret ∷ secrets) last table = elim (query (E.hmac token secret) table) [
    | ok rt ↦ ok rt
    | err e ↦
        let rest = try_secrets token secrets (err e) table in if is_no_rows e then rest else err e
  ]

  -- A token without an address, or with one that is gone, gets the zero address.
  unfoldable pub address_of : RecoveryToken → Result RecoveryAddress
  address_of rt = elim (E.get_address rt.recovery_address_id) [
    | ok ra ↦ ok ra
    | err e ↦ if is_no_rows e then ok no_address else err e
  ]

  -- The token as it was read, and the table.
  unfoldable pub use_recovery_token :
      String → List RecoveryToken → Result (RecoveryToken × List RecoveryToken)
  use_recovery_token token table = do
    rt ← try_secrets token E.secrets (ok no_token) table
    ra ← address_of rt
    check E.update_fault
    ok (record rt { recovery_address = some ra }, update_where (is_row E.nid rt.id) mark_used table)

  -- Under the first secret; without one it panics. The row holds the hash, the caller the token.
  unfoldable pub create_recovery_token :
      Option Err → RecoveryToken → List RecoveryToken → Result (List RecoveryToken)
  create_recovery_token fault t table = elim E.secrets [
    | [] ↦ err panic
    | secret ∷ secrets ↦ do
      check fault
      ok (table ++ record t { token = E.hmac t.token secret; nid = E.nid } ∷ [])
  ]

  -- By the token itself, though the column holds its hash.
  unfoldable pub delete_recovery_token :
      Option Err → String → List RecoveryToken → Result (List RecoveryToken)
  delete_recovery_token fault token table = do
    check fault
    ok (filter (λ t. not (t.token == token && t.nid == E.nid)) table)

  -- Submissions one after another, each with its own token: the rows that they redeemed.
  unfoldable pub redeemed : List String → List RecoveryToken → List ℕ
  redeemed [] table = []
  redeemed (token ∷ tokens) table = elim (use_recovery_token token table) [
    | err e ↦ redeemed tokens table
    | ok (rt, table') ↦ rt.id ∷ redeemed tokens table'
  ]
