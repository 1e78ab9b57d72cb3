-- ===== src/Link/Verification/Token.antt =====
-- selfservice/strategy/link/token_verification.go, the tokens in
-- persistence/sql/persister_verification.go, and UpdateVerifiableAddress of
-- persistence/sql/persister_identity.go.
use kratos.Base.Find.{update_where, filter, find}
use kratos.Base.{◌++◌, ◌+◌, panic, string_eq, nat_eq, ◌>>◌, ◌>>=◌, if◌then◌else◌, ◌==◌, ◌∷◌, ◌&&◌}
use kratos.Base.{ltb, flow_expired, no_rows, check, err, ok, Result, is_no_rows, Err, [], List}
use kratos.Base.{some, none, Option, not, false, true, Bool, String, ℕ}
use kratos.Identity.{VerifiableAddress}

-- `used` is a column of the table and no field of the Go struct.
pub record VerificationToken : Type 0 where
  pub id : ℕ
  pub token : String
  pub expires_at : ℕ
  pub issued_at : ℕ
  pub verifiable_address_id : ℕ
  pub flow_id : Option ℕ
  pub nid : ℕ
  pub used : Bool

-- The zero values that the database layer reads a row into.
abbrev pub no_token : VerificationToken
no_token = record {
  id = 0;
  token = "";
  expires_at = 0;
  issued_at = 0;
  verifiable_address_id = 0;
  flow_id = none;
  nid = 0;
  used = false;
}

-- `id` and `token` are drawn by the caller, `now` is time.Now(). The column of the address is filled
-- in from the address that the token belongs to.
unfoldable pub new_self_service_verification_token :
    (id : ℕ) → String → (now : ℕ) → VerifiableAddress → (flow_id expires_in : ℕ) → VerificationToken
new_self_service_verification_token id token now address flow_id expires_in = record {
  id = id;
  token = token;
  expires_at = now + expires_in;
  issued_at = now;
  verifiable_address_id = address.id;
  flow_id = some flow_id;
  nid = 0;
  used = false;
}

unfoldable pub valid : (now : ℕ) → VerificationToken → Result (Unit {0})
valid now t = if ltb t.expires_at now then err (flow_expired t.expires_at) else ok tt

-- The database, and the keys: `hmac` is the keyed hash of a token under a session secret.
pub record TokenEnv : Type 0 where
  pub nid : ℕ
  pub secrets : List String
  pub hmac : String → String → String
  pub query_fault : String → Option Err
  pub address_fault : Option Err
  pub update_fault : Option Err

abbrev pub is_redeemable : ℕ → String → VerificationToken → Bool
is_redeemable nid hash t = t.token == hash && t.nid == nid && not t.used

abbrev pub is_row : (nid id : ℕ) → VerificationToken → Bool
is_row nid id t = t.id == id && t.nid == nid

abbrev pub is_address : (nid id : ℕ) → VerifiableAddress → Bool
is_address nid id a = a.id == id && a.nid == nid

abbrev pub mark_used : VerificationToken → VerificationToken
mark_used t = record t { used = true }

-- p.hmacValue: under the first secret. Without one it panics.
abbrev pub hmac_value : TokenEnv → List String → String → Result String
hmac_value E [] token = err panic
hmac_value E (secret ∷ secrets) token = ok (E.hmac token secret)

module _ (E : TokenEnv) where
  unfoldable pub query : String → List VerificationToken → Result VerificationToken
  query hash table = do
    check (E.query_fault hash)
    elim (find (is_redeemable E.nid hash) table) [ none ↦ err no_rows | some t ↦ ok t ]

  -- The loop over the secrets. `last` is what `rt` and `err` hold when a round begins.
  unfoldable pub try_secrets :
      String
      → List String
      → Result VerificationToken
      → List VerificationToken
      → Result VerificationToken
  try_secrets token [] last table = last
  try_secrets token (secret ∷ secrets) last table = elim (query (E.hmac token secret) table) [
    | ok rt ↦ ok rt
    | err e ↦
        let rest = try_secrets token secrets (err e) table in if is_no_rows e then rest else err e
  ]

  unfoldable pub address_of : VerificationToken → List VerifiableAddress → Result VerifiableAddress
  address_of rt addresses = do
    check E.address_fault
    elim (find (is_address E.nid rt.verifiable_address_id) addresses) [
      | none ↦ err no_rows
      | some va ↦ ok va
    ]

  -- The token as it was read, its address, and the table of tokens. An error rolls everything back.
  unfoldable pub use_token :
      String
      → List VerificationToken
      → List VerifiableAddress
      → Result (VerificationToken × VerifiableAddress × List VerificationToken)
  use_token token table addresses = do
    rt ← try_secrets token E.secrets (ok no_token) table
    va ← address_of rt addresses
    check E.update_fault
    ok (rt, va, update_where (is_row E.nid rt.id) mark_used table)

  -- The row holds the hash, while the caller keeps the token.
  unfoldable pub create_token :
      Option Err → VerificationToken → List VerificationToken → Result (List VerificationToken)
  create_token fault t table = do
    hash ← hmac_value E E.secrets t.token
    check fault
    ok (table ++ record t { token = hash; nid = E.nid } ∷ [])

  -- By the token itself, though the column holds its hash.
  unfoldable pub delete_token :
      Option Err → String → List VerificationToken → Result (List VerificationToken)
  delete_token fault token table = do
    check fault
    ok (filter (λ t. not (t.token == token && t.nid == E.nid)) table)

  unfoldable pub update_verifiable_address :
      Option Err → VerifiableAddress → List VerifiableAddress → Result (List VerifiableAddress)
  update_verifiable_address fault a addresses = do
    check fault
    elim (find (is_address E.nid a.id) addresses) [
      | none ↦ err no_rows
      | some row ↦
          ok (update_where (is_address E.nid a.id) (λ _. record a { nid = E.nid }) addresses)
    ]
