-- ===== src/Identity/Persister.antt =====
-- persistence/sql/persister_identity.go: the tables of identities, their credentials and addresses.
--
-- A row of an identity has no credentials and addresses, one of credentials no type and identifiers.
-- A transaction that fails leaves the tables as they were, so an operation gives the new tables or an
-- error. A foreign key deletes the rows that belong to a deleted one.
pub mod Read
pub mod Owner
pub mod Tests
use kratos.Base.{
  nat_eq, string_eq, ◌>>◌, ◌>>=◌, ◌>>◌, if◌then◌else◌, ◌==◌, ◌++◌, ◌∷◌, ◌&&◌, no_rows, check, err,
  ok, Result, Err, any, length, map, [], List, some, none, Option, not, Bool, String, ℕ, internal,
  panic,
}
use kratos.Base.Find.{find, filter, update_where}
use kratos.Base.Dict.{insert}
use kratos.Identity.{Identity, Credentials, VerifiableAddress, RecoveryAddress, get_credentials}
use kratos.Identity.{copy_without_credentials, credentials_type_password, state_active}
use kratos.Identity.{default_identity_traits_schema_id}
use kratos.Identity.Nid.{validate_nid}

pub record CredentialsTypeTable : Type 0 where
  pub id : ℕ
  pub name : String

pub record CredentialIdentifier : Type 0 where
  pub id : ℕ
  pub identifier : String
  pub identity_credentials_id : ℕ
  pub identity_credentials_type_id : ℕ
  pub nid : ℕ

pub record Tables : Type 0 where
  pub identities : List Identity
  pub credentials : List Credentials
  pub identifiers : List CredentialIdentifier
  pub types : List CredentialsTypeTable
  pub verifiable : List VerifiableAddress
  pub recovery : List RecoveryAddress

pub record Env : Type 0 where
  pub nid : ℕ
  pub now : ℕ
  -- the uuid that is drawn for a row without one, by the size of its table
  pub new_id : ℕ → ℕ
  -- strings.ToLower(strings.TrimSpace(s))
  pub normal : String → String
  -- the schema's URL, and the validator
  pub schema_url : String → Option String
  pub validate : Identity → Identity × Result (Unit {0})
  -- ORDER BY id ASC
  pub order_verifiable : List VerifiableAddress → List VerifiableAddress
  pub order_recovery : List RecoveryAddress → List RecoveryAddress
  -- what the database answers to a query of a table, and to each row that is written
  pub fault : (table : String) → Option Err
  pub refuse_identity : List Identity → Identity → Option Err
  pub refuse_credentials : List Credentials → Credentials → Option Err
  pub refuse_identifier : List CredentialIdentifier → CredentialIdentifier → Option Err
  pub refuse_verifiable : List VerifiableAddress → VerifiableAddress → Option Err
  pub refuse_recovery : List RecoveryAddress → RecoveryAddress → Option Err

abbrev or_default : (default_ s : String) → String
or_default default_ s = if s == "" then default_ else s

-- sqlcon.HandleError of a row that is sought.
abbrev pub or_no_rows {ℓ} : {A : Type ℓ} → Option A → Result A
or_no_rows none = err no_rows
or_no_rows (some a) = ok a

module _ (E : Env) where
  abbrev pub drawn : ℕ → ℕ → ℕ
  drawn size id = if id == 0 then E.new_id size else id

  -- Only passwords have identifiers that are compared without case.
  abbrev pub normalized : (type_ s : String) → String
  normalized type_ s = if type_ == credentials_type_password then E.normal s else s

  unfoldable pub find_identity_credentials_type : Tables → String → Result CredentialsTypeTable
  find_identity_credentials_type T name = do
    check (E.fault "identity_credential_types")
    or_no_rows (find (λ t. t.name == name) T.types)

  unfoldable pub create_identifiers :
      Credentials → (type_ : String) → List String → Tables → Result Tables
  create_identifiers cred type_ [] T = ok T
  create_identifiers cred type_ (s ∷ rest) T =
      let ids = normalized type_ s in
      let row : CredentialIdentifier = record {
        id = E.new_id (length T.identifiers);
        identifier = ids;
        identity_credentials_id = cred.id;
        identity_credentials_type_id = cred.credential_type_id;
        nid = E.nid;
      } in
      let written =
        create_identifiers cred type_ rest (record T { identifiers = T.identifiers ++ row ∷ [] }) in
      if ids == ""
      then err (internal "missing or empty identifier")
      else (check (E.refuse_identifier T.identifiers row) >> written)

  -- The row is without what is read from the other tables. The map gets the credentials as written.
  abbrev credentials_row : Credentials → Credentials
  credentials_row cred = record cred { type = ""; identifiers = [] }

  unfoldable pub create_identity_credentials :
      ℕ → List (String × Credentials) → Tables → Result (Tables × List (String × Credentials))
  create_identity_credentials id [] T = ok (T, [])
  create_identity_credentials id ((k, c) ∷ rest) T = do
    ct ← find_identity_credentials_type T c.type
    let cred = record c {
      id = drawn (length T.credentials) c.id;
      config = or_default "{}" c.config;
      identity_id = id;
      nid = E.nid;
      credential_type_id = ct.id;
    }
    check (E.refuse_credentials T.credentials cred)
    T' ←
        create_identifiers cred cred.type cred.identifiers
          (record T { credentials = T.credentials ++ credentials_row cred ∷ [] })
    (T'', rest') ← create_identity_credentials id rest T'
    ok (T'', (k, cred) ∷ rest')

  unfoldable pub create_verifiable_addresses :
      ℕ → List VerifiableAddress → List VerifiableAddress → Result (List VerifiableAddress)
  create_verifiable_addresses id [] table = ok table
  create_verifiable_addresses id (a ∷ rest) table = do
    let row = record a { id = drawn (length table) a.id; identity_id = id; nid = E.nid }
    check (E.refuse_verifiable table row)
    create_verifiable_addresses id rest (table ++ row ∷ [])

  unfoldable pub create_recovery_addresses :
      ℕ → List RecoveryAddress → List RecoveryAddress → Result (List RecoveryAddress)
  create_recovery_addresses id [] table = ok table
  create_recovery_addresses id (a ∷ rest) table = do
    let row = record a { id = drawn (length table) a.id; identity_id = id; nid = E.nid }
    check (E.refuse_recovery table row)
    create_recovery_addresses id rest (table ++ row ∷ [])

  unfoldable pub inject_traits_schema_url : Identity → Result Identity
  inject_traits_schema_url i = elim (E.schema_url i.schema_id) [
    | none ↦ err (internal "The JSON Schema could not be found.")
    | some url ↦ ok (record i { schema_url = url })
  ]

  unfoldable pub validate_identity : Identity → Result Identity
  validate_identity i = let checked = E.validate i in checked.1 >> ok checked.0

  abbrev identity_row : Identity → Identity
  identity_row i = record i {
    credentials = [];
    schema_url = "";
    verifiable_addresses = [];
    recovery_addresses = [];
  }

  abbrev with_defaults : Identity → Identity
  with_defaults i = record i {
    nid = E.nid;
    schema_id = or_default default_identity_traits_schema_id i.schema_id;
    state_changed_at = some E.now;
    state = or_default state_active i.state;
    traits = or_default "{}" i.traits;
  }

  -- The rows that belong to an identity, from its addresses on.
  unfoldable pub create_parts : Identity → Tables → Result Tables
  create_parts i T = do
    verifiable ← create_verifiable_addresses i.id i.verifiable_addresses T.verifiable
    recovery ← create_recovery_addresses i.id i.recovery_addresses T.recovery
    (T', creds) ←
        create_identity_credentials i.id i.credentials
          (record T { verifiable = verifiable; recovery = recovery })
    ok T'

  unfoldable pub create_identity : Identity → Tables → Result Tables
  create_identity i T = do
    i1 ← inject_traits_schema_url (with_defaults i)
    i2 ← validate_identity i1
    let i3 = record i2 { id = drawn (length T.identities) i2.id }
    check (E.refuse_identity T.identities i3)
    create_parts i3 (record T { identities = T.identities ++ identity_row i3 ∷ [] })

  abbrev pub is_identity : ℕ → Identity → Bool
  is_identity id i = i.id == id && i.nid == E.nid

  -- Credentials go with their identifiers.
  abbrev without_parts : ℕ → Tables → Tables
  without_parts id T = record T {
    credentials = filter (λ c. not (c.identity_id == id && c.nid == E.nid)) T.credentials;
    identifiers =
        filter
          (λ s. not (
            any (λ c. c.identity_id == id && c.nid == E.nid && c.id == s.identity_credentials_id)
              T.credentials))
          T.identifiers;
    verifiable = filter (λ a. not (a.identity_id == id && a.nid == E.nid)) T.verifiable;
    recovery = filter (λ a. not (a.identity_id == id && a.nid == E.nid)) T.recovery;
  }

  unfoldable pub update_identity : Identity → Tables → Result Tables
  update_identity i T = do
    i1 ← validate_identity i
    let i2 = record i1 { nid = E.nid }
    check (E.fault "identities")
    _ ← or_no_rows (find (is_identity i2.id) T.identities)
    let T' = without_parts i2.id T
    check (E.refuse_identity T'.identities (identity_row i2))
    create_parts i2 (record T' {
      identities = update_where (is_identity i2.id) (λ _. identity_row i2) T'.identities;
    })

  unfoldable pub delete_identity : ℕ → Tables → Result Tables
  delete_identity id T = do
    check (E.fault "identities")
    _ ← or_no_rows (find (is_identity id) T.identities)
    let T' = without_parts id T
    ok (record T' { identities = filter (λ i. not (is_identity id i)) T'.identities })
