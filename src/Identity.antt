-- ===== src/Identity.antt =====
-- identity/identity.go and identity/credentials.go: identities, their credentials and addresses.
--
-- A uuid is a number, uuid.Nil is 0. A time is a number, and raw JSON is its text. The credentials
-- map is an association list; a nil map and an empty map, which the code reads alike, are both [].
-- Left out of the records: created_at and updated_at, which only the database layer writes, and
-- the lock, since one request works on its own copy.
pub mod Aal
pub mod Equality
pub mod Nid
pub mod Persister
pub mod Manager
pub mod Addresses
pub mod Tests
use kratos.Base.{ℕ, ◌≡◌, String, Option, none, some, List, [], Bool, if◌then◌else◌, ◌==◌}
use kratos.Base.{string_eq, nat_eq, Result, ok, err, Err, invalid_state}
use kratos.Base.Dict.{lookup, insert, erase}

pub record Credentials : Type 0 where
  pub id : ℕ
  pub credential_type_id : ℕ
  pub type : String
  pub identifiers : List String
  pub config : String
  pub identity_id : ℕ
  pub nid : ℕ

pub record VerifiableAddress : Type 0 where
  pub id : ℕ
  pub value : String
  pub verified : Bool
  pub via : String
  pub status : String
  pub verified_at : Option ℕ
  pub identity_id : ℕ
  pub nid : ℕ

pub record RecoveryAddress : Type 0 where
  pub id : ℕ
  pub value : String
  pub via : String
  pub identity_id : ℕ
  pub nid : ℕ

pub record Identity : Type 0 where
  pub id : ℕ
  pub credentials : List (String × Credentials)
  pub schema_id : String
  pub schema_url : String
  pub state : String
  pub state_changed_at : Option ℕ
  pub traits : String
  pub verifiable_addresses : List VerifiableAddress
  pub recovery_addresses : List RecoveryAddress
  pub nid : ℕ

-- The constants of credentials.go and identity.go.
abbrev pub credentials_type_password : String
credentials_type_password = "password"

abbrev pub credentials_type_oidc : String
credentials_type_oidc = "oidc"

abbrev pub credentials_type_totp : String
credentials_type_totp = "totp"

abbrev pub credentials_type_lookup : String
credentials_type_lookup = "lookup_secret"

abbrev pub credentials_type_web_authn : String
credentials_type_web_authn = "webauthn"

abbrev pub credentials_type_recovery_link : String
credentials_type_recovery_link = "link_recovery"

abbrev pub state_active : String
state_active = "active"

abbrev pub state_inactive : String
state_inactive = "inactive"

unfoldable pub state_is_valid : String → Result (Unit {0})
state_is_valid s =
    if s == state_active then ok tt else if s == state_inactive then ok tt else err invalid_state

unfoldable pub is_active : Identity → Bool
is_active i = i.state == state_active

unfoldable pub set_credentials : String → Credentials → Identity → Identity
set_credentials t c i = record i { credentials = insert t (record c { type = t }) i.credentials }

unfoldable pub delete_credentials_type : String → Identity → Identity
delete_credentials_type t i = record i { credentials = erase t i.credentials }

unfoldable pub get_credentials : String → Identity → Option Credentials
get_credentials t i = lookup t i.credentials

unfoldable pub copy_without_credentials : Identity → Identity
copy_without_credentials i = record i { credentials = [] }

abbrev pub default_identity_traits_schema_id : String
default_identity_traits_schema_id = "default"

-- `id` is x.NewUUID() and `now` is time.Now().
unfoldable pub new_identity : (id now : ℕ) → String → Identity
new_identity id now traits_schema_id = record {
  id = id;
  credentials = [];
  schema_id =
      if traits_schema_id == "" then default_identity_traits_schema_id else traits_schema_id;
  schema_url = "";
  state = state_active;
  state_changed_at = some now;
  traits = "{}";
  verifiable_addresses = [];
  recovery_addresses = [];
  nid = 0;
}
