-- ===== src/Identity/Addresses.antt =====
-- The addresses of identity/address.go, identity_recovery.go and identity_verification.go, which
-- the schema extensions (the child modules) collect while an identity's traits are validated.
pub mod Recovery
pub mod Verification
use kratos.Base.{ℕ, ◌≡◌, String, Option, none, some, List, [], ◌∷◌, ◌++◌, Bool, true, false, ◌&&◌}
use kratos.Base.{if◌then◌else◌, ◌==◌, string_eq, Result, ok, err, Err, other}
use kratos.Base.Find.{find}
use kratos.Identity.{Identity, Credentials, VerifiableAddress, RecoveryAddress}
use kratos.Identity.{set_credentials, get_credentials, credentials_type_password}

abbrev pub address_type_email : String
address_type_email = "email"

abbrev pub address_type_phone : String
address_type_phone = "phone"

abbrev pub status_pending : String
status_pending = "pending"

-- A uuid and a network id that are not yet set are 0.
unfoldable pub new_recovery_email_address : String → ℕ → RecoveryAddress
new_recovery_email_address value identity = record {
  id = 0;
  value = value;
  via = address_type_email;
  identity_id = identity;
  nid = 0;
}

unfoldable pub new_verifiable_email_address : String → ℕ → VerifiableAddress
new_verifiable_email_address value identity = record {
  id = 0;
  value = value;
  verified = false;
  via = address_type_email;
  status = status_pending;
  verified_at = none;
  identity_id = identity;
  nid = 0;
}

unfoldable pub new_verifiable_phone_address : String → ℕ → VerifiableAddress
new_verifiable_phone_address value identity = record {
  id = 0;
  value = value;
  verified = false;
  via = address_type_phone;
  status = status_pending;
  verified_at = none;
  identity_id = identity;
  nid = 0;
}

-- jsonschema.Formats: what the JSON schema library accepts as an email address or phone number.
pub record Formats : Type 0 where
  pub email : String → Bool
  pub tel : String → Bool
