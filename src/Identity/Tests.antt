-- ===== src/Identity/Tests.antt =====
-- Identities to try the definitions on, and the theorems at concrete inputs.
use kratos.Base.{◌≡◌, refl, ◌≢◌, ◌↔◌, String, none, some, List, [], ◌∷◌}
use kratos.Base.{true, false, All, ◌==◌, if◌then◌else◌, Result, ok, err, no_rows}
use kratos.Base.{protected_field_modified, invalid_nid, nat_eq, string_eq, ok-injective}
use kratos.Base.Dict.{lookup}
use kratos.Identity.{Credentials, VerifiableAddress, Identity, new_identity}
use kratos.Identity.{set_credentials, get_credentials}
use kratos.Identity.Aal.{determine_aal}
use kratos.Identity.Equality.{SameCredentials, credentials_equal, credentials_equal_sound}
use kratos.Identity.Nid.{validate_nid, check_nids, validate_nid_iff}
use kratos.Identity.Manager.{Pool, ManagerOption, update, new_manager_options}
use kratos.Identity.Manager.{requires_privileged_access, validate, guarded_update, store}
use kratos.Identity.Manager.Protection.{IsProtected, update-IsProtected}
use kratos.Identity.Addresses.{Formats}
use kratos.Identity.Addresses.{new_verifiable_email_address, new_verifiable_phone_address}
use kratos.Identity.Addresses.Verification.{append_address, run, run_all, finish}
use kratos.Identity.Addresses.Verification.{validate_addresses}
use kratos.Identity.Addresses.Verification.Collected.{IsCollected, validate_addresses-IsCollected}

abbrev pub password : Credentials
password = record {
  id = 5;
  credential_type_id = 1;
  type = "password";
  identifiers = "ada@ory.sh" ∷ [];
  config = "{}";
  identity_id = 7;
  nid = 3;
}

abbrev pub email : VerifiableAddress
email = record {
  id = 9;
  value = "ada@ory.sh";
  verified = true;
  via = "email";
  status = "completed";
  verified_at = some 20;
  identity_id = 7;
  nid = 3;
}

abbrev pub ada : Identity
ada = record {
  id = 7;
  credentials = ("password", password) ∷ [];
  schema_id = "default";
  schema_url = "";
  state = "active";
  state_changed_at = some 10;
  traits = "{}";
  verifiable_addresses = email ∷ [];
  recovery_addresses =
      record { id = 4; value = "ada@ory.sh"; via = "email"; identity_id = 7; nid = 3 } ∷ [];
  nid = 3;
}

aal_tests :
    (determine_aal ("password" ∷ []) ≡ "aal1")
    × (determine_aal ("totp" ∷ "webauthn" ∷ []) ≡ "aal0")
    × (determine_aal ("totp" ∷ "oidc" ∷ []) ≡ "aal2")
    × (determine_aal ("code" ∷ []) ≡ "aal0")
unfolding determine_aal
aal_tests = (refl, refl, refl, refl)

new_identity_test :
    get_credentials "totp" (set_credentials "totp" password (new_identity 1 2 ""))
    ≡ some (record password { type = "totp" })
unfolding get_credentials set_credentials new_identity
new_identity_test = refl

credentials_equal_sound_example :
    SameCredentials (lookup "totp" ada.credentials) (lookup "totp" ada.credentials)
unfolding credentials_equal
credentials_equal_sound_example =
    credentials_equal_sound ada.credentials ada.credentials (refl, tt) (refl, tt) refl "totp"

validate_nid_tests :
    (validate_nid ada ≡ ok tt)
    × (validate_nid (record ada { nid = 4 }) ≡ err invalid_nid)
    × (validate_nid (record ada { nid = 0 }) ≡ err invalid_nid)
unfolding validate_nid check_nids
validate_nid_tests = (refl, refl, refl)

validate_nid_iff_example : (validate_nid ada ≡ ok tt) ↔ (
    (ada.nid ≢ 0)
    × All (λ r. r.nid ≡ ada.nid) ada.recovery_addresses
    × All (λ r. r.nid ≡ ada.nid) ada.verifiable_addresses
    × All (λ r. (r.1).nid ≡ ada.nid) ada.credentials)
validate_nid_iff_example = validate_nid_iff ada

-- A pool of one identity.
abbrev pub single : Pool
single = record {
  State = Identity;
  get_identity_confidential = λ s id. if s.id == id then ok s else err no_rows;
  create_identity = λ s i. ok i;
  update_identity = λ s i. ok i;
}

abbrev pub accept : Identity → Identity × Result (Unit {0})
accept i = (i, ok tt)

pub manager : Unit {0}
unfolding update new_manager_options requires_privileged_access validate guarded_update store
    credentials_equal
manager = tt

update_tests :
    ((update single accept ada (record ada { traits = "new" }) []).result ≡ ok tt)
    × ((update single accept ada (record ada { credentials = [] }) []).result
        ≡ err protected_field_modified)
    × ((update single accept ada
          (record ada { credentials = [] })
          (ManagerOption.allow_write_protected_traits ∷ [])).pool
        ≡ record ada { credentials = [] })
unfolding manager
update_tests = (refl, refl, refl)

update-IsProtected_example :
    (original : Identity) × (single.get_identity_confidential ada 7 ≡ ok original)
    × (single.update_identity ada (record ada { traits = "new" })
        ≡ ok (update single accept ada (record ada { traits = "new" }) []).pool)
    × IsProtected original (record ada { traits = "new" })
unfolding manager
update-IsProtected_example =
    update-IsProtected single accept ada (record ada { traits = "new" }) [] (refl, tt)
      (λ original found. rw (← ok-injective found) (refl, tt)) refl refl

abbrev lenient : Formats
lenient = record { email = λ s. true; tel = λ s. true }

collecting : Unit {0}
unfolding validate_addresses run_all run append_address finish new_verifiable_email_address
    new_verifiable_phone_address
collecting = tt

abbrev document : List (String × String)
document = ("email", "ada@ory.sh") ∷ ("email", "b@ory.sh") ∷ ("email", "b@ory.sh") ∷ ("", "x") ∷ []

validate_addresses-IsCollected_example : IsCollected ada (
    email
    ∷ record email {
      id = 0;
      value = "b@ory.sh";
      verified = false;
      status = "pending";
      verified_at = none;
      nid = 0;
    }
    ∷ [])
unfolding collecting
validate_addresses-IsCollected_example =
    validate_addresses-IsCollected lenient ada
      (record ada {
        verifiable_addresses =
            email
            ∷ record email {
              id = 0;
              value = "b@ory.sh";
              verified = false;
              status = "pending";
              verified_at = none;
              nid = 0;
            }
            ∷ [];
      })
      document refl
