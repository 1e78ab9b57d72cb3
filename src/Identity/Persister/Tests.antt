-- ===== src/Identity/Persister/Tests.antt =====
-- An identity that is created, found by its identifier and deleted.
use kratos.Base.Find.{find}
use kratos.Base.{
  ◌&&◌, any, ◌>>=◌, ◌+◌, ◌≡◌, refl, [], ◌∷◌, ok, err, none, some, true, Result, no_rows, string_eq,
  ◌==◌, if◌then◌else◌, nat_eq,
}
use kratos.Identity.{Identity, Credentials, copy_without_credentials, get_credentials}
use kratos.Identity.Tests.{ada}
use kratos.Identity.Persister.{Tables, Env, create_identity, delete_identity}
use kratos.Identity.Persister.Read.{find_by_credentials_identifier}
use kratos.Identity.Persister.{inject_traits_schema_url}
use kratos.Identity.Persister.Read.{get_identity_confidential, load_credentials}
use kratos.Identity.Persister.{validate_identity, create_parts, create_verifiable_addresses}
use kratos.Identity.Persister.{create_recovery_addresses, create_identity_credentials}
use kratos.Identity.Persister.{create_identifiers, find_identity_credentials_type, normalized}
use kratos.Identity.Persister.Read.{is_match}
use kratos.Identity.Persister.Owner.{find_by_credentials_identifier-IsMatch}

abbrev pub blank : Tables
blank = record {
  identities = [];
  credentials = [];
  identifiers = [];
  types = record { id = 1; name = "password" } ∷ [];
  verifiable = [];
  recovery = [];
}

abbrev pub site : Env
site = record {
  nid = 3;
  now = 20;
  new_id = λ n. n + 40;
  normal = λ s. if s == " ADA" then "ada" else s;
  schema_url = λ id. some "https://www.ory.sh/schema";
  validate = λ i. (i, ok tt);
  order_verifiable = λ as'. as';
  order_recovery = λ as'. as';
  fault = λ table. none;
  refuse_identity = λ table row. none;
  refuse_credentials = λ table row. none;
  refuse_identifier = λ table row. none;
  refuse_verifiable = λ table row. none;
  refuse_recovery = λ table row. none;
}

abbrev secret : Credentials
secret = record {
  id = 0;
  credential_type_id = 0;
  type = "password";
  identifiers = " ADA" ∷ [];
  config = "";
  identity_id = 0;
  nid = 0;
}

abbrev newcomer : Identity
newcomer = record ada {
  credentials = ("password", secret) ∷ [];
  verifiable_addresses = [];
  recovery_addresses = [];
}

abbrev then_find : Result Tables → Result (Identity × Credentials)
then_find created = created >>= find_by_credentials_identifier site "password" " ADA"

bundle : Unit {0}
unfolding create_identity create_parts create_verifiable_addresses create_recovery_addresses
    create_identity_credentials create_identifiers find_identity_credentials_type validate_identity
    inject_traits_schema_url delete_identity find_by_credentials_identifier
    get_identity_confidential load_credentials copy_without_credentials get_credentials
bundle = tt

abbrev stored : Credentials
stored = record secret {
  id = 40;
  credential_type_id = 1;
  identifiers = "ada" ∷ [];
  config = "{}";
  identity_id = 7;
  nid = 3;
}

abbrev found : Identity
found = record newcomer {
  credentials = [];
  nid = 3;
  schema_url = "https://www.ory.sh/schema";
  state_changed_at = some 20;
}

persister_tests :
    (then_find (create_identity site newcomer blank) ≡ ok (found, stored))
    × (then_find (create_identity site newcomer blank >>= delete_identity site 7) ≡ err no_rows)
unfolding bundle
persister_tests = (refl, refl)

abbrev full : Tables
full = record blank {
  identities = record found { schema_url = "" } ∷ [];
  credentials = record stored { type = ""; identifiers = [] } ∷ [];
  identifiers =
      record {
        id = 40;
        identifier = "ada";
        identity_credentials_id = 40;
        identity_credentials_type_id = 1;
        nid = 3;
      }
      ∷ [];
}

find_by_credentials_identifier-IsMatch_example :
    (row : Credentials) × (find
        (is_match site full "password" (normalized site "password" " ADA"))
        full.credentials
      ≡ some row)
    × (row.nid ≡ 3)
    × (any (λ t. t.id == row.credential_type_id && t.name == "password") full.types ≡ true)
    × (any
          (λ s.
            s.identity_credentials_id == row.id
            && s.nid == 3
            && s.identifier == normalized site "password" " ADA")
          full.identifiers
        ≡ true)
    × (7 ≡ row.identity_id)
    × (found.nid ≡ 3)
    × (found.credentials ≡ [])
    × (stored.type ≡ "password")
    × (stored.identity_id ≡ 7)
    × (stored.nid ≡ 3)
unfolding bundle
find_by_credentials_identifier-IsMatch_example =
    find_by_credentials_identifier-IsMatch site "password" " ADA" full found stored refl
