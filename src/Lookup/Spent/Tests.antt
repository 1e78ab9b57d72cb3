-- ===== src/Lookup/Spent/Tests.antt =====
-- A recovery code spent in the tables of the persister.
use mathlib.Core.Path.{subst}
use kratos.Base.{sym}
use kratos.Base.{
  ◌≡◌, refl, ap, String, true, false, none, [], ◌∷◌, if◌then◌else◌, ◌==◌, nat_eq, string_eq,
}
use kratos.Base.{ok, ok-injective, other}
use kratos.Identity.{Identity, Credentials, get_credentials, set_credentials}
use kratos.Identity.Manager.{Pool}
use kratos.Identity.Tests.{ada}
use kratos.Session.Tests.{laptop, by_cookie}
use kratos.Flow.{ensure_csrf, method_enabled_and_allowed_from_request, method_enabled_and_allowed}
use kratos.Login.{Flow, check_aal}
use kratos.Lookup.{mark_codes, use_code}
use kratos.Lookup.Login.{Env, login, guards, redeem, find_codes, store_codes}
use kratos.Identity.{copy_without_credentials}
use kratos.Identity.Persister.{
  Tables, create_identity, update_identity, create_parts, create_verifiable_addresses,
  create_recovery_addresses, create_identity_credentials, create_identifiers,
  find_identity_credentials_type, validate_identity, inject_traits_schema_url,
}
use kratos.Identity.Persister.Read.{
  get_identity_confidential, find_by_credentials_identifier, load_credentials,
}
use kratos.Identity.Persister.Tests.{blank, site}
use kratos.Lookup.Tests.{read, write, read-write, write-nonempty}
use kratos.Lookup.Spent.{login-twice}

-- The pool of the persister, over its tables.
abbrev persister : Pool
persister = record {
  State = Tables;
  get_identity_confidential = λ T id. get_identity_confidential site id T;
  create_identity = λ T i. create_identity site i T;
  update_identity = λ T i. update_identity site i T;
}

abbrev codes_row : Credentials
codes_row = record {
  id = 40;
  credential_type_id = 2;
  type = "";
  identifiers = [];
  config = "unused";
  identity_id = 7;
  nid = 3;
}

abbrev with_codes : Tables
with_codes = record blank {
  types = record { id = 2; name = "lookup_secret" } ∷ [];
  identities =
      record ada { nid = 3; credentials = []; verifiable_addresses = []; recovery_addresses = [] }
      ∷ [];
  credentials = codes_row ∷ [];
  identifiers =
      record {
        id = 40;
        identifier = "7";
        identity_credentials_id = 40;
        identity_credentials_type_id = 2;
        nid = 3;
      }
      ∷ [];
}

abbrev form : Env persister
form = record {
  now = 100;
  enabled = λ s. true;
  method = ok "lookup_secret";
  payload = ok (record { csrf_token = "x"; code = "c1" });
  has_cookies = λ h. true;
  token_is_valid = λ r t. true;
  csrf_reason = λ r. other "csrf";
  disable_api_flow_enforcement = false;
  find_by_credentials_identifier = λ T t s. find_by_credentials_identifier site t s T;
  id_string = λ id. "7";
  unmarshal = read;
  marshal = write;
  flow_fault = none;
}

abbrev flow : Flow
flow = record {
  id = 1;
  nid = 3;
  type = "browser";
  expires_at = 900;
  issued_at = 90;
  internal_context = "{}";
  request_url = "";
  active = "";
  csrf_token = "";
  refresh = false;
  requested_aal = "aal2";
}

abbrev codes : Credentials
codes = record codes_row { type = "lookup_secret"; identifiers = "7" ∷ [] }

abbrev plain : Identity
plain = record ada {
  nid = 3;
  credentials = [];
  schema_url = "https://www.ory.sh/schema";
  verifiable_addresses = [];
  recovery_addresses = [];
}

bundle : Unit {0}
unfolding create_identity update_identity create_parts create_verifiable_addresses
    create_recovery_addresses create_identity_credentials create_identifiers
    find_identity_credentials_type validate_identity inject_traits_schema_url
    find_by_credentials_identifier get_identity_confidential load_credentials
    copy_without_credentials get_credentials set_credentials
bundle = tt

abbrev Reads : String → Tables → Type 0
Reads text T =
    (i : Identity) × (c : Credentials) × (find_by_credentials_identifier site "lookup_secret" "7" T
      ≡ ok (i, c))
    × (c.config ≡ text)

-- The persister finds what it has updated.
updated :
    (text : String) (T : Tables)
    → (text == "") ≡ false
    → update_identity site
        (set_credentials "lookup_secret"
          (record codes { config = text })
          (record plain { credentials = ("lookup_secret", codes) ∷ [] }))
        with_codes
      ≡ ok T
    → Reads text T
unfolding bundle
updated text T nonempty h =
    subst (Reads text) (ok-injective h)
      (plain, record codes { config = if text == "" then "{}" else text }, refl, rw nonempty refl)

found_after :
    (i owner : Identity) (c : Credentials) (text : String) (T : Tables)
    → find_by_credentials_identifier site "lookup_secret" "7" with_codes ≡ ok (i, c)
    → get_identity_confidential site 7 with_codes ≡ ok owner
    → (text == "") ≡ false
    → update_identity site
        (set_credentials "lookup_secret" (record c { config = text }) owner)
        with_codes
      ≡ ok T
    → Reads text T
unfolding bundle
found_after i owner c text T found known nonempty h =
    let is_codes : c ≡ codes = sym (ap (λ x. x.1) (ok-injective found)) in
    let is_owner : owner ≡ record plain { credentials = ("lookup_secret", codes) ∷ [] } =
      sym (ok-injective known) in
    updated text T nonempty (
      subst
        (λ (x : Credentials × Identity).
          update_identity site (set_credentials "lookup_secret" (record x.0 { config = text }) x.1)
            with_codes
          ≡ ok T)
        (λ j. (is_codes j, is_owner j)) h)

login-twice_example : ¬ (
    (login persister
      (record form { now = 200 })
      (login persister form with_codes by_cookie flow laptop).state
      by_cookie
      flow
      laptop).result
    ≡ ok plain)
unfolding bundle login guards redeem find_codes store_codes check_aal method_enabled_and_allowed
    method_enabled_and_allowed_from_request ensure_csrf use_code mark_codes
login-twice_example =
    login-twice persister form read-write write-nonempty with_codes 7 found_after by_cookie
      by_cookie flow flow laptop laptop 200 plain refl refl refl plain
