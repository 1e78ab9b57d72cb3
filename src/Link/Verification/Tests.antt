-- ===== src/Link/Verification/Tests.antt =====
-- A verification link in a concrete world.
use kratos.Base.Find.{find}
use kratos.Base.{string_eq, if◌then◌else◌, ◌==◌, ◌∷◌, ◌⊎◌, ◌≡◌, ◌≤◌, ◌+◌, ok, [], some, none}
use kratos.Base.{false, refl}
use kratos.Identity.{VerifiableAddress}
use kratos.Redirect.{Url, is_white_listed_host, is_allowed_by, has_prefix, redirect_within}
use kratos.Redirect.{redirect_with, secure_redirect_to}
use kratos.Link.Verification.{retry_with_error, retry_with_message, World, Env}
use kratos.Link.Verification.{verification_use_token, challenge, flow_of, return_of}
use kratos.Link.Verification.{request_url_of}
use kratos.Link.Verification.Flow.{get_flow, update_flow, create_flow, new_flow}
use kratos.Link.Verification.Token.{VerificationToken, use_token, try_secrets, query, address_of}
use kratos.Link.Verification.Token.{valid, update_verifiable_address, is_address}
use kratos.Link.Verification.Found.{IsFound}
use kratos.Link.Verification.Verified.{verified_in, verification_use_token-addresses}

abbrev home : Url
home = record { scheme = "https"; host = "www.ory.sh"; path = "/"; raw_query = "" }

abbrev stored : VerificationToken
stored = record {
  id = 5;
  token = "new:abc";
  expires_at = 900;
  issued_at = 10;
  verifiable_address_id = 4;
  flow_id = none;
  nid = 3;
  used = false;
}

abbrev unverified : VerifiableAddress
unverified = record {
  id = 4;
  value = "ada@ory.sh";
  verified = false;
  via = "email";
  status = "sent";
  verified_at = none;
  identity_id = 7;
  nid = 3;
}

abbrev opening : World
opening = record { tokens = stored ∷ []; flows = []; addresses = unverified ∷ [] }

abbrev site : Env
site = record {
  flow = record {
    redirect = record {
      parse_request_uri = λ s. some home;
      return_to = λ q. "";
      to_lower = λ s. s;
      equal_fold = λ a b. a == b;
      append_path = λ url p. record url { path = p };
      request_url = home;
    };
    default_return_to = home;
    whitelist = [];
    public_url = home;
    lifespan = 60;
    now = 500;
    new_id = λ n. n + 20;
    request_url = "https://www.ory.sh/";
    populate = none;
    nid = 3;
    create_fault = λ id. none;
    get_fault = none;
    update_fault = none;
  };
  tokens = record {
    nid = 3;
    secrets = "new" ∷ [];
    hmac = λ token secret. if token == "abc" then "new:abc" else "other";
    query_fault = λ hash. none;
    address_fault = none;
    update_fault = none;
  };
  regenerated = "c2";
  csrf_token = "c1";
  now = 500;
  parse_error = λ e f. ok f;
  get_identity = λ id. none;
  post_hook = none;
  update_address_fault = none;
  default_redirect = λ id. home;
  parse_url = λ s. some home;
}

bundle : Unit {0}
unfolding verification_use_token retry_with_error retry_with_message challenge flow_of return_of
    request_url_of get_flow update_flow create_flow new_flow use_token try_secrets query address_of
    valid update_verifiable_address secure_redirect_to redirect_with redirect_within is_allowed_by
    is_white_listed_host has_prefix
bundle = tt

verifies :
    (verification_use_token site opening "abc").0.addresses
    ≡ verified_in site unverified (unverified ∷ [])
unfolding bundle
verifies = refl

expires :
    (verification_use_token (record site { now = 901 }) opening "abc").0.addresses ≡ unverified ∷ []
unfolding bundle
expires = refl

verification_use_token-addresses_example :
    ((verification_use_token site opening "abc").0.addresses ≡ unverified ∷ [])
    ⊎ ((t : VerificationToken) × (a : VerifiableAddress) × (IsFound site.tokens "abc"
          ("new" ∷ [])
          (stored ∷ [])
          t)
        × (find (is_address 3 t.verifiable_address_id) (unverified ∷ []) ≡ some a)
        × (500 ≤ t.expires_at)
        × ((verification_use_token site opening "abc").0.addresses
            ≡ verified_in site a (unverified ∷ [])))
verification_use_token-addresses_example =
    verification_use_token-addresses site "new" [] refl opening "abc"
