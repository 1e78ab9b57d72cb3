-- ===== src/Link/Sender/Tests.antt =====
-- A link that is sent to an address and redeemed.
use kratos.Base.{string_eq, if◌then◌else◌, ◌==◌, ◌∷◌, ◌&&◌, ◌≡◌, ◌+◌, ok, [], List, some, none}
use kratos.Base.{false, refl}
use kratos.Identity.{VerifiableAddress}
use kratos.Link.Verification.Token.{VerificationToken, use_token}
use kratos.Link.Sender.{Env, State, verification_valid, send_verification_link}
use kratos.Link.Sender.Arrives.{use_token-send_verification_link}

abbrev pending : VerifiableAddress
pending = record {
  id = 4;
  value = "ada@ory.sh";
  verified = false;
  via = "email";
  status = "pending";
  verified_at = none;
  identity_id = 7;
  nid = 3;
}

abbrev opening : State
opening = record { outbox = []; tokens = []; addresses = pending ∷ [] }

abbrev site : Env
site = record {
  tokens = record {
    nid = 3;
    secrets = "new" ∷ "old" ∷ [];
    hmac = λ token secret. if token == "abc" && secret == "new" then "new:abc" else "other";
    query_fault = λ hash. none;
    address_fault = none;
    update_fault = none;
  };
  now = 500;
  lifespan = 60;
  new_id = 5;
  new_token = "abc";
  lower = λ s. s;
  to_lower = λ s. s;
  get_identity = λ id. none;
  struct_to_map = none;
  find_fault = none;
  create_fault = none;
  queue_fault = none;
  update_fault = none;
}

use_token-send_verification_link_example :
    let after = send_verification_link site opening 20 "email" "ada@ory.sh" in
    (after.1 ≡ ok tt)
    × (after.0.outbox ≡ verification_valid "ada@ory.sh" "abc" 20 ∷ [])
    × ((t : VerificationToken) × (rest : List VerificationToken) × (use_token site.tokens "abc"
            after.0.tokens after.0.addresses
          ≡ ok (t, record pending { status = "sent" }, rest))
        × (t.verifiable_address_id ≡ 4)
        × (t.flow_id ≡ some 20)
        × (t.expires_at ≡ 500 + 60))
use_token-send_verification_link_example =
    use_token-send_verification_link site "new" ("old" ∷ []) refl refl refl refl refl refl opening
      20 "ada@ory.sh" pending refl refl refl refl refl refl refl
