-- ===== src/Link/Sender/Recovery/Tests.antt =====
-- A recovery link, and a database that fails.
use kratos.Base.{◌∷◌, ◌≡◌, db_error, ok, [], some, none, refl}
use kratos.Identity.{RecoveryAddress}
use kratos.Link.{create_recovery_token, new_self_service_recovery_token}
use kratos.Link.Sender.Recovery.{Env, State, recovery_valid, recovery_invalid, send_recovery_link}
use kratos.Link.Sender.Recovery.{send_recovery_token_to, send_mail}
use kratos.Link.Sender.Recovery.{find_recovery_address_by_value}

abbrev ada : RecoveryAddress
ada = record { id = 4; value = "ada@ory.sh"; via = "email"; identity_id = 7; nid = 3 }

abbrev site : Env
site = record {
  tokens = record {
    nid = 3;
    secrets = "new" ∷ [];
    hmac = λ token secret. "hash";
    query_fault = λ hash. none;
    get_address = λ id. ok ada;
    update_fault = none;
  };
  addresses = ada ∷ [];
  now = 500;
  lifespan = 60;
  new_id = 5;
  new_token = "abc";
  lower = λ s. s;
  to_lower = λ s. s;
  get_identity = λ id. none;
  struct_to_map = none;
  find_fault = none;
  create_fault = none;
  queue_fault = none;
}

abbrev empty : State
empty = record { outbox = []; tokens = [] }

bundle : Unit {0}
unfolding send_recovery_link send_recovery_token_to send_mail find_recovery_address_by_value
    create_recovery_token new_self_service_recovery_token
bundle = tt

mailed :
    (send_recovery_link site empty 20 "email" "ada@ory.sh").0.outbox
    ≡ recovery_valid "ada@ory.sh" "abc" 20 ∷ []
unfolding bundle
mailed = refl

-- The owner is told that the address is unknown.
misled :
    (send_recovery_link
      (record site { find_fault = some (db_error "timeout") })
      empty
      20
      "email"
      "ada@ory.sh").0.outbox
    ≡ recovery_invalid "ada@ory.sh" ∷ []
unfolding bundle
misled = refl
