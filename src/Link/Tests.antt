-- ===== src/Link/Tests.antt =====
-- Recovery tokens in a concrete table.
use kratos.Base.{if◌then◌else◌, ◌==◌, ◌&&◌, string_eq, false, ◌≡◌, refl, none, some, [], ◌∷◌, ok}
use kratos.Link.{RecoveryToken, Env, no_address, query, try_secrets, address_of}
use kratos.Link.{use_recovery_token, redeemed}
use kratos.Link.Once.{IsDistinct, redeemed-IsDistinct}

abbrev pub stored : RecoveryToken
stored = record {
  id = 5;
  token = "old:abc";
  recovery_address = none;
  expires_at = 900;
  issued_at = 10;
  recovery_address_id = some 4;
  flow_id = none;
  nid = 3;
  identity_id = 7;
  used = false;
}

-- The token was stored under a secret that has been rotated since.
abbrev pub rotated : Env
rotated = record {
  nid = 3;
  secrets = "new" ∷ "old" ∷ [];
  hmac = λ token secret. if token == "abc" && secret == "old" then "old:abc" else "other";
  query_fault = λ hash. none;
  get_address = λ id. ok (record no_address { id = 4; value = "ada@ory.sh" });
  update_fault = none;
}

redeemed_tests : redeemed rotated ("abc" ∷ "x" ∷ "abc" ∷ []) (stored ∷ []) ≡ 5 ∷ []
unfolding redeemed use_recovery_token try_secrets query address_of
redeemed_tests = refl

redeemed-IsDistinct_example : IsDistinct (redeemed rotated ("abc" ∷ "x" ∷ "abc" ∷ []) (stored ∷ []))
redeemed-IsDistinct_example =
    redeemed-IsDistinct rotated "new" ("old" ∷ []) refl ("abc" ∷ "x" ∷ "abc" ∷ []) (stored ∷ [])
