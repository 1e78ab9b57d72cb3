-- ===== src/Password/Retried.antt =====
-- What a lookup that breaks off leaves behind.
use kratos.Base.{arith, ◌==◌, ◌∷◌, ◌≡◌, string_eq, internal, err, ok, Err, List, some, none, true}
use kratos.Base.{Bool, refl, String, suc, ℕ}
use Prim.Native.String.{slice}
use kratos.Base.Dict.{lookup, insert, lookup-insert}
use kratos.Password.{Env, Hashes, answer, entry_of, scan, scanned, received, fetch, check_policy}
use kratos.Password.{check_breaches, validate}

module _ (E : Env) where
  zero_passes : check_breaches E 0 ≡ ok tt
  zero_passes = ground arith

  scan_malformed :
      (prefix row : String) (rows : List String) (hashes : Hashes)
      → entry_of E prefix (E.split row) ≡ none
      → scan E prefix (row ∷ rows) hashes
        ≡ (hashes, err (internal "Expected password hash from remote to contain two parts"))
  unfolding scan
  scan_malformed prefix row rows hashes malformed = rw (scan, malformed) refl

  -- When the service answers with status 200 and its first line is malformed, a new password that
  -- passes the other checks is refused with an error; and then, tried again, it is accepted without
  -- another lookup, since its count has been set to 0 before the answer was read.
  pub validate_twice :
      (n m : ℕ) (hashes : Hashes) (identifier password row : String) (rows : List String)
      (breaks_off : Bool)
      → check_policy E identifier password ≡ ok true
      → lookup (E.sha1 password) hashes ≡ none
      → E.get (slice (E.sha1 password) 0 5) ≡ answer 200 (row ∷ rows) breaks_off
      → entry_of E (slice (E.sha1 password) 0 5) (E.split row) ≡ none
      → (after : Hashes) × (e : Err) × (validate E (suc n) hashes identifier password
          ≡ some (after, err e))
        × (validate E (suc m) after identifier password ≡ some (after, ok tt))
  unfolding validate fetch
  validate_twice n m hashes identifier password row rows breaks_off fine unknown answered
        malformed =
      let zeroed = insert (E.sha1 password) 0 hashes in
      let stops = scan_malformed (slice (E.sha1 password) 0 5) row rows zeroed malformed in
      let failed : fetch E (E.sha1 password) hashes
          ≡ (zeroed, err (internal "Expected password hash from remote to contain two parts")) =
        rw (fetch, answered, received, scanned, stops, stops) refl in
      let same : (E.sha1 password == E.sha1 password) ≡ true =
        (string_eq.beq_iff (E.sha1 password) (E.sha1 password)).1 refl in
      let known = lookup-insert (E.sha1 password) (E.sha1 password) 0 hashes in
      (
        insert (E.sha1 password) 0 hashes,
        internal "Expected password hash from remote to contain two parts",
        rw (validate, fine, unknown, failed, failed) refl,
        rw (validate, fine, known, same, zero_passes) refl,
      )
