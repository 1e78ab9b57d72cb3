-- ===== src/Password.antt =====
-- selfservice/strategy/password/validator.go: whether a password may be used.
--
-- The validator keeps the breach counts it has seen, under the SHA-1 hash of a password in
-- hexadecimal. Lengths are those of UTF-8. The quotient that is compared with 0.5 is compared without
-- a division, which is the same for passwords shorter than 2 ^ 22 bytes.
pub mod Similar
pub mod Terminates
pub mod Accepted
pub mod Retried
mod Tests
use kratos.Base.{nat_eq, string_eq, if◌then◌else◌, ◌==◌, ◌∷◌, ◌||◌, ◌&&◌, ◌*◌, ltb, other}
use kratos.Base.{internal, unexpected_status_code, network_failure, err, ok, Result, Err, length}
use kratos.Base.{[], List, some, none, Option, not, false, true, Bool, String, suc, zero, ℕ}
use Prim.Native.String.{◌++◌, len, slice}
use kratos.Base.Dict.{lookup, insert}
use kratos.Password.Similar.{lcs_length}

abbrev pub Hashes : Type 0
Hashes = List (String × ℕ)

-- What the service answers: nothing, or a status code with the lines of a body, which may break off.
pub data Response : Type 0 where
  no_answer : Response
  answer : (code : ℕ) → (rows : List String) → (breaks_off : Bool) → Response

-- The policy of the configuration, and what is taken from libraries and the network.
pub record Env : Type 0 where
  pub min_password_length : ℕ
  pub identifier_similarity_check_enabled : Bool
  pub have_i_been_pwned_enabled : Bool
  pub ignore_network_errors : Bool
  pub max_breaches : ℕ
  -- strings.ToLower and levenshtein.Distance
  pub to_lower : String → String
  pub distance : String → String → ℕ
  -- b20 of the SHA-1 hash
  pub sha1 : String → String
  -- the service, asked for a prefix
  pub get : String → Response
  -- stringsx.Splitx(strings.TrimSpace(row), ":")
  pub split : String → List String
  -- strconv.ParseInt. A negative count compares like 0, and is read as 0.
  pub parse_int : String → Option ℕ

abbrev pub min_identifier_password_dist : ℕ
min_identifier_password_dist = 5

module _ (E : Env) where
  abbrev pub entry_of : (prefix : String) → List String → Option (String × ℕ)
  entry_of prefix (suffix ∷ number ∷ []) = elim (E.parse_int number) [
    | none ↦ none
    | some n ↦ some (prefix ++ suffix, n)
  ]
  entry_of prefix _ = none

  -- The loop over the lines: a line that is no entry ends it.
  unfoldable pub scan : String → List String → Hashes → Hashes × Result (Unit {0})
  scan prefix [] hashes = (hashes, ok tt)
  scan prefix (row ∷ rows) hashes = elim (entry_of prefix (E.split row)) [
    | none ↦ (hashes, err (internal "Expected password hash from remote to contain two parts"))
    | some entry ↦ scan prefix rows (insert entry.0 entry.1 hashes)
  ]

  abbrev pub scanned : Bool → Hashes × Result (Unit {0}) → Hashes × Result (Unit {0})
  scanned breaks_off (hashes, err e) = (hashes, err e)
  scanned true (hashes, ok u) = (hashes, err (internal "Unable to initialize string scanner"))
  scanned false (hashes, ok u) = (hashes, ok u)

  abbrev pub received : String → Hashes → Response → Hashes × Result (Unit {0})
  received hpw hashes no_answer = (hashes, err network_failure)
  received hpw hashes (answer code rows breaks_off) =
      if not (code == 200)
      then (hashes, err unexpected_status_code)
      else scanned breaks_off (scan (slice hpw 0 5) rows (insert hpw 0 hashes))

  unfoldable pub fetch : String → Hashes → Hashes × Result (Unit {0})
  fetch hpw hashes = received hpw hashes (E.get (slice hpw 0 5))

  unfoldable pub is_similar : (identifier password : String) → Bool
  is_similar identifier password =
      let i = E.to_lower identifier in
      let p = E.to_lower password in
      ltb (E.distance i p) min_identifier_password_dist || ltb (len p) (2 * lcs_length i p)

  abbrev pub is_network_error : Err → Bool
  is_network_error network_failure = true
  is_network_error unexpected_status_code = true
  is_network_error _ = false

  -- The checks that need no counts, and whether counts are to be checked.
  unfoldable pub check_policy : (identifier password : String) → Result Bool
  check_policy identifier password =
      if ltb (len password) E.min_password_length
      then err (other "password length must be at least")
      else if E.identifier_similarity_check_enabled && is_similar identifier password
      then err (other "the password is too similar to the user identifier")
      else ok E.have_i_been_pwned_enabled

  abbrev pub check_breaches : ℕ → Result (Unit {0})
  check_breaches c =
      if ltb E.max_breaches c
      then err (other "the password has been found in data breaches")
      else ok tt

  -- The counts that are left, and the verdict. The call of itself is counted down: `none` is a
  -- recursion that was cut off.
  unfoldable pub validate :
      ℕ → Hashes → (identifier password : String) → Option (Hashes × Result (Unit {0}))
  validate zero hashes identifier password = none
  validate (suc n) hashes identifier password = elim (check_policy identifier password) [
    | err e ↦ some (hashes, err e)
    | ok counts ↦
        if not counts then some (hashes, ok tt) else (elim (lookup (E.sha1 password) hashes) [
          | some c ↦ some (hashes, check_breaches c)
          | none ↦
              let fetched = fetch (E.sha1 password) hashes in
              elim fetched.1 [
                | ok _ ↦ validate n fetched.0 identifier password
                | err e ↦
                    if is_network_error e && E.ignore_network_errors
                    then some (fetched.0, ok tt)
                    else some (fetched.0, err e)
              ]
        ])
  ]
