-- ===== src/Password/Tests.antt =====
-- A service that knows one password, and one that breaks off.
use kratos.Base.{string_eq, if◌then◌else◌, ◌==◌, ◌∷◌, ◌≡◌, ◌≤◌, other, err, ok, Result, Err, []}
use kratos.Base.{some, false, true, refl, suc, ℕ}
use Prim.Native.String.{len}
use kratos.Password.{Env, Hashes, answer, scan, fetch, check_policy, is_similar, validate}
use kratos.Password.Similar.{lcs_length}
use kratos.Password.Terminates.{validate_terminates}
use kratos.Password.Accepted.{IsUnbreached, validate_accepts}
use kratos.Password.Retried.{validate_twice}

abbrev site : Env
site = record {
  min_password_length = 8;
  identifier_similarity_check_enabled = true;
  have_i_been_pwned_enabled = true;
  ignore_network_errors = true;
  max_breaches = 0;
  to_lower = λ s. s;
  distance = λ a b. 9;
  sha1 = λ s. if s == "password" then "ABCDE12" else "ABCDE99";
  get = λ prefix. answer 200 ("12:3" ∷ []) false;
  split = λ row. "12" ∷ "3" ∷ [];
  parse_int = λ s. some 3;
}

-- The first line has no colon.
abbrev garbled : Env
garbled = record site { split = λ row. "12" ∷ [] }

bundle : Unit {0}
unfolding validate fetch scan check_policy is_similar lcs_length
bundle = tt

lcs_tests : (lcs_length "banana" "panama" ≡ 3) × (lcs_length "abc" "xyz" ≡ 0)
unfolding bundle
lcs_tests = (refl, refl)

-- Characters of two bytes are never adjacent.
lcs_of_umlauts : lcs_length "äöü" "äöü" ≡ 1
unfolding bundle
lcs_of_umlauts = refl

breached_tests :
    validate site 2 [] "ada" "password"
    ≡ some (("ABCDE12", 3) ∷ [], err (other "the password has been found in data breaches"))
unfolding bundle
breached_tests = refl

accepts : validate site 2 [] "ada" "pa55w0rd" ≡ some (("ABCDE99", 0) ∷ ("ABCDE12", 3) ∷ [], ok tt)
unfolding bundle
accepts = refl

validate_terminates_example :
    (r : Hashes × Result (Unit {0})) × ((n : ℕ)
      → validate site (suc (suc n)) [] "ada" "password" ≡ some r)
validate_terminates_example = validate_terminates site [] "ada" "password"

validate_accepts_example :
    (8 ≤ len "pa55w0rd")
    × (true ≡ true → is_similar site "ada" "pa55w0rd" ≡ false)
    × IsUnbreached site (("ABCDE99", 0) ∷ ("ABCDE12", 3) ∷ []) "ABCDE99"
validate_accepts_example =
    validate_accepts site 2 [] (("ABCDE99", 0) ∷ ("ABCDE12", 3) ∷ []) "ada" "pa55w0rd" tt accepts

checked : check_policy garbled "ada" "password" ≡ ok true
unfolding bundle
checked = refl

validate_twice_example :
    (after : Hashes) × (e : Err) × (validate garbled 2 [] "ada" "password" ≡ some (after, err e))
    × (validate garbled 2 after "ada" "password" ≡ some (after, ok tt))
validate_twice_example =
    validate_twice garbled 1 1 [] "ada" "password" "12:3" [] false checked refl refl refl
