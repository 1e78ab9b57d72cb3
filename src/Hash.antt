-- ===== src/Hash.antt =====
-- hash: the hashers (hasher_argon2.go, hasher_bcrypt.go, hasher_pbkdf2.go) and the comparison of a
-- password with an encoded hash (hash_comparator.go).
--
-- A text is the list of its bytes. The key derivations, bcrypt, base64 and the formatted printing and
-- scanning of numbers are parameters.
pub mod Split
pub mod Compared
mod Tests
use kratos.Base.{
  nat_eq, ◌>>◌, ◌>>=◌, if◌then◌else◌, ◌==◌, ◌++◌, ◌∷◌, ◌||◌, ◌&&◌, ◌%◌, ◌/◌, leb, ltb, check, err,
  ok, Result, Err, length, [], List, some, none, Option, not, false, true, Bool, suc, zero, String,
  ℕ, other, bad_request,
}
use kratos.Http.{codes, same_codes}
use kratos.Hash.Split.{split, cut}

abbrev pub Text : Type 0
Text = List ℕ

abbrev pub dollar : ℕ
dollar = b'$'

-- The hash functions that a pbkdf2 key is derived with. The two in the middle are of SHA-3.
pub data Prf : Type 0 where
  sha1 sha3_224 sha256 sha3_384 sha512 : Prf

pub record Pbkdf2 : Type 0 where
  pub algorithm : Text
  pub iterations : ℕ
  pub salt_length : ℕ
  pub key_length : ℕ

-- config.Argon2, whose memory is a number of bytes in the configuration and of kilobytes in a hash.
pub record Argon2 : Type 0 where
  pub memory : ℕ
  pub iterations : ℕ
  pub parallelism : ℕ
  pub salt_length : ℕ
  pub key_length : ℕ

pub data Hasher : Type 0 where
  by_pbkdf2 : Pbkdf2 → Hasher
  by_argon2 : Argon2 → Hasher

pub record Env : Type 0 where
  -- base64.RawStdEncoding, strict
  pub encode : Text → Text
  pub decode : Text → Option Text
  -- "i=%d,l=%d", "m=%d,t=%d,p=%d" and "v=%d", printed and scanned
  pub print_pbkdf2 : (i l : ℕ) → Text
  pub scan_pbkdf2 : Text → Result (ℕ × ℕ)
  pub print_argon2 : (m t p : ℕ) → Text
  pub scan_argon2 : Text → Result (ℕ × ℕ × ℕ)
  pub print_version : ℕ → Text
  pub scan_version : Text → Result ℕ
  pub pbkdf2_key : (password salt : Text) → (iterations key_length : ℕ) → Prf → Text
  pub argon2_key : (password salt : Text) → (iterations memory parallelism key_length : ℕ) → Text
  pub bcrypt_generate : Text → ℕ → Result Text
  pub bcrypt_compare : (hash password : Text) → Option Err

-- argon2.Version.
abbrev pub argon2_version : ℕ
argon2_version = 19

abbrev pub uint32 : ℕ → ℕ
uint32 n = n % 4294967296

abbrev pub to_kb : ℕ → ℕ
to_kb mem = uint32 (mem / 1024)

unfoldable pub get_pseudorandom_function_for_pbkdf2 : Text → Prf
get_pseudorandom_function_for_pbkdf2 alg =
    if same_codes alg (codes "sha1")
    then sha1
    else if same_codes alg (codes "sha224")
    then sha3_224
    else if same_codes alg (codes "sha256")
    then sha256
    else if same_codes alg (codes "sha384")
    then sha3_384
    else if same_codes alg (codes "sha512")
    then sha512
    else sha256

-- The regular expressions: what is left behind a prefix, and up to three digits before a dollar.
abbrev pub behind : (prefix s : Text) → Option Text
behind [] s = some s
behind (p ∷ ps) [] = none
behind (p ∷ ps) (c ∷ cs) = let rest = behind ps cs in if p == c then rest else none

abbrev is_digit : ℕ → Bool
is_digit c = leb b'0' c && leb c b'9'

abbrev starts_with_dollar : Text → Bool
starts_with_dollar [] = false
starts_with_dollar (c ∷ cs) = c == dollar

-- At most `n` more digits, and then a dollar.
abbrev digits_then_dollar : (n : ℕ) → Text → Bool
digits_then_dollar n [] = false
digits_then_dollar zero (c ∷ cs) = c == dollar
digits_then_dollar (suc n) (c ∷ cs) =
    let more = digits_then_dollar n cs in if c == dollar then true else is_digit c && more

abbrev one_digit_then : Text → Bool
one_digit_then [] = false
one_digit_then (c ∷ cs) = is_digit c && digits_then_dollar 2 cs

abbrev is_variant : ℕ → Bool
is_variant c = c == b'a' || (c == b'b' || (c == b'z' || c == b'y'))

abbrev variant_then_dollar : Text → Bool
variant_then_dollar [] = false
variant_then_dollar (c ∷ cs) = if c == dollar then true else is_variant c && starts_with_dollar cs

abbrev pub matches : (Text → Bool) → Option Text → Bool
matches p none = false
matches p (some s) = p s

unfoldable pub is_bcrypt_hash : Text → Bool
is_bcrypt_hash hash = matches variant_then_dollar (behind (codes "$2") hash)

unfoldable pub is_argon2id_hash : Text → Bool
is_argon2id_hash hash = matches (λ s. true) (behind (codes "$argon2id$") hash)

unfoldable pub is_pbkdf2_hash : Text → Bool
is_pbkdf2_hash hash = matches one_digit_then (behind (codes "$pbkdf2-sha") hash)

abbrev invalid_hash : Err
invalid_hash = other "the encoded hash is not in the correct format"

abbrev mismatched : Err
mismatched = other "passwords do not match"

abbrev or_corrupt : Option Text → Result Text
or_corrupt none = err (other "illegal base64 data")
or_corrupt (some b) = ok b

unfoldable pub validate_bcrypt_password_length : Text → Result (Unit {0})
validate_bcrypt_password_length password =
    if ltb 72 (length password) then err (bad_request "password is too long") else ok tt

abbrev pub same_key : (key other_key : Text) → Result (Unit {0})
same_key key other_key = if same_codes key other_key then ok tt else err mismatched

abbrev compatible : ℕ → Result (Unit {0})
compatible v = if v == argon2_version then ok tt else err (other "incompatible version of argon2")

module _ (E : Env) where
  unfoldable pub generate_pbkdf2 : Pbkdf2 → (salt password : Text) → Text
  generate_pbkdf2 h salt password =
      let key =
        E.pbkdf2_key password salt h.iterations h.key_length
          (get_pseudorandom_function_for_pbkdf2 h.algorithm) in
      codes "$pbkdf2-"
      ++ (h.algorithm
          ++ dollar
            ∷ (E.print_pbkdf2 h.iterations h.key_length
                ++ dollar ∷ (E.encode salt ++ dollar ∷ E.encode key)))

  unfoldable pub generate_argon2 : Argon2 → (salt password : Text) → Text
  generate_argon2 p salt password =
      let key =
        E.argon2_key password salt p.iterations (to_kb p.memory) p.parallelism p.key_length in
      codes "$argon2id$"
      ++ (E.print_version argon2_version
          ++ dollar
            ∷ (E.print_argon2 (to_kb p.memory) p.iterations p.parallelism
                ++ dollar ∷ (E.encode salt ++ dollar ∷ E.encode key)))

  unfoldable generate_bcrypt : (cost : ℕ) → Text → Result Text
  generate_bcrypt cost password = do
    validate_bcrypt_password_length password
    E.bcrypt_generate password cost

  -- Hasher.Generate of the two hashers that derive a key under a salt.
  unfoldable pub generate : Hasher → (salt password : Text) → Text
  generate (by_pbkdf2 h) salt password = generate_pbkdf2 h salt password
  generate (by_argon2 p) salt password = generate_argon2 p salt password

  -- From the parts between the dollars.
  abbrev decode_pbkdf2_parts : List Text → Result (Pbkdf2 × Text × Text)
  decode_pbkdf2_parts (_ ∷ digest ∷ numbers ∷ salt ∷ key ∷ []) = do
    algorithm ← elim (cut b'-' digest) [ none ↦ err invalid_hash | some (_, alg) ↦ ok alg ]
    (i, l) ← E.scan_pbkdf2 numbers
    salt' ← or_corrupt (E.decode salt)
    key' ← or_corrupt (E.decode key)
    ok (
      record {
        algorithm = algorithm;
        iterations = i;
        salt_length = uint32 (length salt');
        key_length = uint32 (length key');
      },
      salt',
      key',
    )
  decode_pbkdf2_parts _ = err invalid_hash

  unfoldable pub decode_pbkdf2_hash : Text → Result (Pbkdf2 × Text × Text)
  decode_pbkdf2_hash hash = decode_pbkdf2_parts (split dollar hash)

  abbrev decode_argon2id_parts : List Text → Result (Argon2 × Text × Text)
  decode_argon2id_parts (_ ∷ _ ∷ version ∷ numbers ∷ salt ∷ key ∷ []) = do
    v ← E.scan_version version
    compatible v
    (m, t, p) ← E.scan_argon2 numbers
    salt' ← or_corrupt (E.decode salt)
    key' ← or_corrupt (E.decode key)
    ok (
      record {
        memory = m;
        iterations = t;
        parallelism = p;
        salt_length = uint32 (length salt');
        key_length = uint32 (length key');
      },
      salt',
      key',
    )
  decode_argon2id_parts _ = err invalid_hash

  unfoldable pub decode_argon2id_hash : Text → Result (Argon2 × Text × Text)
  decode_argon2id_hash hash = decode_argon2id_parts (split dollar hash)

  unfoldable pub compare_pbkdf2 : (password hash : Text) → Result (Unit {0})
  compare_pbkdf2 password hash = do
    (p, salt, key) ← decode_pbkdf2_hash hash
    same_key key (
        E.pbkdf2_key password salt p.iterations p.key_length
          (get_pseudorandom_function_for_pbkdf2 p.algorithm))

  unfoldable pub compare_argon2id : (password hash : Text) → Result (Unit {0})
  compare_argon2id password hash = do
    (p, salt, key) ← decode_argon2id_hash hash
    same_key key
        (E.argon2_key password salt p.iterations (uint32 p.memory) p.parallelism p.key_length)

  unfoldable pub compare_bcrypt : (password hash : Text) → Result (Unit {0})
  compare_bcrypt password hash = do
    validate_bcrypt_password_length password
    check (E.bcrypt_compare hash password)

  unfoldable pub compare : (password hash : Text) → Result (Unit {0})
  compare password hash =
      if is_bcrypt_hash hash
      then compare_bcrypt password hash
      else if is_argon2id_hash hash
      then compare_argon2id password hash
      else if is_pbkdf2_hash hash
      then compare_pbkdf2 password hash
      else err (other "unknown hash algorithm")
