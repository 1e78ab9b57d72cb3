-- ===== src/Hash/Tests.antt =====
-- Hashes with a codec that stands for base64 and printed numbers by shifted bytes.
use kratos.Base.{
  nat_eq, ◌==◌, false, ap, suc, zero, ℕ, ◌≡◌, refl, [], ◌∷◌, ok, err, other, some, none, ◌+◌, ◌-◌,
  Result, arith, length, true,
}
use kratos.Http.{codes}
use kratos.Hash.{Text, Env, Hasher, by_pbkdf2, compare, generate, dollar}
use kratos.Hash.Split.{is_free}
use kratos.Hash.Compared.{IsCodec, IsSupported, is_sha256, compare-generate}

abbrev up : ℕ → ℕ
up c = c + 37

abbrev down : ℕ → ℕ
down c = c - 37

abbrev raise : Text → Text
raise [] = []
raise (c ∷ s) = up c ∷ raise s

abbrev lower : Text → Text
lower [] = []
lower (c ∷ s) = down c ∷ lower s

-- A key that tells passwords apart by their first byte.
abbrev key_of : Text → ℕ → Text
key_of password zero = []
key_of [] (suc n) = 0 ∷ key_of [] n
key_of (c ∷ cs) (suc n) = c ∷ key_of (c ∷ cs) n

abbrev scan_two : Text → Result (ℕ × ℕ)
scan_two (i ∷ l ∷ []) = ok (down i, down l)
scan_two _ = err (other "scan")

abbrev scan_three : Text → Result (ℕ × ℕ × ℕ)
scan_three (m ∷ t ∷ p ∷ []) = ok (down m, down t, down p)
scan_three _ = err (other "scan")

abbrev scan_one : Text → Result ℕ
scan_one (v ∷ []) = ok (down v)
scan_one _ = err (other "scan")

abbrev library : Env
library = record {
  encode = raise;
  decode = λ t. some (lower t);
  print_pbkdf2 = λ i l. up i ∷ up l ∷ [];
  scan_pbkdf2 = scan_two;
  print_argon2 = λ m t p. up m ∷ up t ∷ up p ∷ [];
  scan_argon2 = scan_three;
  print_version = λ v. up v ∷ [];
  scan_version = scan_one;
  pbkdf2_key = λ password salt i l f. key_of password l;
  argon2_key = λ password salt t m p l. key_of password l;
  bcrypt_generate = λ password cost. err (other "unused");
  bcrypt_compare = λ hash password. none;
}

down-up : (c : ℕ) → down (up c) ≡ c
down-up c = omega arith

up_free : (c : ℕ) → (up c == dollar) ≡ false
up_free c = ground arith

lower-raise : (t : Text) → lower (raise t) ≡ t
lower-raise [] = refl
lower-raise (c ∷ t) = rw (down-up c, lower-raise t) refl

raise_free : (t : Text) → is_free dollar (raise t) ≡ true
raise_free [] = refl
raise_free (c ∷ t) = rw (up_free c, raise_free t) refl

length-key_of : (p : Text) (n : ℕ) → length (key_of p n) ≡ n
length-key_of p zero = refl
length-key_of [] (suc n) = ap suc (length-key_of [] n)
length-key_of (c ∷ cs) (suc n) = ap suc (length-key_of (c ∷ cs) n)

library-IsCodec : IsCodec library
library-IsCodec = record {
  decode-encode = λ b. ap some (lower-raise b);
  encode_free = raise_free;
  scan_pbkdf2 = λ i l h k. rw (down-up i, down-up l) refl;
  pbkdf2_free = λ i l. rw (up_free i, up_free l) refl;
  scan_argon2 = λ m t p h k j. rw (down-up m, down-up t, down-up p) refl;
  argon2_free = λ m t p. rw (up_free m, up_free t, up_free p) refl;
  scan_version = λ v. rw (down-up v) refl;
  version_free = λ v. rw (up_free v) refl;
  pbkdf2_length = λ p s i l f. length-key_of p l;
  argon2_length = λ p s t m q l. length-key_of p l;
}

abbrev strong : Hasher
strong =
    by_pbkdf2
      (record { algorithm = codes "sha256"; iterations = 1000; salt_length = 2; key_length = 4 })

strong-IsSupported : IsSupported strong
strong-IsSupported = (is_sha256 refl, omega arith, omega arith)

compare-generate_example :
    (compare library (codes "a") (generate library strong (codes "s1") (codes "a")) ≡ ok tt)
    × (compare library (codes "b") (generate library strong (codes "s1") (codes "a"))
        ≡ err (other "passwords do not match"))
compare-generate_example =
    compare-generate library library-IsCodec strong (codes "s1") (codes "a") (codes "b")
      strong-IsSupported
