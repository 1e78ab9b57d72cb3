-- ===== src/Hash/Compared.antt =====
-- A generated hash, compared with a password.
use kratos.Base.{
  ◌∙◌, nat_eq, false, ℕ, ◌≡◌, refl, ◌<◌, ok, arith, length, true, ◌∷◌, ◌++◌, [], some,
}
use kratos.Http.{codes}
use kratos.Hash.Split.{split-joined, split, is_free}
use kratos.Hash.{
  same_codes, Hasher, by_pbkdf2, by_argon2, generate, Text, Env, Pbkdf2, Argon2, dollar, compare,
  generate_pbkdf2, generate_argon2,
}
use kratos.Hash.{get_pseudorandom_function_for_pbkdf2, same_key, to_kb, uint32, argon2_version}
use kratos.Hash.{is_bcrypt_hash, is_argon2id_hash, is_pbkdf2_hash, compare_pbkdf2, compare_argon2id}
use kratos.Hash.{decode_pbkdf2_hash, decode_argon2id_hash}

-- What base64, the printing and scanning of numbers and the key derivations do, by their
-- documentation: what is encoded or printed is read back and has no dollar, and a derived key has the
-- length that is asked for.
pub record IsCodec (E : Env) : Type 0 where
  pub decode-encode : (b : Text) → E.decode (E.encode b) ≡ some b
  pub encode_free : (b : Text) → is_free dollar (E.encode b) ≡ true
  pub scan_pbkdf2 :
      (i l : ℕ) → i < 4294967296 → l < 4294967296 → E.scan_pbkdf2 (E.print_pbkdf2 i l) ≡ ok (i, l)
  pub pbkdf2_free : (i l : ℕ) → is_free dollar (E.print_pbkdf2 i l) ≡ true
  pub scan_argon2 :
      (m t p : ℕ)
      → m < 4294967296
      → t < 4294967296
      → p < 256
      → E.scan_argon2 (E.print_argon2 m t p) ≡ ok (m, t, p)
  pub argon2_free : (m t p : ℕ) → is_free dollar (E.print_argon2 m t p) ≡ true
  pub scan_version : (v : ℕ) → E.scan_version (E.print_version v) ≡ ok v
  pub version_free : (v : ℕ) → is_free dollar (E.print_version v) ≡ true
  pub pbkdf2_length :
      (password salt : Text) (i l : ℕ) (f : kratos.Hash.Prf)
      → length (E.pbkdf2_key password salt i l f) ≡ l
  pub argon2_length :
      (password salt : Text) (t m p l : ℕ) → length (E.argon2_key password salt t m p l) ≡ l

-- The digests that have a hash function of their own.
pub data IsKnown (alg : Text) : Type 0 where
  is_sha1 : alg ≡ codes "sha1" → IsKnown alg
  is_sha224 : alg ≡ codes "sha224" → IsKnown alg
  is_sha256 : alg ≡ codes "sha256" → IsKnown alg
  is_sha384 : alg ≡ codes "sha384" → IsKnown alg
  is_sha512 : alg ≡ codes "sha512" → IsKnown alg

-- How the hash begins.
record IsDigest (alg : Text) : Type 0 where
  pub free : is_free dollar (codes "pbkdf2-" ++ alg) ≡ true
  pub is_pbkdf2 : (s : Text) → is_pbkdf2_hash (codes "$pbkdf2-" ++ (alg ++ dollar ∷ s)) ≡ true

known-IsDigest : (alg : Text) → IsKnown alg → IsDigest alg
unfolding is_pbkdf2_hash
known-IsDigest alg (is_sha1 e) = rw e (record { free = refl; is_pbkdf2 = λ s. refl })
known-IsDigest alg (is_sha224 e) = rw e (record { free = refl; is_pbkdf2 = λ s. refl })
known-IsDigest alg (is_sha256 e) = rw e (record { free = refl; is_pbkdf2 = λ s. refl })
known-IsDigest alg (is_sha384 e) = rw e (record { free = refl; is_pbkdf2 = λ s. refl })
known-IsDigest alg (is_sha512 e) = rw e (record { free = refl; is_pbkdf2 = λ s. refl })

fits : (n : ℕ) → n < 4294967296 → uint32 n ≡ n
fits n h = ground (arith, h)

same_codes_refl : (t : Text) → same_codes t t ≡ true
same_codes_refl [] = refl
same_codes_refl (c ∷ t) = rw ((nat_eq.beq_iff c c).1 refl, same_codes_refl t) refl

same_key_refl : (t : Text) → same_key t t ≡ ok tt
same_key_refl t = rw (same_codes_refl t) refl

small : (n : ℕ) → to_kb n < 4294967296
small n = omega arith

-- The configurations that a hash can hold.
abbrev pub IsSupported : Hasher → Type 0
IsSupported (by_pbkdf2 h) =
    IsKnown h.algorithm × h.iterations < 4294967296 × h.key_length < 4294967296
IsSupported (by_argon2 p) =
    p.iterations < 4294967296 × p.parallelism < 256 × p.key_length < 4294967296

module _ (E : Env) (codec : IsCodec E) where
  abbrev pbkdf2_of : Pbkdf2 → (salt password : Text) → Text
  pbkdf2_of h salt password =
      E.pbkdf2_key password salt h.iterations h.key_length
        (get_pseudorandom_function_for_pbkdf2 h.algorithm)

  abbrev argon2_of : Argon2 → (salt password : Text) → Text
  argon2_of p salt password =
      E.argon2_key password salt p.iterations (to_kb p.memory) p.parallelism p.key_length

  pbkdf2_split :
      (h : Pbkdf2) (salt password : Text)
      → IsDigest h.algorithm
      → split dollar (generate_pbkdf2 E h salt password)
        ≡ []
          ∷ (codes "pbkdf2-" ++ h.algorithm)
          ∷ E.print_pbkdf2 h.iterations h.key_length
          ∷ E.encode salt
          ∷ E.encode (pbkdf2_of h salt password)
          ∷ []
  unfolding generate_pbkdf2
  pbkdf2_split h salt password digest =
      split-joined dollar []
        ((codes "pbkdf2-" ++ h.algorithm)
          ∷ E.print_pbkdf2 h.iterations h.key_length
          ∷ E.encode salt
          ∷ E.encode (pbkdf2_of h salt password)
          ∷ [])
        (
          refl,
          (digest.free, (codec.pbkdf2_free _ _, (codec.encode_free _, (codec.encode_free _, tt)))),
        )

  argon2_split :
      (p : Argon2) (salt password : Text)
      → split dollar (generate_argon2 E p salt password)
        ≡ []
          ∷ codes "argon2id"
          ∷ E.print_version argon2_version
          ∷ E.print_argon2 (to_kb p.memory) p.iterations p.parallelism
          ∷ E.encode salt
          ∷ E.encode (argon2_of p salt password)
          ∷ []
  unfolding generate_argon2
  argon2_split p salt password =
      split-joined dollar []
        (codes "argon2id"
          ∷ E.print_version argon2_version
          ∷ E.print_argon2 (to_kb p.memory) p.iterations p.parallelism
          ∷ E.encode salt
          ∷ E.encode (argon2_of p salt password)
          ∷ [])
        (
          refl,
          (
            refl,
            (
              codec.version_free _,
              (codec.argon2_free _ _ _, (codec.encode_free _, (codec.encode_free _, tt))),
            ),
          ),
        )

  compare_pbkdf2_generated :
      (h : Pbkdf2) (salt password attempt : Text)
      → IsDigest h.algorithm
      → h.iterations < 4294967296
      → h.key_length < 4294967296
      → compare_pbkdf2 E attempt (generate_pbkdf2 E h salt password)
        ≡ same_key (pbkdf2_of h salt password) (pbkdf2_of h salt attempt)
  unfolding compare_pbkdf2 decode_pbkdf2_hash
  compare_pbkdf2_generated h salt password attempt digest i l =
      rw
        (
          compare_pbkdf2,
          decode_pbkdf2_hash,
          pbkdf2_split h salt password digest,
          codec.scan_pbkdf2 h.iterations h.key_length i l,
          codec.decode-encode salt,
          codec.decode-encode (pbkdf2_of h salt password),
          codec.pbkdf2_length password salt h.iterations h.key_length
              (get_pseudorandom_function_for_pbkdf2 h.algorithm),
          fits h.key_length l,
        )
        refl

  compare_argon2id_generated :
      (p : Argon2) (salt password attempt : Text)
      → p.iterations < 4294967296
      → p.parallelism < 256
      → p.key_length < 4294967296
      → compare_argon2id E attempt (generate_argon2 E p salt password)
        ≡ same_key (argon2_of p salt password) (argon2_of p salt attempt)
  unfolding compare_argon2id decode_argon2id_hash
  compare_argon2id_generated p salt password attempt t par l =
      rw
        (
          compare_argon2id,
          decode_argon2id_hash,
          argon2_split p salt password,
          codec.scan_version argon2_version,
          codec.scan_argon2 (to_kb p.memory) p.iterations p.parallelism (small p.memory) t par,
          codec.decode-encode salt,
          codec.decode-encode (argon2_of p salt password),
          codec.argon2_length password salt p.iterations (to_kb p.memory) p.parallelism
              p.key_length,
          fits p.key_length l,
          fits (to_kb p.memory) (small p.memory),
        )
        refl

  starts_pbkdf2 :
      (h : Pbkdf2) (salt password : Text)
      → IsDigest h.algorithm
      → let hash = generate_pbkdf2 E h salt password in
        (is_bcrypt_hash hash ≡ false)
        × (is_argon2id_hash hash ≡ false)
        × (is_pbkdf2_hash hash ≡ true)
  unfolding generate_pbkdf2 is_bcrypt_hash is_argon2id_hash
  starts_pbkdf2 h salt password digest = (refl, refl, digest.is_pbkdf2 _)

  starts_argon2 :
      (p : Argon2) (salt password : Text)
      → let hash = generate_argon2 E p salt password in
        (is_bcrypt_hash hash ≡ false) × (is_argon2id_hash hash ≡ true)
  unfolding generate_argon2 is_bcrypt_hash is_argon2id_hash
  starts_argon2 p salt password = (refl, refl)

  -- The key that a hasher derives.
  abbrev pub derived : Hasher → (salt password : Text) → Text
  derived (by_pbkdf2 h) salt password = pbkdf2_of h salt password
  derived (by_argon2 p) salt password = argon2_of p salt password

  compare_attempt :
      (h : Hasher) (salt password attempt : Text)
      → IsSupported h
      → compare E attempt (generate E h salt password)
        ≡ same_key (derived h salt password) (derived h salt attempt)
  unfolding compare generate
  compare_attempt (by_pbkdf2 h) salt password attempt (known, i, l) =
      let digest = known-IsDigest h.algorithm known in
      let (b, a, c) = starts_pbkdf2 h salt password digest in
      rw (compare, b, a, c) (compare_pbkdf2_generated h salt password attempt digest i l)
  compare_attempt (by_argon2 p) salt password attempt (t, par, l) =
      let (b, a) = starts_argon2 p salt password in
      rw (compare, b, a) (compare_argon2id_generated p salt password attempt t par l)

  -- The hash that a hasher generates is accepted, by the one comparison for all kinds of hashes, with
  -- the password that it was generated from, and otherwise with exactly the passwords that give the
  -- same key under its salt, whatever the parameters of the hasher, which are read back from the
  -- hash. Numbers fit the machine types that they are declared with, and the digest of a pbkdf2
  -- hasher is one of those that have a hash function.
  pub compare-generate :
      (h : Hasher) (salt password attempt : Text)
      → IsSupported h
      → (compare E password (generate E h salt password) ≡ ok tt)
        × (compare E attempt (generate E h salt password)
            ≡ same_key (derived h salt password) (derived h salt attempt))
  compare-generate h salt password attempt fine = (
    compare_attempt h salt password password fine ∙ same_key_refl (derived h salt password),
    compare_attempt h salt password attempt fine,
  )
