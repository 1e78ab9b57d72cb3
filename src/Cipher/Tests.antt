-- ===== src/Cipher/Tests.antt =====
-- Ciphers in miniature: the key is added to every byte, and a nonce has three bytes.
use kratos.Base.Find.{map_option}
use kratos.Base.{refl, Option-cases, Bool-cases, inr, inl, nat_eq, if◌then◌else◌, ◌==◌, ◌∷◌, ◌↔◌}
use kratos.Base.{◌≡◌, ◌<◌, ◌≤◌, ◌*◌, ok, length, arith, [], some, none, Option, not, true, ℕ}
use mathlib.Core.Option.{some-injective}
use kratos.Cipher.{Bytes, Hex}
use kratos.Cipher.Aes
use kratos.Cipher.Aes.{Gcm}
use kratos.Cipher.Chacha
use kratos.Cipher.Chacha.{Aead}
use kratos.Cipher.Rotation.{decrypt-aes_encrypt, decrypt-chacha_encrypt}
use kratos.Cipher.Bounds.{is_panic, decrypt_bounds}

-- Each byte twice: as many characters as hexadecimal digits.
abbrev doubled : Bytes → Bytes
doubled [] = []
doubled (b ∷ bs) = b ∷ b ∷ doubled bs

abbrev halved : Bytes → Option Bytes
halved [] = some []
halved (b ∷ []) = none
halved (b ∷ c ∷ bs) = if b == c then map_option (λ r. b ∷ r) (halved bs) else none

abbrev digits : Hex
digits = record { encode = doubled; decode = halved }

halved-doubled : (b : Bytes) → halved (doubled b) ≡ some b
halved-doubled [] = refl
halved-doubled (b ∷ bs) = ground (arith, halved-doubled bs)

length-doubled : (b : Bytes) → length (doubled b) ≡ 2 * length b
length-doubled [] = refl
length-doubled (b ∷ bs) = ground (arith, length-doubled bs)

none-ne-some : {A : Type 0} {a : A} → none ≡ some a → ⊥
none-ne-some h = cc

length-halved : (t b : Bytes) → halved t ≡ some b → length t ≡ 2 * length b
length-halved [] b h = ground (arith, h)
length-halved (c ∷ []) b h = cc
length-halved (c ∷ d ∷ t) b h = elim (Bool-cases (c == d)) [
  | inr differ ↦ absurd (none-ne-some (rw differ at h))
  | inl same ↦ elim (Option-cases (halved t)) [
    | inl bad ↦ absurd (none-ne-some (rw (same, bad) at h))
    | inr (r, good) ↦
        rw (← some-injective _ _ (rw (same, good) at h)) (omega (arith, length-halved t r good))
  ]
]

-- A ciphertext begins with its key.
abbrev gcm : Gcm ℕ
gcm = record {
  seal = λ m k. some (k ∷ m);
  open_ = λ c k. elim c [ [] ↦ none | b ∷ m ↦ if b == k then some m else none ];
}

gcm_sound : (m c : Bytes) (k : ℕ) → gcm.seal m k ≡ some c → gcm.open_ c k ≡ some m
gcm_sound m [] k h = cc
gcm_sound m (b ∷ c) k h = ground (arith, h)

gcm_sized : (m c : Bytes) (k : ℕ) → gcm.seal m k ≡ some c → 1 ≤ length c
gcm_sized m [] k h = cc
gcm_sized m (b ∷ c) k h = omega arith

abbrev aead : Aead ℕ
aead = record {
  is_key = λ k. not (k == 0);
  nonce_size = 3;
  seal = λ k n m. k ∷ m;
  open_ = λ k n c. elim c [ [] ↦ none | b ∷ m ↦ if b == k then some m else none ];
}

aead_sound : (m n : Bytes) (k : ℕ) → aead.open_ k n (aead.seal k n m) ≡ some m
aead_sound m n k = ground arith

decrypt-aes_encrypt_example :
    (text : Bytes) × (Aes.encrypt digits gcm (5 ∷ 6 ∷ []) (1 ∷ 2 ∷ []) ≡ ok text)
    × (Aes.decrypt digits gcm (7 ∷ 5 ∷ []) text ≡ ok (1 ∷ 2 ∷ []))
decrypt-aes_encrypt_example =
    decrypt-aes_encrypt digits gcm halved-doubled length-doubled gcm_sound gcm_sized (7 ∷ [])
      (6 ∷ []) [] 5 (1 ∷ 2 ∷ []) (5 ∷ 1 ∷ 2 ∷ []) refl (refl, tt)

decrypt-chacha_encrypt_example :
    (text : Bytes) × (Chacha.encrypt digits aead (some (8 ∷ 8 ∷ 8 ∷ [])) (5 ∷ 6 ∷ []) (1 ∷ 2 ∷ [])
      ≡ ok text)
    × (Chacha.decrypt digits aead (7 ∷ 5 ∷ []) text ≡ ok (1 ∷ 2 ∷ []))
decrypt-chacha_encrypt_example =
    decrypt-chacha_encrypt digits aead halved-doubled length-doubled aead_sound (omega arith)
      (7 ∷ []) (6 ∷ []) [] 5 (1 ∷ 2 ∷ []) (8 ∷ 8 ∷ 8 ∷ []) refl refl ((refl, refl), tt)

-- The text "1122" encodes two bytes: it passes the test and is too short for a nonce.
decrypt_bounds_example :
    (is_panic (Chacha.decrypt digits aead (5 ∷ []) (1 ∷ 1 ∷ 2 ∷ 2 ∷ [])) ≡ true) ↔ (2 < 3 × 3 ≤ 4)
decrypt_bounds_example =
    decrypt_bounds digits aead length-halved (1 ∷ 1 ∷ 2 ∷ 2 ∷ []) (1 ∷ 2 ∷ []) 5 [] refl
      (omega arith) refl
