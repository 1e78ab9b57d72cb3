-- ===== src/Cipher/Rotation.antt =====
-- What was encrypted is decrypted, also after the secret has been rotated.
use kratos.Base.{◌*◌, ltb, false, true, [], ok, some, none, ◌∷◌, ◌+◌, All, ℕ, ◌++◌, Result}
use kratos.Base.{length, List, ◌≡◌, refl, arith, ◌≤◌}
use kratos.Cipher.{Bytes, Hex}
use kratos.Cipher.Aes
use kratos.Cipher.Aes.{Gcm}
use kratos.Cipher.Chacha
use kratos.Cipher.Chacha.{Aead, split_at}

non_empty : (xs : Bytes) → 1 ≤ length xs → (x : ℕ) × (rest : Bytes) × (xs ≡ x ∷ rest)
non_empty [] h = absurd (omega (arith, h))
non_empty (x ∷ xs) h = (x, xs, refl)

non_empty_behind {ℓ} :
    {A : Type ℓ} (before : List A) (a : A) (after : List A)
    → (x : A) × (rest : List A) × (before ++ (a ∷ after) ≡ x ∷ rest)
non_empty_behind [] a after = (a, after, refl)
non_empty_behind (x ∷ before) a after = (x, before ++ (a ∷ after), refl)

pub split_at-append :
    (drawn sealed : Bytes) → split_at (length drawn) (drawn ++ sealed) ≡ some (drawn, sealed)
unfolding split_at
split_at-append [] sealed = refl
split_at-append (b ∷ bs) sealed = rw (split_at-append bs sealed) refl

length-append : (xs ys : Bytes) → length (xs ++ ys) ≡ length xs + length ys
length-append [] ys = omega arith
length-append (x ∷ xs) ys = ground (arith, length-append xs ys)

module _ {K : Type 0} (H : Hex) (G : Gcm K) where
  -- A secret that opens the ciphertext is found behind secrets that do not.
  tried :
      (newer kept : List K) (secret : K) (decoded message : Bytes)
      → All (λ k. G.open_ decoded k ≡ none) newer
      → G.open_ decoded secret ≡ some message
      → Aes.try_secrets H G decoded (newer ++ (secret ∷ kept)) ≡ ok message
  unfolding Aes.try_secrets
  tried [] kept secret decoded message fails opens = ground (arith, opens)
  tried (k ∷ newer) kept secret decoded message (fail, fails) opens =
      ground (arith, fail, tried newer kept secret decoded message fails opens)

  decrypted :
      (secrets : List K) (text decoded : Bytes) (result : Result Bytes) (c : ℕ) (cs : Bytes) (k : K)
      (ks : List K)
      → text ≡ c ∷ cs
      → secrets ≡ k ∷ ks
      → H.decode text ≡ some decoded
      → Aes.try_secrets H G decoded secrets ≡ result
      → Aes.decrypt H G secrets text ≡ result
  unfolding Aes.decrypt
  decrypted secrets text decoded result c cs k ks long configured hex found =
      rw (long, configured, Aes.decrypt, ← long, hex, ← configured) found

  -- A message that was encrypted by AES under the first secret is decrypted again after newer
  -- secrets were put in front of that one and older ones dropped. It is assumed of encoding/hex that
  -- it decodes what it encoded, to twice the length; of cryptopasta that it opens what it sealed,
  -- that this is not empty, that it seals this message, and that no newer secret opens it.
  pub decrypt-aes_encrypt :
      (hex : (b : Bytes) → H.decode (H.encode b) ≡ some b)
      → (hex_size : (b : Bytes) → length (H.encode b) ≡ 2 * length b)
      → (sound : (m c : Bytes) (k : K) → G.seal m k ≡ some c → G.open_ c k ≡ some m)
      → (sized : (m c : Bytes) (k : K) → G.seal m k ≡ some c → 1 ≤ length c)
      → (newer older kept : List K) (secret : K) (message sealed : Bytes)
      → G.seal message secret ≡ some sealed
      → All (λ k. G.open_ sealed k ≡ none) newer
      → (text : Bytes) × (Aes.encrypt H G (secret ∷ older) message ≡ ok text)
        × (Aes.decrypt H G (newer ++ (secret ∷ kept)) text ≡ ok message)
  unfolding Aes.encrypt Aes.decrypt
  decrypt-aes_encrypt hex hex_size sound sized newer older kept secret [] sealed seals foreign =
      ([], refl, refl)
  decrypt-aes_encrypt hex hex_size sound sized newer older kept secret (b ∷ bs) sealed seals
        foreign =
      let (c, cs, long) =
        non_empty (H.encode sealed)
          (omega (arith, hex_size sealed, sized (b ∷ bs) sealed secret seals)) in
      let (k, ks, configured) = non_empty_behind newer secret kept in
      (
        H.encode sealed,
        rw (Aes.encrypt, seals) refl,
        decrypted (newer ++ (secret ∷ kept)) (H.encode sealed) sealed (ok (b ∷ bs)) c cs k ks long
            configured (hex sealed)
            (tried newer kept secret sealed (b ∷ bs) foreign (sound (b ∷ bs) sealed secret seals)),
      )

module _ {K : Type 0} (H : Hex) (A : Aead K) where
  aead_tried :
      (text drawn sealed message : Bytes) (newer kept : List K) (secret : K)
      → length drawn ≡ A.nonce_size
      → ltb (length text) A.nonce_size ≡ false
      → All (λ k. (A.is_key k ≡ true) × (A.open_ k drawn sealed ≡ none)) newer
      → A.is_key secret ≡ true
      → A.open_ secret drawn sealed ≡ some message
      → Chacha.try_secrets H A text (drawn ++ sealed) (newer ++ (secret ∷ kept)) ≡ ok message
  unfolding Chacha.try_secrets
  aead_tried text drawn sealed message [] kept secret size long fails valid opens =
      rw (Chacha.try_secrets, valid, long, ← size, split_at-append drawn sealed, opens) refl
  aead_tried text drawn sealed message (k ∷ newer) kept secret size long (fail, fails) valid opens =
      rw (Chacha.try_secrets, fail.0, long, ← size, split_at-append drawn sealed, fail.1)
        (aead_tried text drawn sealed message newer kept secret size long fails valid opens)

  aead_decrypted :
      (secrets : List K) (text raw : Bytes) (result : Result Bytes) (c : ℕ) (cs : Bytes) (k : K)
      (ks : List K)
      → text ≡ c ∷ cs
      → secrets ≡ k ∷ ks
      → H.decode text ≡ some raw
      → Chacha.try_secrets H A text raw secrets ≡ result
      → Chacha.decrypt H A secrets text ≡ result
  unfolding Chacha.decrypt
  aead_decrypted secrets text raw result c cs k ks long configured hex found =
      rw (long, configured, Chacha.decrypt, ← long, hex, ← long, ← configured) found

  -- A message that was encrypted by XChaCha20-Poly1305 under the first secret is decrypted again
  -- after newer secrets were put in front of that one and older ones dropped. It is assumed of
  -- encoding/hex that it decodes what it encoded, to twice the length; of chacha20poly1305 that it
  -- accepts the secrets, that it opens what it sealed, that its nonces are not empty, and that no
  -- newer secret opens the message; and of the random source that it draws a nonce of the size that
  -- was asked for.
  pub decrypt-chacha_encrypt :
      (hex : (b : Bytes) → H.decode (H.encode b) ≡ some b)
      → (hex_size : (b : Bytes) → length (H.encode b) ≡ 2 * length b)
      → (sound : (m n : Bytes) (k : K) → A.open_ k n (A.seal k n m) ≡ some m) → 1 ≤ A.nonce_size
      → (newer older kept : List K) (secret : K) (message drawn : Bytes)
      → length drawn ≡ A.nonce_size
      → A.is_key secret ≡ true
      → All
          (λ k. (A.is_key k ≡ true) × (A.open_ k drawn (A.seal secret drawn message) ≡ none))
          newer
      → (text : Bytes) × (Chacha.encrypt H A (some drawn) (secret ∷ older) message ≡ ok text)
        × (Chacha.decrypt H A (newer ++ (secret ∷ kept)) text ≡ ok message)
  unfolding Chacha.encrypt Chacha.decrypt
  decrypt-chacha_encrypt hex hex_size sound some_nonce newer older kept secret [] drawn size valid
        foreign =
      ([], refl, refl)
  decrypt-chacha_encrypt hex hex_size sound some_nonce newer older kept secret (b ∷ bs) drawn size
        valid foreign =
      let sealed = A.seal secret drawn (b ∷ bs) in
      let raw = drawn ++ sealed in
      let (c, cs, long) =
        non_empty (H.encode raw)
          (omega (arith, hex_size raw, length-append drawn sealed, size, some_nonce)) in
      let (k, ks, configured) = non_empty_behind newer secret kept in
      (
        H.encode raw,
        rw (Chacha.encrypt, valid) refl,
        aead_decrypted (newer ++ (secret ∷ kept)) (H.encode raw) raw (ok (b ∷ bs)) c cs k ks long
            configured (hex raw)
            (aead_tried (H.encode raw) drawn sealed (b ∷ bs) newer kept secret size
              (ground (arith, hex_size raw, length-append drawn sealed, size)) foreign valid
              (sound (b ∷ bs) drawn secret)),
      )
