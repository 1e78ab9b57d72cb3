-- ===== src/Cipher/Chacha.antt =====
-- cipher/chacha20.go: the same contract as that of Cipher.Aes, with the nonce before the message.
--
-- chacha20poly1305 and the random source are parameters.
use kratos.Base.Find.{map_option}
use kratos.Base.{length, ltb, not, if◌then◌else◌, Bool, ℕ, List, [], ◌∷◌, ◌++◌, Option, none}
use kratos.Base.{some, Result, ok, err, internal, panic, zero, suc}
use kratos.Cipher.{Bytes, Hex}

-- What chacha20poly1305 offers. `is_key` tells whether NewX accepts a key.
pub record Aead (K : Type 0) : Type 0 where
  pub is_key : K → Bool
  pub nonce_size : ℕ
  pub seal : K → (nonce message : Bytes) → Bytes
  pub open_ : K → (nonce ciphertext : Bytes) → Option Bytes

-- `raw[:n]` and `raw[n:]`, which panic beyond the length.
unfoldable pub split_at : ℕ → Bytes → Option (Bytes × Bytes)
split_at zero raw = some ([], raw)
split_at (suc n) [] = none
split_at (suc n) (b ∷ raw) = map_option (λ p. (b ∷ p.0, p.1)) (split_at n raw)

module _ {K : Type 0} (H : Hex) (A : Aead K) where
  -- `drawn` is what io.ReadFull reads from the random source, or its failure.
  unfoldable pub encrypt : (drawn : Option Bytes) → List K → (message : Bytes) → Result Bytes
  encrypt drawn secrets [] = ok []
  encrypt drawn [] (b ∷ bs) = err (internal "no cipher secrets were configured")
  encrypt drawn (secret ∷ secrets) (b ∷ bs) =
      if A.is_key secret
      then elim drawn [
        | some start ↦ ok (H.encode (start ++ A.seal secret start (b ∷ bs)))
        | none ↦ err (internal "Unable to generate nonce")
      ]
      else err (internal "Unable to generate key")

  -- The loop over the secrets. The length that it tests is that of the hex text, not of the bytes.
  unfoldable pub try_secrets : (ciphertext raw : Bytes) → List K → Result Bytes
  try_secrets ciphertext raw [] = err (internal "Unable to decrypt string")
  try_secrets ciphertext raw (secret ∷ secrets) =
      let rest = try_secrets ciphertext raw secrets in
      if not (A.is_key secret)
      then err (internal "Unable to instanciate chacha20")
      else if ltb (length ciphertext) A.nonce_size
      then err (internal "cipher text too short")
      else elim (split_at A.nonce_size raw) [
        | none ↦ err panic
        | some (start, sealed) ↦ elim (A.open_ secret start sealed) [
          | some plaintext ↦ ok plaintext
          | none ↦ rest
        ]
      ]

  unfoldable pub decrypt : List K → (ciphertext : Bytes) → Result Bytes
  decrypt secrets [] = ok []
  decrypt [] (c ∷ cs) = err (internal "no cipher secrets were configured")
  decrypt (secret ∷ secrets) (c ∷ cs) = elim (H.decode (c ∷ cs)) [
    | none ↦ err (internal "hex")
    | some raw ↦ try_secrets (c ∷ cs) raw (secret ∷ secrets)
  ]
