-- ===== src/Cipher/Aes.antt =====
-- cipher/aes.go: encryption under the first of the configured secrets, decryption under any.
use kratos.Base.{List, [], ◌∷◌, Option, none, some, Result, ok, err, internal}
use kratos.Cipher.{Bytes, Hex}

-- cryptopasta.Encrypt, which draws a nonce of its own, and cryptopasta.Decrypt.
pub record Gcm (K : Type 0) : Type 0 where
  pub seal : Bytes → K → Option Bytes
  pub open_ : Bytes → K → Option Bytes

module _ {K : Type 0} (H : Hex) (G : Gcm K) where
  unfoldable pub encrypt : List K → (message : Bytes) → Result Bytes
  encrypt secrets [] = ok []
  encrypt [] (b ∷ bs) = err (internal "no cipher secrets were configured")
  encrypt (secret ∷ secrets) (b ∷ bs) = elim (G.seal (b ∷ bs) secret) [
    | some ciphertext ↦ ok (H.encode ciphertext)
    | none ↦ err (internal "unable to encrypt")
  ]

  -- The loop over the secrets.
  unfoldable pub try_secrets : Bytes → List K → Result Bytes
  try_secrets decoded [] = err (internal "Unable to decipher the encrypted message.")
  try_secrets decoded (secret ∷ secrets) = elim (G.open_ decoded secret) [
    | some plaintext ↦ ok plaintext
    | none ↦ try_secrets decoded secrets
  ]

  unfoldable pub decrypt : List K → (ciphertext : Bytes) → Result Bytes
  decrypt secrets [] = ok []
  decrypt [] (c ∷ cs) = err (internal "no AES secrets were configured")
  decrypt (secret ∷ secrets) (c ∷ cs) = elim (H.decode (c ∷ cs)) [
    | none ↦ err (internal "hex")
    | some decoded ↦ try_secrets decoded (secret ∷ secrets)
  ]
