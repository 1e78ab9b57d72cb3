-- ===== src/Cipher.antt =====
-- cipher/noop.go, and what cipher/aes.go and cipher/chacha20.go share: the encryption of stored
-- secrets.
--
-- A byte is a number, and both a Go string and a slice are lists of bytes. encoding/hex is a
-- parameter; its error is wrapped, and told apart by nobody.
pub mod Aes
pub mod Chacha
pub mod Rotation
pub mod Bounds
mod Tests
use kratos.Base.{ℕ, List, Option, none, some, Result, ok, err, internal}

abbrev pub Bytes : Type 0
Bytes = List ℕ

-- encoding/hex
pub record Hex : Type 0 where
  pub encode : Bytes → Bytes
  pub decode : Bytes → Option Bytes

module _ (H : Hex) where
  -- The default cipher, which encrypts nothing.
  unfoldable pub noop_encrypt : Bytes → Result Bytes
  noop_encrypt message = ok (H.encode message)

  unfoldable pub noop_decrypt : Bytes → Result Bytes
  noop_decrypt ciphertext = elim (H.decode ciphertext) [
    | some message ↦ ok message
    | none ↦ err (internal "hex")
  ]
