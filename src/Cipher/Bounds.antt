-- ===== src/Cipher/Bounds.antt =====
-- Where the length test of cipher/chacha20.go lets a ciphertext through that is too short.
use kratos.Base.{ltb, Bool-cases, inr, inl, ◌∷◌, ◌↔◌, ◌≡◌, ◌<◌, ◌≤◌, ◌*◌, panic, err, Result}
use kratos.Base.{length, arith, [], List, some, none, false, true, Bool, refl, suc, zero, ℕ}
use kratos.Cipher.{Bytes, Hex}
use kratos.Cipher.Chacha.{Aead, split_at, try_secrets, decrypt}

split_at-short : (n : ℕ) (raw : Bytes) → length raw < n → split_at n raw ≡ none
unfolding split_at
split_at-short zero raw short = absurd (omega (arith, short))
split_at-short (suc n) [] short = refl
split_at-short (suc n) (b ∷ raw) short = rw (split_at-short n raw (omega (arith, short))) refl

split_at-long :
    (n : ℕ) (raw : Bytes)
    → n ≤ length raw
    → (front : Bytes) × (back : Bytes) × (split_at n raw ≡ some (front, back))
unfolding split_at
split_at-long zero raw long = ([], raw, refl)
split_at-long (suc n) [] long = absurd (omega (arith, long))
split_at-long (suc n) (b ∷ raw) long =
    let (front, back, halves) = split_at-long n raw (omega (arith, long)) in
    (b ∷ front, back, rw halves refl)

abbrev pub is_panic : {A : Type 0} → Result A → Bool
is_panic (err panic) = true
is_panic _ = false

module _ {K : Type 0} (H : Hex) (A : Aead K) where
  tried_short :
      (text raw : Bytes) (secrets : List K)
      → length text < A.nonce_size
      → is_panic (try_secrets H A text raw secrets) ≡ false
  unfolding try_secrets
  tried_short text raw [] short = refl
  tried_short text raw (k ∷ secrets) short = ground (arith, short)

  tried_long :
      (text raw : Bytes) (secrets : List K)
      → A.nonce_size ≤ length raw
      → is_panic (try_secrets H A text raw secrets) ≡ false
  unfolding try_secrets
  tried_long text raw [] long = refl
  tried_long text raw (k ∷ secrets) long =
      let (front, back, halves) = split_at-long A.nonce_size raw long in
      ground (arith, halves, tried_long text raw secrets long)

  tried_panics :
      (text raw : Bytes) (secret : K) (secrets : List K)
      → A.is_key secret ≡ true
      → A.nonce_size ≤ length text
      → length raw < A.nonce_size
      → is_panic (try_secrets H A text raw (secret ∷ secrets)) ≡ true
  unfolding try_secrets
  tried_panics text raw secret secrets valid long short =
      ground (arith, valid, long, split_at-short A.nonce_size raw short)

  decrypts :
      (text raw : Bytes) (secret : K) (secrets : List K)
      → 1 ≤ length text
      → H.decode text ≡ some raw
      → decrypt H A (secret ∷ secrets) text ≡ try_secrets H A text raw (secret ∷ secrets)
  unfolding decrypt
  decrypts [] raw secret secrets some_text decoded = absurd (omega (arith, some_text))
  decrypts (c ∷ cs) raw secret secrets some_text decoded = rw (decrypt, decoded) refl

  bounds_of :
      (text raw : Bytes) (secrets : List K)
      → length text ≡ 2 * length raw
      → is_panic (try_secrets H A text raw secrets) ≡ true
      → length raw < A.nonce_size × A.nonce_size ≤ 2 * length raw
  bounds_of text raw secrets size panics = elim (Bool-cases (ltb (length raw) A.nonce_size)) [
    | inr long ↦ absurd (ground (arith, long, panics, tried_long text raw secrets))
    | inl short ↦ elim (Bool-cases (ltb (length text) A.nonce_size)) [
      | inl shorter ↦ absurd (ground (arith, shorter, panics, tried_short text raw secrets))
      | inr longer ↦ (ground (arith, short), ground (arith, longer, size))
    ]
  ]

  -- Decrypting a text that decodes panics exactly where it encodes fewer bytes than a nonce has and
  -- yet has itself at least as many characters, whatever the secrets, of which the first is a valid
  -- key. It is assumed of encoding/hex that it decodes a text to half its length.
  pub decrypt_bounds :
      (hex_size : (t b : Bytes) → H.decode t ≡ some b → length t ≡ 2 * length b)
      → (text raw : Bytes) (secret : K) (secrets : List K) → A.is_key secret ≡ true
      → 1 ≤ length text
      → H.decode text ≡ some raw
      → (is_panic (decrypt H A (secret ∷ secrets) text) ≡ true)
        ↔ (length raw < A.nonce_size × A.nonce_size ≤ 2 * length raw)
  decrypt_bounds hex_size text raw secret secrets valid some_text decoded =
      let tried = decrypts text raw secret secrets some_text decoded in
      let size = hex_size text raw decoded in
      (
        λ panics. bounds_of text raw (secret ∷ secrets) size (rw tried at panics),
        λ bounds.
            rw tried
              (tried_panics text raw secret secrets valid (omega (arith, size, bounds.1)) bounds.0),
      )
