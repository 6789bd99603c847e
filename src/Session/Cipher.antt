-- ===== src/Session/Cipher.antt =====
-- Tokens at rest: `encrypt`, `decrypt` and `hash_token` of
-- canonical-web-server.rs/crates/canonical-session/src/lib.rs. AES-GCM, SHA-256, base64 and UTF-8
-- are libraries, and parameters here; the random nonce is an argument.
use canonical_cloud.Base.{
  ℕ, ◌≡◌, Option, none, some, List, ◌++◌, Text, if◌then◌else◌, Result, ok, ok_or, ◌>>=◌, length,
  take, drop, leb, arith, take-append_length, drop-append_length, length-append, Option-cases, inl,
  inr,
}
use canonical_cloud.Session.Model.{SessionError, crypto}

pub record CipherLibs : Type 0 where
  -- `cipher.encrypt(nonce, plaintext)` and `cipher.decrypt(nonce, ciphertext)`, under the service's key
  pub seal : List ℕ → List ℕ → Option (List ℕ)
  pub unseal : List ℕ → List ℕ → Option (List ℕ)
  -- `URL_SAFE_NO_PAD`
  pub encode : List ℕ → Text
  pub decode : Text → Option (List ℕ)
  -- `str::as_bytes` and `String::from_utf8`
  pub as_bytes : Text → List ℕ
  pub from_utf8 : List ℕ → Option Text
  -- `Sha256::digest`
  pub digest : List ℕ → List ℕ

-- `split_at_checked`
unfoldable pub split_at_checked : ℕ → List ℕ → Option (List ℕ × List ℕ)
split_at_checked n bytes = if leb n (length bytes) then some (take n bytes, drop n bytes) else none

module _ (libs : CipherLibs) where
  unfoldable pub encrypt : List ℕ → Text → Result SessionError Text
  encrypt nonce_bytes plaintext = do
    ciphertext ← ok_or (libs.seal nonce_bytes (libs.as_bytes plaintext)) crypto
    ok (libs.encode (nonce_bytes ++ ciphertext))

  unfoldable pub decrypt_parts : List ℕ × List ℕ → Result SessionError Text
  decrypt_parts (nonce_bytes, ciphertext) = do
    plaintext ← ok_or (libs.unseal nonce_bytes ciphertext) crypto
    ok_or (libs.from_utf8 plaintext) crypto

  unfoldable pub decrypt : Text → Result SessionError Text
  decrypt encoded = do
    bytes ← ok_or (libs.decode encoded) crypto
    parts ← ok_or (split_at_checked 12 bytes) crypto
    decrypt_parts parts

  unfoldable pub hash_token : Text → Text
  hash_token value = libs.encode (libs.digest (libs.as_bytes value))

-- What the server relies on of these libraries.
pub record IsCipher (libs : CipherLibs) : Type 0 where
  pub unseal-seal :
      (nonce plain sealed : List ℕ)
      → libs.seal nonce plain ≡ some sealed
      → libs.unseal nonce sealed ≡ some plain
  pub decode-encode : (bytes : List ℕ) → libs.decode (libs.encode bytes) ≡ some bytes
  pub from_utf8-as_bytes : (s : Text) → libs.from_utf8 (libs.as_bytes s) ≡ some s

pub split_at-append : (xs ys : List ℕ) → split_at_checked (length xs) (xs ++ ys) ≡ some (xs, ys)
unfolding split_at_checked
split_at-append xs ys =
    rw (take-append_length xs ys, drop-append_length xs ys) (ground (arith, length-append xs ys))

encrypt_sealed :
    (libs : CipherLibs) (nonce : List ℕ) (plaintext encoded : Text)
    → encrypt libs nonce plaintext ≡ ok encoded
    → (sealed : List ℕ) × (libs.seal nonce (libs.as_bytes plaintext) ≡ some sealed)
      × (libs.encode (nonce ++ sealed) ≡ encoded)
unfolding encrypt
encrypt_sealed libs nonce plaintext encoded h =
    elim (Option-cases (libs.seal nonce (libs.as_bytes plaintext))) [
      | inl e ↦ absurd (ground arith)
      | inr (sealed, e) ↦ (sealed, e, ground arith)
    ]

-- If the libraries invert their own encodings, what was encrypted under a nonce of twelve bytes
-- decrypts to itself.
pub decrypt-encrypt :
    (libs : CipherLibs) (nonce : List ℕ) (plaintext encoded : Text)
    → IsCipher libs
    → length nonce ≡ 12
    → encrypt libs nonce plaintext ≡ ok encoded
    → decrypt libs encoded ≡ ok plaintext
unfolding decrypt decrypt_parts
decrypt-encrypt libs nonce plaintext encoded laws n h =
    let (sealed, e, p) = encrypt_sealed libs nonce plaintext encoded h in
    rw (← p, laws.decode-encode (nonce ++ sealed), ← n, split_at-append nonce sealed)
      (rw (laws.unseal-seal nonce (libs.as_bytes plaintext) sealed e)
        (rw (laws.from_utf8-as_bytes plaintext)))
