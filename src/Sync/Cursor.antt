-- ===== src/Sync/Cursor.antt =====
-- `CursorCodec` of canonical-web-server.rs/src/sync/service.rs: a position of a client, sealed under the
-- server's key. The cipher, base64 and JSON are libraries, and parameters here.
use canonical_cloud.Base.{
  ℕ, ◌≤◌, ◌≡◌, ◌≢◌, Option, some, List, ◌++◌, Text, not, ◌==◌, nat_eq, if◌then◌else◌, ltb, length,
  Result, ok, err, ok_or, ◌>>=◌, arith, inl, inr, Option-cases,
}
use canonical_cloud.Auth.{Uuid}
use canonical_cloud.Session.Cipher.{CipherLibs, split_at_checked, IsCipher, split_at-append}
use canonical_cloud.Sync.{SyncError, json, crypto, invalid_sync_cursor}

-- An `i64`: a natural number, or `negative n` for `-(n + 1)`.
pub data I64 : Type 0 where
  natural negative : ℕ → I64

pub record CursorPayload : Type 0 where
  pub owner_id : Uuid
  pub position : I64
  pub high_water : I64

pub record CursorLibs : Type 0 where
  pub cipher : CipherLibs
  -- `serde_json::to_vec` and `serde_json::from_slice`
  pub to_vec : CursorPayload → Option (List ℕ)
  pub from_slice : List ℕ → Option CursorPayload

module _ (libs : CursorLibs) where
  open libs use {cipher}

  -- `encode`, under the nonce that it draws.
  unfoldable pub encode : List ℕ → Uuid → ℕ → ℕ → Result SyncError Text
  encode nonce_bytes owner_id position high_water = do
    plaintext ←
        ok_or
          (libs.to_vec (record {
            owner_id = owner_id;
            position = natural position;
            high_water = natural high_water;
          }))
          json
    ciphertext ← ok_or (cipher.seal nonce_bytes plaintext) crypto
    ok (cipher.encode (nonce_bytes ++ ciphertext))

  -- The position and the high water of a payload: not below 0, and in order.
  unfoldable pub checked : I64 → I64 → Result SyncError (ℕ × ℕ)
  checked (natural position) (natural high_water) =
      if ltb high_water position then err invalid_sync_cursor else ok (position, high_water)
  checked _ _ = err invalid_sync_cursor

  unfoldable pub decode : Text → Uuid → Result SyncError (ℕ × ℕ)
  decode cursor expected_owner = do
    bytes ← ok_or (cipher.decode cursor) invalid_sync_cursor
    parts ← ok_or (split_at_checked 12 bytes) invalid_sync_cursor
    plaintext ← ok_or (cipher.unseal parts.0 parts.1) invalid_sync_cursor
    decoded ← ok_or (libs.from_slice plaintext) invalid_sync_cursor
    if not (decoded.owner_id == expected_owner)
        then err invalid_sync_cursor
        else checked decoded.position decoded.high_water

-- What the codec relies on: the libraries invert their own encodings.
pub record IsCursorCodec (libs : CursorLibs) : Type 0 where
  pub sealed : IsCipher libs.cipher
  pub from_slice-to_vec :
      (payload : CursorPayload) (bytes : List ℕ)
      → libs.to_vec payload ≡ some bytes
      → libs.from_slice bytes ≡ some payload

encode_parts :
    (libs : CursorLibs) (nonce : List ℕ) (owner : Uuid) (position high_water : ℕ) (cursor : Text)
    → encode libs nonce owner position high_water ≡ ok cursor
    → (plaintext : List ℕ) × (ciphertext : List ℕ) × (libs.to_vec (record {
      owner_id = owner;
      position = natural position;
      high_water = natural high_water;
    })
        ≡ some plaintext)
      × (libs.cipher.seal nonce plaintext ≡ some ciphertext)
      × (libs.cipher.encode (nonce ++ ciphertext) ≡ cursor)
unfolding encode
encode_parts libs nonce owner position high_water cursor h =
    elim (Option-cases (
      libs.to_vec (record {
        owner_id = owner;
        position = natural position;
        high_water = natural high_water;
      }))) [
        | inl e ↦ absurd (ground arith)
        | inr (plaintext, e) ↦ elim (Option-cases (libs.cipher.seal nonce plaintext)) [
          | inl e1 ↦ absurd (ground arith)
          | inr (ciphertext, e1) ↦ (plaintext, ciphertext, e, e1, ground arith)
        ]
      ]

-- If the libraries invert their own encodings, a cursor that was encoded under a nonce of twelve bytes decodes to its position and high water for
-- its owner, if they are in order, and is refused for everybody else.
pub decode-encode :
    (libs : CursorLibs) (nonce : List ℕ) (owner other : Uuid) (position high_water : ℕ)
    (cursor : Text)
    → IsCursorCodec libs
    → length nonce ≡ 12
    → position ≤ high_water
    → other ≢ owner
    → encode libs nonce owner position high_water ≡ ok cursor
    → (decode libs cursor owner ≡ ok (position, high_water))
      × (decode libs cursor other ≡ err invalid_sync_cursor)
unfolding decode checked
decode-encode libs nonce owner other position high_water cursor laws n le ne h =
    let (plaintext, ciphertext, e, e1, p) =
      encode_parts libs nonce owner position high_water cursor h in
    rw (← p, laws.sealed.decode-encode (nonce ++ ciphertext), ← n, split_at-append nonce ciphertext)
      (rw (laws.sealed.unseal-seal nonce plaintext ciphertext e1)
        (rw (laws.from_slice-to_vec _ plaintext e) (ground arith, ground arith)))
