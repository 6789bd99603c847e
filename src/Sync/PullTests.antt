-- ===== src/Sync/PullTests.antt =====
-- Runs of the pull side of canonical-web-server.rs/src/sync/service.rs, with a cipher that leaves its
-- input as it is and a codec that writes a cursor as five numbers.
use canonical_cloud.Base.{
  ℕ, ◌<◌, ◌≡◌, ◌⊎◌, refl, sym, Option, none, some, List, [], ◌∷◌, length, Text, text, text_eq,
  nat_eq, ◌==◌, true, if◌then◌else◌, ok, err, arith, take, drop, retain, All,
}
use canonical_cloud.Auth.Json.{null}
use canonical_cloud.Session.Cipher.{CipherLibs, split_at_checked}
use canonical_cloud.Sync.{RecordSnapshot, invalid_sync_cursor, Change, Account, SyncLibs}
use canonical_cloud.Sync.Cursor.{
  I64, natural, negative, CursorPayload, CursorLibs, encode, decode, checked, IsCursorCodec,
  decode-encode,
}
use canonical_cloud.Sync.Pull.{
  PullQuery, PullResponse, pull_changes, page, candidates, ascending, insert_change, in_range,
  window,
}
use canonical_cloud.Sync.Paging.{pull_advances, Outside}

abbrev plain_cipher : CipherLibs
plain_cipher = record {
  seal = λ nonce bytes. some bytes;
  unseal = λ nonce bytes. some bytes;
  encode = λ bytes. bytes;
  decode = λ s. some s;
  as_bytes = λ s. s;
  from_utf8 = λ bytes. some bytes;
  digest = λ bytes. bytes;
}

abbrev sign : I64 → ℕ
sign (natural n) = 0
sign (negative n) = 1

abbrev magnitude : I64 → ℕ
magnitude (natural n) = n
magnitude (negative n) = n

abbrev signed : ℕ → ℕ → I64
signed s n = if s == 0 then natural n else negative n

abbrev read_cursor : List ℕ → Option CursorPayload
read_cursor (owner ∷ s ∷ p ∷ t ∷ h ∷ []) =
    some (record { owner_id = owner; position = signed s p; high_water = signed t h })
read_cursor _ = none

abbrev cursors : CursorLibs
cursors = record {
  cipher = plain_cipher;
  to_vec = λ c. some (
      c.owner_id
      ∷ sign c.position
      ∷ magnitude c.position
      ∷ sign c.high_water
      ∷ magnitude c.high_water
      ∷ []);
  from_slice = read_cursor;
}

signed_back : (i : I64) → signed (sign i) (magnitude i) ≡ i
signed_back (natural n) = refl
signed_back (negative n) = refl

numbers_back :
    (c : CursorPayload)
    → read_cursor (
        c.owner_id
        ∷ sign c.position
        ∷ magnitude c.position
        ∷ sign c.high_water
        ∷ magnitude c.high_water
        ∷ [])
      ≡ some c
numbers_back c = rw (signed_back c.position, signed_back c.high_water) refl

payload_back :
    (c : CursorPayload) (bytes : List ℕ)
    → cursors.to_vec c ≡ some bytes
    → read_cursor bytes ≡ some c
payload_back c bytes h = cc (h, numbers_back c)

codec : IsCursorCodec cursors
codec = record {
  sealed = record {
    unseal-seal = λ nonce plain sealed e. sym e;
    decode-encode = λ bytes. refl;
    from_utf8-as_bytes = λ s. refl;
  };
  from_slice-to_vec = payload_back;
}

abbrev nonce : List ℕ
nonce = text "nonce_nonce_"

abbrev first_cursor : Text
first_cursor =
    110 ∷ 111 ∷ 110 ∷ 99 ∷ 101 ∷ 95 ∷ 110 ∷ 111 ∷ 110 ∷ 99 ∷ 101 ∷ 95 ∷ 6 ∷ 0 ∷ 1 ∷ 0 ∷ 2 ∷ []

decode-encode_example :
    (decode cursors first_cursor 6 ≡ ok (1, 2))
    × (decode cursors first_cursor 7 ≡ err invalid_sync_cursor)
unfolding encode
decode-encode_example =
    decode-encode cursors nonce 6 7 1 2 first_cursor codec refl (omega arith) (omega arith) refl

abbrev snapshot : RecordSnapshot
snapshot = record {
  key = record { kind = text "draft_note"; id = 8 };
  version = text "1";
  schema_version = 1;
  deleted = true;
  value = none;
}

abbrev libs : SyncLibs
libs = record {
  request_hash = λ m. none;
  note_value = λ n. none;
  read_note = λ j. none;
  result_value = λ r. none;
  read_result = λ j. none;
  snapshot_value = λ s. some null;
  read_snapshot = λ j. some snapshot;
  snapshot_len = λ s. some 100;
}

abbrev change : ℕ → Change
change n = record {
  cursor = n;
  collection = text "draft_note";
  record_id = 8;
  version = n;
  operation = text "delete";
  payload = null;
  changed_at = n;
}

abbrev account : Account
account = record { clock = some 2; records = []; receipts = []; changes = change 2 ∷ change 1 ∷ [] }

abbrev query : PullQuery
query = record { cursor = some first_cursor; limit = none }

abbrev response : PullResponse
response = record {
  changes = snapshot ∷ [];
  next_cursor =
      110 ∷ 111 ∷ 110 ∷ 99 ∷ 101 ∷ 95 ∷ 110 ∷ 111 ∷ 110 ∷ 99 ∷ 101 ∷ 95 ∷ 6 ∷ 0 ∷ 2 ∷ 0 ∷ 2 ∷ [];
  caught_up = true;
}

pull_advances_example :
    All (Outside 1 2) account.changes × (encode cursors nonce 6 1 2 ≡ ok response.next_cursor)
    ⊎ (end : ℕ) × (1 < end)
      × (0 < length response.changes)
      × (encode cursors nonce 6 end 2 ≡ ok response.next_cursor)
unfolding window decode split_at_checked checked pull_changes page candidates ascending
    insert_change in_range retain take encode drop length
pull_advances_example = pull_advances libs cursors nonce 6 query account 1 2 response refl refl
