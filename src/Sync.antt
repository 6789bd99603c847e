-- ===== src/Sync.antt =====
-- The sync protocol: canonical-web-server.rs/src/sync/protocol.rs, and the rows of one account that
-- canonical-web-server.rs/src/sync/service.rs keeps.
pub mod Versions
pub mod Rules
pub mod Push
pub mod Replay
pub mod Resending
pub mod Log
pub mod Optimistic
pub mod Cursor
pub mod Pull
pub mod Paging
pub mod Tests
pub mod PullTests
use canonical_cloud.Base.{ℕ, Option, List, Text, Bool}
use canonical_cloud.Auth.{Uuid}
use canonical_cloud.Auth.Json.{Json}

pub record RecordKey : Type 0 where
  pub kind : Text
  pub id : Uuid

pub data MutationAction : Type 0 where
  put delete : MutationAction

pub record DraftNote : Type 0 where
  pub title : Text
  pub body : Text

-- `mutation_id` names the client's request; `base_version` is a decimal text.
pub record Mutation : Type 0 where
  pub mutation_id : Uuid
  pub key : RecordKey
  pub action : MutationAction
  pub base_version : Option Text
  pub schema_version : ℕ
  pub value : Option DraftNote

pub record MutationBatch : Type 0 where
  pub protocol_version : ℕ
  pub client_id : Uuid
  pub operations : List Mutation

pub record RecordSnapshot : Type 0 where
  pub key : RecordKey
  pub version : Text
  pub schema_version : ℕ
  pub deleted : Bool
  pub value : Option DraftNote

pub data MutationStatus : Type 0 where
  applied conflict gone invalid idempotency_key_reused : MutationStatus

pub record MutationResult : Type 0 where
  pub mutation_id : Uuid
  pub status : MutationStatus
  pub snapshot : Option RecordSnapshot
  pub message : Option Text

-- The errors of the service; `panicked` stands for a failed `expect`.
pub data SyncError : Type 0 where
  json crypto invalid_sync_cursor panicked : SyncError
  bad_request : Text → SyncError

-- The rows `sync_record`, `sync_receipt` and `sync_change` of one owner: every statement of the
-- service names the owner. Versions and cursors count the mutations of the account from 0, and are
-- taken to stay below `2 ^ 63`.
pub record SyncRecord : Type 0 where
  pub collection : Text
  pub record_id : Uuid
  pub version : ℕ
  pub payload : Json
  pub deleted_at : Option ℕ
  pub updated_at : ℕ

pub record Receipt : Type 0 where
  pub client_id : Uuid
  pub mutation_id : Uuid
  pub request_hash : Text
  pub answer : Json
  pub created_at : ℕ

pub record Change : Type 0 where
  pub cursor : ℕ
  pub collection : Text
  pub record_id : Uuid
  pub version : ℕ
  pub operation : Text
  pub payload : Json
  pub changed_at : ℕ

-- `clock` is the row of `sync_clock`, if it is there; the newest change is first.
pub record Account : Type 0 where
  pub clock : Option ℕ
  pub records : List SyncRecord
  pub receipts : List Receipt
  pub changes : List Change

-- What the service takes from serde_json and SHA-256: the digest of a mutation, and the encoding and
-- decoding of notes, results and snapshots.
pub record SyncLibs : Type 0 where
  pub request_hash : Mutation → Option Text
  pub note_value : DraftNote → Option Json
  pub read_note : Json → Option DraftNote
  pub result_value : MutationResult → Option Json
  pub read_result : Json → Option MutationResult
  pub snapshot_value : RecordSnapshot → Option Json
  pub read_snapshot : Json → Option RecordSnapshot
  -- The length of `serde_json::to_vec`.
  pub snapshot_len : RecordSnapshot → Option ℕ
