-- ===== src/Sync/Rules.antt =====
-- The rules of a mutation in canonical-web-server.rs/src/sync/service.rs: what makes it valid, and how
-- records and receipts are found.
use canonical_cloud.Base.{
  ℕ, Option, none, some, List, [], ◌∷◌, Text, text, text_eq, Bool, not, ◌&&◌, ◌==◌, nat_eq,
  if◌then◌else◌, leb, length, Result, ok, ok_or, ◌>>=◌,
}
use canonical_cloud.Auth.{Uuid}
use canonical_cloud.Sync.{
  MutationAction, put, delete, DraftNote, Mutation, RecordSnapshot, MutationStatus, invalid,
  MutationResult, SyncError, bad_request, SyncRecord, Receipt,
}
use canonical_cloud.Sync.Versions.{parse_i64, valid_base_version}

abbrev pub max_batch_size : ℕ
max_batch_size = 50

abbrev pub protocol_version : ℕ
protocol_version = 1

abbrev pub draft_note_kind : Text
draft_note_kind = text "draft_note"

-- The message of `validate_mutation` on the value that comes with the action.
unfoldable pub value_message : MutationAction → Option DraftNote → Option Text
value_message put (some note) =
    if leb (length note.title) 200 && leb (length note.body) 100000
    then none
    else some (text "draft note exceeds its size limit")
value_message put none = some (text "put requires a value")
value_message delete (some note) = some (text "delete must not include a value")
value_message delete none = none

unfoldable pub invalid_message : Mutation → Option Text
invalid_message mutation =
    if not (mutation.key.kind == draft_note_kind)
    then some (text "unsupported record kind")
    else if not (mutation.schema_version == 1)
    then some (text "unsupported draft_note schema version")
    else if not (valid_base_version mutation.base_version)
    then some (text "baseVersion must be a canonical non-negative 64-bit decimal string")
    else value_message mutation.action mutation.value

abbrev pub result : Mutation → MutationStatus → Option RecordSnapshot → Option Text → MutationResult
result mutation status snapshot message = record {
  mutation_id = mutation.mutation_id;
  status = status;
  snapshot = snapshot;
  message = message;
}

-- `validate_mutation`
unfoldable pub validate_mutation : Mutation → Option MutationResult
validate_mutation mutation = elim (invalid_message mutation) [
  | none ↦ none
  | some message ↦ some (result mutation invalid none (some message))
]

unfoldable pub parse_base_version : Mutation → Result SyncError (Option ℕ)
parse_base_version mutation = elim mutation.base_version [
  | none ↦ ok none
  | some value ↦ do
    n ←
        ok_or (parse_i64 value)
          (bad_request (text "baseVersion must be a signed 64-bit decimal string"))
    ok (some n)
]

unfoldable pub is_record : Text → Uuid → SyncRecord → Bool
is_record kind id m = m.collection == kind && m.record_id == id

unfoldable pub find_record : Text → Uuid → List SyncRecord → Option SyncRecord
find_record kind id [] = none
find_record kind id (m ∷ rows) =
    let rest = find_record kind id rows in if is_record kind id m then some m else rest

unfoldable pub update_record : SyncRecord → List SyncRecord → List SyncRecord
update_record m [] = []
update_record m (r ∷ rows) =
    let rest = update_record m rows in
    if is_record m.collection m.record_id r then m ∷ rows else r ∷ rest

unfoldable pub find_receipt : Uuid → Uuid → List Receipt → Option Receipt
find_receipt client id [] = none
find_receipt client id (r ∷ rows) =
    let rest = find_receipt client id rows in
    if r.client_id == client && r.mutation_id == id then some r else rest
