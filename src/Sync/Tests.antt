-- ===== src/Sync/Tests.antt =====
-- Runs of canonical-web-server.rs/src/sync/service.rs: a note is created, sent again and changed, with
-- a codec for results that writes every field.
use canonical_cloud.Base.{
  ℕ, zero, suc, ◌+◌, ◌≡◌, refl, ◌⊎◌, Option, none, some, [], ◌∷◌, length, Text, text, text_eq,
  text_beq, nat_eq, true, false, ok,
}
use canonical_cloud.Auth.Json.{Json, null, bool, num, str, arr, nil, cons}
use canonical_cloud.Sync.{
  put, delete, DraftNote, Mutation, RecordSnapshot, MutationStatus, applied, conflict, gone,
  invalid, idempotency_key_reused, MutationResult, SyncRecord, Account, SyncLibs,
}
use canonical_cloud.Sync.Versions.{
  value_of, is_ascii_digit, valid_base_version, starts_canonical, parse_i64, to_string,
}
use canonical_cloud.Sync.Rules.{
  validate_mutation, invalid_message, value_message, parse_base_version, find_record, find_receipt,
  is_record, update_record,
}
use canonical_cloud.Sync.Push.{
  apply_mutation, apply_hashed, apply_new, execute, decide, create_record, change_record, advanced,
  recorded, write_change, store_receipt, snapshot_from_record,
}
use canonical_cloud.Sync.Replay.{IsCodec}
use canonical_cloud.Sync.Resending.{answered, now_still, apply_twice}
use canonical_cloud.Sync.Log.{IsLog, apply_mutation-IsLog}
use canonical_cloud.Sync.Optimistic.{IsApplied, apply_mutation-IsApplied}

abbrev status_json : MutationStatus → ℕ
status_json applied = 0
status_json conflict = 1
status_json gone = 2
status_json invalid = 3
status_json idempotency_key_reused = 4

abbrev read_status : ℕ → MutationStatus
read_status zero = applied
read_status (suc zero) = conflict
read_status (suc (suc zero)) = gone
read_status (suc (suc (suc zero))) = invalid
read_status _ = idempotency_key_reused

abbrev message_json : Option Text → Json
message_json none = null
message_json (some s) = str s

abbrev read_message : Json → Option Text
read_message (str s) = some s
read_message _ = none

abbrev note_json : DraftNote → Json
note_json note = arr (cons (str note.title) (cons (str note.body) nil))

abbrev read_note_json : Json → Option DraftNote
read_note_json (arr (cons (str title) (cons (str body) nil))) =
    some (record { title = title; body = body })
read_note_json _ = none

abbrev value_json : Option DraftNote → Json
value_json none = null
value_json (some note) = note_json note

abbrev snapshot_json : Option RecordSnapshot → Json
snapshot_json none = null
snapshot_json (some s) = arr (
    cons (str s.key.kind) (
      cons (num s.key.id) (
        cons (str s.version)
          (cons (num s.schema_version) (cons (bool s.deleted) (cons (value_json s.value) nil))))))

abbrev read_snapshot_json : Json → Option RecordSnapshot
read_snapshot_json
      (arr (
        cons (str kind) (
          cons
            (num id)
            (cons (str version) (cons (num schema) (cons (bool deleted) (cons v nil))))))) =
    some (record {
      key = record { kind = kind; id = id };
      version = version;
      schema_version = schema;
      deleted = deleted;
      value = read_note_json v;
    })
read_snapshot_json _ = none

abbrev result_json : MutationResult → Json
result_json r = arr (
    cons (num r.mutation_id) (
      cons (num (status_json r.status))
        (cons (snapshot_json r.snapshot) (cons (message_json r.message) nil))))

abbrev read_result_json : Json → Option MutationResult
read_result_json (arr (cons (num id) (cons (num status) (cons s (cons m nil))))) = some (record {
  mutation_id = id;
  status = read_status status;
  snapshot = read_snapshot_json s;
  message = read_message m;
})
read_result_json _ = none

status_back : (s : MutationStatus) → read_status (status_json s) ≡ s
status_back applied = refl
status_back conflict = refl
status_back gone = refl
status_back invalid = refl
status_back idempotency_key_reused = refl

message_back : (o : Option Text) → read_message (message_json o) ≡ o
message_back none = refl
message_back (some s) = refl

value_back : (o : Option DraftNote) → read_note_json (value_json o) ≡ o
value_back none = refl
value_back (some note) = refl

snapshot_back : (o : Option RecordSnapshot) → read_snapshot_json (snapshot_json o) ≡ o
snapshot_back none = refl
snapshot_back (some s) = rw (value_back s.value) refl

abbrev libs : SyncLibs
libs = record {
  request_hash = λ m. some m.key.kind;
  note_value = λ note. some (note_json note);
  read_note = read_note_json;
  result_value = λ r. some (result_json r);
  read_result = read_result_json;
  snapshot_value = λ s. some (snapshot_json (some s));
  read_snapshot = read_snapshot_json;
  snapshot_len = λ s. some 1;
}

result_back : (r : MutationResult) → read_result_json (result_json r) ≡ some r
result_back r = rw (status_back r.status, snapshot_back r.snapshot, message_back r.message) refl

some_back :
    (r : MutationResult) (j : Json) → some (result_json r) ≡ some j → read_result_json j ≡ some r
some_back r j h = cc (h, result_back r)

codec : IsCodec libs
codec = record { read = some_back }

abbrev note : DraftNote
note = record { title = text "t"; body = text "b" }

abbrev create_note : Mutation
create_note = record {
  mutation_id = 1;
  key = record { kind = text "draft_note"; id = 8 };
  action = put;
  base_version = none;
  schema_version = 1;
  value = some note;
}

abbrev delete_note : Mutation
delete_note = record {
  mutation_id = 2;
  key = record { kind = text "draft_note"; id = 8 };
  action = delete;
  base_version = some (text "1");
  schema_version = 1;
  value = none;
}

abbrev empty : Account
empty = record { clock = none; records = []; receipts = []; changes = [] }

abbrev record_row : SyncRecord
record_row = record {
  collection = text "draft_note";
  record_id = 8;
  version = 1;
  payload = note_json note;
  deleted_at = none;
  updated_at = 0;
}

-- The snapshot of the note at its first version, and the answer that created it.
abbrev first_snapshot : RecordSnapshot
first_snapshot = record {
  key = record { kind = text "draft_note"; id = 8 };
  version = text "1";
  schema_version = 1;
  deleted = false;
  value = some note;
}

abbrev created : MutationResult
created = record {
  mutation_id = 1;
  status = applied;
  snapshot = some first_snapshot;
  message = none;
}

abbrev after_create : Account
after_create = record {
  clock = some 1;
  records = record_row ∷ [];
  receipts =
      (record {
        client_id = 3;
        mutation_id = 1;
        request_hash = text "draft_note";
        answer = result_json created;
        created_at = 0;
      })
      ∷ [];
  changes =
      (record {
        cursor = 1;
        collection = text "draft_note";
        record_id = 8;
        version = 1;
        operation = text "put";
        payload = snapshot_json (some first_snapshot);
        changed_at = 0;
      })
      ∷ [];
}

run_create : apply_mutation libs 0 3 create_note empty ≡ ok ((created, some 1), after_create)
unfolding apply_mutation apply_hashed apply_new execute decide create_record change_record advanced
    recorded write_change store_receipt snapshot_from_record validate_mutation invalid_message
    value_message parse_base_version find_record find_receipt is_record update_record text_beq
    parse_i64 to_string value_of is_ascii_digit valid_base_version starts_canonical
run_create = refl

-- Another client sends the same mutation in between.
abbrev stale_answer : MutationResult
stale_answer = record {
  mutation_id = 1;
  status = conflict;
  snapshot = some first_snapshot;
  message = some (text "base version is stale");
}

abbrev between : Account
between = record after_create {
  receipts =
      record {
        client_id = 4;
        mutation_id = 1;
        request_hash = text "draft_note";
        answer = result_json stale_answer;
        created_at = 5;
      }
      ∷ after_create.receipts;
}

run_between : apply_mutation libs 5 4 create_note after_create ≡ ok ((stale_answer, none), between)
unfolding apply_mutation apply_hashed apply_new execute decide create_record change_record advanced
    recorded write_change store_receipt snapshot_from_record validate_mutation invalid_message
    value_message parse_base_version find_record find_receipt is_record update_record text_beq
    parse_i64 to_string value_of is_ascii_digit valid_base_version starts_canonical
run_between = refl

apply_twice_example : apply_mutation libs 9 3 create_note between ≡ ok ((created, none), between)
apply_twice_example =
    apply_twice libs 0 9 3 create_note empty after_create between (created, some 1) codec run_create
      (answered 5 4 create_note (stale_answer, none) now_still run_between)

abbrev first_cursor : Option ℕ
first_cursor = some 1

apply_mutation-IsLog_example :
    IsLog after_create
    × ((first_cursor ≡ none) × (after_create.changes ≡ [])
        ⊎ (first_cursor ≡ some (length empty.changes + 1))
          × (length after_create.changes ≡ length empty.changes + 1))
apply_mutation-IsLog_example =
    apply_mutation-IsLog libs 0 3 create_note empty after_create created (some 1)
      (record { clocked = refl; numbered = tt }) run_create

abbrev deleted_snapshot : RecordSnapshot
deleted_snapshot = record first_snapshot { version = text "2"; deleted = true; value = none }

abbrev removed : MutationResult
removed = record {
  mutation_id = 2;
  status = applied;
  snapshot = some deleted_snapshot;
  message = none;
}

abbrev after_delete : Account
after_delete = record {
  clock = some 2;
  records = record record_row { version = 2; deleted_at = some 7; updated_at = 7 } ∷ [];
  receipts =
      (record {
        client_id = 3;
        mutation_id = 2;
        request_hash = text "draft_note";
        answer = result_json removed;
        created_at = 7;
      })
      ∷ after_create.receipts;
  changes =
      (record {
        cursor = 2;
        collection = text "draft_note";
        record_id = 8;
        version = 2;
        operation = text "delete";
        payload = snapshot_json (some deleted_snapshot);
        changed_at = 7;
      })
      ∷ after_create.changes;
}

run_delete : apply_mutation libs 7 3 delete_note after_create ≡ ok ((removed, some 2), after_delete)
unfolding apply_mutation apply_hashed apply_new execute decide create_record change_record advanced
    recorded write_change store_receipt snapshot_from_record validate_mutation invalid_message
    value_message parse_base_version find_record find_receipt is_record update_record text_beq
    parse_i64 to_string value_of is_ascii_digit valid_base_version starts_canonical
run_delete = refl

apply_mutation-IsApplied_example : IsApplied delete_note record_row after_delete
unfolding find_record is_record text_beq
apply_mutation-IsApplied_example =
    apply_mutation-IsApplied libs 7 3 delete_note after_create after_delete removed 2 record_row
      refl run_delete
