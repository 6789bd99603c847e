-- ===== src/Sync/Push.antt =====
-- `push_mutations` and `apply_mutation` of canonical-web-server.rs/src/sync/service.rs. The lock on
-- the owner's clock makes each mutation one step on the account; a step that returns an error has
-- committed nothing. The notices to other replicas and to open sockets are not modelled.
use canonical_cloud.Base.{
  ℕ, ◌+◌, Option, none, some, List, [], ◌∷◌, Text, text, text_eq, not, ◌||◌, ◌==◌, nat_eq,
  if◌then◌else◌, leb, ltb, is_some, unwrap_or, option_beq, length, Result, ok, err, ok_or, ◌>>=◌,
}
use canonical_cloud.Auth.{Uuid}
use canonical_cloud.Sync.{
  MutationAction, put, delete, DraftNote, Mutation, MutationBatch, RecordSnapshot, applied,
  conflict, gone, idempotency_key_reused, MutationResult, SyncError, json, panicked, bad_request,
  SyncRecord, Receipt, Account, SyncLibs,
}
use canonical_cloud.Sync.Versions.{to_string, parse_i64}
use canonical_cloud.Sync.Rules.{
  max_batch_size, protocol_version, result, validate_mutation, parse_base_version, find_record,
  update_record, find_receipt,
}

module _ (libs : SyncLibs) where
  unfoldable pub snapshot_from_record : SyncRecord → Result SyncError RecordSnapshot
  snapshot_from_record m = do
    value ←
        if is_some m.deleted_at
        then ok none
        else do note ← ok_or (libs.read_note m.payload) json; ok (some note)
    ok (record {
      key = record { kind = m.collection; id = m.record_id };
      version = to_string m.version;
      schema_version = 1;
      deleted = is_some m.deleted_at;
      value = value;
    })

  -- `write_change`: the clock moves to `cursor`, and the change is recorded there.
  unfoldable pub write_change : ℕ → ℕ → RecordSnapshot → Account → Result SyncError Account
  write_change now cursor snapshot s = do
    version ←
        ok_or (parse_i64 snapshot.version) (bad_request (text "invalid internal record version"))
    payload ← ok_or (libs.snapshot_value snapshot) json
    ok (record s {
      clock = some cursor;
      changes =
          record {
            cursor = cursor;
            collection = snapshot.key.kind;
            record_id = snapshot.key.id;
            version = version;
            operation = if snapshot.deleted then text "delete" else text "put";
            payload = payload;
            changed_at = now;
          }
          ∷ s.changes;
    })

  unfoldable pub store_receipt :
      ℕ → Uuid → Uuid → Text → MutationResult → Account → Result SyncError Account
  store_receipt now client_id mutation_id request_hash answer s = do
    value ← ok_or (libs.result_value answer) json
    ok (record s {
      receipts =
          record {
            client_id = client_id;
            mutation_id = mutation_id;
            request_hash = request_hash;
            answer = value;
            created_at = now;
          }
          ∷ s.receipts;
    })

  -- A record that was written, with its change and the result of the mutation.
  unfoldable pub recorded :
      ℕ
      → ℕ
      → Mutation
      → SyncRecord
      → Account
      → Result SyncError ((MutationResult × Option ℕ) × Account)
  recorded now clock mutation m s = do
    snapshot ← snapshot_from_record m
    s' ← write_change now (clock + 1) snapshot s
    ok ((result mutation applied (some snapshot) none, some (clock + 1)), s')

  -- The arm of a new record.
  unfoldable pub create_record :
      ℕ → ℕ → Mutation → Account → Result SyncError ((MutationResult × Option ℕ) × Account)
  create_record now clock mutation s = do
    value ← ok_or mutation.value panicked
    payload ← ok_or (libs.note_value value) json
    let m : SyncRecord = record {
      collection = mutation.key.kind;
      record_id = mutation.key.id;
      version = 1;
      payload = payload;
      deleted_at = none;
      updated_at = now;
    }
    recorded now clock mutation m (record s { records = m ∷ s.records })

  unfoldable pub advanced :
      ℕ → MutationAction → Option DraftNote → SyncRecord → Result SyncError SyncRecord
  advanced now put value m = do
    note ← ok_or value panicked
    payload ← ok_or (libs.note_value note) json
    ok (record m {
      version = m.version + 1;
      updated_at = now;
      payload = payload;
      deleted_at = none;
    })
  advanced now delete value m =
      ok (record m { version = m.version + 1; updated_at = now; deleted_at = some now })

  -- The arms of a record that is there.
  unfoldable pub change_record :
      ℕ
      → ℕ
      → Mutation
      → Option ℕ
      → SyncRecord
      → Account
      → Result SyncError ((MutationResult × Option ℕ) × Account)
  change_record now clock mutation base m s =
      if is_some m.deleted_at
      then (do
        snapshot ← snapshot_from_record m
        ok (
          (
            result mutation gone (some snapshot)
                (some (text "deleted record IDs cannot be reused")),
            none,
          ),
          s,
        ))
      else if not (option_beq (some m.version) base)
      then (do
        snapshot ← snapshot_from_record m
        ok (
          (result mutation conflict (some snapshot) (some (text "base version is stale")), none),
          s,
        ))
      else do
        m' ← advanced now mutation.action mutation.value m
        recorded now clock mutation m' (record s { records = update_record m' s.records })

  -- The `match` on the record and the action.
  unfoldable pub decide :
      ℕ
      → ℕ
      → Mutation
      → Option ℕ
      → Option SyncRecord
      → MutationAction
      → Account
      → Result SyncError ((MutationResult × Option ℕ) × Account)
  decide now clock mutation base none delete s =
      ok ((result mutation gone none (some (text "record does not exist")), none), s)
  decide now clock mutation base none put s =
      if is_some base
      then ok (
        (result mutation conflict none (some (text "record was removed or never existed")), none),
        s,
      )
      else create_record now clock mutation s
  decide now clock mutation base (some m) action s = change_record now clock mutation base m s

  -- The mutation behind its validation, and its receipt.
  unfoldable pub execute :
      ℕ
      → Uuid
      → Text
      → ℕ
      → Mutation
      → Account
      → Result SyncError ((MutationResult × Option ℕ) × Account)
  execute now client_id request_hash clock mutation s = do
    base ← parse_base_version mutation
    r ←
        decide now clock mutation base (find_record mutation.key.kind mutation.key.id s.records)
          mutation.action s
    s' ← store_receipt now client_id mutation.mutation_id request_hash r.0.0 r.1
    ok (r.0, s')

  -- The answer to a mutation that has a receipt.
  unfoldable pub replayed : Text → Mutation → Receipt → Result SyncError MutationResult
  replayed request_hash mutation receipt =
      if receipt.request_hash == request_hash
      then ok_or (libs.read_result receipt.answer) json
      else ok (
          result mutation idempotency_key_reused none
            (some (text "mutation ID was already used for different content")))

  unfoldable pub apply_new :
      ℕ
      → Uuid
      → Text
      → ℕ
      → Mutation
      → Account
      → Result SyncError ((MutationResult × Option ℕ) × Account)
  apply_new now client_id request_hash clock mutation s = elim (validate_mutation mutation) [
    | some r ↦ do
      s' ← store_receipt now client_id mutation.mutation_id request_hash r s
      ok ((r, none), s')
    | none ↦ execute now client_id request_hash clock mutation s
  ]

  -- The body of the transaction, behind the clock's row.
  unfoldable pub apply_hashed :
      ℕ
      → Uuid
      → Text
      → Mutation
      → Account
      → Result SyncError ((MutationResult × Option ℕ) × Account)
  apply_hashed now client_id request_hash mutation s =
      let clock = unwrap_or s.clock 0 in
      let s0 : Account = record s { clock = some clock } in
      elim (find_receipt client_id mutation.mutation_id s.receipts) [
        | some receipt ↦ do r ← replayed request_hash mutation receipt; ok ((r, none), s0)
        | none ↦ apply_new now client_id request_hash clock mutation s0
      ]

  unfoldable pub apply_mutation :
      ℕ → Uuid → Mutation → Account → Result SyncError ((MutationResult × Option ℕ) × Account)
  apply_mutation now client_id mutation s = do
    request_hash ← ok_or (libs.request_hash mutation) json
    apply_hashed now client_id request_hash mutation s

  -- The loop of `push_mutations`: the results, and the account that the committed mutations leave,
  -- those before an error included.
  unfoldable pub apply_all :
      ℕ → Uuid → List Mutation → Account → Result SyncError (List MutationResult) × Account
  apply_all now client_id [] s = (ok [], s)
  apply_all now client_id (mutation ∷ rest) s = elim (apply_mutation now client_id mutation s) [
    | err e ↦ (err e, s)
    | ok r ↦
        let (results, s') = apply_all now client_id rest r.1 in
        ((do rs ← results; ok (r.0.0 ∷ rs)), s')
  ]

  unfoldable pub push_mutations :
      ℕ → MutationBatch → Account → Result SyncError (List MutationResult) × Account
  push_mutations now batch s =
      if not (batch.protocol_version == protocol_version)
      then (err (bad_request (text "unsupported sync protocol version")), s)
      else if leb (length batch.operations) 0 || ltb max_batch_size (length batch.operations)
      then (err (bad_request (text "operations must contain between 1 and 50 items")), s)
      else apply_all now batch.client_id batch.operations s
