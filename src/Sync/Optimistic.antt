-- ===== src/Sync/Optimistic.antt =====
-- Optimistic versions (canonical-web-server.rs/src/sync/service.rs): a record changes only under the
-- version that the client has seen.
use canonical_cloud.Base.{
  ℕ, ◌+◌, ◌≡◌, subst, ◌∙◌, Option, none, some, List, [], ◌∷◌, Text, text_eq, text_beq_iff, nat_eq,
  true, unwrap_or, ok, arith, inl, inr, Option-cases,
}
use canonical_cloud.Auth.{Uuid}
use canonical_cloud.Sync.{
  MutationAction, put, delete, DraftNote, Mutation, MutationResult, SyncRecord, Account, SyncLibs,
}
use canonical_cloud.Sync.Rules.{
  is_record, find_record, update_record, find_receipt, validate_mutation, parse_base_version,
}
use canonical_cloud.Sync.Push.{
  write_change, recorded, advanced, change_record, decide, execute, apply_new, apply_hashed,
  apply_mutation,
}
use canonical_cloud.Sync.Replay.{bound, execute-Executed}
use canonical_cloud.Sync.Log.{store_receipt_keeps}

find_record-is_record :
    (kind : Text) (id : Uuid) (rows : List SyncRecord) (m : SyncRecord)
    → find_record kind id rows ≡ some m
    → is_record kind id m ≡ true
unfolding find_record
find_record-is_record kind id [] m h = cc
find_record-is_record kind id (r ∷ rows) m h = ground (arith, find_record-is_record kind id rows m)

find_record-update_record :
    (kind : Text) (id : Uuid) (rows : List SyncRecord) (m m' : SyncRecord)
    → find_record kind id rows ≡ some m
    → m'.collection ≡ kind
    → m'.record_id ≡ id
    → is_record kind id m' ≡ true
    → find_record kind id (update_record m' rows) ≡ some m'
unfolding find_record update_record
find_record-update_record kind id [] m m' h c i t = cc
find_record-update_record kind id (r ∷ rows) m m' h c i t =
    rw (c, i) (ground (arith, t, find_record-update_record kind id rows m m'))

-- The record that a mutation has changed from `m`.
pub record IsNext (m m' : SyncRecord) : Type 0 where
  pub version : m'.version ≡ m.version + 1
  pub collection : m'.collection ≡ m.collection
  pub record_id : m'.record_id ≡ m.record_id

-- What a mutation that was applied to the record `m` has seen and done.
pub record IsApplied (mutation : Mutation) (m : SyncRecord) (s' : Account) : Type 0 where
  pub alive : m.deleted_at ≡ none
  pub seen : parse_base_version mutation ≡ ok (some m.version)
  pub next : SyncRecord
  pub found : find_record mutation.key.kind mutation.key.id s'.records ≡ some next
  pub version : next.version ≡ m.version + 1

module _ (libs : SyncLibs) where
  advanced-IsNext :
      (now : ℕ) (action : MutationAction) (value : Option DraftNote) (m m' : SyncRecord)
      → advanced libs now action value m ≡ ok m'
      → IsNext m m'
  unfolding advanced
  advanced-IsNext now put value m m' h = ground arith
  advanced-IsNext now delete value m m' h = ground arith

  recorded_keeps :
      (now clock : ℕ) (mutation : Mutation) (m : SyncRecord) (s s' : Account)
      (r : MutationResult × Option ℕ)
      → recorded libs now clock mutation m s ≡ ok (r, s')
      → s'.records ≡ s.records
  unfolding recorded write_change
  recorded_keeps now clock mutation m s s' r h = ground arith

  change_record-IsNext :
      (now clock : ℕ) (mutation : Mutation) (base : Option ℕ) (m : SyncRecord) (s s' : Account)
      (r : MutationResult) (c : ℕ)
      → change_record libs now clock mutation base m s ≡ ok ((r, some c), s')
      → (m.deleted_at ≡ none)
        × (base ≡ some m.version)
        × (m' : SyncRecord) × IsNext m m'
        × (s'.records ≡ update_record m' s.records)
  unfolding change_record
  change_record-IsNext now clock mutation base m s s' r c h =
      let next = λ (m' : SyncRecord).
        recorded libs now clock mutation m' (record s { records = update_record m' s.records }) in
      let (m', e, h') =
        bound (advanced libs now mutation.action mutation.value m) next ((r, some c), s')
          (ground arith) in
      (
        ground arith,
        ground arith,
        m',
        advanced-IsNext now mutation.action mutation.value m m' e,
        recorded_keeps now clock mutation m' (record s { records = update_record m' s.records }) s'
            (r, some c) h',
      )

  is_record_keys :
      (kind : Text) (id : Uuid) (m : SyncRecord)
      → is_record kind id m ≡ true
      → (m.collection ≡ kind) × (m.record_id ≡ id)
  unfolding is_record
  is_record_keys kind id m h = ground (arith, h, text_beq_iff m.collection kind)

  execute-IsApplied :
      (now : ℕ) (client : Uuid) (hash : Text) (clock : ℕ) (mutation : Mutation) (s s' : Account)
      (r : MutationResult) (c : ℕ) (m : SyncRecord)
      → find_record mutation.key.kind mutation.key.id s.records ≡ some m
      → execute libs now client hash clock mutation s ≡ ok ((r, some c), s')
      → IsApplied mutation m s'
  unfolding decide
  execute-IsApplied now client hash clock mutation s s' r c m f h =
      let kind = mutation.key.kind in
      let id = mutation.key.id in
      let x = execute-Executed libs now client hash clock mutation s s' (r, some c) h in
      let changed : change_record libs now clock mutation x.base m s
          ≡ ok ((r, some c), x.decided_account) =
        subst
          (λ o.
            decide libs now clock mutation x.base o mutation.action s
            ≡ ok ((r, some c), x.decided_account))
          f x.decided in
      let (alive, based, m', next, records) =
        change_record-IsNext now clock mutation x.base m s x.decided_account r c changed in
      let (log, clocked, kept) =
        store_receipt_keeps libs now client mutation.mutation_id hash r x.decided_account s'
          x.stored in
      let is = find_record-is_record kind id s.records m f in
      let (k, i) = is_record_keys kind id m is in
      let is' : is_record kind id m' ≡ true =
        unfold is_record in rw (next.collection, next.record_id) is in
      record {
        alive = alive;
        seen = rw (← based) x.based;
        next = m';
        found = rw (kept ∙ records) (
            find_record-update_record kind id s.records m m' f (next.collection ∙ k)
              (next.record_id ∙ i) is');
        version = next.version;
      }

-- A mutation of a record that is there and that is answered with a cursor was sent with the
-- version that the record has, the record was not deleted, and its version is one more afterwards.
pub apply_mutation-IsApplied :
    (libs : SyncLibs) (now : ℕ) (client : Uuid) (mutation : Mutation) (s s' : Account)
    (r : MutationResult) (c : ℕ) (m : SyncRecord)
    → find_record mutation.key.kind mutation.key.id s.records ≡ some m
    → apply_mutation libs now client mutation s ≡ ok ((r, some c), s')
    → IsApplied mutation m s'
unfolding apply_mutation apply_hashed apply_new
apply_mutation-IsApplied libs now client mutation s s' r c m f h =
    elim (Option-cases (libs.request_hash mutation)) [
      | inl e ↦ absurd (ground arith)
      | inr (hash, e) ↦ elim (Option-cases (find_receipt client mutation.mutation_id s.receipts)) [
        | inr (receipt, e1) ↦ absurd (ground arith)
        | inl e1 ↦ elim (Option-cases (validate_mutation mutation)) [
          | inr (a, e2) ↦ absurd (ground arith)
          | inl e2 ↦
              execute-IsApplied libs now client hash (unwrap_or s.clock 0) mutation
                (record s { clock = some (unwrap_or s.clock 0) }) s' r c m f (ground arith)
        ]
      ]
    ]
