-- ===== src/Sync/Replay.antt =====
-- Receipts of canonical-web-server.rs/src/sync/service.rs: a mutation that is sent again.
use canonical_cloud.Base.{
  ℕ, ◌≡◌, refl, ap, ◌∙◌, Option, none, some, Text, text_eq, text_beq_refl, nat_eq, true, is_some,
  unwrap_or, Result, ok, err, ok_or, ◌>>=◌, arith, inl, inr, Option-cases,
}
use canonical_cloud.Auth.{Uuid}
use canonical_cloud.Auth.Json.{Json}
use canonical_cloud.Sync.{
  MutationAction, put, delete, Mutation, MutationResult, RecordSnapshot, SyncError, SyncRecord,
  Receipt, Account, SyncLibs,
}
use canonical_cloud.Sync.Rules.{find_record, find_receipt, validate_mutation, parse_base_version}
use canonical_cloud.Sync.Push.{
  write_change, store_receipt, recorded, create_record, advanced, change_record, decide, execute,
  replayed, apply_new, apply_hashed,
}

-- What a bind that returns has bound.
pub bound :
    {A B : Type 0} (r : Result SyncError A) (f : A → Result SyncError B) (b : B)
    → (r >>= f) ≡ ok b
    → (a : A) × (r ≡ ok a) × (f a ≡ ok b)
bound (ok a) f b h = (a, refl, h)
bound (err e) f b h = cc

pub ok_or-some : {A : Type 0} (o : Option A) (e : SyncError) (a : A) → ok_or o e ≡ ok a → o ≡ some a
ok_or-some none e a h = cc
ok_or-some (some b) e a h = cc

-- What the service relies on of serde_json: a result that was encoded decodes to itself.
pub record IsCodec (libs : SyncLibs) : Type 0 where
  pub read :
      (r : MutationResult) (j : Json) → libs.result_value r ≡ some j → libs.read_result j ≡ some r

module _ (libs : SyncLibs) where
  write_change-clock :
      (now cursor : ℕ) (snapshot : RecordSnapshot) (s s' : Account)
      → write_change libs now cursor snapshot s ≡ ok s'
      → is_some s'.clock ≡ true
  unfolding write_change
  write_change-clock now cursor snapshot s s' h = ground arith

  recorded-clock :
      (now clock : ℕ) (mutation : Mutation) (m : SyncRecord) (s s' : Account)
      (r : MutationResult × Option ℕ)
      → recorded libs now clock mutation m s ≡ ok (r, s')
      → is_some s'.clock ≡ true
  unfolding recorded write_change
  recorded-clock now clock mutation m s s' r h = ground arith

  pub decide-clock :
      (now clock : ℕ) (mutation : Mutation) (base : Option ℕ) (o : Option SyncRecord)
      (action : MutationAction) (s s' : Account) (r : MutationResult × Option ℕ)
      → is_some s.clock ≡ true
      → decide libs now clock mutation base o action s ≡ ok (r, s')
      → is_some s'.clock ≡ true
  unfolding decide create_record change_record recorded write_change advanced
  decide-clock now clock mutation base none delete s s' r k h = ground (arith, k, h)
  decide-clock now clock mutation base none put s s' r k h = ground arith
  decide-clock now clock mutation base (some m) action s s' r k h = ground arith

  -- The receipt of an answer that is stored now.
  stored_receipt :
      (now : ℕ) (client : Uuid) (hash : Text) (mutation : Mutation) (r : MutationResult)
      (s s' : Account)
      → IsCodec libs
      → store_receipt libs now client mutation.mutation_id hash r s ≡ ok s'
      → (receipt : Receipt) × (find_receipt client mutation.mutation_id s'.receipts ≡ some receipt)
        × (replayed libs hash mutation receipt ≡ ok r)
        × (s'.clock ≡ s.clock)
  unfolding store_receipt find_receipt replayed
  stored_receipt now client hash mutation r s s' codec h =
      elim (Option-cases (libs.result_value r)) [
        | inl e ↦ absurd (ground arith)
        | inr (j, e) ↦
            let receipt : Receipt = record {
              client_id = client;
              mutation_id = mutation.mutation_id;
              request_hash = hash;
              answer = j;
              created_at = now;
            } in
            (
              receipt,
              ground arith,
              ground (arith, codec.read r j e, text_beq_refl hash),
              ground arith,
            )
      ]

  -- What an answered mutation leaves: a receipt from which the same answer is read again.
  unfoldable pub HasReceipt : Uuid → Text → Mutation → MutationResult → Account → Type 0
  HasReceipt client hash mutation r s =
      (receipt : Receipt) × (find_receipt client mutation.mutation_id s.receipts ≡ some receipt)
      × (replayed libs hash mutation receipt ≡ ok r)
      × (is_some s.clock ≡ true)

  -- The steps of `execute` that returned: the base version, the decision and its receipt.
  pub record Executed (now : ℕ) (client : Uuid) (hash : Text) (clock : ℕ) (mutation : Mutation)
      (s s' : Account) (r : MutationResult × Option ℕ) : Type 0 where
    pub base : Option ℕ
    pub decided_account : Account
    pub based : parse_base_version mutation ≡ ok base
    pub decided :
        decide libs now clock mutation base
          (find_record mutation.key.kind mutation.key.id s.records)
          mutation.action
          s
        ≡ ok (r, decided_account)
    pub stored : store_receipt libs now client mutation.mutation_id hash r.0 decided_account ≡ ok s'

  pub execute-Executed :
      (now : ℕ) (client : Uuid) (hash : Text) (clock : ℕ) (mutation : Mutation) (s s' : Account)
      (r : MutationResult × Option ℕ)
      → execute libs now client hash clock mutation s ≡ ok (r, s')
      → Executed now client hash clock mutation s s' r
  unfolding execute
  execute-Executed now client hash clock mutation s s' r h =
      let o = find_record mutation.key.kind mutation.key.id s.records in
      let store = λ (q : (MutationResult × Option ℕ) × Account).
        store_receipt libs now client mutation.mutation_id hash q.0.0 q.1 >>= λ t. ok (q.0, t) in
      let decided =
        λ (base : Option ℕ). decide libs now clock mutation base o mutation.action s >>= store in
      let (base, e, h1) = bound (parse_base_version mutation) decided (r, s') h in
      let (q, e1, h2) =
        bound (decide libs now clock mutation base o mutation.action s) store (r, s') h1 in
      let (t, e2, h3) =
        bound (store_receipt libs now client mutation.mutation_id hash q.0.0 q.1) (λ t. ok (q.0, t))
          (r, s') h2 in
      record {
        base = base;
        decided_account = q.1;
        based = e;
        decided = ground (arith, e1, h3);
        stored = ground (arith, e2, h3);
      }

  execute_receipt :
      (now : ℕ) (client : Uuid) (hash : Text) (clock : ℕ) (mutation : Mutation) (s s' : Account)
      (r : MutationResult × Option ℕ)
      → IsCodec libs
      → is_some s.clock ≡ true
      → execute libs now client hash clock mutation s ≡ ok (r, s')
      → HasReceipt client hash mutation r.0 s'
  unfolding HasReceipt
  execute_receipt now client hash clock mutation s s' r codec k h =
      let x = execute-Executed now client hash clock mutation s s' r h in
      let o = find_record mutation.key.kind mutation.key.id s.records in
      let clocked =
        decide-clock now clock mutation x.base o mutation.action s x.decided_account r k
          x.decided in
      let (receipt, f, p, c) =
        stored_receipt now client hash mutation r.0 x.decided_account s' codec x.stored in
      (receipt, f, p, ap is_some c ∙ clocked)

  apply_new_receipt :
      (now : ℕ) (client : Uuid) (hash : Text) (clock : ℕ) (mutation : Mutation) (s s' : Account)
      (r : MutationResult × Option ℕ)
      → IsCodec libs
      → is_some s.clock ≡ true
      → apply_new libs now client hash clock mutation s ≡ ok (r, s')
      → HasReceipt client hash mutation r.0 s'
  unfolding apply_new HasReceipt
  apply_new_receipt now client hash clock mutation s s' r codec k h =
      elim (Option-cases (validate_mutation mutation)) [
        | inl e ↦ execute_receipt now client hash clock mutation s s' r codec k (ground arith)
        | inr (a, e) ↦
            let (receipt, f, p, c) =
              stored_receipt now client hash mutation r.0 s s' codec (ground arith) in
            (receipt, f, p, ap is_some c ∙ k)
      ]

  pub apply_hashed_receipt :
      (now : ℕ) (client : Uuid) (hash : Text) (mutation : Mutation) (s s' : Account)
      (r : MutationResult × Option ℕ)
      → IsCodec libs
      → apply_hashed libs now client hash mutation s ≡ ok (r, s')
      → HasReceipt client hash mutation r.0 s'
  unfolding apply_hashed HasReceipt
  apply_hashed_receipt now client hash mutation s s' r codec h =
      elim (Option-cases (find_receipt client mutation.mutation_id s.receipts)) [
        | inl e ↦
            apply_new_receipt now client hash (unwrap_or s.clock 0) mutation
              (record s { clock = some (unwrap_or s.clock 0) }) s' r codec refl (ground arith)
        | inr (receipt, e) ↦ (receipt, ground arith, ground arith, ground arith)
      ]

  pub receipt_answers :
      (later : ℕ) (client : Uuid) (hash : Text) (mutation : Mutation) (s : Account)
      (r : MutationResult)
      → HasReceipt client hash mutation r s
      → apply_hashed libs later client hash mutation s ≡ ok ((r, none), s)
  unfolding apply_hashed HasReceipt
  receipt_answers later client hash mutation s r (receipt, f, p, k) = elim (Option-cases s.clock) [
    | inl e ↦ cc (k, e)
    | inr (c, e) ↦ ground (arith, f, p, e)
  ]
