-- ===== src/Sync/Resending.antt =====
-- A mutation that is sent to canonical-web-server.rs/src/sync/service.rs again, after other mutations.
use canonical_cloud.Base.{
  ℕ, ◌≡◌, refl, ap, ◌∙◌, Option, none, some, Text, text_eq, nat_eq, unwrap_or, ok, arith, inl, inr,
  Option-cases,
}
use canonical_cloud.Auth.{Uuid}
use canonical_cloud.Sync.{
  MutationAction, put, delete, Mutation, MutationResult, SyncRecord, Account, SyncLibs,
}
use canonical_cloud.Sync.Rules.{find_record, find_receipt, validate_mutation}
use canonical_cloud.Sync.Push.{
  write_change, store_receipt, recorded, create_record, advanced, change_record, decide, apply_new,
  apply_hashed, apply_mutation,
}
use canonical_cloud.Sync.Replay.{
  IsCodec, HasReceipt, execute-Executed, decide-clock, apply_hashed_receipt, receipt_answers,
}

module _ (libs : SyncLibs) where
  -- A receipt stays under a receipt for another mutation, or none.
  stored-HasReceipt :
      (now : ℕ) (client client' : Uuid) (hash hash' : Text) (mutation mutation' : Mutation)
      (r answer : MutationResult) (s s' : Account)
      → HasReceipt libs client hash mutation r s
      → find_receipt client' mutation'.mutation_id s.receipts ≡ none
      → store_receipt libs now client' mutation'.mutation_id hash' answer s ≡ ok s'
      → HasReceipt libs client hash mutation r s'
  unfolding store_receipt HasReceipt find_receipt
  stored-HasReceipt now client client' hash hash' mutation mutation' r answer s s'
        (receipt, f, p, k) absent h =
      elim (Option-cases (libs.result_value answer)) [
        | inl e ↦ absurd (ground (arith, e, h))
        | inr (j, e) ↦ (receipt, ground (arith, e, h, f, absent), p, ground (arith, e, h, k))
      ]

  decide-receipts :
      (now clock : ℕ) (mutation : Mutation) (base : Option ℕ) (o : Option SyncRecord)
      (action : MutationAction) (s s' : Account) (r : MutationResult × Option ℕ)
      → decide libs now clock mutation base o action s ≡ ok (r, s')
      → s'.receipts ≡ s.receipts
  unfolding decide create_record change_record recorded write_change advanced
  decide-receipts now clock mutation base none delete s s' r h = ground (arith, h)
  decide-receipts now clock mutation base none put s s' r h = ground arith
  decide-receipts now clock mutation base (some m) action s s' r h = ground arith

  applied-HasReceipt :
      (now : ℕ) (client client' : Uuid) (hash hash' : Text) (mutation mutation' : Mutation)
      (r : MutationResult) (r' : MutationResult × Option ℕ) (s s' : Account)
      → HasReceipt libs client hash mutation r s
      → apply_hashed libs now client' hash' mutation' s ≡ ok (r', s')
      → HasReceipt libs client hash mutation r s'
  unfolding apply_hashed apply_new HasReceipt
  applied-HasReceipt now client client' hash hash' mutation mutation' r r' s s' (receipt, f, p, k)
        h =
      let s0 : Account = record s { clock = some (unwrap_or s.clock 0) } in
      elim (Option-cases (find_receipt client' mutation'.mutation_id s.receipts)) [
        | inr (found, e) ↦ (receipt, ground (arith, f, e, h), p, ground (arith, e, h))
        | inl e ↦ elim (Option-cases (validate_mutation mutation')) [
          | inr (answer, v) ↦
              stored-HasReceipt now client client' hash hash' mutation mutation' r r'.0 s0 s'
                (receipt, f, p, refl) e (ground (arith, e, v, h))
          | inl v ↦
              let x =
                execute-Executed libs now client' hash' (unwrap_or s.clock 0) mutation' s0 s' r'
                  (ground (arith, e, v, h)) in
              let o = find_record mutation'.key.kind mutation'.key.id s.records in
              let same =
                decide-receipts now (unwrap_or s.clock 0) mutation' x.base o mutation'.action s0
                  x.decided_account r' x.decided in
              let clocked =
                decide-clock libs now (unwrap_or s.clock 0) mutation' x.base o mutation'.action s0
                  x.decided_account r' refl x.decided in
              stored-HasReceipt now client client' hash hash' mutation mutation' r r'.0
                x.decided_account s'
                (receipt, ap (find_receipt client mutation.mutation_id) same ∙ f, p, clocked)
                (ap (find_receipt client' mutation'.mutation_id) same ∙ e) x.stored
        ]
      ]

  -- The account after more mutations that were answered, of any client and at any time.
  pub data Later (s : Account) : Account → Type 0 where
    now_still : Later s s
    answered :
        {a b : Account} (now : ℕ) (client : Uuid) (mutation : Mutation)
        (r : MutationResult × Option ℕ)
        → Later s a
        → apply_mutation libs now client mutation a ≡ ok (r, b)
        → Later s b

  Later-HasReceipt :
      (client : Uuid) (hash : Text) (mutation : Mutation) (r : MutationResult) {s s' : Account}
      → Later s s'
      → HasReceipt libs client hash mutation r s
      → HasReceipt libs client hash mutation r s'
  unfolding apply_mutation
  Later-HasReceipt client hash mutation r now_still k = k
  Later-HasReceipt client hash mutation r (answered {a} {b} now client' mutation' r' before h) k =
      elim (Option-cases (libs.request_hash mutation')) [
        | inl e ↦ absurd (ground (arith, e, h))
        | inr (hash', e) ↦
            applied-HasReceipt now client client' hash hash' mutation mutation' r r' a b
              (Later-HasReceipt client hash mutation r before k) (ground (arith, e, h))
      ]

-- If a result that was encoded decodes to itself, a mutation that was answered is answered the same
-- when it is sent again, at any later time and after any other mutations of the account, of this or
-- other clients, that were answered; without a cursor, and the account stays as it is.
pub apply_twice :
    (libs : SyncLibs) (now later : ℕ) (client : Uuid) (mutation : Mutation) (s s' s'' : Account)
    (r : MutationResult × Option ℕ)
    → IsCodec libs
    → apply_mutation libs now client mutation s ≡ ok (r, s')
    → Later libs s' s''
    → apply_mutation libs later client mutation s'' ≡ ok ((r.0, none), s'')
unfolding apply_mutation
apply_twice libs now later client mutation s s' s'' r codec h between =
    elim (Option-cases (libs.request_hash mutation)) [
      | inl e ↦ absurd (ground arith)
      | inr (hash, e) ↦ rw e (
          receipt_answers libs later client hash mutation s'' r.0 (
            Later-HasReceipt libs client hash mutation r.0 between
              (apply_hashed_receipt libs now client hash mutation s s' r codec (ground arith))))
    ]
