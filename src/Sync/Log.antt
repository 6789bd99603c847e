-- ===== src/Sync/Log.antt =====
-- The clock and the changes of an account (canonical-web-server.rs/src/sync/service.rs): cursors
-- without gaps, and versions that nobody overwrites unseen.
use canonical_cloud.Base.{
  ℕ, ◌+◌, ◌≡◌, refl, ap, ◌∙◌, Option, none, some, List, [], ◌∷◌, length, Text, text_eq, nat_eq,
  unwrap_or, Result, ok, ◌>>=◌, arith, inl, inr, ◌⊎◌, Option-cases,
}
use canonical_cloud.Auth.{Uuid}
use canonical_cloud.Sync.{
  MutationAction, put, delete, Mutation, MutationResult, SyncError, SyncRecord, Receipt, Change,
  Account, SyncLibs,
}
use canonical_cloud.Sync.Rules.{find_record, find_receipt, validate_mutation}
use canonical_cloud.Sync.Push.{
  write_change, store_receipt, recorded, create_record, advanced, change_record, decide, execute,
  replayed, apply_new, apply_hashed, apply_mutation,
}
use canonical_cloud.Sync.Replay.{execute-Executed}

-- Newest first, the cursors of the changes are the numbers down to 1.
abbrev pub Numbered : List Change → Type 0
Numbered [] = Unit
Numbered (c ∷ rest) = (c.cursor ≡ length rest + 1) × Numbered rest

-- The clock counts the changes, and the changes are numbered by it.
pub record IsLog (s : Account) : Type 0 where
  pub clocked : unwrap_or s.clock 0 ≡ length s.changes
  pub numbered : Numbered s.changes

abbrev pub rest_of : List Change → List Change
rest_of [] = []
rest_of (c ∷ rest) = rest

abbrev pub first_cursor : List Change → Option ℕ
first_cursor [] = none
first_cursor (c ∷ rest) = some c.cursor

-- A step logs nothing, or one change at the next cursor.
abbrev pub Logged : Account → Account → Option ℕ → Type 0
Logged s s' none = (s'.changes ≡ s.changes) × (unwrap_or s'.clock 0 ≡ unwrap_or s.clock 0)
Logged s s' (some c) =
    (c ≡ unwrap_or s.clock 0 + 1)
    × (s'.clock ≡ some c)
    × (rest_of s'.changes ≡ s.changes)
    × (first_cursor s'.changes ≡ some c)

Numbered-next :
    (c : ℕ) (changes old : List Change)
    → rest_of changes ≡ old
    → first_cursor changes ≡ some c
    → c ≡ length old + 1
    → Numbered old
    → (length changes ≡ c) × Numbered changes
Numbered-next c [] old r f n l = cc
Numbered-next c (change ∷ changes) old r f n l =
    (ground (arith, ap length r), (ground (arith, ap length r), rw r l))

Logged-IsLog : (s s' : Account) (c : Option ℕ) → Logged s s' c → IsLog s → IsLog s'
Logged-IsLog s s' none h l = record {
  clocked = ground (arith, ap length h.0, l.clocked);
  numbered = rw h.0 l.numbered;
}
Logged-IsLog s s' (some c) h l =
    let (n, numbered) =
      Numbered-next c s'.changes s.changes h.2 h.3 (ground (arith, h.0, l.clocked)) l.numbered in
    record { clocked = ground (arith, h.1, n); numbered = numbered }

Logged-same :
    (s t t' : Account) (c : Option ℕ)
    → t'.changes ≡ t.changes
    → t'.clock ≡ t.clock
    → Logged s t c
    → Logged s t' c
Logged-same s t t' none h k l = (h ∙ l.0, ap (λ o. unwrap_or o 0) k ∙ l.1)
Logged-same s t t' (some c) h k l = (l.0, k ∙ l.1, ap rest_of h ∙ l.2, ap first_cursor h ∙ l.3)

-- What a logged step does to the log.
Logged-step :
    (s s' : Account) (c : Option ℕ)
    → Logged s s' c
    → IsLog s
    → IsLog s'
      × ((c ≡ none) × (s'.changes ≡ s.changes)
          ⊎ (c ≡ some (length s.changes + 1)) × (length s'.changes ≡ length s.changes + 1))
Logged-step s s' none h l = (Logged-IsLog s s' none h l, inl (refl, h.0))
Logged-step s s' (some c) h l =
    let (n, numbered) =
      Numbered-next c s'.changes s.changes h.2 h.3 (ground (arith, h.0, l.clocked)) l.numbered in
    (
      Logged-IsLog s s' (some c) h l,
      inr (ground (arith, h.0, l.clocked), ground (arith, h.0, l.clocked, n)),
    )

-- An answer without a cursor.
abbrev silent : MutationResult → Account → Result SyncError ((MutationResult × Option ℕ) × Account)
silent a t = ok ((a, none), t)

module _ (libs : SyncLibs) where
  decide-Logged :
      (now clock : ℕ) (mutation : Mutation) (base : Option ℕ) (o : Option SyncRecord)
      (action : MutationAction) (s s' : Account) (r : MutationResult) (c : Option ℕ)
      → clock ≡ unwrap_or s.clock 0
      → decide libs now clock mutation base o action s ≡ ok ((r, c), s')
      → Logged s s' c
  unfolding decide create_record change_record recorded write_change advanced
  decide-Logged now clock mutation base none delete s s' r none k h = ground arith
  decide-Logged now clock mutation base none delete s s' r (some c) k h = ground arith
  decide-Logged now clock mutation base none put s s' r none k h = ground arith
  decide-Logged now clock mutation base none put s s' r (some c) k h = ground arith
  decide-Logged now clock mutation base (some m) action s s' r none k h = ground arith
  decide-Logged now clock mutation base (some m) action s s' r (some c) k h = ground arith

  pub store_receipt_keeps :
      (now : ℕ) (client id : Uuid) (hash : Text) (r : MutationResult) (s s' : Account)
      → store_receipt libs now client id hash r s ≡ ok s'
      → (s'.changes ≡ s.changes) × (s'.clock ≡ s.clock) × (s'.records ≡ s.records)
  unfolding store_receipt
  store_receipt_keeps now client id hash r s s' h = ground arith

  execute-Logged :
      (now : ℕ) (client : Uuid) (hash : Text) (clock : ℕ) (mutation : Mutation) (s s' : Account)
      (r : MutationResult) (c : Option ℕ)
      → clock ≡ unwrap_or s.clock 0
      → execute libs now client hash clock mutation s ≡ ok ((r, c), s')
      → Logged s s' c
  execute-Logged now client hash clock mutation s s' r c k h =
      let x = execute-Executed libs now client hash clock mutation s s' (r, c) h in
      let o = find_record mutation.key.kind mutation.key.id s.records in
      let (changes, clocked, records) =
        store_receipt_keeps now client mutation.mutation_id hash r x.decided_account s' x.stored in
      Logged-same s x.decided_account s' c changes clocked (
        decide-Logged now clock mutation x.base o mutation.action s x.decided_account r c k
          x.decided)

  -- An invalid mutation, and one that has a receipt, log nothing.
  apply_invalid :
      (now : ℕ) (client : Uuid) (hash : Text) (mutation : Mutation) (s s' : Account)
      (r a : MutationResult) (c : Option ℕ)
      → (store_receipt libs now client mutation.mutation_id hash a s >>= λ t. silent a t)
        ≡ ok ((r, c), s')
      → Logged s s' c
  unfolding store_receipt
  apply_invalid now client hash mutation s s' r a none h = ground arith
  apply_invalid now client hash mutation s s' r a (some c) h = ground arith

  apply_known :
      (now : ℕ) (client : Uuid) (hash : Text) (mutation : Mutation) (s s' : Account)
      (r : MutationResult) (c : Option ℕ) (receipt : Receipt)
      → (replayed libs hash mutation receipt >>= λ a. silent a s) ≡ ok ((r, c), s')
      → Logged s s' c
  apply_known now client hash mutation s s' r none receipt h = ground arith
  apply_known now client hash mutation s s' r (some c) receipt h = ground arith

  apply_new-Logged :
      (now : ℕ) (client : Uuid) (hash : Text) (mutation : Mutation) (s s' : Account)
      (r : MutationResult) (c : Option ℕ)
      → apply_new libs now client hash (unwrap_or s.clock 0) mutation s ≡ ok ((r, c), s')
      → Logged s s' c
  unfolding apply_new
  apply_new-Logged now client hash mutation s s' r c h =
      elim (Option-cases (validate_mutation mutation)) [
        | inl e ↦
            execute-Logged now client hash (unwrap_or s.clock 0) mutation s s' r c refl
              (ground arith)
        | inr (a, e) ↦ apply_invalid now client hash mutation s s' r a c (ground arith)
      ]

  apply_hashed-Logged :
      (now : ℕ) (client : Uuid) (hash : Text) (mutation : Mutation) (s s' : Account)
      (r : MutationResult) (c : Option ℕ)
      → apply_hashed libs now client hash mutation s ≡ ok ((r, c), s')
      → Logged (record s { clock = some (unwrap_or s.clock 0) }) s' c
  unfolding apply_hashed
  apply_hashed-Logged now client hash mutation s s' r c h =
      let s0 : Account = record s { clock = some (unwrap_or s.clock 0) } in
      elim (Option-cases (find_receipt client mutation.mutation_id s.receipts)) [
        | inl e ↦ apply_new-Logged now client hash mutation s0 s' r c (ground arith)
        | inr (receipt, e) ↦ apply_known now client hash mutation s0 s' r c receipt (ground arith)
      ]

-- If the changes are numbered without gaps from 1 up to the clock, a mutation that is answered
-- keeps them so; it logs one change, at the next cursor, which it returns, or nothing and returns
-- no cursor.
pub apply_mutation-IsLog :
    (libs : SyncLibs) (now : ℕ) (client : Uuid) (mutation : Mutation) (s s' : Account)
    (r : MutationResult) (c : Option ℕ)
    → IsLog s
    → apply_mutation libs now client mutation s ≡ ok ((r, c), s')
    → IsLog s'
      × ((c ≡ none) × (s'.changes ≡ s.changes)
          ⊎ (c ≡ some (length s.changes + 1)) × (length s'.changes ≡ length s.changes + 1))
unfolding apply_mutation
apply_mutation-IsLog libs now client mutation s s' r c l h =
    elim (Option-cases (libs.request_hash mutation)) [
      | inl e ↦ absurd (ground arith)
      | inr (hash, e) ↦
          let s0 : Account = record s { clock = some (unwrap_or s.clock 0) } in
          Logged-step s0 s' c
            (apply_hashed-Logged libs now client hash mutation s s' r c (ground arith))
            (record { clocked = l.clocked; numbered = l.numbered })
    ]
