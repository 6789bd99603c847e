-- ===== src/Session/Coalescing.antt =====
-- The locks of `RefreshCoordinator` (canonical-web-server.rs/crates/canonical-session/src/lib.rs) against
-- the tasks that hold them.
use mathlib.Core.Option.{some-injective}
use canonical_cloud.Base.{
  ℕ, ◌≤◌, ◌<◌, ◌≡◌, [], ◌∷◌, ◌++◌, Text, text_eq, none, some, Bool, true, ◌&&◌, ltb, ◌==◌, nat_eq,
  and_then, lookup, insert, retain, length, length-insert, length-retain_le, count_by, IsMap,
  insert-IsMap, retain-IsMap, lookup-insert, lookup-retain-some, arith, inl, inr, ◌↔◌, Option-cases,
  subst,
}
use canonical_cloud.Session.Coordinator.{
  Entries, Holders, holders_of, max_refresh_coordinators, prune, upgrade, lock_or_insert, lock_for,
}

-- How many tasks hold this lock for this session.
abbrev pub held_by : Text → ℕ → Holders → ℕ
held_by id_hash lock = count_by (λ h. (h.0 == id_hash) && (h.1 == lock))

-- The table after tasks have asked for locks and let go of them in any order. A new lock is none that
-- a task holds.
pub data Run : Holders → Entries → Type 0 where
  start : Run [] []
  taken :
      (fresh lock : ℕ) (id_hash : Text) (holders : Holders) (entries entries' : Entries)
      → Run holders entries
      → holders_of holders fresh ≡ 0
      → lock_for (holders_of holders) fresh id_hash entries ≡ (some lock, entries')
      → Run ((id_hash, lock) ∷ holders) entries'
  refused :
      (fresh : ℕ) (id_hash : Text) (holders : Holders) (entries entries' : Entries)
      → Run holders entries
      → lock_for (holders_of holders) fresh id_hash entries ≡ (none, entries')
      → Run holders entries'
  pruned :
      (holders : Holders) (entries : Entries)
      → Run holders entries
      → Run holders (prune (holders_of holders) entries)
  dropped :
      (id_hash : Text) (lock : ℕ) (front back : Holders) (entries : Entries)
      → Run (front ++ (id_hash, lock) ∷ back) entries
      → Run (front ++ back) entries

-- The table has the lock of every holder, no lock twice, and stays within its bound.
record Shared (holders : Holders) (entries : Entries) : Type 0 where
  known : (i : Text) (l : ℕ) → 0 < held_by i l holders → lookup i entries ≡ some l
  apart : (i j : Text) (l : ℕ) → lookup i entries ≡ some l → lookup j entries ≡ some l → i ≡ j
  table : IsMap entries
  bound : length entries ≤ max_refresh_coordinators

held_by-le : (i : Text) (l : ℕ) (hs : Holders) → held_by i l hs ≤ holders_of hs l
unfolding count_by
held_by-le i l [] = omega arith
held_by-le i l (h ∷ hs) = ground (arith, held_by-le i l hs)

held_by-drop :
    (i id_hash : Text) (l lock : ℕ) (front back : Holders)
    → held_by i l (front ++ back) ≤ held_by i l (front ++ (id_hash, lock) ∷ back)
unfolding count_by
held_by-drop i id_hash l lock [] back = ground arith
held_by-drop i id_hash l lock (h ∷ front) back =
    ground (arith, held_by-drop i id_hash l lock front back)

-- What is found after a `retain` was there, and has passed its test.
retained :
    (j : Text) (p : Text × ℕ → Bool) (m : Entries) (v : ℕ)
    → IsMap m
    → lookup j (retain p m) ≡ some v
    → (lookup j m ≡ some v) × (p (j, v) ≡ true)
unfolding lookup retain
retained j p [] v t h = cc
retained j p ((i, w) ∷ m) v t h = ground (arith, text_eq.same_iff i j, retained j p m v t.1)

prune-Shared :
    (holders : Holders) (entries : Entries)
    → Shared holders entries
    → Shared holders (prune (holders_of holders) entries)
unfolding prune
prune-Shared holders entries s =
    let keep = λ (e : Text × ℕ). ltb 0 (holders_of holders e.1) in
    record {
      known = λ i l h.
          lookup-retain-some i keep entries (s.known i l h)
            (ground (arith, held_by-le i l holders));
      apart = λ i j l hi hj.
          s.apart i j l (retained i keep entries l s.table hi).0
            (retained j keep entries l s.table hj).0;
      table = retain-IsMap keep entries s.table;
      bound = omega (arith, length-retain_le keep entries, s.bound);
    }

-- The entries that `prune` keeps have holders.
pruned-alive :
    (holders : Holders) (entries : Entries) (i : Text) (l : ℕ)
    → Shared holders entries
    → lookup i (prune (holders_of holders) entries) ≡ some l
    → 0 < holders_of holders l
unfolding prune
pruned-alive holders entries i l s h =
    ground
      (arith, retained i (λ (e : Text × ℕ). ltb 0 (holders_of holders e.1)) entries l s.table h)

-- A session whose lock is held gets that lock.
lock_for-held :
    (fresh : ℕ) (id_hash : Text) (lock : ℕ) (holders : Holders) (entries : Entries)
    → Shared holders entries
    → 0 < held_by id_hash lock holders
    → lock_for (holders_of holders) fresh id_hash entries
      ≡ (some lock, prune (holders_of holders) entries)
unfolding lock_for lock_or_insert upgrade
lock_for-held fresh id_hash lock holders entries s h =
    ground (
      arith,
      (prune-Shared holders entries s).known id_hash lock h,
      held_by-le id_hash lock holders,
    )

-- A new lock in a table whose locks are all held.
insert-Shared :
    (fresh : ℕ) (id_hash : Text) (holders : Holders) (entries : Entries)
    → Shared holders entries
    → ((i : Text) (l : ℕ) → lookup i entries ≡ some l → 0 < holders_of holders l)
    → holders_of holders fresh ≡ 0
    → lookup id_hash entries ≡ none
    → length entries < max_refresh_coordinators
    → Shared ((id_hash, fresh) ∷ holders) (insert id_hash fresh entries)
unfolding count_by
insert-Shared fresh id_hash holders entries s alive new absent room = record {
  known = λ i l h. ground (
    arith,
    text_eq.same_iff id_hash i,
    lookup-insert id_hash i fresh entries,
    s.known i l,
    s.known id_hash l,
  );
  apart = λ i j l hi hj. ground (
    arith,
    text_eq.same_iff id_hash i,
    text_eq.same_iff id_hash j,
    lookup-insert id_hash i fresh entries,
    lookup-insert id_hash j fresh entries,
    s.apart i j l,
    alive i l,
    alive j l,
  );
  table = insert-IsMap id_hash fresh entries s.table;
  bound = ground (arith, length-insert id_hash fresh entries, s.bound);
}

-- One more holder of a lock of the table.
share-Shared :
    (id_hash : Text) (lock : ℕ) (holders : Holders) (entries : Entries)
    → Shared holders entries
    → lookup id_hash entries ≡ some lock
    → Shared ((id_hash, lock) ∷ holders) entries
unfolding count_by
share-Shared id_hash lock holders entries s h = record {
  known = λ i l k. ground (arith, text_eq.same_iff id_hash i, s.known i l);
  apart = s.apart;
  table = s.table;
  bound = s.bound;
}

-- The second step of `lock_for`, on a table whose locks are all held.
insert_or_share :
    (fresh lock : ℕ) (id_hash : Text) (holders : Holders) (entries entries' : Entries)
    → Shared holders entries
    → ((i : Text) (l : ℕ) → lookup i entries ≡ some l → 0 < holders_of holders l)
    → holders_of holders fresh ≡ 0
    → lock_or_insert
        (holders_of holders)
        fresh
        id_hash
        entries
        (and_then (lookup id_hash entries) (upgrade (holders_of holders)))
      ≡ (some lock, entries')
    → Shared ((id_hash, lock) ∷ holders) entries'
unfolding lock_or_insert upgrade
insert_or_share fresh lock id_hash holders entries entries' s alive new e =
    elim (Option-cases (lookup id_hash entries)) [
      | inl absent ↦
          ground (arith, absent, insert-Shared fresh id_hash holders entries s alive new absent)
      | inr (l, found) ↦
          ground
            (arith, found, alive id_hash l found, share-Shared id_hash l holders entries s found)
    ]

kept :
    (fresh : ℕ) (id_hash : Text) (holders : Holders) (entries entries' : Entries)
    → lock_for (holders_of holders) fresh id_hash entries ≡ (none, entries')
    → prune (holders_of holders) entries ≡ entries'
unfolding lock_for lock_or_insert upgrade
kept fresh id_hash holders entries entries' e = ground (arith, e)

Run-Shared : (holders : Holders) (entries : Entries) → Run holders entries → Shared holders entries
Run-Shared holders entries start =
    unfold count_by lookup in
    record {
      known = λ i l h. ground (arith, h);
      apart = λ i j l hi hj. cc;
      table = tt;
      bound = omega arith;
    }
Run-Shared holders entries (taken fresh lock id_hash hs es entries' r new e) =
    let s = Run-Shared hs es r in
    insert_or_share fresh lock id_hash hs (prune (holders_of hs) es) entries' (prune-Shared hs es s)
      (λ i l h. pruned-alive hs es i l s h) new (unfold lock_for in e)
Run-Shared holders entries (refused fresh id_hash hs es entries' r e) =
    subst (Shared hs) (kept fresh id_hash hs es entries' e)
      (prune-Shared hs es (Run-Shared hs es r))
Run-Shared holders entries (pruned hs es r) = prune-Shared hs es (Run-Shared hs es r)
Run-Shared holders entries (dropped id_hash lock front back es r) =
    let s = Run-Shared (front ++ (id_hash, lock) ∷ back) es r in
    record {
      known = λ i l h. s.known i l (omega (arith, h, held_by-drop i id_hash l lock front back));
      apart = s.apart;
      table = s.table;
      bound = s.bound;
    }

-- However tasks ask for locks, let go of them and prune the table: two tasks hold the same lock
-- exactly if they hold it for the same session; a task that asks for a session whose lock is held is
-- given that lock, however full the table is; and the table has at most 4096 entries.
pub coalesced :
    (holders : Holders) (entries : Entries) (i j : Text) (l k fresh : ℕ)
    → Run holders entries
    → 0 < held_by i l holders
    → 0 < held_by j k holders
    → (i ≡ j ↔ l ≡ k)
      × (lock_for (holders_of holders) fresh i entries
          ≡ (some l, prune (holders_of holders) entries))
      × (length entries ≤ max_refresh_coordinators)
coalesced holders entries i j l k fresh r hi hj =
    let s = Run-Shared holders entries r in
    let found = s.known i l hi in
    let found' = s.known j k hj in
    (
      (λ e. some-injective l k (cc (found, found', e)), λ e. s.apart i j l found (cc (found', e))),
      lock_for-held fresh i l holders entries s hi,
      s.bound,
    )
