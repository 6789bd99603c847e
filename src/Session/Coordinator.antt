-- ===== src/Session/Coordinator.antt =====
-- `RefreshCoordinator` in canonical-web-server.rs/crates/canonical-session/src/lib.rs: the locks by
-- which the tasks of one process refresh a session one after another.
use canonical_cloud.Base.{
  ℕ, List, Text, text_eq, Option, none, some, if◌then◌else◌, ltb, leb, ◌==◌, nat_eq, and_then,
  lookup, insert, retain, length, count_by,
}

abbrev pub max_refresh_coordinators : ℕ
max_refresh_coordinators = 4096

-- The locks by session. A lock is known by a number, and the table holds it weakly: `strong_count`
-- says how many tasks hold it.
abbrev pub Entries : Type 0
Entries = List (Text × ℕ)

module _ (strong_count : ℕ → ℕ) where
  -- `prune`: only the locks that a task holds are kept.
  unfoldable pub prune : Entries → Entries
  prune = retain (λ e. ltb 0 (strong_count e.1))

  -- `Weak::upgrade`
  unfoldable pub upgrade : ℕ → Option ℕ
  upgrade lock = if ltb 0 (strong_count lock) then some lock else none

  -- The lock of the session among the locks that are held, or else the new lock `fresh`.
  unfoldable pub lock_or_insert : ℕ → Text → Entries → Option ℕ → Option ℕ × Entries
  lock_or_insert fresh id_hash entries (some lock) = (some lock, entries)
  lock_or_insert fresh id_hash entries none =
      if leb max_refresh_coordinators (length entries)
      then (none, entries)
      else (some fresh, insert id_hash fresh entries)

  unfoldable pub lock_for : ℕ → Text → Entries → Option ℕ × Entries
  lock_for fresh id_hash entries =
      lock_or_insert fresh id_hash (prune entries)
        (and_then (lookup id_hash (prune entries)) upgrade)

-- The tasks that hold a lock, each with its session and its lock.
abbrev pub Holders : Type 0
Holders = List (Text × ℕ)

abbrev pub holders_of : Holders → ℕ → ℕ
holders_of holders lock = count_by (λ h. h.1 == lock) holders
