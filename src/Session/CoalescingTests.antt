-- ===== src/Session/CoalescingTests.antt =====
-- Tasks of one process that refresh sessions
-- (canonical-web-server.rs/crates/canonical-session/src/lib.rs) on concrete locks.
use canonical_cloud.Base.{
  ℕ, ◌≤◌, ◌≡◌, ◌↔◌, refl, arith, [], ◌∷◌, some, text, text_eq, text_beq, nat_eq, count_by, lookup,
  insert, retain, length,
}
use canonical_cloud.Session.Coordinator.{
  max_refresh_coordinators, prune, upgrade, lock_or_insert, lock_for, Holders, Entries, holders_of,
}
use canonical_cloud.Session.Coalescing.{start, taken, coalesced}

-- Two tasks that refresh one session, and one that refreshes another.
abbrev three_tasks : Holders
three_tasks = (text "s", 7) ∷ (text "t", 8) ∷ (text "s", 7) ∷ []

abbrev two_locks : Entries
two_locks = (text "s", 7) ∷ (text "t", 8) ∷ []

abbrev first_lock : ℕ
first_lock = 7

coalesced_example :
    (text "s" ≡ text "t" ↔ first_lock ≡ 8)
    × (lock_for (holders_of three_tasks) 9 (text "s") two_locks
        ≡ (some 7, prune (holders_of three_tasks) two_locks))
    × (length two_locks ≤ max_refresh_coordinators)
unfolding lock_for prune lock_or_insert upgrade count_by lookup insert retain text_beq
coalesced_example =
    coalesced three_tasks two_locks (text "s") (text "t") first_lock 8 9
      (taken 9 7 (text "s") ((text "t", 8) ∷ (text "s", 7) ∷ []) two_locks two_locks
        (taken 8 8 (text "t") ((text "s", 7) ∷ []) ((text "s", 7) ∷ []) two_locks
          (taken 7 7 (text "s") [] [] ((text "s", 7) ∷ []) start refl refl) refl refl)
        refl refl)
      (omega arith) (omega arith)
