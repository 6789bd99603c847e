-- ===== src/Session/Reconcile.antt =====
-- The transaction of `reconcile_revocations` in
-- canonical-web-server.rs/crates/canonical-session/src/lib.rs: queue expired sessions, pick the
-- logouts that are due, and prune what is settled. `ORDER BY … LIMIT n` is a stable sort and a
-- prefix. A column that is NULL passes no comparison.
use canonical_cloud.Base.{
  ℕ, ◌+◌, Option, none, some, List, [], ◌∷◌, map, Text, Bool, not, ◌&&◌, if◌then◌else◌, Result, ok,
  err, ◌||◌, ◌>>=◌, ltb, leb, is_some, is_none, is_some_and, unwrap_or, take, retain, count_by,
}
use canonical_cloud.Session.Model.{WebSession, SessionError, database, Rows, find_by_id, update}
use canonical_cloud.Session.Policy.{revocation_batch_size, revocation_retention}
use canonical_cloud.Session.Refresh.{marked}

-- Insertion behind the rows with a key that is not greater.
unfoldable pub insert_by : (WebSession → ℕ) → WebSession → Rows → Rows
insert_by key m [] = m ∷ []
insert_by key m (r ∷ rows) = if ltb (key m) (key r) then m ∷ r ∷ rows else r ∷ insert_by key m rows

-- `order_by_asc`
unfoldable pub order_by_asc : (WebSession → ℕ) → Rows → Rows
order_by_asc key [] = []
order_by_asc key (m ∷ rows) = insert_by key m (order_by_asc key rows)

unfoldable pub is_expired : ℕ → WebSession → Bool
is_expired now m = is_none m.revoked_at && leb m.expires_at now

unfoldable pub is_due : ℕ → WebSession → Bool
is_due now m =
    is_some m.revocation_pending_at
    && is_none m.upstream_revoked_at
    && is_none m.revocation_abandoned_at
    && is_some_and m.revocation_next_attempt_at (λ t. leb t now)

-- `instant <= now - REVOCATION_RETENTION`
unfoldable pub past_retention : ℕ → Option ℕ → Bool
past_retention now instant = is_some_and instant (λ t. leb (t + revocation_retention) now)

unfoldable pub is_confirmed_prunable : ℕ → WebSession → Bool
is_confirmed_prunable now m =
    past_retention now m.upstream_revoked_at && leb m.access_expires_at now

unfoldable pub is_abandoned_prunable : ℕ → WebSession → Bool
is_abandoned_prunable now m =
    past_retention now m.revocation_abandoned_at && leb m.access_expires_at now

-- The columns that `mark_revocation` writes, computed on the row as it was selected, in the row as it
-- is now: the selection takes no lock, and the `UPDATE` names only these columns.
unfoldable pub overwritten : ℕ → WebSession → WebSession → WebSession
overwritten now selected m =
    let values = marked now selected in
    record m {
      revoked_at = values.revoked_at;
      revocation_pending_at = values.revocation_pending_at;
      revocation_next_attempt_at = values.revocation_next_attempt_at;
      refresh_lease_id = values.refresh_lease_id;
      refresh_lease_expires_at = values.refresh_lease_expires_at;
      updated_at = values.updated_at;
    }

-- An `UPDATE` that finds no row is an error.
unfoldable pub update_found : ℕ → WebSession → Rows → Option WebSession → Result SessionError Rows
update_found now selected rows none = err database
update_found now selected rows (some m) = ok (update (overwritten now selected m) rows)

-- `mark_revocation` of a row that was selected before.
unfoldable pub mark_selected : ℕ → WebSession → Rows → Result SessionError Rows
mark_selected now selected rows =
    if is_some selected.upstream_revoked_at || is_some selected.revocation_abandoned_at
    then ok rows
    else update_found now selected rows (find_by_id selected.id_hash rows)

-- The loop `for session in expired { mark_revocation(…) }`.
unfoldable pub mark_all : ℕ → Rows → Rows → Result SessionError Rows
mark_all now [] rows = ok rows
mark_all now (selected ∷ expired) rows = mark_selected now selected rows >>= mark_all now expired

unfoldable pub due_ids : ℕ → Rows → List Text
due_ids now rows =
    map (λ m. m.id_hash)
      (take revocation_batch_size
        (order_by_asc (λ m. unwrap_or m.revocation_next_attempt_at 0) (retain (is_due now) rows)))

unfoldable pub expired_batch : ℕ → Rows → Rows
expired_batch now rows =
    take revocation_batch_size (order_by_asc (λ m. m.expires_at) (retain (is_expired now) rows))

-- The two `delete_many`, and the number of rows that they deleted.
unfoldable pub prune : ℕ → Rows → ℕ × Rows
prune now rows =
    let kept = retain (λ m. not (is_confirmed_prunable now m)) rows in
    (
      count_by (is_confirmed_prunable now) rows + count_by (is_abandoned_prunable now) kept,
      retain (λ m. not (is_abandoned_prunable now m)) kept,
    )

-- The first statement: when the transaction began, and the expired rows that it finds.
unfoldable pub select_expired : ℕ → ℕ → Rows → Result SessionError (ℕ × Rows) × Rows
select_expired utc_now now rows = (ok (now, expired_batch now rows), rows)

-- An error rolls back.
unfoldable pub settle :
    ℕ → Rows → Result SessionError Rows → Result SessionError (List Text × ℕ) × Rows
settle started rows (err e) = (err e, rows)
settle started rows (ok marked) =
    let (pruned, rows') = prune started marked in (ok (due_ids started marked, pruned), rows')

-- The rest of the transaction, on the table that it commits to: the rows that it writes stay locked up
-- to the commit. The identifiers to attempt, the number pruned, and the table behind it.
unfoldable pub reconcile : ℕ → Rows → ℕ → ℕ → Rows → Result SessionError (List Text × ℕ) × Rows
reconcile started expired utc_now now rows = settle started rows (mark_all started expired rows)
