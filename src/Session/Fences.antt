-- ===== src/Session/Fences.antt =====
-- The fence of a refresh (canonical-web-server.rs/crates/canonical-session/src/lib.rs): what the holder
-- of a lease that is not on the row can still do.
use canonical_cloud.Base.{ℕ, ◌≡◌, ◌≢◌, Option, some, Text, Bool, false, ok, option_beq_ne}
use canonical_cloud.Auth.{Uuid, AuthTokens}
use canonical_cloud.Session.Model.{WebSession, RefreshClaim, Rows, find_by_id}
use canonical_cloud.Session.Rows.{on_row_found}
use canonical_cloud.Session.Refresh.{
  lost, store_refresh, store_refresh_row, finish_refresh_claim, finish_refresh_row,
}

-- A refresh claim whose lease is not the one on its session's row changes nothing, and reports so.
pub stale_refresh :
    (claim : RefreshClaim) (tokens : AuthTokens) (session_id : Option Uuid) (access refresh : Text)
    (revoke : Bool) (utc_now now : ℕ) (rows : Rows) (m : WebSession)
    → find_by_id claim.id_hash rows ≡ some m
    → m.refresh_lease_id ≢ some claim.lease_id
    → (store_refresh claim tokens session_id access refresh utc_now now rows ≡ (ok lost, rows))
      × (finish_refresh_claim claim revoke utc_now now rows ≡ (ok false, rows))
unfolding store_refresh finish_refresh_claim store_refresh_row finish_refresh_row
stale_refresh claim tokens session_id access refresh revoke utc_now now rows m e h =
    let p = option_beq_ne m.refresh_lease_id claim.lease_id h in
    (
      rw (on_row_found claim.id_hash _ _ rows m e) (rw p),
      rw (on_row_found claim.id_hash _ _ rows m e) (rw p),
    )
