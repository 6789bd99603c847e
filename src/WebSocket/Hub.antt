-- ===== src/WebSocket/Hub.antt =====
-- `Hub` in canonical-web-server.rs/src/ws/mod.rs: the counts of open sockets and the permits, and the
-- invalidations that go to and come from the other instances.
use canonical_cloud.Base.{
  ℕ, ◌+◌, ◌-◌, List, [], Option, none, some, not, ◌||◌, if◌then◌else◌, leb, ◌==◌, nat_eq, lookup,
  insert, retain, unwrap_or,
}
use canonical_cloud.Auth.{Uuid}

abbrev pub max_sockets_per_user : ℕ
max_sockets_per_user = 4

abbrev pub max_sockets_per_instance : ℕ
max_sockets_per_instance = 1024

pub record ConnectionCounts : Type 0 where
  pub total : ℕ
  pub by_owner : List (Uuid × ℕ)

abbrev pub no_connections : ConnectionCounts
no_connections = record { total = 0; by_owner = [] }

unfoldable pub sockets_of : Uuid → ConnectionCounts → ℕ
sockets_of owner_id counts = unwrap_or (lookup owner_id counts.by_owner) 0

-- `try_acquire_socket`: a permit is known by the owner it was given for.
unfoldable pub try_acquire_socket : Uuid → ConnectionCounts → Option Uuid × ConnectionCounts
try_acquire_socket owner_id counts =
    let owner_count = sockets_of owner_id counts in
    if leb max_sockets_per_instance counts.total || leb max_sockets_per_user owner_count
    then (none, counts)
    else (
      some owner_id,
      record {
        total = counts.total + 1;
        by_owner = insert owner_id (owner_count + 1) counts.by_owner;
      },
    )

-- `HashMap::remove`
unfoldable pub remove : Uuid → List (Uuid × ℕ) → List (Uuid × ℕ)
remove owner_id = retain (λ e. not (e.0 == owner_id))

-- An owner's entry after `get_mut`: written back, or removed at 0.
unfoldable pub put_count : Uuid → ℕ → List (Uuid × ℕ) → List (Uuid × ℕ)
put_count owner_id n table = if n == 0 then remove owner_id table else insert owner_id n table

-- `SocketPermit::drop`; `saturating_sub` is the subtraction on ℕ.
unfoldable pub drop_permit : Uuid → ConnectionCounts → ConnectionCounts
drop_permit owner_id counts = record {
  total = counts.total - 1;
  by_owner = elim (lookup owner_id counts.by_owner) [
    | none ↦ counts.by_owner
    | some owner_count ↦ put_count owner_id (owner_count - 1) counts.by_owner
  ];
}
