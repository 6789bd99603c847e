-- ===== src/WebSocket/Capacity.antt =====
-- The capacity of an instance (`try_acquire_socket` and `SocketPermit` in
-- canonical-web-server.rs/src/ws/mod.rs) against the sockets that are open.
use canonical_cloud.Base.{
  ℕ, suc, ◌+◌, ◌-◌, ◌≤◌, ◌<◌, ◌≡◌, refl, List, [], ◌∷◌, ◌++◌, none, some, not, if◌then◌else◌, ◌==◌,
  nat_eq, lookup, insert, retain, unwrap_or, length, length-append, count_by, All, All-retain,
  IsMap, insert-IsMap, retain-IsMap, lookup-insert, arith, inl, inr, ◌↔◌, ◌⊎◌, Bool-cases,
  Option-cases,
}
use canonical_cloud.Auth.{Uuid}
use canonical_cloud.WebSocket.Hub.{
  ConnectionCounts, no_connections, sockets_of, try_acquire_socket, drop_permit, remove, put_count,
  max_sockets_per_instance, max_sockets_per_user,
}

-- The sockets that an owner has among the open ones.
abbrev pub owned_by : Uuid → List Uuid → ℕ
owned_by owner = count_by (λ o. o == owner)

-- The counts after acquiring and dropping permits, with the owners of the open sockets, the newest
-- first. A permit is dropped once, in any order.
pub data Opens : List Uuid → ConnectionCounts → Type 0 where
  start : Opens [] no_connections
  acquired :
      (owner permit : Uuid) (open_sockets : List Uuid) (c c' : ConnectionCounts)
      → Opens open_sockets c
      → try_acquire_socket owner c ≡ (some permit, c')
      → Opens (permit ∷ open_sockets) c'
  dropped :
      (owner : Uuid) (front back : List Uuid) (c : ConnectionCounts)
      → Opens (front ++ owner ∷ back) c
      → Opens (front ++ back) (drop_permit owner c)

-- The counts are those of the open sockets, within the bounds, and no entry is idle.
record Counted (open_sockets : List Uuid) (c : ConnectionCounts) : Type 0 where
  total : c.total ≡ length open_sockets
  bound : length open_sockets ≤ max_sockets_per_instance
  owners : (o : Uuid) → sockets_of o c ≡ owned_by o open_sockets
  owner_bound : (o : Uuid) → owned_by o open_sockets ≤ max_sockets_per_user
  table : IsMap c.by_owner
  busy : All (λ e. 0 < e.1) c.by_owner

insert-busy :
    (owner n : ℕ) (t : List (Uuid × ℕ))
    → 0 < n
    → All (λ e. 0 < e.1) t
    → All (λ e. 0 < e.1) (insert owner n t)
unfolding insert
insert-busy owner n [] h a = (h, tt)
insert-busy owner n ((o, k) ∷ t) h a = ground (arith, insert-busy owner n t h a.1)

owned_by-append :
    (o : Uuid) (front back : List Uuid)
    → owned_by o (front ++ back) ≡ owned_by o front + owned_by o back
unfolding count_by
owned_by-append o [] back = omega arith
owned_by-append o (x ∷ front) back = omega (arith, owned_by-append o front back)

sockets-insert :
    (owner o n total : ℕ) (c : ConnectionCounts)
    → sockets_of o (record { total = total; by_owner = insert owner n c.by_owner })
      ≡ (if owner == o then n else sockets_of o c)
unfolding sockets_of
sockets-insert owner o n total c = ground (arith, lookup-insert owner o n c.by_owner)

lookup-remove :
    (owner o : ℕ) (t : List (Uuid × ℕ))
    → lookup o (remove owner t) ≡ (if owner == o then none else lookup o t)
unfolding lookup remove retain
lookup-remove owner o [] = ground arith
lookup-remove owner o ((k, n) ∷ t) = ground (arith, lookup-remove owner o t)

lookup-put_count :
    (owner o n : ℕ) (t : List (Uuid × ℕ))
    → unwrap_or (lookup o (put_count owner n t)) 0
      ≡ (if owner == o then n else unwrap_or (lookup o t) 0)
unfolding put_count
lookup-put_count owner o n t = ground (arith, lookup-remove owner o t, lookup-insert owner o n t)

put_count-IsMap : (owner n : ℕ) (t : List (Uuid × ℕ)) → IsMap t → IsMap (put_count owner n t)
unfolding put_count remove
put_count-IsMap owner n t h =
    ground (arith, retain-IsMap (λ (e : Uuid × ℕ). not (e.0 == owner)) t, insert-IsMap owner n t)

put_count-busy :
    (owner n : ℕ) (t : List (Uuid × ℕ))
    → All (λ e. 0 < e.1) t
    → All (λ e. 0 < e.1) (put_count owner n t)
unfolding put_count remove
put_count-busy owner n t h = elim (Bool-cases (n == 0)) [
  | inl e ↦ rw e (All-retain (λ e. 0 < e.1) _ t h)
  | inr e ↦ rw e (insert-busy owner n t (ground arith) h)
]

acquire-Counted :
    (owner permit : Uuid) (open_sockets : List Uuid) (c c' : ConnectionCounts)
    → Counted open_sockets c
    → try_acquire_socket owner c ≡ (some permit, c')
    → Counted (permit ∷ open_sockets) c'
unfolding try_acquire_socket count_by
acquire-Counted owner permit open_sockets c c' h e = ground (
  arith,
  h.total,
  h.bound,
  h.owners,
  h.owner_bound,
  λ (o : ℕ). sockets-insert owner o (sockets_of owner c + 1) (c.total + 1) c,
  insert-IsMap owner (sockets_of owner c + 1) c.by_owner h.table,
  insert-busy owner (sockets_of owner c + 1) c.by_owner (omega arith) h.busy,
)

drop_permit-counted :
    (owner k : ℕ) (c : ConnectionCounts)
    → sockets_of owner c ≡ suc k
    → drop_permit owner c ≡ record { total = c.total - 1; by_owner = put_count owner k c.by_owner }
unfolding drop_permit sockets_of
drop_permit-counted owner k c h = elim (Option-cases (lookup owner c.by_owner)) [
  | inl e ↦ ground (arith, h, e)
  | inr (n, e) ↦ ground (arith, h, e)
]

sockets-put_count :
    (owner o k total : ℕ) (c : ConnectionCounts)
    → sockets_of o (record { total = total; by_owner = put_count owner k c.by_owner })
      ≡ (if owner == o then k else sockets_of o c)
unfolding sockets_of
sockets-put_count owner o k total c = lookup-put_count owner o k c.by_owner

module _ (owner : Uuid) (front back : List Uuid) where
  owned_by-drop :
      (o : Uuid)
      → owned_by o (front ++ owner ∷ back)
        ≡ (if owner == o then 1 else 0) + owned_by o (front ++ back)
  unfolding count_by
  owned_by-drop o =
      ground (arith, owned_by-append o front back, owned_by-append o front (owner ∷ back))

  length-drop : length (front ++ owner ∷ back) ≡ suc (length (front ++ back))
  length-drop = omega (arith, length-append front back, length-append front (owner ∷ back))

  drop-Counted :
      (c : ConnectionCounts)
      → Counted (front ++ owner ∷ back) c
      → Counted (front ++ back) (drop_permit owner c)
  drop-Counted c h =
      let k = owned_by owner (front ++ back) in
      rw (drop_permit-counted owner k c (ground (arith, h.owners owner, owned_by-drop owner)))
        record {
          total = omega (arith, h.total, length-drop);
          bound = omega (arith, h.bound, length-drop);
          owners = λ o.
              ground
                (arith, h.owners o, owned_by-drop o, sockets-put_count owner o k (c.total - 1) c);
          owner_bound = λ o. ground (arith, h.owner_bound o, owned_by-drop o);
          table = put_count-IsMap owner k c.by_owner h.table;
          busy = put_count-busy owner k c.by_owner h.busy;
        }

start-Counted : Counted [] no_connections
unfolding sockets_of lookup count_by
start-Counted = record {
  total = refl;
  bound = omega arith;
  owners = λ o. refl;
  owner_bound = λ o. omega arith;
  table = tt;
  busy = tt;
}

Opens-Counted :
    (open_sockets : List Uuid) (c : ConnectionCounts)
    → Opens open_sockets c
    → Counted open_sockets c
Opens-Counted open_sockets c start = start-Counted
Opens-Counted open_sockets c (acquired owner permit before d d' r e) =
    acquire-Counted owner permit before d d' (Opens-Counted before d r) e
Opens-Counted open_sockets c (dropped owner front back d r) =
    drop-Counted owner front back d (Opens-Counted (front ++ owner ∷ back) d r)

-- However sockets open and close, the counts are those of the sockets that are open: the instance
-- has at most 1024 of them, and each owner at most 4.
pub capacity :
    (open_sockets : List Uuid) (c : ConnectionCounts) (o : Uuid)
    → Opens open_sockets c
    → (c.total ≡ length open_sockets)
      × (length open_sockets ≤ 1024)
      × (sockets_of o c ≡ owned_by o open_sockets)
      × (owned_by o open_sockets ≤ 4)
capacity open_sockets c o r =
    let h = Opens-Counted open_sockets c r in (h.total, h.bound, h.owners o, h.owner_bound o)

-- Whatever sockets are open, `try_acquire_socket` refuses an owner, and then changes nothing,
-- exactly when the instance has 1024 of them or the owner has 4.
pub refused_at_capacity :
    (open_sockets : List Uuid) (c : ConnectionCounts) (owner : Uuid)
    → Opens open_sockets c
    → (try_acquire_socket owner c ≡ (none, c))
      ↔ ((length open_sockets ≡ 1024) ⊎ (owned_by owner open_sockets ≡ 4))
unfolding try_acquire_socket
refused_at_capacity open_sockets c owner r =
    let h = Opens-Counted open_sockets c r in
    ground (arith, h.total, h.bound, h.owners owner, h.owner_bound owner)

idle-empty :
    (t : List (Uuid × ℕ))
    → All (λ e. 0 < e.1) t
    → ((o : Uuid) → unwrap_or (lookup o t) 0 ≡ 0)
    → t ≡ []
unfolding lookup
idle-empty [] a h = refl
idle-empty ((o, n) ∷ t) a h = ground (arith, h o, a.0)

-- When the last socket has closed, the counts are those of a new instance: no entry is left behind.
pub closed-no_connections : (c : ConnectionCounts) → Opens [] c → c ≡ no_connections
unfolding sockets_of count_by
closed-no_connections c r =
    let h = Opens-Counted [] c r in
    let e : c.by_owner ≡ [] = idle-empty c.by_owner h.busy h.owners in cc (h.total, e)
