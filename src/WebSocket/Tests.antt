-- ===== src/WebSocket/Tests.antt =====
-- The sockets of canonical-web-server.rs/src/ws/mod.rs on concrete owners, payloads and turns.
use mathlib.Core.Option.{some-injective}
use canonical_cloud.Base.{
  negsuc, text_beq, ℕ, ◌≡◌, ◌≤◌, ◌⊎◌, ◌↔◌, refl, arith, List, [], ◌∷◌, Text, text, text_eq, Option,
  none, some, true, false, ok, err, nat_eq, ◌==◌, if◌then◌else◌, ℤ, pos, length, utf8_len, insert,
  lookup,
}
use canonical_cloud.Auth.{AuthContext, session_cookie, seconds}
use canonical_cloud.Session.World.{Event, World}
use canonical_cloud.Session.Refreshing.{leader}
use canonical_cloud.Session.Tests.{all_drawn, service, world, revoked_session}
use canonical_cloud.Session.Model.{find_by_id}
use canonical_cloud.Session.Reach.{next, here, claims}
use canonical_cloud.WebSocket.Hub.{
  no_connections, sockets_of, try_acquire_socket, drop_permit, ConnectionCounts,
}
use canonical_cloud.WebSocket.Capacity.{
  Opens, start, acquired, dropped, capacity, refused_at_capacity, closed-no_connections, owned_by,
}
use canonical_cloud.WebSocket.Backplane.{
  BackplaneInvalidation, BackplaneLibs, backplane_payload, relay_backplane_payload,
  run_postgres_backplane, reconnect_after, next_reconnect_delay, bounded_payload, is_nil,
}
use canonical_cloud.WebSocket.Relay.{told, silent, relay-payload, relay_iff, FromPeer}
use canonical_cloud.WebSocket.Serve.{
  Turn, Selected, incoming, invalidations, heartbeat, pong, lagged, PendingPong, PongTracker,
  handle, closing, on_heartbeat,
}
use canonical_cloud.WebSocket.Challenge.{Kept, unanswered-Kept}
use canonical_cloud.WebSocket.Expiry.{on_heartbeat-revoked}

abbrev two_owners : List ℕ
two_owners = 7 ∷ 7 ∷ []

-- Two sockets of owner 7, of which the first closes.
abbrev two_sockets : ConnectionCounts
two_sockets = record { total = 2; by_owner = (7, 2) ∷ [] }

two-Opens : Opens two_owners two_sockets
unfolding try_acquire_socket sockets_of lookup insert
two-Opens = acquired 7 7 (7 ∷ []) _ two_sockets (acquired 7 7 [] no_connections _ start refl) refl

capacity_example :
    (two_sockets.total ≡ 2)
    × (length two_owners ≤ 1024)
    × (sockets_of 7 two_sockets ≡ owned_by 7 two_owners)
    × (owned_by 7 two_owners ≤ 4)
capacity_example = capacity two_owners two_sockets 7 two-Opens

refused_at_capacity_example :
    (try_acquire_socket 7 two_sockets ≡ (none, two_sockets))
    ↔ ((length two_owners ≡ 1024) ⊎ (owned_by 7 two_owners ≡ 4))
refused_at_capacity_example = refused_at_capacity two_owners two_sockets 7 two-Opens

all_closed-no_connections : drop_permit 7 (drop_permit 7 two_sockets) ≡ no_connections
all_closed-no_connections =
    closed-no_connections (drop_permit 7 (drop_permit 7 two_sockets))
      (dropped 7 [] [] (drop_permit 7 two_sockets) (dropped 7 [] (7 ∷ []) two_sockets two-Opens))

-- A codec that writes four numbers.
abbrev read_numbers : Text → Option BackplaneInvalidation
read_numbers (v ∷ s ∷ o ∷ c ∷ []) =
    some record { version = v; source_instance = s; owner_id = o; cursor = pos c }
read_numbers _ = none

abbrev write_four : ℕ → ℕ → ℕ → ℤ → Option Text
write_four v s o (pos c) = some (v ∷ s ∷ o ∷ c ∷ [])
write_four v s o _ = none

abbrev codec : BackplaneLibs
codec = record {
  to_string = λ m. write_four m.version m.source_instance m.owner_id m.cursor;
  from_str = read_numbers;
  notify = λ channel payload. ok tt;
}

read-write :
    (v s o : ℕ) (c : ℤ) (payload : Text)
    → write_four v s o c ≡ some payload
    → read_numbers payload
      ≡ some record { version = v; source_instance = s; owner_id = o; cursor = c }
read-write v s o (pos c) payload h = rw⁻¹ (some-injective _ _ h) refl
read-write v s o (negsuc c) payload h = cc h

abbrev sender : ℕ
sender = 3

relay-payload_example :
    relay_backplane_payload codec 2 (1 ∷ 3 ∷ 7 ∷ 41 ∷ [])
    ≡ (if sender == 2 then silent else told 7 (pos 41))
unfolding is_nil bounded_payload utf8_len backplane_payload
relay-payload_example =
    relay-payload codec sender 2 7 (pos 41) (1 ∷ 3 ∷ 7 ∷ 41 ∷ [])
      (λ m payload h. read-write m.version m.source_instance m.owner_id m.cursor payload h)
      (λ e. omega arith) refl

relay_iff_example : ((relay_backplane_payload codec 2 (1 ∷ 3 ∷ 7 ∷ 41 ∷ [])).0 ≡ true) ↔ (
    (utf8_len (1 ∷ 3 ∷ 7 ∷ 41 ∷ []) ≤ 512)
    × ((message : BackplaneInvalidation) × (read_numbers (1 ∷ 3 ∷ 7 ∷ 41 ∷ []) ≡ some message)
        × FromPeer 2 message))
relay_iff_example = relay_iff codec 2 (1 ∷ 3 ∷ 7 ∷ 41 ∷ [])

-- Five short listeners, one that lasted 90 seconds, and a short one.
abbrev lifetimes : List ℕ
lifetimes = seconds 1 ∷ seconds 2 ∷ 0 ∷ 0 ∷ 0 ∷ 0 ∷ seconds 90 ∷ 0 ∷ []

abbrev delays : List ℕ
delays =
    seconds 1
    ∷ seconds 2
    ∷ seconds 4
    ∷ seconds 8
    ∷ seconds 16
    ∷ seconds 30
    ∷ seconds 1
    ∷ seconds 2
    ∷ []

lifetimes-delays : run_postgres_backplane (seconds 1) lifetimes ≡ delays
unfolding run_postgres_backplane reconnect_after next_reconnect_delay
lifetimes-delays = refl

-- The owner of the session, over a socket of it.
abbrev pub actor : AuthContext
actor = record {
  user_id = 1;
  email = text "a@b.c";
  source = session_cookie;
  supabase_session_id = some 5;
  session_hash = some (text "s");
  csrf_token = some (text "csrf");
  expires_at = seconds 1000;
}

abbrev calm : Event
calm = record { fails = false; utc_elapsed = seconds 1; db_elapsed = seconds 1; others = λ a. a }

abbrev turn_of : Selected → Turn
turn_of selected = record {
  meanwhile = calm;
  instant = seconds 1;
  selected = selected;
  written = true;
}

abbrev invalidation_of : ℕ → ℕ → Selected
invalidation_of owner cursor = invalidations (ok record { owner_id = owner; cursor = pos cursor })

abbrev turns : List Turn
turns =
    turn_of (invalidation_of 2 40)
    ∷ turn_of (invalidation_of 1 41)
    ∷ turn_of (heartbeat leader (text "nonce"))
    ∷ turn_of (incoming (some (ok (pong (text "nonce")))))
    ∷ turn_of (invalidations (err lagged))
    ∷ turn_of (invalidation_of 1 42)
    ∷ []

abbrev nonce_pending : PendingPong
nonce_pending = record { payload = text "nonce"; deadline = seconds 11 }

abbrev waiting : PongTracker
waiting = record { pending = some nonce_pending }

unanswered-Kept_example :
    Kept nonce_pending
      (heartbeat leader (text "other"))
      (handle service actor
        (seconds 10)
        (heartbeat leader (text "other"))
        true
        (seconds 2)
        waiting
        world).0.1
unanswered-Kept_example =
    unanswered-Kept service actor (seconds 10) nonce_pending (heartbeat leader (text "other")) true
      (seconds 2) waiting world refl

abbrev revoked_world : World
revoked_world = record world { rows = revoked_session ∷ [] }

on_heartbeat-revoked_example :
    (on_heartbeat service actor
      (seconds 10)
      leader
      true
      (seconds 2)
      (text "nonce")
      waiting
      revoked_world).0
    ≡ closing (text "session expired")
unfolding text_beq find_by_id
on_heartbeat-revoked_example =
    on_heartbeat-revoked service all_drawn actor (text "s") revoked_session (seconds 10) leader true
      (seconds 2) (text "nonce") waiting revoked_world refl
      (λ a. next here (claims (text "s") 7 (seconds 50) (seconds 50) a), tt) refl
      (record { unique = (refl, tt); valid = (ground arith, tt) }) refl refl
