-- ===== src/WebSocket/Backplane.antt =====
-- The hints that the instances send each other through PostgreSQL: `Hub::backplane_payload`,
-- `enqueue_postgres_invalidation`, `relay_backplane_payload` and the listener's reconnects in
-- canonical-web-server.rs/src/ws/mod.rs.
use canonical_cloud.Base.{
  ℕ, ◌*◌, min, List, [], ◌∷◌, Text, text, text_eq, Option, none, some, Bool, true, false, not, ◌||◌,
  if◌then◌else◌, Result, ok, err, ltb, leb, ◌==◌, nat_eq, ℤ, is_positive, utf8_len, ◌>>=◌,
}
use canonical_cloud.Auth.{Uuid, seconds}

abbrev pub backplane_version : ℕ
backplane_version = 1

abbrev pub max_backplane_payload_bytes : ℕ
max_backplane_payload_bytes = 512

abbrev pub postgres_invalidation_channel : Text
postgres_invalidation_channel = text "canonical_sync_invalidation_v1"

pub record Invalidation : Type 0 where
  pub owner_id : Uuid
  pub cursor : ℤ

pub record BackplaneInvalidation : Type 0 where
  pub version : ℕ
  pub source_instance : Uuid
  pub owner_id : Uuid
  pub cursor : ℤ

-- `serde_json` on a `BackplaneInvalidation`, and the database's `execute_raw` of `pg_notify` on a
-- channel and a payload.
pub record BackplaneLibs : Type 0 where
  pub to_string : BackplaneInvalidation → Option Text
  pub from_str : Text → Option BackplaneInvalidation
  pub notify : Text → Text → Result Text (Unit {0})

unfoldable pub is_nil : Uuid → Bool
is_nil id = id == 0

-- The checks on a serialized payload.
unfoldable pub bounded_payload : Option Text → Result Text Text
bounded_payload none = err (text "failed to serialize sync invalidation")
bounded_payload (some payload) =
    if ltb max_backplane_payload_bytes (utf8_len payload)
    then err (text "internal sync invalidation exceeded its size limit")
    else ok payload

-- The tests of `relay_backplane_payload` on a message that it could read.
unfoldable pub is_invalid : BackplaneInvalidation → Bool
is_invalid message =
    not (message.version == backplane_version)
    || is_nil message.source_instance
    || is_nil message.owner_id
    || not (is_positive message.cursor)

-- What a message makes an instance tell its own sockets.
unfoldable pub relay_message : Uuid → Option BackplaneInvalidation → Bool × List Invalidation
relay_message instance_id none = (false, [])
relay_message instance_id (some message) =
    if is_invalid message
    then (false, [])
    else if message.source_instance == instance_id
    then (false, [])
    else (true, record { owner_id = message.owner_id; cursor = message.cursor } ∷ [])

module _ (libs : BackplaneLibs) where
  unfoldable pub backplane_payload : Uuid → Uuid → ℤ → Result Text Text
  backplane_payload instance_id owner_id cursor =
      if is_nil owner_id || not (is_positive cursor)
      then err (text "invalid internal sync invalidation")
      else bounded_payload (
          libs.to_string record {
            version = backplane_version;
            source_instance = instance_id;
            owner_id = owner_id;
            cursor = cursor;
          })

  -- `is_postgres` is the test of the backend.
  unfoldable pub enqueue_postgres_invalidation : Bool → Uuid → Uuid → ℤ → Result Text (Unit {0})
  enqueue_postgres_invalidation is_postgres instance_id owner_id cursor =
      if not is_postgres
      then ok tt
      else backplane_payload instance_id owner_id cursor >>= λ payload.
          libs.notify postgres_invalidation_channel payload

  -- Whether the payload is passed on, and what it tells the sockets.
  unfoldable pub relay_backplane_payload : Uuid → Text → Bool × List Invalidation
  relay_backplane_payload instance_id payload =
      if ltb max_backplane_payload_bytes (utf8_len payload)
      then (false, [])
      else relay_message instance_id (libs.from_str payload)

  -- One notification that `listen_once` receives.
  unfoldable pub on_notification : Uuid → Text × Text → List Invalidation
  on_notification instance_id (channel, payload) =
      if channel == postgres_invalidation_channel
      then (relay_backplane_payload instance_id payload).1
      else []

abbrev pub min_reconnect_delay : ℕ
min_reconnect_delay = seconds 1

abbrev pub max_reconnect_delay : ℕ
max_reconnect_delay = seconds 30

abbrev pub stable_listener_window : ℕ
stable_listener_window = seconds 60

-- The delay that the loop of `run_postgres_backplane` sleeps after a listener that lasted `elapsed`.
unfoldable pub reconnect_after : ℕ → ℕ → ℕ
reconnect_after elapsed reconnect_delay =
    if leb stable_listener_window elapsed then min_reconnect_delay else reconnect_delay

-- `saturating_mul(2).min(MAX_RECONNECT_DELAY)`: no delay here is near the greatest `Duration`.
unfoldable pub next_reconnect_delay : ℕ → ℕ
next_reconnect_delay delay = min (delay * 2) max_reconnect_delay

-- The sleeps of the loop, for listeners that lasted so long each. `listen_once` returns only errors.
unfoldable pub run_postgres_backplane : ℕ → List ℕ → List ℕ
run_postgres_backplane reconnect_delay [] = []
run_postgres_backplane reconnect_delay (elapsed ∷ rest) =
    let delay = reconnect_after elapsed reconnect_delay in
    delay ∷ run_postgres_backplane (next_reconnect_delay delay) rest
