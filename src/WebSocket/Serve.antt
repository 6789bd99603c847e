-- ===== src/WebSocket/Serve.antt =====
-- One socket of canonical-web-server.rs/src/ws/mod.rs: `PongTracker`, and the loop of
-- `serve_with_heartbeat_timing` over what its `select!` picks.
use canonical_cloud.Base.{
  ℕ, suc, ◌+◌, ◌/◌, List, [], ◌∷◌, ◌++◌, Text, text, text_eq, Option, none, some, Bool, true, false,
  if◌then◌else◌, Result, ok, err, leb, ◌==◌, nat_eq, is_some, is_some_and, ℤ, pos, negsuc, contains,
}
use canonical_cloud.Auth.{AuthContext, seconds}
use canonical_cloud.Session.Model.{SessionError}
use canonical_cloud.Session.World.{Event, World, Service, after}
use canonical_cloud.Session.Refreshing.{Role, revalidate}
use canonical_cloud.Sync.Versions.{to_string}
use canonical_cloud.WebSocket.Backplane.{Invalidation}

abbrev pub heartbeat_interval : ℕ
heartbeat_interval = seconds 25

abbrev pub pong_timeout : ℕ
pong_timeout = seconds 10

-- `i64::to_string`; 45 is the sign.
unfoldable pub hint_of : ℤ → Text
hint_of (pos n) = to_string n
hint_of (negsuc n) = 45 ∷ to_string (suc n)

-- A message from the browser. The payloads are bytes.
pub data Message : Type 0 where
  ping pong : List ℕ → Message
  text_of : Text → Message
  binary close : Message

pub data ServerMessage : Type 0 where
  hello : ℕ → ℕ → ServerMessage
  sync_invalidated : Text → ServerMessage
  resync_required : ServerMessage
  pong_message : ServerMessage

-- A frame to the browser.
pub data Frame : Type 0 where
  json : ServerMessage → Frame
  ping_frame pong_frame : List ℕ → Frame
  policy_close : Text → Frame

pub record PendingPong : Type 0 where
  pub payload : List ℕ
  pub deadline : ℕ

pub record PongTracker : Type 0 where
  pub pending : Option PendingPong

abbrev pub no_challenge : PongTracker
no_challenge = record { pending = none }

unfoldable pub expect : List ℕ → ℕ → ℕ → PongTracker → PongTracker
expect payload now timeout tracker = record {
  pending = some record { payload = payload; deadline = now + timeout };
}

unfoldable pub acknowledge : List ℕ → PongTracker → Bool × PongTracker
acknowledge payload tracker =
    if is_some_and tracker.pending (λ p. p.payload == payload)
    then (true, no_challenge)
    else (false, tracker)

unfoldable pub deadline : PongTracker → Option ℕ
deadline tracker = elim tracker.pending [ none ↦ none | some p ↦ some p.deadline ]

unfoldable pub is_waiting : PongTracker → Bool
is_waiting tracker = is_some tracker.pending

-- `pong_deadline_wait`: whether it has ended at an instant.
unfoldable pub deadline_passed : PongTracker → ℕ → Bool
deadline_passed tracker instant = is_some_and (deadline tracker) (λ d. leb d instant)

-- `RecvError` of the broadcast channel.
pub data RecvError : Type 0 where
  lagged closed : RecvError

-- The branch that `select!` picks. A tick carries what it draws, and the part that the session's
-- coordinator gives a refresh.
pub data Selected : Type 0 where
  incoming : Option (Result (Unit {0}) Message) → Selected
  invalidations : Result RecvError Invalidation → Selected
  pong_deadline : Selected
  heartbeat : Role → List ℕ → Selected

-- One turn of the loop: what happens to the world before it, the instant, the branch, and whether
-- the browser takes a frame within the write timeout.
pub record Turn : Type 0 where
  pub meanwhile : Event
  pub instant : ℕ
  pub selected : Selected
  pub written : Bool

-- What a turn sends, and the tracker it goes on with; `none` is a `break`.
abbrev pub Outcome : Type 0
Outcome = List Frame × Option PongTracker

abbrev pub quiet : PongTracker → Outcome
quiet tracker = ([], some tracker)

abbrev pub leave : Outcome
leave = ([], none)

abbrev pub closing : Text → Outcome
closing reason = (policy_close reason ∷ [], none)

-- `if send(…).await.is_err() { break; }`
unfoldable pub send : Bool → Frame → PongTracker → Outcome
send written frame tracker = (frame ∷ [], if written then some tracker else none)

unfoldable pub on_message : Bool → Message → PongTracker → Outcome
on_message written (ping payload) tracker = send written (pong_frame payload) tracker
on_message written (text_of s) tracker =
    if contains (text "\"type\":\"ping\"") s
    then send written (json pong_message) tracker
    else quiet tracker
on_message written (pong payload) tracker = quiet (acknowledge payload tracker).1
on_message written close tracker = leave
on_message written binary tracker = quiet tracker

unfoldable pub on_incoming : Bool → Option (Result (Unit {0}) Message) → PongTracker → Outcome
on_incoming written none tracker = leave
on_incoming written (some (err e)) tracker = leave
on_incoming written (some (ok message)) tracker = on_message written message tracker

unfoldable pub on_invalidation :
    AuthContext → Bool → Result RecvError Invalidation → PongTracker → Outcome
on_invalidation actor written (ok event) tracker =
    if event.owner_id == actor.user_id
    then send written (json (sync_invalidated (hint_of event.cursor))) tracker
    else quiet tracker
on_invalidation actor written (err lagged) tracker = send written (json resync_required) tracker
on_invalidation actor written (err closed) tracker = leave

-- The branch of the deadline is picked only once the deadline has passed.
unfoldable pub on_deadline : ℕ → PongTracker → Outcome
on_deadline instant tracker =
    if deadline_passed tracker instant then closing (text "heartbeat timeout") else quiet tracker

-- The rest of a tick, once the session has been checked.
unfoldable pub challenge : ℕ → Bool → ℕ → List ℕ → PongTracker → Outcome
challenge timeout written instant payload tracker =
    if is_waiting tracker
    then quiet tracker
    else send written (ping_frame payload) (expect payload instant timeout tracker)

unfoldable pub on_revalidated :
    ℕ → Bool → ℕ → List ℕ → PongTracker → Result SessionError (Unit {0}) → Outcome
on_revalidated timeout written instant payload tracker (ok _) =
    challenge timeout written instant payload tracker
on_revalidated timeout written instant payload tracker (err e) = closing (text "session expired")

-- The turns after one, unless it was a `break`.
unfoldable pub go_on :
    Outcome × World → (PongTracker → World → List Frame × World) → List Frame × World
go_on ((frames, none), w) again = (frames, w)
go_on ((frames, some tracker), w) again = let (more, w') = again tracker w in (frames ++ more, w')

module _ (service : Service) (actor : AuthContext) (timeout : ℕ) where
  unfoldable pub on_heartbeat : Role → Bool → ℕ → List ℕ → PongTracker → World → Outcome × World
  on_heartbeat role written instant payload tracker w =
      if leb actor.expires_at w.utc_now
      then (closing (text "session expired"), w)
      else let (r, w') = revalidate service role actor w in
        (on_revalidated timeout written instant payload tracker r, w')

  unfoldable pub handle : Selected → Bool → ℕ → PongTracker → World → Outcome × World
  handle (incoming message) written instant tracker w = (on_incoming written message tracker, w)
  handle (invalidations event) written instant tracker w =
      (on_invalidation actor written event tracker, w)
  handle pong_deadline written instant tracker w = (on_deadline instant tracker, w)
  handle (heartbeat role payload) written instant tracker w =
      on_heartbeat role written instant payload tracker w

  unfoldable pub take_turn : Turn → PongTracker → World → Outcome × World
  take_turn turn tracker w =
      handle turn.selected turn.written turn.instant tracker (after (turn.meanwhile ∷ w.events) w)

  -- The `loop`, for the turns to come.
  unfoldable pub serve_loop : List Turn → PongTracker → World → List Frame × World
  serve_loop [] tracker w = ([], w)
  serve_loop (turn ∷ turns) tracker w = go_on (take_turn turn tracker w) (serve_loop turns)

  -- `serve_with_heartbeat_timing`; `greeted` is whether the browser takes the greeting.
  unfoldable pub serve_with_heartbeat_timing : ℕ → Bool → List Turn → World → List Frame × World
  serve_with_heartbeat_timing interval greeted turns w =
      let (frames, w') = serve_loop turns no_challenge w in
      if greeted
      then (json (hello 1 (interval / 1000000000)) ∷ frames, w')
      else (json (hello 1 (interval / 1000000000)) ∷ [], w)

-- `serve`
unfoldable pub serve : Service → AuthContext → Bool → List Turn → World → List Frame × World
serve service actor = serve_with_heartbeat_timing service actor pong_timeout heartbeat_interval
