-- ===== src/WebSocket/Ending.antt =====
-- The end of a socket in canonical-web-server.rs/src/ws/mod.rs: a close frame is the last one.
use canonical_cloud.Base.{
  ℕ, ◌≡◌, refl, List, [], ◌∷◌, ◌++◌, text, text_eq, none, some, Bool, true, false, Result, ok, err,
  leb, ◌==◌, nat_eq, Bool-cases, contains, inl, inr, is_empty,
}
use canonical_cloud.Auth.{AuthContext}
use canonical_cloud.Session.Model.{SessionError}
use canonical_cloud.Session.World.{World, Service, after}
use canonical_cloud.Session.Refreshing.{revalidate}
use canonical_cloud.WebSocket.Backplane.{Invalidation}
use canonical_cloud.WebSocket.Serve.{
  Message, ping, pong, text_of, binary, close, Frame, json, ping_frame, pong_frame, policy_close,
  PongTracker, deadline_passed, is_waiting, RecvError, lagged, closed, Selected, incoming,
  invalidations, pong_deadline, heartbeat, Turn, Outcome, send, on_message, on_incoming,
  on_invalidation, on_deadline, challenge, on_revalidated, on_heartbeat, handle, take_turn, go_on,
  serve_loop, serve_with_heartbeat_timing,
}

-- A close frame is the last one of a list of frames.
abbrev pub ends_closed : List Frame → Bool
ends_closed [] = true
ends_closed (policy_close reason ∷ frames) = is_empty frames
ends_closed (_ ∷ frames) = ends_closed frames

-- No close frame is among the frames of a turn that goes on.
abbrev Tidy : Outcome → Type 0
Tidy (frames, none) = ends_closed frames ≡ true
Tidy (frames, some t) =
    (ys : List Frame) → ends_closed ys ≡ true → ends_closed (frames ++ ys) ≡ true

abbrev is_close : Frame → Bool
is_close (policy_close reason) = true
is_close _ = false

send-Tidy :
    (written : Bool) (frame : Frame) (t : PongTracker)
    → is_close frame ≡ false
    → Tidy (send written frame t)
unfolding send
send-Tidy true (json m) t h = λ ys k. k
send-Tidy true (ping_frame p) t h = λ ys k. k
send-Tidy true (pong_frame p) t h = λ ys k. k
send-Tidy true (policy_close r) t h = λ ys k. cc h
send-Tidy false (json m) t h = refl
send-Tidy false (ping_frame p) t h = refl
send-Tidy false (pong_frame p) t h = refl
send-Tidy false (policy_close r) t h = refl

on_message-Tidy : (written : Bool) (m : Message) (t : PongTracker) → Tidy (on_message written m t)
unfolding on_message
on_message-Tidy written (ping payload) t = send-Tidy written _ t refl
on_message-Tidy written (text_of s) t = elim (Bool-cases (contains (text "\"type\":\"ping\"") s)) [
  | inl e ↦ rw e (send-Tidy written _ t refl)
  | inr e ↦ rw e (λ ys k. k)
]
on_message-Tidy written (pong payload) t = λ ys k. k
on_message-Tidy written close t = refl
on_message-Tidy written binary t = λ ys k. k

on_invalidation-Tidy :
    (actor : AuthContext) (written : Bool) (r : Result RecvError Invalidation) (t : PongTracker)
    → Tidy (on_invalidation actor written r t)
unfolding on_invalidation
on_invalidation-Tidy actor written (ok event) t =
    elim (Bool-cases (event.owner_id == actor.user_id)) [
      | inl e ↦ rw e (send-Tidy written _ t refl)
      | inr e ↦ rw e (λ ys k. k)
    ]
on_invalidation-Tidy actor written (err lagged) t = send-Tidy written _ t refl
on_invalidation-Tidy actor written (err closed) t = refl

on_revalidated-Tidy :
    (timeout : ℕ) (written : Bool) (instant : ℕ) (payload : List ℕ) (t : PongTracker)
    (r : Result SessionError (Unit {0}))
    → Tidy (on_revalidated timeout written instant payload t r)
unfolding on_revalidated challenge
on_revalidated-Tidy timeout written instant payload t (ok x) = elim (Bool-cases (is_waiting t)) [
  | inl e ↦ rw e (λ ys k. k)
  | inr e ↦ rw e (send-Tidy written _ _ refl)
]
on_revalidated-Tidy timeout written instant payload t (err e) = refl

go_on-closed :
    (r : Outcome × World) (again : PongTracker → World → List Frame × World)
    → Tidy r.0
    → ((t : PongTracker) (w : World) → ends_closed (again t w).0 ≡ true)
    → ends_closed (go_on r again).0 ≡ true
unfolding go_on
go_on-closed ((frames, none), w) again h k = h
go_on-closed ((frames, some t), w) again h k = h (again t w).0 (k t w)

module _ (service : Service) (actor : AuthContext) (timeout : ℕ) where
  handle-Tidy :
      (selected : Selected) (written : Bool) (instant : ℕ) (t : PongTracker) (w : World)
      → Tidy (handle service actor timeout selected written instant t w).0
  unfolding handle on_incoming on_deadline on_heartbeat
  handle-Tidy (incoming none) written instant t w = refl
  handle-Tidy (incoming (some (err e))) written instant t w = refl
  handle-Tidy (incoming (some (ok m))) written instant t w = on_message-Tidy written m t
  handle-Tidy (invalidations r) written instant t w = on_invalidation-Tidy actor written r t
  handle-Tidy pong_deadline written instant t w = elim (Bool-cases (deadline_passed t instant)) [
    | inl e ↦ rw e refl
    | inr e ↦ rw e (λ ys k. k)
  ]
  handle-Tidy (heartbeat role payload) written instant t w =
      elim (Bool-cases (leb actor.expires_at w.utc_now)) [
        | inl e ↦ rw e refl
        | inr e ↦ rw e (
            on_revalidated-Tidy timeout written instant payload t
              (revalidate service role actor w).0)
      ]

  loop-closed :
      (turns : List Turn) (t : PongTracker) (w : World)
      → ends_closed (serve_loop service actor timeout turns t w).0 ≡ true
  unfolding serve_loop take_turn
  loop-closed [] t w = refl
  loop-closed (turn ∷ turns) t w =
      go_on-closed (take_turn service actor timeout turn t w)
        (serve_loop service actor timeout turns)
        (handle-Tidy turn.selected turn.written turn.instant t
          (after (turn.meanwhile ∷ w.events) w))
        (loop-closed turns)

-- Nothing is sent on a socket after a close frame, whatever happens while it is served.
pub serve-ends_closed :
    (service : Service) (actor : AuthContext) (timeout interval : ℕ) (greeted : Bool)
    (turns : List Turn) (w : World)
    → ends_closed (serve_with_heartbeat_timing service actor timeout interval greeted turns w).0
      ≡ true
unfolding serve_with_heartbeat_timing
serve-ends_closed service actor timeout interval true turns w =
    loop-closed service actor timeout turns _ w
serve-ends_closed service actor timeout interval false turns w = refl
