-- ===== src/WebSocket/Challenge.antt =====
-- The heartbeat of a socket in canonical-web-server.rs/src/ws/mod.rs: one unanswered challenge at a
-- time, whose deadline nothing extends, and a connection that a close frame ends.
use canonical_cloud.Base.{
  ℕ, ◌≡◌, ◌⊎◌, refl, sym, ap, List, text, text_eq, Option, none, some, Bool, true, false, Result,
  ok, err, leb, ◌==◌, nat_eq, Bool-cases, text_beq, text_beq_iff, contains, inl, inr,
}
use canonical_cloud.Auth.{AuthContext}
use canonical_cloud.Session.Model.{SessionError}
use canonical_cloud.Session.World.{World, Service}
use canonical_cloud.Session.Refreshing.{revalidate}
use canonical_cloud.WebSocket.Backplane.{Invalidation}
use canonical_cloud.WebSocket.Serve.{
  Message, ping, pong, text_of, binary, close, Frame, PendingPong, PongTracker, acknowledge,
  deadline_passed, is_waiting, RecvError, lagged, closed, Selected, incoming, invalidations,
  pong_deadline, heartbeat, send, on_message, on_incoming, on_invalidation, on_deadline, challenge,
  on_revalidated, on_heartbeat, handle,
}

-- The turn has left the challenge `p` as it was, unless it ended the connection or was its answer.
abbrev pub Kept : PendingPong → Selected → Option PongTracker → Type 0
Kept p selected none = Unit
Kept p selected (some t) =
    (t.pending ≡ some p) ⊎ ((t.pending ≡ none) × (selected ≡ incoming (some (ok (pong p.payload)))))

send-Kept :
    (p : PendingPong) (selected : Selected) (written : Bool) (frame : Frame) (t : PongTracker)
    → t.pending ≡ some p
    → Kept p selected (send written frame t).1
unfolding send
send-Kept p selected true frame t h = inl h
send-Kept p selected false frame t h = tt

acknowledge-Kept :
    (p : PendingPong) (payload : List ℕ) (t : PongTracker)
    → t.pending ≡ some p
    → Kept p (incoming (some (ok (pong payload)))) (some (acknowledge payload t).1)
unfolding acknowledge
acknowledge-Kept p payload t h = elim (Bool-cases (text_beq p.payload payload)) [
  | inl e ↦
      rw (h, e)
        (inr (
          refl,
          ap (λ l. incoming (some (ok (pong l)))) (sym ((text_beq_iff p.payload payload).0 e)),
        ))
  | inr e ↦ rw (h, e) (inl refl)
]

on_message-Kept :
    (p : PendingPong) (written : Bool) (m : Message) (t : PongTracker)
    → t.pending ≡ some p
    → Kept p (incoming (some (ok m))) (on_message written m t).1
unfolding on_message
on_message-Kept p written (ping payload) t h = send-Kept p _ written _ t h
on_message-Kept p written (text_of s) t h =
    elim (Bool-cases (contains (text "\"type\":\"ping\"") s)) [
      | inl e ↦ rw e (send-Kept p _ written _ t h)
      | inr e ↦ rw e (inl h)
    ]
on_message-Kept p written (pong payload) t h = acknowledge-Kept p payload t h
on_message-Kept p written close t h = tt
on_message-Kept p written binary t h = inl h

on_invalidation-Kept :
    (p : PendingPong) (actor : AuthContext) (written : Bool) (r : Result RecvError Invalidation)
    (t : PongTracker)
    → t.pending ≡ some p
    → Kept p (invalidations r) (on_invalidation actor written r t).1
unfolding on_invalidation
on_invalidation-Kept p actor written (ok event) t h =
    elim (Bool-cases (event.owner_id == actor.user_id)) [
      | inl e ↦ rw e (send-Kept p _ written _ t h)
      | inr e ↦ rw e (inl h)
    ]
on_invalidation-Kept p actor written (err lagged) t h = send-Kept p _ written _ t h
on_invalidation-Kept p actor written (err closed) t h = tt

on_revalidated-Kept :
    (p : PendingPong) (selected : Selected) (timeout : ℕ) (written : Bool) (instant : ℕ)
    (payload : List ℕ) (t : PongTracker) (r : Result SessionError (Unit {0}))
    → t.pending ≡ some p
    → Kept p selected (on_revalidated timeout written instant payload t r).1
unfolding on_revalidated challenge is_waiting
on_revalidated-Kept p selected timeout written instant payload t (ok x) h = rw h (inl refl)
on_revalidated-Kept p selected timeout written instant payload t (err e) h = tt

module _ (service : Service) (actor : AuthContext) (timeout : ℕ) where
  -- While a challenge is unanswered, no turn replaces it or moves its deadline: the turn keeps it,
  -- ends the connection, or has just read the pong with the challenge's own payload.
  pub unanswered-Kept :
      (p : PendingPong) (selected : Selected) (written : Bool) (instant : ℕ) (t : PongTracker)
      (w : World)
      → t.pending ≡ some p
      → Kept p selected (handle service actor timeout selected written instant t w).0.1
  unfolding handle on_incoming on_deadline on_heartbeat
  unanswered-Kept p (incoming none) written instant t w h = tt
  unanswered-Kept p (incoming (some (err e))) written instant t w h = tt
  unanswered-Kept p (incoming (some (ok m))) written instant t w h = on_message-Kept p written m t h
  unanswered-Kept p (invalidations r) written instant t w h =
      on_invalidation-Kept p actor written r t h
  unanswered-Kept p pong_deadline written instant t w h =
      elim (Bool-cases (deadline_passed t instant)) [ inl e ↦ rw e tt | inr e ↦ rw e (inl h) ]
  unanswered-Kept p (heartbeat role payload) written instant t w h =
      elim (Bool-cases (leb actor.expires_at w.utc_now)) [
        | inl e ↦ rw e tt
        | inr e ↦ rw e (
            on_revalidated-Kept p _ timeout written instant payload t
              (revalidate service role actor w).0 h)
      ]
