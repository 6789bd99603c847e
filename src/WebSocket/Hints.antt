-- ===== src/WebSocket/Hints.antt =====
-- What a socket of canonical-web-server.rs/src/ws/mod.rs learns of changes: the cursors of its own
-- user, in order, and nothing of others.
use canonical_cloud.Base.{
  ℕ, ◌≡◌, List, [], ◌∷◌, ◌++◌, Text, none, if◌then◌else◌, ok, ◌==◌, nat_eq, ◌⊎◌,
}
use canonical_cloud.Auth.{AuthContext}
use canonical_cloud.Session.World.{World, Service}
use canonical_cloud.WebSocket.Serve.{
  hint_of, sync_invalidated, Frame, json, PongTracker, Selected, invalidations, Turn, take_turn,
}

-- The hints among some frames.
abbrev pub hints : List Frame → List Text
hints [] = []
hints (json (sync_invalidated hint) ∷ frames) = hint ∷ hints frames
hints (_ ∷ frames) = hints frames

-- The hint that a branch is due to give the user.
abbrev pub due : AuthContext → Selected → List Text
due actor (invalidations (ok event)) =
    if event.owner_id == actor.user_id then hint_of event.cursor ∷ [] else []
due actor _ = []

-- The cursors of the user's own invalidations, in the order of the turns.
abbrev pub own_hints : AuthContext → List Turn → List Text
own_hints actor [] = []
own_hints actor (turn ∷ turns) = due actor turn.selected ++ own_hints actor turns

module _ (service : Service) (actor : AuthContext) (timeout : ℕ) where
  -- The last turn ends the connection, on the tracker and in the world that it finds.
  abbrev pub IsEnding : Turn → Type 0
  IsEnding turn =
      (t : PongTracker) × (w : World) × ((take_turn service actor timeout turn t w).0.1 ≡ none)

  -- The turns that a socket serves: all of them, or those up to the one that ends the connection; and
  -- the hints of its frames are those that the served turns are due.
  pub record Served (turns : List Turn) (frames : List Frame) : Type 0 where
    pub served : List Turn
    pub unserved : List Turn
    pub split : turns ≡ served ++ unserved
    pub told : hints frames ≡ own_hints actor served
    pub ended :
        (unserved ≡ [])
        ⊎ ((front : List Turn) × (last : Turn) × (served ≡ front ++ last ∷ []) × IsEnding last)
