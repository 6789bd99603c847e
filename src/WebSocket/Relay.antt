-- ===== src/WebSocket/Relay.antt =====
-- What the hints between the instances of canonical-web-server.rs/src/ws/mod.rs carry, and how the
-- listener waits between its connections.
use canonical_cloud.Base.{
  ℕ, suc, ◌^◌, ◌≤◌, ◌≡◌, ◌≢◌, ◌↔◌, refl, min, List, [], ◌∷◌, Text, text, Option, none, some, Bool,
  true, false, not, ◌||◌, if◌then◌else◌, Result, ok, err, ltb, leb, ◌==◌, nat_eq, ℤ, is_positive,
  utf8_len, arith, Bool-cases, inl, inr,
}
use canonical_cloud.Auth.{Uuid, seconds}
use canonical_cloud.WebSocket.Backplane.{
  Invalidation, BackplaneInvalidation, BackplaneLibs, backplane_payload, relay_backplane_payload,
  relay_message, is_invalid, is_nil, bounded_payload, run_postgres_backplane, reconnect_after,
  next_reconnect_delay,
}

abbrev message_of : Uuid → Uuid → ℤ → BackplaneInvalidation
message_of instance_id owner_id cursor = record {
  version = 1;
  source_instance = instance_id;
  owner_id = owner_id;
  cursor = cursor;
}

-- Nothing is passed on, or one invalidation.
abbrev pub silent : Bool × List Invalidation
silent = (false, [])

abbrev pub told : Uuid → ℤ → Bool × List Invalidation
told owner_id cursor = (true, record { owner_id = owner_id; cursor = cursor } ∷ [])

-- A message that another instance may have sent.
abbrev pub FromPeer : Uuid → BackplaneInvalidation → Type 0
FromPeer instance_id message =
    (message.version ≡ 1)
    × (is_positive message.cursor ≡ true)
    × (message.source_instance ≢ 0)
    × (message.source_instance ≢ instance_id)
    × (message.owner_id ≢ 0)

guards :
    (nil positive : Bool) (r : Result Text Text) (payload : Text)
    → (if nil || not positive then err (text "invalid internal sync invalidation") else r)
      ≡ ok payload
    → (nil ≡ false) × (positive ≡ true) × (r ≡ ok payload)
guards nil positive r payload h = ground (arith, h)

relay_message-told :
    (instance_id : Uuid) (message : BackplaneInvalidation)
    → FromPeer instance_id message
    → (relay_message instance_id (some message)).0 ≡ true
unfolding relay_message is_invalid is_nil
relay_message-told instance_id message h = ground (arith, h)

relay_message-peer :
    (instance_id : Uuid) (o : Option BackplaneInvalidation)
    → (relay_message instance_id o).0 ≡ true
    → (message : BackplaneInvalidation) × (o ≡ some message) × FromPeer instance_id message
unfolding relay_message is_invalid is_nil
relay_message-peer instance_id none h = cc h
relay_message-peer instance_id (some message) h = (message, refl, ground (arith, h))

module _ (libs : BackplaneLibs) where
  -- A message that was serialized is read back.
  abbrev pub RoundTrips : Type 0
  RoundTrips =
      (message : BackplaneInvalidation) (payload : Text)
      → libs.to_string message ≡ some payload
      → libs.from_str payload ≡ some message

  bounded_payload-ok :
      (o : Option Text) (payload : Text)
      → bounded_payload o ≡ ok payload
      → (o ≡ some payload) × (utf8_len payload ≤ 512)
  unfolding bounded_payload
  bounded_payload-ok none payload h = ground (arith, h)
  bounded_payload-ok (some s) payload h = ground (arith, h)

  relay-sent :
      (instance_id other owner_id : Uuid) (cursor : ℤ) (payload : Text)
      → instance_id ≢ 0
      → is_nil owner_id ≡ false
      → is_positive cursor ≡ true
      → utf8_len payload ≤ 512
      → libs.from_str payload ≡ some (message_of instance_id owner_id cursor)
      → relay_backplane_payload libs other payload
        ≡ (if instance_id == other then silent else told owner_id cursor)
  unfolding relay_backplane_payload relay_message is_invalid is_nil
  relay-sent instance_id other owner_id cursor payload live known positive short e =
      rw e ground (arith, positive)

  -- When `serde_json` reads back what it wrote, the payload of an instance that is not nil makes
  -- every other instance tell its sockets of that owner and cursor, once, and itself nothing.
  pub relay-payload :
      (instance_id other owner_id : Uuid) (cursor : ℤ) (payload : Text)
      → RoundTrips
      → instance_id ≢ 0
      → backplane_payload libs instance_id owner_id cursor ≡ ok payload
      → relay_backplane_payload libs other payload
        ≡ (if instance_id == other then silent else told owner_id cursor)
  unfolding backplane_payload
  relay-payload instance_id other owner_id cursor payload trips live h =
      let message = message_of instance_id owner_id cursor in
      let (known, positive, h') =
        guards (is_nil owner_id) (is_positive cursor) (bounded_payload (libs.to_string message))
          payload h in
      let (e, short) = bounded_payload-ok (libs.to_string message) payload h' in
      relay-sent instance_id other owner_id cursor payload live known positive short
        (trips message payload e)

  -- An instance passes on a payload exactly if it has at most 512 bytes and is read as a message of
  -- version 1 with a positive cursor, from an instance that is another and not nil, for an owner that
  -- is not nil.
  pub relay_iff :
      (instance_id : Uuid) (payload : Text)
      → ((relay_backplane_payload libs instance_id payload).0 ≡ true) ↔ (
          (utf8_len payload ≤ 512)
          × ((message : BackplaneInvalidation) × (libs.from_str payload ≡ some message)
              × FromPeer instance_id message))
  unfolding relay_backplane_payload
  relay_iff instance_id payload = elim (Bool-cases (ltb 512 (utf8_len payload))) [
    | inl e ↦ rw e (λ h. cc h, λ k. ground (arith, e, k.0))
    | inr e ↦ rw e (
      λ h. (ground (arith, e), relay_message-peer instance_id (libs.from_str payload) h),
      λ (short, (message, f, peer)). rw f (relay_message-told instance_id message peer),
    )
  ]

-- The delay after `n` listeners in a row that did not last.
abbrev pub backoff : ℕ → ℕ
backoff n = min (seconds (2 ^ n)) (seconds 30)

-- The delays by the number of listeners in a row that ended within 60 seconds.
unfoldable pub schedule : ℕ → List ℕ → List ℕ
schedule n [] = []
schedule n (elapsed ∷ rest) =
    let streak = if leb (seconds 60) elapsed then 0 else n in
    backoff streak ∷ schedule (suc streak) rest

next-backoff : (n : ℕ) → next_reconnect_delay (backoff n) ≡ backoff (suc n)
unfolding next_reconnect_delay
next-backoff n = omega arith

schedule-from :
    (n : ℕ) (lifetimes : List ℕ)
    → run_postgres_backplane (backoff n) lifetimes ≡ schedule n lifetimes
unfolding run_postgres_backplane reconnect_after schedule
schedule-from n [] = refl
schedule-from n (elapsed ∷ rest) = elim (Bool-cases (leb (seconds 60) elapsed)) [
  | inl e ↦ rw (e, next-backoff 0, schedule-from 1 rest) refl
  | inr e ↦ rw (e, next-backoff n, schedule-from (suc n) rest) refl
]

-- The sleeps of the listener's loop are those of a backoff: after `n` listeners in a row that ended
-- within 60 seconds before it, a listener that ends so too is followed by the n-th power of 2 seconds,
-- at most 30, and one that lasted 60 seconds by 1 second, from which the counting starts again.
pub run_postgres_backplane-schedule :
    (lifetimes : List ℕ) → run_postgres_backplane (seconds 1) lifetimes ≡ schedule 0 lifetimes
run_postgres_backplane-schedule lifetimes = schedule-from 0 lifetimes
