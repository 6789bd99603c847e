-- ===== src/Session/Polling.antt =====
-- The polling of `refresh_as_local_leader` (canonical-web-server.rs/crates/canonical-session/src/lib.rs)
-- ends: each round that goes on sleeps for its interval, or up to the deadline.
use canonical_cloud.Base.{
  subst, ltb→lt, ℕ, zero, suc, ◌+◌, ◌*◌, ◌≤◌, ◌<◌, ◌≡◌, ◌≢◌, refl, min, Option, none, some, List,
  [], ◌∷◌, Text, Result, ok, err, ltb, arith, inl, inr, Bool-cases,
}
use canonical_cloud.Auth.{AuthContext}
use canonical_cloud.Session.Model.{Rows, SessionError, RefreshClaimResult, fresh, claimed, busy}
use canonical_cloud.Session.Policy.{
  next_refresh_poll_interval, refresh_poll_initial, refresh_poll_max, refresh_wait,
}
use canonical_cloud.Session.Refresh.{claim_refresh}
use canonical_cloud.Session.Revocation.{Tx}
use canonical_cloud.Session.World.{
  Event, Service, M, World, pure, raise, transact, commit, continue, after, failing, utc_now, draw,
  ◌>>=◌,
}
use canonical_cloud.Session.Refreshing.{
  execute_refresh_claim, executed, on_claim, poll_again, poll_loop, poll_fuel, sleep,
}

after-utc_now : (events : List Event) (w : World) → w.utc_now ≤ (after events w).utc_now
unfolding after
after-utc_now [] w = omega arith
after-utc_now (e ∷ events) w = omega arith

commit-utc_now : {A : Type 0} (r : A × Rows) (w : World) → (commit r w).1.utc_now ≡ w.utc_now
unfolding commit
commit-utc_now (a, rows) w = refl

-- An answer, or an error: the fuel has not run out.
abbrev Settled : Result SessionError (Option AuthContext) → Type 0
Settled (ok none) = ⊥
Settled (ok (some context)) = Unit
Settled (err e) = Unit

Settled-lem : (r : Result SessionError (Option AuthContext)) → Settled r → r ≢ ok none
Settled-lem r s e = subst Settled e s

-- The action never turns the server's clock back.
record Onward {A : Type 0} (m : M A) : Type 0 where
  at : (w : World) → w.utc_now ≤ (m w).1.utc_now

-- The action settles, once the server's clock is at `t`.
record Settles (t : ℕ) (m : M (Option AuthContext)) : Type 0 where
  at : (w : World) → t ≤ w.utc_now → Settled (m w).0

transact-Onward : {A : Type 0} (body : ℕ → ℕ → Tx A) → Onward (transact body)
unfolding transact
transact-Onward body = record {
  at = λ w.
      let w' = after w.events w in
      let done = body w'.utc_now w'.database_now w'.rows in
      let h = after-utc_now w.events w in
      elim (Bool-cases (failing w.events)) [
        | inl e ↦ rw e h
        | inr e ↦ let k = commit-utc_now done w' in rw e omega arith
      ];
}

draw-Onward : Onward draw
unfolding draw
draw-Onward = record { at = λ w. omega arith }

module _ {A : Type 0} (t : ℕ) where
  continue-Settled :
      (r : Result SessionError A) (f : A → M (Option AuthContext)) (w : World)
      → t ≤ w.utc_now
      → ((a : A) → Settles t (f a))
      → Settled (continue r f w).0
  continue-Settled (ok a) f w h s = (s a).at w h
  continue-Settled (err e) f w h s = tt

  Settles-bind :
      (m : M A) (f : A → M (Option AuthContext))
      → Onward m
      → ((a : A) → Settles t (f a))
      → Settles t (m >>= f)
  unfolding ◌>>=◌
  Settles-bind m f o s = record {
    at = λ w h. let k = o.at w in continue-Settled (m w).0 f (m w).1 (omega arith) s;
  }

continue-some :
    (r : Result SessionError AuthContext) (w : World)
    → Settled (continue r (λ c. pure (some c)) w).0
unfolding pure
continue-some (ok c) w = tt
continue-some (err e) w = tt

module _ (service : Service) (id_hash : Text) (deadline : ℕ) where
  open service use {libs}

  -- A round leaves the loop, or sleeps for `interval`, or up to the deadline.
  poll_again-Settles :
      (again : ℕ → M (Option AuthContext)) (t interval : ℕ)
      → (t < deadline
          → Settles (min (t + interval) deadline) (again (next_refresh_poll_interval interval)))
      → Settles t (poll_again service again deadline interval)
  unfolding poll_again utc_now ◌>>=◌ raise sleep
  poll_again-Settles again t interval s = record {
    at = λ w h. elim (Bool-cases (ltb w.utc_now deadline)) [
      | inl e ↦ let k = ltb→lt w.utc_now deadline e in rw e ((s (omega arith)).at _ (omega arith))
      | inr e ↦ rw e tt
    ];
  }

  on_claim-Settles :
      (again : ℕ → M (Option AuthContext)) (t interval : ℕ) (r : RefreshClaimResult)
      → (t < deadline
          → Settles (min (t + interval) deadline) (again (next_refresh_poll_interval interval)))
      → Settles t (on_claim service again deadline interval r)
  unfolding on_claim pure executed ◌>>=◌
  on_claim-Settles again t interval (fresh m) s = record { at = λ w h. tt }
  on_claim-Settles again t interval (claimed claim) s = record {
    at = λ w h. let (r, w') = execute_refresh_claim service claim w in continue-some r w';
  }
  on_claim-Settles again t interval busy s = poll_again-Settles again t interval s

  round-Settles :
      (fuel t interval : ℕ)
      → (t < deadline
          → Settles
              (min (t + interval) deadline)
              (poll_loop service fuel id_hash deadline (next_refresh_poll_interval interval)))
      → Settles t (poll_loop service (suc fuel) id_hash deadline interval)
  unfolding poll_loop
  round-Settles fuel t interval s = Settles-bind t draw _ draw-Onward λ k.
      Settles-bind t (transact (claim_refresh libs.cipher id_hash (service.new_v4 k))) _
        (transact-Onward (claim_refresh libs.cipher id_hash (service.new_v4 k)))
        λ r. on_claim-Settles (poll_loop service fuel id_hash deadline) t interval r s

  -- At the greatest interval each second before the deadline costs a round, and one ends the loop.
  rounds-Settles :
      (n t : ℕ)
      → deadline ≤ t + n * refresh_poll_max
      → Settles t (poll_loop service (suc n) id_hash deadline refresh_poll_max)
  unfolding next_refresh_poll_interval
  rounds-Settles zero t h = round-Settles zero t refresh_poll_max λ k. ground arith
  rounds-Settles (suc n) t h =
      round-Settles (suc n) t refresh_poll_max λ k. rounds-Settles n _ (omega arith)

-- The loop of `refresh_as_local_leader` ends: whatever the other tasks, the other replicas and the
-- database do, with a deadline at most `refresh_wait` ahead of the server's clock 27 rounds bring
-- it to an answer or an error.
pub poll_loop-total :
    (service : Service) (id_hash : Text) (deadline : ℕ) (w : World)
    → deadline ≤ w.utc_now + refresh_wait
    → (poll_loop service poll_fuel id_hash deadline refresh_poll_initial w).0 ≢ ok none
unfolding next_refresh_poll_interval
poll_loop-total service id_hash deadline w h =
    let s : Settles w.utc_now (poll_loop service poll_fuel id_hash deadline refresh_poll_initial) =
      round-Settles service id_hash deadline 26 w.utc_now 50000000 λ _.
        round-Settles service id_hash deadline 25 _ 100000000 λ _.
          round-Settles service id_hash deadline 24 _ 200000000 λ _.
            round-Settles service id_hash deadline 23 _ 400000000 λ _.
              round-Settles service id_hash deadline 22 _ 800000000
                λ _. rounds-Settles service id_hash deadline 21 _ (omega arith) in
    Settled-lem _ (s.at w (omega arith))
