-- ===== src/Session/Guarantee.antt =====
-- Rules for the actions of Session/World.antt: an action changes the table by the steps of
-- Session/Reach.antt alone, if the other tasks and replicas do.
use canonical_cloud.Base.{
  ℕ, List, [], ◌∷◌, Text, Bool, true, false, Result, ok, err, All, if◌then◌else◌, Bool-cases, inl,
  inr,
}
use canonical_cloud.Session.Model.{SessionError, Rows}
use canonical_cloud.Session.Revocation.{Libs, Tx}
use canonical_cloud.Session.World.{
  Event, World, Service, M, pure, raise, lift, attempt, continue, ◌>>=◌, after, failing, commit,
  transact, utc_now, draw, call_refresh, call_sign_out,
}
use canonical_cloud.Session.Reach.{Reach, here, next}

pub Reach-trans :
    {libs : Libs} {drawn : Text → Bool} {a b c : Rows}
    → Reach libs drawn a b
    → Reach libs drawn b c
    → Reach libs drawn a c
Reach-trans r here = r
Reach-trans r (next s st) = next (Reach-trans r s) st

-- The other tasks and replicas run the program's own transactions.
abbrev pub Rely : Libs → (Text → Bool) → List Event → Type 0
Rely libs drawn = All (λ e. (rows : Rows) → Reach libs drawn rows (e.others rows))

abbrev pub Post : {A : Type 0} → (A → Type 0) → Result SessionError A → Type 0
Post Q (ok a) = Q a
Post Q (err e) = Unit

-- The action keeps to the steps, and what it returns has the property `Q`.
pub record Guarantees {A : Type 0} (libs : Libs) (drawn : Text → Bool) (Q : A → Type 0) (m : M A)
    : Type 0 where
  pub at :
      (w : World)
      → Rely libs drawn w.events
      → Reach libs drawn w.rows (m w).1.rows × Rely libs drawn (m w).1.events × Post Q (m w).0

abbrev pub Any : {A : Type 0} → A → Type 0
Any a = Unit

module _ {A : Type 0} {libs : Libs} {drawn : Text → Bool} {Q : A → Type 0} where
  pub Guarantees-pure : (a : A) → Q a → Guarantees libs drawn Q (pure a)
  unfolding pure
  Guarantees-pure a q = record { at = λ w r. (here, r, q) }

  pub Guarantees-raise : (e : SessionError) → Guarantees libs drawn Q (raise e)
  unfolding raise
  Guarantees-raise e = record { at = λ w r. (here, r, tt) }

  pub Guarantees-if :
      (b : Bool) (m n : M A)
      → Guarantees libs drawn Q m
      → Guarantees libs drawn Q n
      → Guarantees libs drawn Q (if b then m else n)
  Guarantees-if true m n gm gn = gm
  Guarantees-if false m n gm gn = gn

pub after-Reach :
    {libs : Libs} {drawn : Text → Bool} (events : List Event) (w : World)
    → Rely libs drawn w.events
    → Rely libs drawn events
    → Reach libs drawn w.rows (after events w).rows × Rely libs drawn (after events w).events
unfolding after
after-Reach [] w r h = (here, r)
after-Reach (e ∷ events) w r h = (h.0 w.rows, h.1)

commit-Reach :
    {libs : Libs} {drawn : Text → Bool} {A : Type 0} (r : A × Rows) (w0 w : World)
    → Reach libs drawn w0.rows w.rows
    → Rely libs drawn w.events
    → Reach libs drawn w.rows r.1
    → Reach libs drawn w0.rows (commit r w).1.rows × Rely libs drawn (commit r w).1.events
unfolding commit
commit-Reach (a, rows) w0 w h k s = (Reach-trans h s, k)

module _ {A : Type 0} {libs : Libs} {drawn : Text → Bool} {Q : A → Type 0} where
  pub Guarantees-transact :
      (body : ℕ → ℕ → Tx A)
      → ((utc now : ℕ) (rows : Rows) → Reach libs drawn rows (body utc now rows).1)
      → ((utc now : ℕ) (rows : Rows) → Post Q (body utc now rows).0)
      → Guarantees libs drawn Q (transact body)
  unfolding transact
  Guarantees-transact body step post = record {
    at = λ w r.
        let w' = after w.events w in
        let (h, k) = after-Reach w.events w r r in
        let done = body w'.utc_now w'.database_now w'.rows in
        elim (Bool-cases (failing w.events)) [
          | inl e ↦ rw e (h, k, tt)
          | inr e ↦
              let (h', k') = commit-Reach done w w' h k (step w'.utc_now w'.database_now w'.rows) in
              rw e (h', k', post w'.utc_now w'.database_now w'.rows)
        ];
  }

module _ {A : Type 0} where
  pub Post-Any : (r : Result SessionError A) → Post (Any {A = A}) r
  Post-Any (ok a) = tt
  Post-Any (err e) = tt

module _ {A B : Type 0} {libs : Libs} {drawn : Text → Bool} {Q : A → Type 0} {R : B → Type 0} where
  continue-at :
      (r : Result SessionError A) (f : A → M B) (w0 w : World)
      → Reach libs drawn w0.rows w.rows
      → Rely libs drawn w.events
      → Post Q r
      → ((a : A) → Q a → Guarantees libs drawn R (f a))
      → Reach libs drawn w0.rows (continue r f w).1.rows
        × Rely libs drawn (continue r f w).1.events
        × Post R (continue r f w).0
  continue-at (ok a) f w0 w h k q g =
      let (h', k', q') = (g a q).at w k in (Reach-trans h h', k', q')
  continue-at (err e) f w0 w h k q g = (h, k, tt)

  pub Guarantees-bind :
      (m : M A) (f : A → M B)
      → Guarantees libs drawn Q m
      → ((a : A) → Q a → Guarantees libs drawn R (f a))
      → Guarantees libs drawn R (m >>= f)
  unfolding ◌>>=◌
  Guarantees-bind m f gm gf = record {
    at = λ w r. let (h, k, q) = gm.at w r in continue-at (m w).0 f w (m w).1 h k q gf;
  }

module _ {A : Type 0} {libs : Libs} {drawn : Text → Bool} {Q : A → Type 0} where
  pub Guarantees-attempt :
      (m : M A) → Guarantees libs drawn Q m → Guarantees libs drawn (Post Q) (attempt m)
  unfolding attempt
  Guarantees-attempt m g = record { at = λ w r. g.at w r }

module _ {libs : Libs} {drawn : Text → Bool} where
  pub Guarantees-utc_now : Guarantees libs drawn Any utc_now
  unfolding utc_now
  Guarantees-utc_now = record { at = λ w r. (here, r, tt) }

  pub Guarantees-draw : Guarantees libs drawn Any draw
  unfolding draw
  Guarantees-draw = record { at = λ w r. (here, r, tt) }

  pub Guarantees-lift :
      {A : Type 0} (r : Result SessionError A) → Guarantees libs drawn Any (lift r)
  unfolding lift
  Guarantees-lift (ok a) = record { at = λ w r. (here, r, tt) }
  Guarantees-lift (err e) = record { at = λ w r. (here, r, tt) }

  pub Guarantees-call_refresh :
      (service : Service) (token : Text) → Guarantees libs drawn Any (call_refresh service token)
  unfolding call_refresh
  Guarantees-call_refresh service token = record {
    at = λ w r. let (h, k) = after-Reach w.events w r r in (h, k, tt);
  }

  pub Guarantees-call_sign_out :
      (service : Service) (token : Text) → Guarantees libs drawn Any (call_sign_out service token)
  unfolding call_sign_out
  Guarantees-call_sign_out service token = record {
    at = λ w r. let (h, k) = after-Reach w.events w r r in (h, k, tt);
  }
