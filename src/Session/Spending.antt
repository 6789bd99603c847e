-- ===== src/Session/Spending.antt =====
-- Rules for how often an action of Session/World.antt calls the identity provider.
use canonical_cloud.Base.{
  ℕ, suc, ◌+◌, ◌≤◌, ◌≡◌, refl, arith, List, [], ◌∷◌, Bool, true, false, Result, ok, err,
  if◌then◌else◌, Bool-cases, inl, inr,
}
use canonical_cloud.Session.Model.{SessionError, Rows}
use canonical_cloud.Session.Revocation.{Tx}
use canonical_cloud.Session.World.{
  Event, Call, refreshed, signed_out, M, World, pure, raise, lift, attempt, transact, commit,
  continue, after, failing, utc_now, draw, ◌>>=◌,
}

abbrev pub refreshes : List Call → ℕ
refreshes [] = 0
refreshes (refreshed token answer ∷ calls) = suc (refreshes calls)
refreshes (signed_out token answer ∷ calls) = refreshes calls

abbrev pub sign_outs : List Call → ℕ
sign_outs [] = 0
sign_outs (refreshed token answer ∷ calls) = sign_outs calls
sign_outs (signed_out token answer ∷ calls) = suc (sign_outs calls)

-- The action refreshes at most `a` times, and signs out at most `b` times.
pub record Spends {A : Type 0} (a b : ℕ) (m : M A) : Type 0 where
  pub at :
      (w : World)
      → (refreshes (m w).1.calls ≤ a + refreshes w.calls)
        × (sign_outs (m w).1.calls ≤ b + sign_outs w.calls)

pub after-calls : (events : List Event) (w : World) → (after events w).calls ≡ w.calls
unfolding after
after-calls [] w = refl
after-calls (e ∷ events) w = refl

commit-calls : {A : Type 0} (r : A × Rows) (w : World) → (commit r w).1.calls ≡ w.calls
unfolding commit
commit-calls (a, rows) w = refl

module _ {A : Type 0} (a b : ℕ) where
  pub Spends-pure : (x : A) → Spends a b (pure x)
  unfolding pure
  Spends-pure x = record { at = λ w. omega arith }

  pub Spends-raise : (e : SessionError) → Spends {A = A} a b (raise e)
  unfolding raise
  Spends-raise e = record { at = λ w. omega arith }

  pub Spends-lift : (r : Result SessionError A) → Spends a b (lift r)
  unfolding lift
  Spends-lift r = record { at = λ w. omega arith }

  pub Spends-attempt : (m : M A) → Spends a b m → Spends a b (attempt m)
  unfolding attempt
  Spends-attempt m s = record { at = λ w. s.at w }

  pub Spends-transact : (body : ℕ → ℕ → Tx A) → Spends a b (transact body)
  unfolding transact
  Spends-transact body = record {
    at = λ w.
        let w' = after w.events w in
        let done = body w'.utc_now w'.database_now w'.rows in
        let h = after-calls w.events w in
        elim (Bool-cases (failing w.events)) [
          | inl e ↦ rw (e, h) omega arith
          | inr e ↦ let k = commit-calls done w' in rw (e, k, h) omega arith
        ];
  }

module _ {A B : Type 0} (a b c d : ℕ) where
  continue-calls :
      (r : Result SessionError A) (f : A → M B) (w : World)
      → ((x : A) → Spends c d (f x))
      → (refreshes (continue r f w).1.calls ≤ c + refreshes w.calls)
        × (sign_outs (continue r f w).1.calls ≤ d + sign_outs w.calls)
  continue-calls (ok x) f w s = (s x).at w
  continue-calls (err e) f w s = omega arith

  pub Spends-bind :
      (m : M A) (f : A → M B)
      → Spends a b m
      → ((x : A) → Spends c d (f x))
      → Spends (c + a) (d + b) (m >>= f)
  unfolding ◌>>=◌
  Spends-bind m f sm sf = record {
    at = λ w. let h = sm.at w in let k = continue-calls (m w).0 f (m w).1 sf in omega arith;
  }

pub Spends-if :
    {A : Type 0} (a b : ℕ) (t : Bool) (m n : M A)
    → Spends a b m
    → Spends a b n
    → Spends a b (if t then m else n)
Spends-if a b true m n sm sn = sm
Spends-if a b false m n sm sn = sn

module _ (a b : ℕ) where
  pub Spends-utc_now : Spends a b utc_now
  unfolding utc_now
  Spends-utc_now = record { at = λ w. omega arith }

  pub Spends-draw : Spends a b draw
  unfolding draw
  Spends-draw = record { at = λ w. omega arith }

pub Spends-upto : {A : Type 0} (a b c d : ℕ) (m : M A) → a ≤ c → b ≤ d → Spends a b m → Spends c d m
Spends-upto a b c d m h k s = record { at = λ w. let l = s.at w in omega arith }
