-- ===== src/Session/World.antt =====
-- How an operation of canonical-web-server.rs/crates/canonical-session/src/lib.rs runs among others:
-- at every `await` time passes, other tasks and replicas commit transactions, and the database may
-- fail. A transaction that fails has changed nothing. Each operation is an action on the world below.
use canonical_cloud.Base.{
  ℕ, suc, ◌+◌, List, [], ◌∷◌, Text, Bool, false, Result, ok, err, if◌then◌else◌,
}
use canonical_cloud.Auth.{Uuid, AuthTokens, AuthProviderError, SupabaseUser}
use canonical_cloud.Session.Model.{SessionError, database, Rows}
use canonical_cloud.Session.Revocation.{Libs, Tx}

-- What happens while an operation waits.
pub record Event : Type 0 where
  pub fails : Bool
  pub utc_elapsed : ℕ
  pub db_elapsed : ℕ
  pub others : Rows → Rows

-- A call of the identity provider, with its answer.
pub data Call : Type 0 where
  refreshed : Text → Result AuthProviderError AuthTokens → Call
  signed_out : Text → Result AuthProviderError (Unit {0}) → Call

-- The server's clock and the database's differ; `calls` has the newest call first. When the events
-- have run out nothing more interferes.
pub record World : Type 0 where
  pub rows : Rows
  pub utc_now : ℕ
  pub database_now : ℕ
  pub calls : List Call
  pub draws : ℕ
  pub events : List Event

-- The service's libraries, its identity provider, whose answers may depend on all calls before,
-- and the random draws in order.
pub record Service : Type 0 where
  pub libs : Libs
  pub refresh : List Call → Text → Result AuthProviderError AuthTokens
  pub sign_out : List Call → Text → Result AuthProviderError (Unit {0})
  pub user_for_token : List Call → Text → Result AuthProviderError SupabaseUser
  pub nonce : ℕ → List ℕ
  pub new_v4 : ℕ → Uuid

abbrev pub M : Type 0 → Type 0
M A = World → Result SessionError A × World

module _ {A : Type 0} where
  unfoldable pub pure : A → M A
  pure a w = (ok a, w)

  unfoldable pub raise : SessionError → M A
  raise e w = (err e, w)

  unfoldable pub lift : Result SessionError A → M A
  lift r w = (r, w)

  -- A `match` on the result in place of `?`.
  unfoldable pub attempt : M A → M (Result SessionError A)
  attempt m w = let (r, w') = m w in (ok r, w')

module _ {A B : Type 0} where
  abbrev pub continue : Result SessionError A → (A → M B) → M B
  continue (ok a) f w = f a w
  continue (err e) f w = (err e, w)

  infixl 5 ◌>>=◌ ◌>>◌
  unfoldable pub ◌>>=◌ : M A → (A → M B) → M B
  ◌>>=◌ m f w = let (r, w') = m w in continue r f w'

  abbrev pub ◌>>◌ : M A → M B → M B
  m >> n = m >>= λ _. n

-- The world after a wait, and whether the database failed in it.
unfoldable pub after : List Event → World → World
after [] w = w
after (e ∷ events) w = record w {
  rows = e.others w.rows;
  utc_now = w.utc_now + e.utc_elapsed;
  database_now = w.database_now + e.db_elapsed;
  events = events;
}

unfoldable pub failing : List Event → Bool
failing [] = false
failing (e ∷ events) = e.fails

unfoldable pub commit {ℓ} : {A : Type ℓ} → A × Rows → World → A × World
commit (a, rows) w = (a, record w { rows = rows })

-- One transaction, behind its wait.
unfoldable pub transact : {A : Type 0} → (ℕ → ℕ → Tx A) → M A
unfolding commit
transact body w =
    let w' = after w.events w in
    if failing w.events
    then (err database, w')
    else commit (body w'.utc_now w'.database_now w'.rows) w'

unfoldable pub utc_now : M ℕ
utc_now w = (ok w.utc_now, w)

-- The index of a random draw.
unfoldable pub draw : M ℕ
draw w = (ok w.draws, record w { draws = suc w.draws })

module _ (service : Service) where
  unfoldable pub call_refresh : Text → M (Result AuthProviderError AuthTokens)
  call_refresh token w =
      let w' = after w.events w in
      let answer = service.refresh w'.calls token in
      (ok answer, record w' { calls = refreshed token answer ∷ w'.calls })

  unfoldable pub call_sign_out : Text → M (Result AuthProviderError (Unit {0}))
  call_sign_out token w =
      let w' = after w.events w in
      let answer = service.sign_out w'.calls token in
      (ok answer, record w' { calls = signed_out token answer ∷ w'.calls })

  -- A question about a token, which changes nothing at the provider.
  unfoldable pub call_user : Text → M (Result AuthProviderError SupabaseUser)
  call_user token w = let w' = after w.events w in (ok (service.user_for_token w'.calls token), w')
