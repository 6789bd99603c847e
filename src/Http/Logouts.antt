-- ===== src/Http/Logouts.antt =====
-- What a logout of canonical-web-server.rs/src/routes/auth.rs makes sure of.
use mathlib.Core.Option.{some-injective}
use canonical_cloud.Base.{
  subst, ℤ, ℕ, ◌≡◌, ◌⊎◌, refl, Text, text, text_eq, Option, none, some, Bool, true, false, Result,
  ok, err, nat_eq, lookup, or_else, inl, inr,
}
use canonical_cloud.Auth.{AuthContext, bearer, session_cookie}
use canonical_cloud.Http.Errors.{AppError}
use canonical_cloud.Session.Model.{SessionError, Rows, RefreshClaim}
use canonical_cloud.Session.Cipher.{hash_token}
use canonical_cloud.Session.Steps.{IsTable}
use canonical_cloud.Session.Reach.{Reach, Reach-Retains}
use canonical_cloud.Session.Guarantee.{Rely, Post}
use canonical_cloud.Session.Refreshing.{Role, authenticate}
use canonical_cloud.Session.Identity.{IsSession}
use canonical_cloud.Session.Authenticating.{authenticate-Guarantees}
use canonical_cloud.Session.Logout.{Refused}
use canonical_cloud.Session.Durable.{revoke_is_final}
use canonical_cloud.Session.World.{World, Service}
use canonical_cloud.Session.Flows.{revoke}
use canonical_cloud.Http.Extractor.{
  HeaderMap, CookieJar, Site, as_app, header_str, with_cookie, with_bearer, by_credential,
  bearer_token, authenticate_request,
}
use canonical_cloud.Http.Routes.{
  LogoutResponse, logged_out, revoke_cookie, logout_guard, logout, logout_as, as_actor,
}
use canonical_cloud.Http.Guards.{FromSite, HasCsrf, guards_sound, guarded-rule}

as_app-ok :
    {A W : Type 0} (r : Result SessionError A × W) (a : A) (w : W)
    → as_app r ≡ (ok a, w)
    → r ≡ (ok a, w)
as_app-ok (ok b, v) a w h = cc h
as_app-ok (err e, v) a w h = cc h

module _ (service : Service) (timestamp_opt : ℤ → Option ℕ) (site : Site) where
  open service use {libs}

  revoke_cookie-ok :
      (o : Option Text) (raw_id : Text) (w w' : World)
      → o ≡ some raw_id
      → revoke_cookie service site o w ≡ (ok tt, w')
      → revoke service raw_id w ≡ (ok tt, w')
  unfolding revoke_cookie
  revoke_cookie-ok none raw_id w w' found h = cc found
  revoke_cookie-ok (some id) raw_id w w' found h =
      subst (λ x. revoke service x w ≡ (ok tt, w')) (some-injective id raw_id found)
        (as_app-ok (revoke service id w) tt w' h)

  logged_out-ok :
      (r : Result AppError (Unit {0}) × World) (answer : LogoutResponse) (w' : World)
      → logged_out service site r ≡ (ok answer, w')
      → r ≡ (ok tt, w')
  unfolding logged_out
  logged_out-ok (ok tt, w) answer w' h = cc h
  logged_out-ok (err e, w) answer w' h = cc h

  -- The cookie of a session was authenticated.
  with_cookie-ok :
      (role : Role) (o : Option Text) (raw_id : Text) (w w1 : World) (actor : AuthContext)
      → o ≡ some raw_id
      → with_cookie service timestamp_opt site role o w ≡ (ok actor, w1)
      → authenticate service role raw_id w ≡ (ok actor, w1)
  unfolding with_cookie
  with_cookie-ok role none raw_id w w1 actor found h = cc found
  with_cookie-ok role (some id) raw_id w w1 actor found h =
      subst (λ x. authenticate service role x w ≡ (ok actor, w1)) (some-injective id raw_id found)
        (as_app-ok (authenticate service role id w) actor w1 h)

  -- `SessionAuthenticated` takes nothing but the session's cookie.
  by_credential-ok :
      (role : Role) (jar : CookieJar) (r : Result AppError (Option Text)) (raw_id : Text)
      (w w1 : World) (actor : AuthContext)
      → lookup site.session_cookie jar ≡ some raw_id
      → by_credential service timestamp_opt site role false 0 jar r w ≡ (ok actor, w1)
      → authenticate service role raw_id w ≡ (ok actor, w1)
  unfolding by_credential with_bearer
  by_credential-ok role jar (err e) raw_id w w1 actor found h = cc h
  by_credential-ok role jar (ok (some token)) raw_id w w1 actor found h = cc h
  by_credential-ok role jar (ok none) raw_id w w1 actor found h =
      with_cookie-ok role (lookup site.session_cookie jar) raw_id w w1 actor found h

  -- What an answered logout has shown: its origin, and its token, which is that of the session that its
  -- cookie has been authenticated for.
  pub record Confirmed (role : Role) (headers : HeaderMap) (csrf raw_id : Text) (w : World)
      : Type 0 where
    pub actor : AuthContext
    pub behind : World
    pub authenticated : authenticate service role raw_id w ≡ (ok actor, behind)
    pub of_session : IsSession (hash_token libs.cipher raw_id) actor
    pub origin : FromSite headers site
    pub token : HasCsrf actor (or_else (header_str (text "x-csrf-token") headers) (some csrf))

  cookie_token :
      (actor : AuthContext) (supplied : Option Text)
      → actor.source ≡ session_cookie
      → (actor.source ≡ bearer) ⊎ HasCsrf actor supplied
      → HasCsrf actor supplied
  cookie_token actor supplied e (inl b) = cc (e, b)
  cookie_token actor supplied e (inr k) = k

  logout_as-final :
      (drawn : Text → Bool) (role : Role) (actor : AuthContext) (headers : HeaderMap)
      (jar : CookieJar) (csrf raw_id : Text) (claim : RefreshClaim) (answer : LogoutResponse)
      (w0 w w' : World) (rows : Rows)
      → authenticate service role raw_id w0 ≡ (ok actor, w)
      → IsSession (hash_token libs.cipher raw_id) actor
      → IsTable w.rows
      → drawn claim.id_hash ≡ true
      → Rely libs drawn w.events
      → lookup site.session_cookie jar ≡ some raw_id
      → claim.id_hash ≡ hash_token libs.cipher raw_id
      → logout_as service site actor headers jar csrf w ≡ (ok answer, w')
      → Reach libs drawn w'.rows rows
      → Confirmed role headers csrf raw_id w0 × Refused libs.cipher claim rows
  unfolding logout_as logout_guard
  logout_as-final drawn role actor headers jar csrf raw_id claim answer w0 w w' rows known own table
        d rely found same h later =
      guarded-rule
        (λ r.
          r ≡ (ok answer, w')
          → Confirmed role headers csrf raw_id w0 × Refused libs.cipher claim rows)
        (logout_guard service site actor headers csrf) _ w (λ e k. cc k)
        (λ t k.
          let (origin, token) = guards_sound site actor headers (some csrf) t in
          (
            record {
              actor = actor;
              behind = w;
              authenticated = known;
              of_session = own;
              origin = origin;
              token = cookie_token actor _ own.source token;
            },
            revoke_is_final service drawn raw_id claim w w' rows table d rely same
                (revoke_cookie-ok (lookup site.session_cookie jar) raw_id w w' found
                  (logged_out-ok _ answer w' k))
                later,
          ))
        h

  as_actor-final :
      (drawn : Text → Bool) (role : Role) (headers : HeaderMap) (jar : CookieJar)
      (csrf raw_id : Text) (claim : RefreshClaim) (answer : LogoutResponse) (w w' : World)
      (rows : Rows) (r : Result AppError AuthContext × World)
      → authenticate_request service timestamp_opt site role
          (record { headers = headers; jar = jar })
          false
          0
          w
        ≡ r
      → IsTable w.rows
      → drawn claim.id_hash ≡ true
      → Rely libs drawn w.events
      → lookup site.session_cookie jar ≡ some raw_id
      → claim.id_hash ≡ hash_token libs.cipher raw_id
      → as_actor service site headers jar csrf r ≡ (ok answer, w')
      → Reach libs drawn w'.rows rows
      → Confirmed role headers csrf raw_id w × Refused libs.cipher claim rows
  unfolding as_actor authenticate_request
  as_actor-final drawn role headers jar csrf raw_id claim answer w w' rows (err e, w1) known table d
        rely found same h later =
      cc h
  as_actor-final drawn role headers jar csrf raw_id claim answer w w' rows (ok actor, w1) known
        table d rely found same h later =
      let own = by_credential-ok role jar (bearer_token headers) raw_id w w1 actor found known in
      let (reached, rely', q) = (authenticate-Guarantees service drawn role raw_id).at w rely in
      let rows1 = subst (λ x. Reach libs drawn w.rows x.1.rows) own reached in
      let events1 = subst (λ x. Rely libs drawn x.1.events) own rely' in
      logout_as-final drawn role actor headers jar csrf raw_id claim answer w w1 w' rows own
        (subst (λ x. Post (IsSession (hash_token libs.cipher raw_id)) x.0) own q)
        (Reach-Retains rows1 table).0 d events1 found same h later

  -- A logout that is answered has come from an allowed origin, and with the CSRF token of the very
  -- session that its cookie was authenticated for; and it is final: in the table that it leaves, and in
  -- every table that later transactions make of it, a refresh of that session that was in flight stores
  -- nothing, no new refresh starts and the reader of a lost refresh is turned away. It is so if the
  -- table had unique identifiers and valid rows, the other tasks and replicas run the program's own
  -- transactions, logins included, and no login draws the identifier of this session again.
  pub logout-final :
      (drawn : Text → Bool) (role : Role) (headers : HeaderMap) (jar : CookieJar)
      (csrf raw_id : Text) (claim : RefreshClaim) (answer : LogoutResponse) (w w' : World)
      (rows : Rows)
      → IsTable w.rows
      → drawn claim.id_hash ≡ true
      → Rely libs drawn w.events
      → lookup site.session_cookie jar ≡ some raw_id
      → claim.id_hash ≡ hash_token libs.cipher raw_id
      → logout service site timestamp_opt role headers jar csrf w ≡ (ok answer, w')
      → Reach libs drawn w'.rows rows
      → Confirmed role headers csrf raw_id w × Refused libs.cipher claim rows
  unfolding logout
  logout-final drawn role headers jar csrf raw_id claim answer w w' rows table d rely found same h
        later =
      as_actor-final drawn role headers jar csrf raw_id claim answer w w' rows _ refl table d rely
        found same h later
