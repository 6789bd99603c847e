-- ===== src/Http/Tests.antt =====
-- Requests to canonical-web-server.rs on concrete headers, cookies, sessions and tokens.
use canonical_cloud.Base.{
  arith, ℕ, ◌+◌, ◌≡◌, ◌⊎◌, refl, [], ◌∷◌, text, text_eq, text_beq, Option, none, some, true, false,
  Result, ok, err, nat_eq, lookup, ℤ, or_else,
}
use canonical_cloud.Auth.{AuthContext, bearer, session_cookie, seconds}
use canonical_cloud.RateLimit.{new}
use canonical_cloud.Session.Refreshing.{leader}
use canonical_cloud.Session.Cipher.{hash_token}
use canonical_cloud.Session.Logout.{Refused}
use canonical_cloud.Session.Reach.{next, here, claims}
use canonical_cloud.Session.Tests.{
  all_drawn, service, world, claim, libs, tokens, plain_cipher, session,
}
use canonical_cloud.Session.Steps.{IsTable}
use canonical_cloud.WebSocket.Tests.{actor}
use canonical_cloud.Session.Model.{find_by_id, update, on_row}
use canonical_cloud.Session.Policy.{refresh_lease_is_active, validate_model, context_from_model}
use canonical_cloud.Session.Cipher.{decrypt, decrypt_parts, split_at_checked}
use canonical_cloud.Session.Refresh.{
  mark_revocation, claim_refresh, claim_refresh_row, take_lease, leased,
}
use canonical_cloud.Session.Revocation.{queue_revocation}
use canonical_cloud.Session.World.{
  World, ◌>>=◌, transact, failing, after, attempt, pure, commit, utc_now,
}
use canonical_cloud.Session.Flows.{revoke}
use canonical_cloud.Session.Refreshing.{authenticate, authenticate_hash, read_session, valid_row}
use canonical_cloud.Config.Load.{contains_text}
use canonical_cloud.Http.Errors.{AppError}
use canonical_cloud.Http.Extractor.{
  with_cookie, by_credential, bearer_token, in_header, require_origin, require_csrf, allowed_origin,
  csrf_for, same_csrf, HeaderMap, CookieJar, Site, header_str, authenticate_request,
}
use canonical_cloud.Http.Routes.{
  LogoutResponse, logged_out, removal_cookie, removed, guarded, logout_guard, revoke_cookie, push,
  LoginForm, LoginState, LoginService, logout, logout_as, as_actor,
}
use canonical_cloud.Http.SharedAuth.{SharedAuthVerifier, token_fingerprint, csrf_token}
use canonical_cloud.Http.Guards.{authenticate_request-bearer, FromSite, HasCsrf, push-guarded}
use canonical_cloud.Http.Logouts.{logout-final, Confirmed}

abbrev site : Site
site = record {
  allowed_origins = text "https://app" ∷ [];
  session_cookie = text "session";
  cookie_secure = true;
}

-- A request of the session's own page.
abbrev headers : HeaderMap
headers =
    (text "origin", some (text "https://app")) ∷ (text "x-csrf-token", some (text "csrf")) ∷ []

abbrev jar : CookieJar
jar = (text "session", text "s") ∷ (text "canonical_login_csrf", text "page") ∷ []

abbrev bearer_headers : HeaderMap
bearer_headers = (text "authorization", some (text "Bearer t")) ∷ []

abbrev no_time : ℤ → Option ℕ
no_time n = none

authenticate_request-bearer_example :
    (authenticate_request service no_time site leader
        (record { headers = bearer_headers; jar = jar })
        true
        1
        world
      ≡ authenticate_request service no_time site leader
          (record { headers = bearer_headers; jar = [] })
          true
          1
          world)
    × (authenticate_request service no_time site leader
          (record { headers = bearer_headers; jar = jar })
          false
          1
          world
        ≡ (err AppError.unauthorized, world))
unfolding lookup text_beq
authenticate_request-bearer_example =
    authenticate_request-bearer service no_time site leader bearer_headers (some (text "Bearer t"))
      jar [] true 1 world refl

abbrev count_push : ℕ → Result AppError ℕ × ℕ
count_push n = (ok n, n + 1)

push-guarded_example :
    ((push site actor headers count_push 3).1 ≡ 3)
    ⊎ ((actor.source ≡ bearer)
        ⊎ (FromSite headers site
            × HasCsrf actor (or_else (header_str (text "x-csrf-token") headers) none)))
push-guarded_example = push-guarded site actor headers count_push 3

abbrev form : LoginForm
form = record { email = text "a@b.c"; password = text "p"; csrf = text "page" }

abbrev logins : LoginService
logins = record {
  limiter = record {
    max_attempts = 5;
    global_max_attempts = 500;
    window = seconds 600;
    max_keys = 4096;
  };
  digest = λ s. s;
  password_sign_in = λ email password. ok tokens;
  libs = libs;
  draws = record {
    raw_id = text "n";
    csrf_token = text "c";
    access_nonce = text "nonce_nonce_";
    refresh_nonce = text "nonce_nonce_";
  };
  session_ttl = seconds 86400;
}

abbrev before : LoginState
before = record { limiter = new 0; rows = []; profiles = []; sign_ins = [] }

abbrev realm : SharedAuthVerifier
realm = record {
  cookie_name = text "shared";
  csrf_key = [];
  send = λ token. some (record {
    status = 200;
    headers =
        (text "x-auth-user-id", some (text "1"))
        ∷ (text "x-auth-email", some (text "a@b.c"))
        ∷ (text "x-auth-provider", some (text "p"))
        ∷ (text "x-auth-provider-tenant", some (text "t"))
        ∷ [];
  });
  tokens = record {
    decode_no_pad = λ s. none;
    decode_padded = λ s. none;
    parse_json = λ bytes. none;
    parse_uuid = λ s. some 1;
  };
  timestamp_opt = no_time;
  digest = λ bytes. bytes;
  encode = λ bytes. bytes;
  as_bytes = λ s. s;
}

abbrev answer : LogoutResponse
answer = record {
  cookie = removed (record { name = text "session"; value = []; secure = true; max_age = some 0 });
  clear_site_data = text "\"cache\", \"cookies\", \"storage\"";
}

-- A session whose access token is good for a while.
abbrev signed_in : World
signed_in = record world { rows = (record session { access_expires_at = seconds 500 }) ∷ [] }

signed_in-IsTable : IsTable signed_in.rows
unfolding find_by_id
signed_in-IsTable = record { unique = (refl, tt); valid = (ground arith, tt) }

logout-final_example :
    Confirmed service no_time site leader headers (text "csrf") (text "s") signed_in
    × Refused plain_cipher claim
        (logout service site no_time leader headers jar (text "csrf") signed_in).1.rows
unfolding revoke ◌>>=◌ transact failing queue_revocation on_row find_by_id after claim_refresh
    text_beq mark_revocation attempt pure commit claim_refresh_row validate_model
    refresh_lease_is_active take_lease decrypt split_at_checked decrypt_parts update leased
    hash_token logout logout_as as_actor logout_guard guarded revoke_cookie lookup logged_out
    removal_cookie require_origin require_csrf allowed_origin header_str csrf_for same_csrf
    contains_text authenticate_request by_credential with_cookie authenticate authenticate_hash
    read_session valid_row utc_now context_from_model bearer_token in_header
logout-final_example =
    logout-final service no_time site all_drawn leader headers jar (text "csrf") (text "s") claim
      answer signed_in (logout service site no_time leader headers jar (text "csrf") signed_in).1
      (logout service site no_time leader headers jar (text "csrf") signed_in).1.rows
      signed_in-IsTable refl (λ a. next here (claims (text "s") 7 (seconds 50) (seconds 50) a), tt)
      refl refl refl here

abbrev verified : AuthContext
verified = record {
  user_id = 1;
  email = text "a@b.c";
  source = session_cookie;
  supabase_session_id = none;
  session_hash = some (token_fingerprint realm (text "t"));
  csrf_token = some (csrf_token realm (text "t"));
  expires_at = seconds 350;
}
