-- ===== src/Auth.antt =====
-- canonical-web-server.rs/crates/canonical-auth/src/lib.rs: the identity that a request carries, the
-- errors of the identity provider, and the claims that a token makes.
pub mod Json
pub mod Token
pub mod Supabase
pub mod Laws
pub mod Tests
use canonical_cloud.Base.{ℕ, ◌*◌, Option, Text}

-- A UUID is its 128-bit value; a `DateTime<Utc>` is a number of nanoseconds.
abbrev pub Uuid : Type 0
Uuid = ℕ

abbrev pub seconds : ℕ → ℕ
seconds n = n * 1000000000

pub data CredentialSource : Type 0 where
  session_cookie bearer : CredentialSource

pub record AuthContext : Type 0 where
  pub user_id : Uuid
  pub email : Text
  pub source : CredentialSource
  pub supabase_session_id : Option Uuid
  pub session_hash : Option Text
  pub csrf_token : Option Text
  pub expires_at : ℕ

pub record SupabaseUser : Type 0 where
  pub id : Uuid
  pub email : Option Text

pub record AuthTokens : Type 0 where
  pub access_token : Text
  pub refresh_token : Text
  pub expires_at : ℕ
  pub user : SupabaseUser

pub data AuthProviderError : Type 0 where
  invalid_credentials unavailable invalid_response : AuthProviderError
