-- ===== src/Http/Errors.antt =====
-- canonical-web-server.rs/src/error.rs: `AppError` and how it is answered. The errors of libraries
-- that a variant wraps are only logged, and left out.
use canonical_cloud.Base.{
  ℕ, ◌≡◌, ◌≤◌, arith, refl, Text, text, Option, none, some, is_some, nat_beq,
}
use canonical_cloud.Session.Model.{SessionError}
use canonical_cloud.Sync.Versions.{to_string}

pub data AppError : Type 0 where
  unauthorized forbidden : AppError
  bad_request : Text → AppError
  invalid_sync_cursor not_found auth_upstream service_upstream : AppError
  rate_limited : ℕ → AppError
  login_auth_busy auth_busy database http_client auth_client io crypto serialization : AppError

unfoldable pub from_session : SessionError → AppError
from_session SessionError.unauthorized = AppError.unauthorized
from_session (SessionError.bad_request message) = AppError.bad_request message
from_session SessionError.auth_upstream = AppError.auth_upstream
from_session SessionError.database = AppError.database
from_session SessionError.crypto = AppError.crypto

-- A response with the body `{"error": {"code": …, "message": …}}`.
pub record ErrorResponse : Type 0 where
  pub status : ℕ
  pub code : Text
  pub message : Text
  pub retry_after : Option Text

-- The status, the code and the message of an error.
unfoldable pub described : AppError → ℕ × Text × Text
described unauthorized = (401, text "unauthorized", text "authentication required")
described forbidden = (403, text "forbidden", text "request is not allowed")
described (bad_request message) = (400, text "bad_request", message)
described invalid_sync_cursor = (400, text "invalid_sync_cursor", text "invalid sync cursor")
described not_found = (404, text "not_found", text "resource not found")
described auth_upstream = (
  503,
  text "auth_upstream_unavailable",
  text "authentication service is temporarily unavailable",
)
described service_upstream =
    (503, text "service_upstream_unavailable", text "quote analysis is temporarily unavailable")
described (rate_limited seconds) = (429, text "rate_limited", text "too many requests; retry later")
described login_auth_busy =
    (429, text "login_auth_busy", text "authentication is temporarily busy; retry later")
described auth_busy = (
  429,
  text "auth_verification_busy",
  text "authentication verification is temporarily busy; retry later",
)
described _ = (500, text "internal_error", text "the server could not complete the request")

unfoldable pub retry_after_seconds : AppError → Option ℕ
retry_after_seconds (rate_limited seconds) = some seconds
retry_after_seconds login_auth_busy = some 1
retry_after_seconds auth_busy = some 1
retry_after_seconds _ = none

unfoldable pub header_of : Option ℕ → Option Text
header_of none = none
header_of (some seconds) = some (to_string seconds)

unfoldable pub into_response : AppError → ErrorResponse
into_response error =
    let (status, code, message) = described error in
    record {
      status = status;
      code = code;
      message = message;
      retry_after = header_of (retry_after_seconds error);
    }

-- Every error is answered with a client or server error status; with a time to wait exactly if the
-- status is 429; and an internal error, of status 500, always with the same words, whatever failed.
into_response-closed :
    (error : AppError)
    → (400 ≤ (into_response error).status)
      × (is_some (into_response error).retry_after ≡ nat_beq (into_response error).status 429)
      × ((into_response error).status ≡ 500
          → (into_response error).code ≡ text "internal_error"
            × ((into_response error).message ≡ text "the server could not complete the request"))
unfolding into_response described header_of retry_after_seconds
into_response-closed unauthorized = (omega arith, refl, λ h. ground arith)
into_response-closed forbidden = (omega arith, refl, λ h. ground arith)
into_response-closed (bad_request message) = (omega arith, refl, λ h. ground arith)
into_response-closed invalid_sync_cursor = (omega arith, refl, λ h. ground arith)
into_response-closed not_found = (omega arith, refl, λ h. ground arith)
into_response-closed auth_upstream = (omega arith, refl, λ h. ground arith)
into_response-closed service_upstream = (omega arith, refl, λ h. ground arith)
into_response-closed (rate_limited seconds) = (omega arith, refl, λ h. ground arith)
into_response-closed login_auth_busy = (omega arith, refl, λ h. ground arith)
into_response-closed auth_busy = (omega arith, refl, λ h. ground arith)
into_response-closed database = (omega arith, refl, λ h. (refl, refl))
into_response-closed http_client = (omega arith, refl, λ h. (refl, refl))
into_response-closed auth_client = (omega arith, refl, λ h. (refl, refl))
into_response-closed io = (omega arith, refl, λ h. (refl, refl))
into_response-closed crypto = (omega arith, refl, λ h. (refl, refl))
into_response-closed serialization = (omega arith, refl, λ h. (refl, refl))
