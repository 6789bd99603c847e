-- ===== src/Auth/Tests.antt =====
-- Runs of the token and key readers (canonical-web-server.rs/crates/canonical-auth/src/lib.rs), with
-- a codec that leaves its input as it is and claims that name the subject 1 and the session 5.
use canonical_cloud.Base.{
  ◌≡◌, refl, Option, none, some, Text, text, text_eq, text_beq, ◌==◌, ok, if◌then◌else◌,
}
use canonical_cloud.Auth.{Uuid, AuthTokens}
use canonical_cloud.Auth.Json.{Json, str, obj, field, end, get, get_field, as_str}
use canonical_cloud.Auth.Token.{
  TokenLibs, split, jwt_segments, claim_str, uuid_claim, validated_payload, validated_session_id,
}
use canonical_cloud.Auth.Supabase.{Sent, TokenResponse}

abbrev claims : Json
claims = obj (field (text "sub") (str (text "u")) (field (text "session_id") (str (text "s")) end))

abbrev read_uuid : Text → Option Uuid
unfolding text_beq
read_uuid s = if s == text "u" then some 1 else if s == text "s" then some 5 else none

abbrev libs : TokenLibs
libs = record {
  decode_no_pad = λ s. some s;
  decode_padded = λ s. some s;
  parse_json = λ s. some claims;
  parse_uuid = read_uuid;
}

abbrev token : Text
token = text "h.p.s"

accepted : validated_session_id libs token 1 ≡ ok (some 5)
unfolding validated_session_id jwt_segments split validated_payload uuid_claim claim_str get
    get_field text_beq as_str read_uuid
accepted = refl

abbrev user : Uuid
user = 1

abbrev id : Uuid
id = 5

abbrev answer : Sent TokenResponse
answer = some (record {
  status = 200;
  json = some (record {
    access_token = token;
    refresh_token = text "r";
    expires_in = 3600;
    expires_at = none;
    user = record { id = 1; email = none };
  });
})

abbrev tokens : AuthTokens
tokens = record {
  access_token = token;
  refresh_token = text "r";
  expires_at = 3600000000000;
  user = record { id = 1; email = none };
}
