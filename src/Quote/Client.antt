-- ===== src/Quote/Client.antt =====
-- `QuoteApiClient` of canonical-web-server.rs/src/quote_api.rs, and the handlers of
-- canonical-web-server.rs/src/routes/quote.rs that use it. The HTTP client and the JSON readers are
-- parameters.
use canonical_cloud.Base.{
  ℕ, ◌+◌, ◌*◌, List, [], ◌∷◌, ◌++◌, Text, text, text_eq, Option, none, some, Bool, true, false, not,
  ◌&&◌, ◌||◌, if◌then◌else◌, Result, ok, err, ok_or, ltb, leb, ◌==◌, nat_eq, is_empty, is_some,
  is_none, length, trim, utf8_len, unwrap_or, contains, and_then, map, ◌>>=◌, ◌>>◌,
}
use canonical_cloud.Auth.{Uuid, AuthContext}
use canonical_cloud.Auth.Json.{Json, num, get, as_str}
use canonical_cloud.Sync.Versions.{to_string}
use canonical_cloud.Config.Values.{Env, max_of_bits}
use canonical_cloud.Config.Urls.{Url, ParseUrl}
use canonical_cloud.Http.Errors.{AppError}
use canonical_cloud.Http.Extractor.{HeaderMap, Site, require_origin, require_csrf}
use canonical_cloud.Http.Routes.{is_htmx}
use canonical_cloud.Http.SharedAuth.{ends_with}
use canonical_cloud.Quote.Forms.{QuoteForm, QuoteRequest, into_request}

abbrev pub max_response_bytes : ℕ
max_response_bytes = 512 * 1024

-- A response: its status, and the chunks of its body, where `none` is a chunk that did not arrive.
pub record Response : Type 0 where
  pub status : ℕ
  pub chunks : List (Option (List ℕ))

unfoldable pub read_body : List ℕ → List (Option (List ℕ)) → Result AppError (List ℕ)
read_body bytes [] = ok bytes
read_body bytes (none ∷ chunks) = err AppError.http_client
read_body bytes (some chunk ∷ chunks) =
    let rest = read_body (bytes ++ chunk) chunks in
    if ltb max_response_bytes (length bytes + length chunk)
    then err AppError.service_upstream
    else rest

-- The test of the response's status.
unfoldable pub expected_status : ℕ → ℕ → Result AppError (Unit {0})
expected_status expected status =
    if status == 404
    then err AppError.not_found
    else if status == 400 || status == 422
    then err (AppError.bad_request (text "review the quote fields and try again"))
    else if not (status == expected) || not (leb 200 status && leb status 299)
    then err AppError.service_upstream
    else ok tt

-- `from_slice` is `serde_json::from_slice`.
unfoldable pub decode : {T : Type 0} → (List ℕ → Option T) → ℕ → Response → Result AppError T
decode from_slice expected response =
    expected_status expected response.status
    >> (read_body [] response.chunks >>= λ bytes. ok_or (from_slice bytes) AppError.serialization)

pub record ApiQuoteRecord : Type 0 where
  pub analysis : Option Json
  pub error_code : Option Text
  pub frameworks : List Text
  pub organization_name : Text
  pub quote_id : Uuid
  pub status : Text

pub record QuoteEstimate : Type 0 where
  pub low : ℕ
  pub high : ℕ
  pub currency : Text

pub record QuoteResponse : Type 0 where
  pub id : Uuid
  pub status : Text
  pub company_name : Text
  pub frameworks : List Text
  pub estimate : Option QuoteEstimate
  pub analysis_summary : Option Text
  pub error_code : Option Text

-- `Value::as_u64`
unfoldable pub as_u64 : Json → Option ℕ
as_u64 (num n) = if leb n (max_of_bits 64) then some n else none
as_u64 _ = none

unfoldable pub estimate_of : Json → Option QuoteEstimate
estimate_of analysis =
    and_then (and_then (get (text "estimated_total_fee_low") analysis) as_u64) λ low.
      and_then (and_then (get (text "estimated_total_fee_high") analysis) as_u64) λ high.
        and_then (and_then (get (text "currency") analysis) as_str)
          λ currency. some record { low = low; high = high; currency = currency }

unfoldable pub from_record : ApiQuoteRecord → QuoteResponse
from_record quote = record {
  id = quote.quote_id;
  status = quote.status;
  company_name = quote.organization_name;
  frameworks = quote.frameworks;
  estimate = and_then quote.analysis estimate_of;
  analysis_summary = and_then (and_then quote.analysis (get (text "summary"))) as_str;
  error_code = quote.error_code;
}

-- `join` of the lines or the entries of a list.
unfoldable pub join : Text → List Text → Text
join separator [] = []
join separator (s ∷ []) = s
join separator (s ∷ t ∷ rest) = s ++ (separator ++ join separator (t ∷ rest))

unfoldable pub bool_text : Bool → Text
bool_text true = text "true"
bool_text false = text "false"

unfoldable pub line_if : Bool → Text → List Text
line_if true line = line ∷ []
line_if false line = []

unfoldable pub revenue_line : Option ℕ → List Text
revenue_line none = []
revenue_line (some revenue) = (text "Annual revenue USD: " ++ to_string revenue) ∷ []

-- 10 ends a line.
unfoldable pub notes_line : Option Text → List Text
notes_line none = []
notes_line (some notes) = (text "Additional customer notes:" ++ (10 ∷ notes)) ∷ []

unfoldable pub analysis_notes : QuoteRequest → Text
analysis_notes request = join (10 ∷ []) (
    (text "Security program maturity: " ++ request.security_program_maturity)
    ∷ (text "Requested timeline: " ++ request.target_timeline)
    ∷ (text "Handles protected health information: " ++ bool_text request.handles_phi)
    ∷ (text "Handles payment-card data: " ++ bool_text request.handles_payment_cards)
    ∷ (revenue_line request.annual_revenue_usd
        ++ (line_if (not (is_empty request.cloud_providers))
              (text "Cloud providers: " ++ join (text ", ") request.cloud_providers)
            ++ (line_if (not (is_empty request.existing_certifications)) (
                  text "Existing certifications: "
                  ++ join (text ", ") request.existing_certifications)
                ++ notes_line request.notes))))

pub record ApiCreateQuoteRequest : Type 0 where
  pub frameworks : List Text
  pub notes : Option Text
  pub employee_count : ℕ
  pub industry : Text
  pub legal_name : Text

unfoldable pub payload_of : QuoteRequest → ApiCreateQuoteRequest
payload_of request = record {
  frameworks = request.frameworks;
  notes = some (analysis_notes request);
  employee_count = request.employee_count;
  industry = request.industry;
  legal_name = request.company_name;
}

-- The client with its settings, its transport, and the readers of headers, UUIDs and JSON.
pub record QuoteApiClient : Type 0 where
  pub base_url : Text
  pub internal_auth_token : Text
  pub post : Text → HeaderMap → ApiCreateQuoteRequest → Option Response
  pub read : Text → HeaderMap → Option Response
  pub header_value : Text → Option Text
  pub uuid_text : Uuid → Text
  pub one : List ℕ → Option ApiQuoteRecord
  pub many : List ℕ → Option (List ApiQuoteRecord)

module _ (client : QuoteApiClient) (actor : AuthContext) where
  unfoldable pub headers_of : Result AppError HeaderMap
  headers_of = do
    token ← ok_or (client.header_value client.internal_auth_token) AppError.crypto
    subject ← ok_or (client.header_value (client.uuid_text actor.user_id)) AppError.crypto
    ok (
        (text "x-canonical-internal-token", some token)
        ∷ (text "x-canonical-subject", some subject)
        ∷ [])

  unfoldable pub quotes_url : Text
  quotes_url = client.base_url ++ text "/v1/quotes"

  unfoldable pub create : QuoteRequest → Result AppError QuoteResponse
  create request = do
    headers ← headers_of
    response ← ok_or (client.post quotes_url headers (payload_of request)) AppError.http_client
    quote ← decode client.one 202 response
    ok (from_record quote)

  unfoldable pub get_quote : Uuid → Result AppError QuoteResponse
  get_quote quote_id = do
    headers ← headers_of
    response ←
        ok_or (client.read (quotes_url ++ (b'/' ∷ client.uuid_text quote_id)) headers)
          AppError.http_client
    quote ← decode client.one 200 response
    ok (from_record quote)

  unfoldable pub list : Result AppError (List QuoteResponse)
  list = do
    headers ← headers_of
    response ← ok_or (client.read quotes_url headers) AppError.http_client
    quotes ← decode client.many 200 response
    ok (map from_record quotes)

-- The hosts that plain HTTP may go to.
unfoldable pub is_internal : Text → Bool
is_internal host =
    host == text "localhost"
    || host == text "127.0.0.1"
    || host == text "::1"
    || ends_with (text ".svc") host
    || contains (text ".svc.") host

unfoldable pub checked_url : Url → Result AppError Text
checked_url url =
    if is_none url.host_str
      || not (is_empty url.username)
      || is_some url.password
      || is_some url.query
      || is_some url.fragment
      || not (url.path == text "/")
      || (not (url.scheme == text "https")
          && not (url.scheme == text "http" && is_internal (unwrap_or url.host_str [])))
    then err (
        AppError.bad_request (
          text
            "CANONICAL_API_URL must be an HTTPS origin, except for loopback or Kubernetes service DNS"))
    else ok url.origin

unfoldable pub checked_token : Text → Result AppError Text
checked_token token =
    if not (trim token == token) || ltb (utf8_len token) 32
    then err
        (AppError.bad_request (text "CANONICAL_INTERNAL_AUTH_TOKEN must contain at least 32 bytes"))
    else ok token

unfoldable pub parsed_url : Result Text Url → Result AppError Url
parsed_url (ok url) = ok url
parsed_url (err e) = err (AppError.bad_request (text "CANONICAL_API_URL must be absolute"))

-- The address and the token of `from_env`.
unfoldable pub settings : Env → ParseUrl → Result AppError (Text × Text)
settings env parse = do
  raw_url ←
      ok_or (env.var (text "CANONICAL_API_URL"))
        (AppError.bad_request (text "CANONICAL_API_URL is required"))
  url ← parsed_url (parse raw_url)
  base_url ← checked_url url
  given ←
      ok_or (env.var (text "CANONICAL_INTERNAL_AUTH_TOKEN"))
        (AppError.bad_request (text "CANONICAL_INTERNAL_AUTH_TOKEN is required"))
  token ← checked_token given
  ok (base_url, token)

-- How a quote handler answers.
pub data Reply : Type 0 where
  sign_in : Bool → Reply
  failed : AppError → Reply
  form_error : Bool → Text → Reply
  fragment : QuoteResponse → Reply
  redirected : Uuid → Reply

unfoldable pub bad_form : Bool → AppError → Reply
bad_form htmx (AppError.bad_request message) = form_error htmx message
bad_form htmx error = failed error

unfoldable pub created : Bool → Result AppError QuoteResponse → Reply
created true (ok quote) = fragment quote
created false (ok quote) = redirected quote.id
created htmx (err error) = bad_form htmx error

unfoldable pub send_request :
    Bool → AuthContext → Option QuoteApiClient → Result AppError QuoteRequest → Reply
send_request htmx actor client (err error) = bad_form htmx error
send_request htmx actor none (ok request) = failed AppError.service_upstream
send_request htmx actor (some client) (ok request) = created htmx (create client actor request)

unfoldable pub submit_as :
    Site → HeaderMap → Option QuoteApiClient → QuoteForm → AuthContext → Reply
submit_as site headers client form actor =
    elim (require_origin headers site >> require_csrf actor headers (some form.csrf)) [
      | err error ↦ failed error
      | ok _ ↦ send_request (is_htmx headers) actor client (into_request form)
    ]

-- `submit`, on the outcome of the quote authentication.
unfoldable pub submit :
    Site → HeaderMap → Option QuoteApiClient → QuoteForm → Result AppError AuthContext → Reply
submit site headers client form (ok actor) = submit_as site headers client form actor
submit site headers client form (err AppError.unauthorized) = sign_in (is_htmx headers)
submit site headers client form (err error) = failed error
