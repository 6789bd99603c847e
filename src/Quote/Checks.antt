-- ===== src/Quote/Checks.antt =====
-- What a quote form that canonical-web-server.rs/src/routes/quote.rs accepts has, and how much of an
-- answer canonical-web-server.rs/src/quote_api.rs reads.
use canonical_cloud.Base.{
  Ensures, Anything, anything, ensured, bind-Ensures, then-Ensures, imp-Ensures, refusing-Ensures,
  ℕ, suc, ◌+◌, ◌≤◌, ◌≡◌, refl, ap, arith, List, [], ◌∷◌, ◌++◌, Text, text_eq, Option, none, some,
  Bool, true, false, not, ◌||◌, Result, ok, ok_or, ltb, nat_eq, is_empty, is_some_and, length,
  length-append, take, length-take_le, map, retain, trim, utf8_len, All, ◌>>◌,
}
use canonical_cloud.Auth.Token.{split}
use canonical_cloud.Config.Load.{contains_text}
use canonical_cloud.Http.Errors.{AppError}
use canonical_cloud.Quote.Forms.{
  QuoteForm, QuoteRequest, split_list, refuse, revenue_of, maturities, timelines, request_of,
  into_request,
}
use canonical_cloud.Quote.Client.{Response, read_body, expected_status, decode}

-- Entries that are few and short.
pub record IsShort (entries size : ℕ) (l : List Text) : Type 0 where
  pub count : length l ≤ entries
  pub sizes : All (λ s. length s ≤ size) l

length-map : (size : ℕ) (l : List Text) → length (map (take size) l) ≡ length l
length-map size [] = refl
length-map size (s ∷ l) = ap (λ n. suc n) (length-map size l)

cut : (size : ℕ) (l : List Text) → All (λ s. length s ≤ size) (map (take size) l)
cut size [] = tt
cut size (s ∷ l) = (length-take_le size s, cut size l)

split_list-IsShort :
    (value : Text) (entries size : ℕ) → IsShort entries size (split_list value entries size)
unfolding split_list
split_list-IsShort value entries size =
    let l = retain (λ s. not (is_empty s)) (map trim (split b',' value)) in
    record {
      count = omega (arith, length-map size (take entries l), length-take_le entries l);
      sizes = cut size (take entries l);
    }

-- A request within the bounds that its form promises; the notes count in bytes.
pub record IsRequest (request : QuoteRequest) : Type 0 where
  pub company : (is_empty request.company_name ≡ false) × (length request.company_name ≤ 200)
  pub industry : (is_empty request.industry ≡ false) × (length request.industry ≤ 120)
  pub employees : (1 ≤ request.employee_count) × (request.employee_count ≤ 1000000)
  pub revenue : is_some_and request.annual_revenue_usd (λ value. ltb 10000000000000 value) ≡ false
  pub frameworks : is_empty request.frameworks ≡ false
  pub maturity : contains_text request.security_program_maturity maturities ≡ true
  pub timeline : contains_text request.target_timeline timelines ≡ true
  pub notes : is_some_and request.notes (λ value. ltb 4000 (utf8_len value)) ≡ false
  pub providers : IsShort 8 80 request.cloud_providers
  pub certifications : IsShort 16 120 request.existing_certifications

let_through : (message : Text) (t : Bool) → refuse message t ≡ ok tt → t ≡ false
unfolding refuse
let_through message true h = cc h
let_through message false h = refl

-- A test of the form, in front of the rest.
refuse-Ensures :
    (message : Text) (t : Bool) (r : Result AppError QuoteRequest)
    → (t ≡ false → Ensures IsRequest r)
    → Ensures IsRequest (refuse message t >> r)
refuse-Ensures message t r h =
    then-Ensures IsRequest (refuse message t) r λ e. h (let_through message t e)

named : (empty : Bool) (n most : ℕ) → (empty || ltb most n) ≡ false → (empty ≡ false) × (n ≤ most)
named empty n most h = ground (arith, h)

some-Ensures : {T : Type 0} (e : AppError) (o : Option T) → Ensures (λ v. o ≡ some v) (ok_or o e)
some-Ensures e none = tt
some-Ensures e (some v) = refl

into_request-Ensures : (form : QuoteForm) → Ensures IsRequest (into_request form)
unfolding into_request request_of
into_request-Ensures form = refuse-Ensures _ _ _ λ company. refuse-Ensures _ _ _ λ industry.
    refuse-Ensures _ _ _ λ employees.
      bind-Ensures Anything IsRequest (revenue_of form.annual_revenue_usd) _ (anything _)
        λ annual _. refuse-Ensures _ _ _ λ revenue. refuse-Ensures _ _ _ λ frameworks.
          refuse-Ensures _ _ _ λ maturity. refuse-Ensures _ _ _ λ timeline.
            refuse-Ensures _ _ _ λ notes. record {
              company =
                  named (is_empty (trim form.company_name)) (length (trim form.company_name)) 200
                    company;
              industry =
                  named (is_empty (trim form.industry)) (length (trim form.industry)) 120 industry;
              employees = ground (arith, employees);
              revenue = revenue;
              frameworks = frameworks;
              maturity = ground (arith, maturity);
              timeline = ground (arith, timeline);
              notes = notes;
              providers = split_list-IsShort form.cloud_providers 8 80;
              certifications = split_list-IsShort form.existing_certifications 16 120;
            }

-- A form that is accepted becomes a request within its bounds: a company of 1 to 200 characters, an
-- industry of 1 to 120, 1 to 1000000 employees, a revenue of at most 10000000000000, a framework at
-- least, a maturity and a timeline of the lists, notes of at most 4000 bytes, and at most 8 providers
-- of 80 characters and 16 certifications of 120.
pub into_request-IsRequest :
    (form : QuoteForm) (request : QuoteRequest) → into_request form ≡ ok request → IsRequest request
into_request-IsRequest form request e =
    ensured IsRequest (into_request form) request (into_request-Ensures form) e

read_body-bounded :
    (bytes : List ℕ) (chunks : List (Option (List ℕ)))
    → length bytes ≤ 524288
    → Ensures (λ body. length body ≤ 524288) (read_body bytes chunks)
unfolding read_body
read_body-bounded bytes [] h = h
read_body-bounded bytes (none ∷ chunks) h = tt
read_body-bounded bytes (some chunk ∷ chunks) h =
    refusing-Ensures _ (ltb 524288 (length bytes + length chunk)) _ _
      λ e. read_body-bounded (bytes ++ chunk) chunks (ground (arith, e, length-append bytes chunk))

expected_status-ok :
    (expected status : ℕ)
    → expected_status expected status ≡ ok tt
    → (status ≡ expected) × (200 ≤ status) × (status ≤ 299)
unfolding expected_status
expected_status-ok expected status h = ground (arith, h)

-- What is read of an answer of the quote service is a body of at most 512 KiB, behind the status that
-- was expected, which is one of success.
decode-bounded :
    {T : Type 0} (from_slice : List ℕ → Option T) (expected : ℕ) (response : Response) (value : T)
    → decode from_slice expected response ≡ ok value
    → (response.status ≡ expected)
      × (200 ≤ response.status)
      × (response.status ≤ 299)
      × ((body : List ℕ) × (from_slice body ≡ some value) × (length body ≤ 524288))
unfolding decode
decode-bounded {T} from_slice expected response value e =
    let Read : T → Type 0 = λ v.
      (response.status ≡ expected)
      × (200 ≤ response.status)
      × (response.status ≤ 299)
      × ((body : List ℕ) × (from_slice body ≡ some v) × (length body ≤ 524288)) in
    ensured Read (decode from_slice expected response) value
      (then-Ensures Read (expected_status expected response.status) _ λ h.
        bind-Ensures (λ body. length body ≤ 524288) Read (read_body [] response.chunks) _
          (read_body-bounded [] response.chunks (omega arith))
          λ body short.
            let (a, b, c) = expected_status-ok expected response.status h in
            imp-Ensures (λ v. from_slice body ≡ some v) Read _ (λ v f. (a, b, c, (body, f, short)))
              (some-Ensures AppError.serialization (from_slice body)))
      e
