-- ===== src/Quote/Tests.antt =====
-- A quote form and an answer of the quote service, as canonical-web-server.rs reads them.
use canonical_cloud.Base.{
  ℕ, refl, List, [], ◌∷◌, text, text_beq, Option, none, some, true, false, trim, trim_start,
  is_whitespace, retain, utf8_len,
}
use canonical_cloud.Auth.Token.{split}
use canonical_cloud.Config.Values.{parse_uint, parse_digits}
use canonical_cloud.Config.Load.{contains_text}
use canonical_cloud.Quote.Forms.{
  QuoteForm, QuoteRequest, split_list, optional, refuse, whole_amount, revenue_of, selected,
  frameworks_of, request_of, into_request,
}
use canonical_cloud.Quote.Client.{Response}
use canonical_cloud.Quote.Checks.{IsRequest, into_request-IsRequest}

abbrev form : QuoteForm
form = record {
  csrf = text "csrf";
  company_name = text " Example";
  industry = text "Software";
  employee_count = 15;
  annual_revenue_usd = text "1000000";
  security_program_maturity = text "documented";
  target_timeline = text "unsure";
  cloud_providers = text "AWS, Cloudflare";
  existing_certifications = [];
  notes = [];
  soc2 = some (text "on");
  nist_csf = none;
  nist_800_53 = none;
  hipaa = some (text "on");
  iso_27001 = none;
  fedramp = none;
  pci_dss = none;
  gdpr = none;
  handles_phi = some (text "on");
  handles_payment_cards = none;
}

abbrev request : QuoteRequest
request = record {
  company_name = text "Example";
  industry = text "Software";
  employee_count = 15;
  annual_revenue_usd = some 1000000;
  frameworks = text "soc2" ∷ text "hipaa" ∷ [];
  cloud_providers = text "AWS" ∷ text "Cloudflare" ∷ [];
  handles_phi = true;
  handles_payment_cards = false;
  security_program_maturity = text "documented";
  target_timeline = text "unsure";
  existing_certifications = [];
  notes = none;
}

into_request-IsRequest_example : IsRequest request
unfolding into_request refuse revenue_of whole_amount parse_uint parse_digits selected frameworks_of
    request_of split_list optional trim trim_start is_whitespace retain split contains_text text_beq
    utf8_len
into_request-IsRequest_example = into_request-IsRequest form request refl

abbrev answer : Response
answer = record { status = 200; chunks = some (1 ∷ []) ∷ some (2 ∷ []) ∷ [] }

abbrev bytes_of : List ℕ → Option (List ℕ)
bytes_of bytes = some bytes
