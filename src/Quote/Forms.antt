-- ===== src/Quote/Forms.antt =====
-- `QuoteForm::into_request` of canonical-web-server.rs/src/routes/quote.rs and what it calls.
use canonical_cloud.Base.{
  ℕ, List, [], ◌∷◌, Text, text, text_eq, Option, none, some, Bool, true, false, not, ◌&&◌, ◌||◌,
  if◌then◌else◌, Result, ok, err, ltb, leb, is_empty, is_some, is_some_and, length, take, map,
  retain, trim, utf8_len, ◌>>=◌, ◌>>◌,
}
use canonical_cloud.Auth.Token.{split}
use canonical_cloud.Config.Values.{parse_uint, max_of_bits}
use canonical_cloud.Config.Load.{contains_text}
use canonical_cloud.Http.Errors.{AppError}

pub record QuoteForm : Type 0 where
  pub csrf : Text
  pub company_name : Text
  pub industry : Text
  pub employee_count : ℕ
  pub annual_revenue_usd : Text
  pub security_program_maturity : Text
  pub target_timeline : Text
  pub cloud_providers : Text
  pub existing_certifications : Text
  pub notes : Text
  pub soc2 : Option Text
  pub nist_csf : Option Text
  pub nist_800_53 : Option Text
  pub hipaa : Option Text
  pub iso_27001 : Option Text
  pub fedramp : Option Text
  pub pci_dss : Option Text
  pub gdpr : Option Text
  pub handles_phi : Option Text
  pub handles_payment_cards : Option Text

pub record QuoteRequest : Type 0 where
  pub company_name : Text
  pub industry : Text
  pub employee_count : ℕ
  pub annual_revenue_usd : Option ℕ
  pub frameworks : List Text
  pub cloud_providers : List Text
  pub handles_phi : Bool
  pub handles_payment_cards : Bool
  pub security_program_maturity : Text
  pub target_timeline : Text
  pub existing_certifications : List Text
  pub notes : Option Text

-- `split(',')`, then `trim`, `filter`, `take` and the cut of every entry.
unfoldable pub split_list : Text → ℕ → ℕ → List Text
split_list value maximum_entries maximum_length =
    map (take maximum_length)
      (take maximum_entries (retain (λ s. not (is_empty s)) (map trim (split b',' value))))

unfoldable pub optional : Text → Option Text
optional value = if is_empty (trim value) then none else some (trim value)

unfoldable pub refuse : Text → Bool → Result AppError (Unit {0})
refuse message true = err (AppError.bad_request message)
refuse message false = ok tt

unfoldable pub whole_amount : Result Text ℕ → Result AppError (Option ℕ)
whole_amount (ok n) = ok (some n)
whole_amount (err e) = err (AppError.bad_request (text "annual revenue must be a whole USD amount"))

unfoldable pub revenue_of : Text → Result AppError (Option ℕ)
revenue_of value =
    if is_empty (trim value)
    then ok none
    else whole_amount (parse_uint (max_of_bits 64) (trim value))

-- `filter_map` of the boxes that are ticked.
unfoldable pub selected : List (Text × Option Text) → List Text
selected [] = []
selected ((name, none) ∷ rest) = selected rest
selected ((name, some value) ∷ rest) = name ∷ selected rest

unfoldable pub frameworks_of : QuoteForm → List Text
frameworks_of form = selected (
    (text "soc2", form.soc2)
    ∷ (text "nist-csf", form.nist_csf)
    ∷ (text "nist-800-53", form.nist_800_53)
    ∷ (text "hipaa", form.hipaa)
    ∷ (text "iso-27001", form.iso_27001)
    ∷ (text "fedramp", form.fedramp)
    ∷ (text "pci-dss", form.pci_dss)
    ∷ (text "gdpr", form.gdpr)
    ∷ [])

abbrev pub maturities : List Text
maturities =
    text "none" ∷ text "informal" ∷ text "documented" ∷ text "managed" ∷ text "audited" ∷ []

abbrev pub timelines : List Text
timelines =
    text "under_3_months"
    ∷ text "3_to_6_months"
    ∷ text "6_to_12_months"
    ∷ text "over_12_months"
    ∷ text "unsure"
    ∷ []

unfoldable pub request_of : QuoteForm → Option ℕ → QuoteRequest
request_of form annual_revenue_usd = record {
  company_name = trim form.company_name;
  industry = trim form.industry;
  employee_count = form.employee_count;
  annual_revenue_usd = annual_revenue_usd;
  frameworks = frameworks_of form;
  cloud_providers = split_list form.cloud_providers 8 80;
  handles_phi = is_some form.handles_phi;
  handles_payment_cards = is_some form.handles_payment_cards;
  security_program_maturity = form.security_program_maturity;
  target_timeline = form.target_timeline;
  existing_certifications = split_list form.existing_certifications 16 120;
  notes = optional form.notes;
}

-- `chars().count()` is the length of a text, and `len()` `utf8_len`.
unfoldable pub into_request : QuoteForm → Result AppError QuoteRequest
into_request form =
    refuse (text "company name is required and must be at most 200 characters")
      (is_empty (trim form.company_name) || ltb 200 (length (trim form.company_name)))
    >> (refuse (text "industry is required and must be at most 120 characters")
          (is_empty (trim form.industry) || ltb 120 (length (trim form.industry)))
        >> (refuse (text "employee count must be between 1 and 1000000")
              (not (leb 1 form.employee_count && leb form.employee_count 1000000))
            >> (revenue_of form.annual_revenue_usd >>= λ annual_revenue_usd.
                refuse (text "annual revenue is outside the supported range")
                  (is_some_and annual_revenue_usd (λ value. ltb 10000000000000 value))
                >> (refuse (text "choose at least one supported framework")
                      (is_empty (frameworks_of form))
                    >> (refuse (text "choose a supported security program maturity")
                          (not (contains_text form.security_program_maturity maturities))
                        >> (refuse (text "choose a supported target timeline")
                              (not (contains_text form.target_timeline timelines))
                            >> (refuse (text "notes must be at most 4000 characters") (
                                  is_some_and (optional form.notes)
                                    (λ value. ltb 4000 (utf8_len value)))
                                >> ok (request_of form annual_revenue_usd))))))))
