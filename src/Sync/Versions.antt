-- ===== src/Sync/Versions.antt =====
-- Version numbers as texts: `to_string`, `parse::<i64>()` and `valid_base_version` of
-- canonical-web-server.rs/src/sync/service.rs.
use canonical_cloud.Base.{
  ℕ, zero, suc, ◌+◌, ◌*◌, ◌-◌, ◌/◌, ◌%◌, ◌^◌, ◌≤◌, ◌<◌, ◌≡◌, Option, none, some, [], ◌∷◌, Text,
  text, text_eq, Bool, true, false, not, ◌&&◌, ◌==◌, nat_eq, if◌then◌else◌, leb, ltb, is_some, all,
  arith, inl, inr, Bool-cases, ap, sym, ◌∙◌,
}

-- The digits of `n` in front of a text; `fuel` is more than `n`.
digits_of : ℕ → ℕ → Text → Text
digits_of zero n rest = rest
digits_of (suc fuel) n rest =
    let more = digits_of fuel (n / 10) ((n % 10 + 48) ∷ rest) in
    if ltb n 10 then (n % 10 + 48) ∷ rest else more

-- `i64::to_string` of a number that is not negative.
unfoldable pub to_string : ℕ → Text
unfolding digits_of
to_string n = digits_of (suc n) n []

unfoldable pub is_ascii_digit : ℕ → Bool
is_ascii_digit c = leb 48 c && leb c 57

-- The value of the digits behind a prefix of value `n`.
unfoldable pub value_of : ℕ → Text → Option ℕ
value_of n [] = some n
value_of n (c ∷ s) =
    let rest = value_of (n * 10 + (c - 48)) s in if is_ascii_digit c then rest else none

abbrev pub i64_max : ℕ
i64_max = 2 ^ 63 - 1

at_most : ℕ → Option ℕ → Option ℕ
at_most bound none = none
at_most bound (some n) = if leb n bound then some n else none

-- `parse::<i64>()` on a text without a sign: the calls see no other.
unfoldable pub parse_i64 : Text → Option ℕ
unfolding at_most
parse_i64 [] = none
parse_i64 (c ∷ s) = at_most i64_max (value_of 0 (c ∷ s))

unfoldable pub starts_canonical : Text → Bool
starts_canonical [] = false
starts_canonical (c ∷ s) = is_ascii_digit c && not (c == 48)

unfoldable pub valid_base_version : Option Text → Bool
valid_base_version none = true
valid_base_version (some value) =
    if value == text "0"
    then true
    else starts_canonical value && all is_ascii_digit value && is_some (parse_i64 value)

digit_value : (n : ℕ) → (n % 10 + 48 - 48 ≡ n % 10) × (48 ≤ n % 10 + 48) × (n % 10 + 48 ≤ 57)
digit_value n = omega arith

value_of_digit :
    (n m : ℕ) (rest : Text)
    → m ≡ n * 10 + m % 10
    → value_of n ((m % 10 + 48) ∷ rest) ≡ value_of m rest
unfolding value_of is_ascii_digit
value_of_digit n m rest h = let (d, l, u) = digit_value m in rw (d, ← h) (ground (arith, l, u))

value_of-digits_of :
    (fuel n : ℕ) (rest : Text) → n < fuel → value_of 0 (digits_of fuel n rest) ≡ value_of n rest
unfolding digits_of
value_of-digits_of zero n rest h = absurd (omega (arith, h))
value_of-digits_of (suc fuel) n rest h = elim (Bool-cases (ltb n 10)) [
  | inl e ↦ rw e (value_of_digit 0 n rest (ground arith))
  | inr e ↦ rw e (
      value_of-digits_of fuel (n / 10) ((n % 10 + 48) ∷ rest) (ground arith)
      ∙ value_of_digit (n / 10) n rest (omega arith))
]

digits_of_cons :
    (fuel n : ℕ) (rest : Text) → n < fuel → (c : ℕ) × (s : Text) × (digits_of fuel n rest ≡ c ∷ s)
unfolding digits_of
digits_of_cons zero n rest h = absurd (omega (arith, h))
digits_of_cons (suc fuel) n rest h = elim (Bool-cases (ltb n 10)) [
  | inl e ↦ (n % 10 + 48, rest, rw e)
  | inr e ↦ rw e (digits_of_cons fuel (n / 10) ((n % 10 + 48) ∷ rest) (ground arith))
]

-- A version that is printed reads back as itself, up to the greatest `i64`.
pub parse_i64-to_string : (n : ℕ) → n ≤ i64_max → parse_i64 (to_string n) ≡ some n
unfolding parse_i64 to_string value_of at_most
parse_i64-to_string n h =
    let (c, s, e) = digits_of_cons (suc n) n [] (omega arith) in
    let v = value_of-digits_of (suc n) n [] (omega arith) in
    rw e (rw (sym (ap (value_of 0) e) ∙ v) (ground (arith, h)))
