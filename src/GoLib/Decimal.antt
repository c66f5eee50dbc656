-- ===== src/GoLib/Decimal.antt =====
-- strconv: decimal numbers in text.
use nimbus_fs.Prelude.{
  ℕ, zero, suc, ◌+◌, ◌-◌, ◌*◌, ◌/◌, ◌%◌, ◌^◌, ◌≤◌, ◌<◌, ◌==◌, leb, Bool, true, false, ◌&&◌, ◌||◌,
  not, Bool-cases, inl, inr, if◌then◌else◌, ◌≡◌, ◌≢◌, refl, sym, ap, ◌∙◌, [], ◌∷◌, Option, none,
  some, arith, GoString, codes, All, ℤ, pos, negsuc,
}

abbrev pub IsDigit : ℕ → Type 0
IsDigit c = (b'0' ≤ c) × (c ≤ b'9')

-- The digits of `n` before `out`.
digits_from : ℕ → ℕ → GoString → GoString
digits_from zero n out = out
digits_from (suc f) n out =
    let rest = digits_from f (n / 10) ((b'0' + n % 10) ∷ out) in
    if n / 10 == 0 then (b'0' + n % 10) ∷ out else rest

-- strconv.FormatUint(n, 10), and "%d" of a number that is not negative.
unfoldable pub format : ℕ → GoString
unfolding digits_from
format n = digits_from (suc n) n []

-- "%d"
unfoldable pub format_int : ℤ → GoString
unfolding format
format_int (pos n) = format n
format_int (negsuc n) = b'-' ∷ format (suc n)

-- The number that a text of digits stands for, after digits that stand for `acc`.
unfoldable pub value : ℕ → GoString → ℕ
value acc [] = acc
value acc (c ∷ s) = value (acc * 10 + (c - b'0')) s

unfoldable pub all_digits : GoString → Bool
all_digits [] = true
all_digits (c ∷ s) = leb b'0' c && leb c b'9' && all_digits s

abbrev is_nil : GoString → Bool
is_nil [] = true
is_nil (c ∷ s) = false

-- Digits, at least one.
unfoldable pub parse_digits : GoString → Option ℕ
unfolding value all_digits
parse_digits s = if is_nil s || not (all_digits s) then none else some (value 0 s)

abbrev in_range : ℕ → ℕ → ℤ → Option ℤ
in_range limit n z = if leb n limit then some z else none

abbrev negated : ℕ → ℤ
negated zero = pos 0
negated (suc n) = negsuc n

abbrev signed : Bool → Option ℕ → Option ℤ
signed b none = none
signed true (some n) = in_range (2 ^ 63) n (negated n)
signed false (some n) = in_range (2 ^ 63 - 1) n (pos n)

-- strconv.Atoi: `none` is its error.
unfoldable pub atoi : GoString → Option ℤ
unfolding parse_digits
atoi [] = none
atoi (c ∷ s) =
    if c == b'-'
    then signed true (parse_digits s)
    else if c == b'+'
    then signed false (parse_digits s)
    else signed false (parse_digits (c ∷ s))

value-digits_from : (f n : ℕ) (out : GoString) → n < f → value 0 (digits_from f n out) ≡ value n out
unfolding digits_from value
value-digits_from zero n out h = absurd (omega arith)
value-digits_from (suc f) n out h = elim (Bool-cases (n / 10 == 0)) [
  | inl e ↦ rw e (ap (λ t. value t out) (ground arith))
  | inr e ↦
      rw e (value-digits_from f (n / 10) _ (ground arith) ∙ ap (λ t. value t out) (omega arith))
]

-- What is printed stands for the number.
pub value-format : (n : ℕ) → value 0 (format n) ≡ n
unfolding format value
value-format n = value-digits_from (suc n) n [] (omega arith)

digits_from-IsDigit :
    (f n : ℕ) (out : GoString) → All IsDigit out → All IsDigit (digits_from f n out)
unfolding digits_from
digits_from-IsDigit zero n out h = h
digits_from-IsDigit (suc f) n out h = elim (Bool-cases (n / 10 == 0)) [
  | inl e ↦ rw e ((omega arith, omega arith), h)
  | inr e ↦ rw e (digits_from-IsDigit f (n / 10) _ ((omega arith, omega arith), h))
]

pub format-IsDigit : (n : ℕ) → All IsDigit (format n)
unfolding format
format-IsDigit n = digits_from-IsDigit (suc n) n [] tt

digits_from-is_full : (f n : ℕ) (out : GoString) → out ≢ [] → digits_from f n out ≢ []
unfolding digits_from
digits_from-is_full zero n out h = h
digits_from-is_full (suc f) n out h = elim (Bool-cases (n / 10 == 0)) [
  | inl b ↦ rw b (λ e. cc)
  | inr b ↦ rw b (digits_from-is_full f (n / 10) _ (λ e. cc))
]

pub format-is_full : (n : ℕ) → format n ≢ []
unfolding format digits_from
format-is_full n = elim (Bool-cases (n / 10 == 0)) [
  | inl b ↦ rw b (λ e. cc)
  | inr b ↦ rw b (digits_from-is_full n (n / 10) _ (λ e. cc))
]

pub format_inj : (n m : ℕ) → format n ≡ format m → n ≡ m
format_inj n m e = sym (value-format n) ∙ ap (value 0) e ∙ value-format m

atoi_runs :
    (atoi (codes "1000") ≡ some (pos 1000))
    × (atoi (codes "-7") ≡ some (negsuc 6))
    × (atoi (codes "7x") ≡ none)
    × (atoi (codes "9223372036854775808") ≡ none)
unfolding atoi
atoi_runs = (refl, refl, refl, refl)
