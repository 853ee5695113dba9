-- ===== src/Strconv/Decimal.antt =====
-- What Itoa writes, Atoi reads back.
use lierc.Base.{
  ℕ, zero, suc, ◌+◌, ◌-◌, ◌*◌, ◌/◌, ◌%◌, ◌<◌, ◌≤◌, ◌≡◌, refl, true, false, ◌&&◌, [], ◌∷◌, ◌++◌,
  Text, arith, ◌∙◌, ltb, leb, Bool-cases, inl, inr, some, none, is_nil, if◌then◌else◌,
}
use lierc.Strconv.{
  digits_fuel, digits, is_digit, all_digits, value, pos, parse_magnitude, parse_int, atoi,
  max_int64, parsed,
}

value-append :
    (acc : ℕ) (xs : Text) (c : ℕ) → value acc (xs ++ c ∷ []) ≡ value acc xs * 10 + (c - b'0')
unfolding value
value-append acc [] c = refl
value-append acc (x ∷ xs) c = value-append (acc * 10 + (x - b'0')) xs c

all_digits-append : (xs : Text) (c : ℕ) → all_digits (xs ++ c ∷ []) ≡ (all_digits xs && is_digit c)
unfolding all_digits
all_digits-append [] c = ground arith
all_digits-append (x ∷ xs) c = ground (arith, all_digits-append xs c)

value-digits_fuel : (f n : ℕ) → n < f → value 0 (digits_fuel f n) ≡ n
unfolding digits_fuel
value-digits_fuel zero n h = elim h [ ]
value-digits_fuel (suc f) n h = elim (Bool-cases (ltb n 10)) [
  | inl e ↦ rw e (unfold value in omega arith)
  | inr e ↦ rw e (
      value-append 0 (digits_fuel f (n / 10)) (b'0' + n % 10)
      ∙ ground (arith, value-digits_fuel f (n / 10)))
]

all_digits-digits_fuel : (f n : ℕ) → all_digits (digits_fuel f n) ≡ true
unfolding digits_fuel
all_digits-digits_fuel zero n = unfold all_digits in refl
all_digits-digits_fuel (suc f) n = elim (Bool-cases (ltb n 10)) [
  | inl e ↦ rw e (unfold all_digits in ground arith)
  | inr e ↦ rw e (
      all_digits-append (digits_fuel f (n / 10)) (b'0' + n % 10)
      ∙ ground (arith, all_digits-digits_fuel f (n / 10), last_digit n))
]
  where
    last_digit : (n : ℕ) → is_digit (b'0' + n % 10) ≡ true
    last_digit n = unfold is_digit in ground arith

pub value-digits : (n : ℕ) → value 0 (digits n) ≡ n
unfolding digits
value-digits n = value-digits_fuel (suc n) n (omega arith)

pub all_digits-digits : (n : ℕ) → all_digits (digits n) ≡ true
unfolding digits
all_digits-digits n = all_digits-digits_fuel (suc n) n

is_nil-append : (xs : Text) (c : ℕ) → is_nil (xs ++ c ∷ []) ≡ false
is_nil-append [] c = refl
is_nil-append (x ∷ xs) c = refl

pub is_nil-digits : (n : ℕ) → is_nil (digits n) ≡ false
unfolding digits digits_fuel
is_nil-digits n = elim (Bool-cases (ltb n 10)) [
  | inl e ↦ rw e
  | inr e ↦ rw e (is_nil-append (digits_fuel n (n / 10)) (b'0' + n % 10))
]

-- Digits alone are read as a number with no sign.
pub parse_int-digits :
    (s : Text)
    → is_nil s ≡ false
    → all_digits s ≡ true
    → value 0 s ≤ max_int64
    → parse_int s ≡ parsed (pos (value 0 s))
unfolding parse_int is_digit
parse_int-digits [] ne h le = cc
parse_int-digits (c ∷ s) ne h le = ground arith

pub atoi-digits : (n : ℕ) → n ≤ max_int64 → atoi (digits n) ≡ some (pos n)
unfolding atoi
atoi-digits n h = rw (
  parse_int-digits (digits n) (is_nil-digits n) (all_digits-digits n)
      (omega (arith, value-digits n)),
  value-digits n,
  atoi,
)

parse_int-unsigned :
    (s : Text) → is_nil s ≡ false → all_digits s ≡ true → parse_int s ≡ parse_magnitude false s
unfolding parse_int is_digit
parse_int-unsigned [] ne h = cc
parse_int-unsigned (c ∷ s) ne h = ground arith

-- Digits alone are a number, or too large for an int64.
pub atoi-unsigned :
    (s : Text)
    → is_nil s ≡ false
    → all_digits s ≡ true
    → atoi s ≡ (if leb (value 0 s) max_int64 then some (pos (value 0 s)) else none)
unfolding atoi parse_magnitude
atoi-unsigned s ne h = rw (parse_int-unsigned s ne h, atoi) (ground arith)
