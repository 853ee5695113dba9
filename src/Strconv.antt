-- ===== src/Strconv.antt =====
-- Package strconv where the source uses it: Itoa, Atoi and ParseInt(s, 10, 64).
pub mod Decimal
use lierc.Base.{
  ℕ, zero, suc, ◌+◌, ◌-◌, ◌*◌, ◌/◌, ◌%◌, ◌^◌, Bool, true, false, ◌&&◌, ◌||◌, not, List, [], ◌∷◌,
  ◌++◌, Option, none, some, Text, leb, ltb, ◌==◌, if◌then◌else◌, is_nil,
}

-- A Go int or int64. `negsuc n` is -(n + 1).
pub data ℤ : Type 0 where
  pos : ℕ → ℤ
  negsuc : ℕ → ℤ

-- The decimal digits of n; the fuel n + 1 is more than there are digits.
unfoldable pub digits_fuel : ℕ → ℕ → Text
digits_fuel zero n = []
digits_fuel (suc f) n =
    let rest = digits_fuel f (n / 10) ++ (b'0' + n % 10) ∷ [] in
    if ltb n 10 then (b'0' + n) ∷ [] else rest

unfoldable pub digits : ℕ → Text
unfolding digits_fuel
digits n = digits_fuel (suc n) n

-- strconv.Itoa
unfoldable pub itoa : ℤ → Text
unfolding digits
itoa (pos n) = digits n
itoa (negsuc n) = b'-' ∷ digits (suc n)

unfoldable pub is_digit : ℕ → Bool
is_digit c = leb b'0' c && leb c b'9'

unfoldable pub all_digits : Text → Bool
unfolding is_digit
all_digits [] = true
all_digits (c ∷ cs) = is_digit c && all_digits cs

-- The number that digits stand for, behind the digits read so far.
unfoldable pub value : ℕ → Text → ℕ
value acc [] = acc
value acc (c ∷ cs) = value (acc * 10 + (c - b'0')) cs

-- ParseInt's result: an out-of-range error comes with the nearest int64.
pub data Parsed : Type 0 where
  parsed : ℤ → Parsed
  bad_syntax : Parsed
  out_of_range : ℤ → Parsed

abbrev pub max_int64 : ℕ
max_int64 = 2 ^ 63 - 1

unfoldable pub parse_magnitude : Bool → Text → Parsed
unfolding all_digits value
parse_magnitude minus s =
    if is_nil s || not (all_digits s)
    then bad_syntax
    else let n = value 0 s in
      if minus
      then (if n == 0
          then parsed (pos 0)
          else if leb n (2 ^ 63)
          then parsed (negsuc (n - 1))
          else out_of_range (negsuc max_int64))
      else if leb n max_int64
      then parsed (pos n)
      else out_of_range (pos max_int64)

-- strconv.ParseInt(s, 10, 64); strconv.Atoi is the same on a 64-bit platform.
unfoldable pub parse_int : Text → Parsed
unfolding parse_magnitude
parse_int [] = bad_syntax
parse_int (c ∷ s) =
    if c == b'-'
    then parse_magnitude true s
    else if c == b'+'
    then parse_magnitude false s
    else parse_magnitude false (c ∷ s)

-- n, err := strconv.Atoi(s), with none for an error.
unfoldable pub atoi : Text → Option ℤ
unfolding parse_int
atoi s = elim (parse_int s) [ parsed z ↦ some z | _ ↦ none ]

-- n, _ := strconv.ParseInt(s, 10, 64)
unfoldable pub parse_or_nearest : Text → ℤ
unfolding parse_int
parse_or_nearest s = elim (parse_int s) [ parsed z ↦ z | bad_syntax ↦ pos 0 | out_of_range z ↦ z ]
