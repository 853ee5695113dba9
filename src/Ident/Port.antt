-- ===== src/Ident/Port.antt =====
-- parsePort: which texts are ports, and how a port is given back.
use lierc.Base.{
  ℕ, Bool, not, ◌&&◌, ◌||◌, none, some, ◌≡◌, arith, leb, if◌then◌else◌, Text, is_nil, Bool-cases,
  inl, inr,
}
use lierc.Unicode.{Unicode, trim_space}
use lierc.Strconv.{pos, digits, itoa, value, all_digits}
use lierc.Strconv.Decimal.{atoi-unsigned}
use lierc.Ident.{port_in_range, port_of_trimmed, parse_port}

-- Digits alone, whose number is a port.
abbrev pub is_port : Text → Bool
is_port s = not (is_nil s) && (all_digits s && (leb 1 (value 0 s) && leb (value 0 s) 65535))

in_range :
    (n : ℕ) → port_in_range (pos n) ≡ (if leb 1 n && leb n 65535 then some (digits n) else none)
unfolding port_in_range itoa
in_range n = ground arith

port_of_trimmed_lem :
    (s : Text) → port_of_trimmed s ≡ (if is_port s then some (digits (value 0 s)) else none)
unfolding port_of_trimmed
port_of_trimmed_lem s = elim (Bool-cases (is_nil s || not (all_digits s))) [
  | inl e ↦ ground arith
  | inr e ↦
      let number = atoi-unsigned s (ground arith) (ground arith) in
      ground (arith, in_range (value 0 s))
]

-- parsePort accepts a text exactly if, trimmed, it is decimal digits whose value lies from 1 to
-- 65535, and returns the plain decimal digits of that value.
pub parse_port_lem :
    ⦃u : Unicode⦄ (s : Text)
    → parse_port s
      ≡ (if is_port (trim_space s) then some (digits (value 0 (trim_space s))) else none)
unfolding parse_port
parse_port_lem s = port_of_trimmed_lem (trim_space s)
