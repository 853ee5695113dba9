-- ===== src/DialGuard.antt =====
-- pkg/lierc/dialguard.go: the addresses that a client may not connect to. netip.ParseAddrPort is a
-- parameter; netip's addresses and prefixes are numbers of 32 or 128 bits.
pub mod Dial
mod Tests
use lierc.Base.{
  ℕ, ◌+◌, ◌-◌, ◌*◌, ◌/◌, ◌%◌, ◌^◌, ◌<◌, Bool, true, false, not, ◌&&◌, ◌||◌, List, [], ◌∷◌, Option,
  none, some, ◌==◌, ◌≡◌, refl, sym, ◌∙◌, ap, arith, if◌then◌else◌, Text,
}

-- netip.Addr: an IPv6 address has a zone, which may be empty.
pub data Addr : Type 0 where
  v4 : ℕ → Addr
  v6 : ℕ → Text → Addr

-- netip.Prefix
pub data NetPrefix : Type 0 where
  prefix4 : ℕ → ℕ → NetPrefix
  prefix6 : ℕ → ℕ → NetPrefix

abbrev pub quad : ℕ → ℕ → ℕ → ℕ → ℕ
quad a b c d = ((a * 256 + b) * 256 + c) * 256 + d

unfoldable pub blocked_prefixes : List NetPrefix
blocked_prefixes =
    prefix4 (quad 0 0 0 0) 8
    ∷ prefix4 (quad 10 0 0 0) 8
    ∷ prefix4 (quad 100 64 0 0) 10
    ∷ prefix4 (quad 127 0 0 0) 8
    ∷ prefix4 (quad 169 254 0 0) 16
    ∷ prefix4 (quad 172 16 0 0) 12
    ∷ prefix4 (quad 192 0 0 0) 24
    ∷ prefix4 (quad 192 168 0 0) 16
    ∷ prefix4 (quad 198 18 0 0) 15
    ∷ prefix4 (quad 224 0 0 0) 4
    ∷ prefix4 (quad 240 0 0 0) 4
    ∷ prefix6 0 128
    ∷ prefix6 1 128
    ∷ prefix6 (64512 * 2 ^ 112) 7
    ∷ prefix6 (65152 * 2 ^ 112) 10
    ∷ prefix6 (65280 * 2 ^ 112) 8
    ∷ prefix6 (100 * 2 ^ 112 + 65435 * 2 ^ 96) 96
    ∷ []

-- Prefix.Contains, which is false of an address with a zone or of the other family.
unfoldable pub prefix_contains : NetPrefix → Addr → Bool
prefix_contains (prefix4 base bits) (v4 n) = n / 2 ^ (32 - bits) == base / 2 ^ (32 - bits)
prefix_contains (prefix4 base bits) (v6 n zone) = false
prefix_contains (prefix6 base bits) (v4 n) = false
prefix_contains (prefix6 base bits) (v6 n []) = n / 2 ^ (128 - bits) == base / 2 ^ (128 - bits)
prefix_contains (prefix6 base bits) (v6 n (z ∷ zone)) = false

-- WithZone("") and Unmap
unfoldable pub without_zone : Addr → Addr
without_zone (v4 n) = v4 n
without_zone (v6 n zone) = v6 n []

unfoldable pub unmap : Addr → Addr
unmap (v4 n) = v4 n
unmap (v6 n zone) = if n / 4294967296 == 65535 then v4 (n % 4294967296) else v6 n zone

unfoldable pub any_contains : List NetPrefix → Addr → Bool
any_contains [] ip = false
any_contains (p ∷ ps) ip = if prefix_contains p ip then true else any_contains ps ip

unfoldable pub blocked_ip : Addr → Bool
blocked_ip ip = any_contains blocked_prefixes (unmap (without_zone ip))

-- guardedDialer's Control, with the parse of the address: whether it lets the dial go on.
unfoldable pub dial_allowed : (Text → Option Addr) → Bool → Text → Bool
dial_allowed parse true address = true
dial_allowed parse false address = elim (parse address) [
  | none ↦ false
  | some ip ↦ not (blocked_ip ip)
]

-- An IPv6 address that carries an IPv4 address, with any zone or none, is blocked exactly if the
-- IPv4 address is.
pub blocked_ip_mapped :
    (n : ℕ) (zone : Text)
    → n < 4294967296
    → blocked_ip (v6 (65535 * 4294967296 + n) zone) ≡ blocked_ip (v4 n)
unfolding blocked_ip unmap without_zone
blocked_ip_mapped n zone h =
    let high : ((65535 * 4294967296 + n) / 4294967296 == 65535) ≡ true = ground arith in
    let low : (65535 * 4294967296 + n) % 4294967296 ≡ n = omega arith in rw (high, low)
