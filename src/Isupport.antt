-- ===== src/Isupport.antt =====
-- pkg/lierc/isupport.go: the nick prefixes that ISUPPORT's PREFIX gives, and the tokens of the map.
pub mod RoundTrip
mod Tests
use lierc.Base.{
  ℕ, Bool, true, false, ◌&&◌, ◌||◌, not, List, [], ◌∷◌, ◌++◌, Option, none, some, ◌==◌,
  if◌then◌else◌, Text, text, Map, lookup, cut, is_nil, length,
}

-- An entry {symbol, mode}.
pub record Prefix : Type 0 where
  pub symbol : ℕ
  pub mode : ℕ

abbrev pub prefix : ℕ → ℕ → Prefix
prefix symbol mode = record { symbol = symbol; mode = mode }

-- The default when the server does not advertise PREFIX.
abbrev pub default_prefix : List Prefix
default_prefix = prefix b'@' b'o' ∷ prefix b'+' b'v' ∷ prefix b'%' b'h' ∷ []

-- The loop of parsePrefix: prefix[i] = {symbols[i], modes[i]}, over the indexes of modes.
unfoldable pub pair_up : Text → Text → List Prefix
pair_up [] symbols = []
pair_up (m ∷ modes) [] = []
pair_up (m ∷ modes) (s ∷ symbols) = prefix s m ∷ pair_up modes symbols

-- What follows the "(": none where the Go function returns false.
unfoldable pub parse_modes : Text → Option (List Prefix)
parse_modes rest = elim (cut b')' rest) [
  | none ↦ none
  | some (modes, symbols) ↦
      if is_nil modes || not (length modes == length symbols)
      then none
      else some (pair_up modes symbols)
]

unfoldable pub parse_prefix : Text → Option (List Prefix)
unfolding parse_modes
parse_prefix [] = none
parse_prefix (c ∷ rest) = if c == b'(' then parse_modes rest else none

-- isupport["PREFIX"] of a Go map: "" when it is missing.
unfoldable pub or_empty : Option Text → Text
or_empty none = []
or_empty (some v) = v

unfoldable pub or_default : Option (List Prefix) → List Prefix
or_default none = default_prefix
or_default (some p) = p

unfoldable pub prefixes_from : Map Text → List Prefix
unfolding or_default or_empty
prefixes_from isupport = or_default (parse_prefix (or_empty (lookup (text "PREFIX") isupport)))

-- isupportEscaper, byte by byte: no pattern is a prefix of another, and a replacement is not read again.
unfoldable pub escape_byte : ℕ → Text
escape_byte c =
    if c == b'\\'
    then text "\\x5C"
    else if c == b' '
    then text "\\x20"
    else if c == b'='
    then text "\\x3D"
    else c ∷ []

unfoldable pub escape : Text → Text
escape [] = []
escape (c ∷ cs) = escape_byte c ++ escape cs

-- One token of isupportTokens.
unfoldable pub token : Text → Text → Text
token k [] = k
token k (c ∷ v) = k ++ b'=' ∷ escape (c ∷ v)

unfoldable pub isupport_tokens : Map Text → List Text
isupport_tokens [] = []
isupport_tokens ((k, v) ∷ m) = token k v ∷ isupport_tokens m
