-- ===== src/Isupport/Tests.antt =====
-- Runs and instances for pkg/lierc/isupport.go, on the inputs of isupport_test.go.
use lierc.Base.{List, [], ◌∷◌, ◌≡◌, refl, none, some, text, arith, contains, cut}
use lierc.Isupport.{
  Prefix, prefix, parse_prefix, isupport_tokens, pair_up, escape, escape_byte, token,
}
use lierc.Isupport.RoundTrip.{parse_prefix-advertise, IsPrefixList}

abbrev voiced : List Prefix
voiced = prefix b'@' b'o' ∷ prefix b'+' b'v' ∷ []

parse_prefix_run : parse_prefix (text "(ov)@+") ≡ some voiced
unfolding parse_prefix cut pair_up
parse_prefix_run = refl

malformed_run :
    (parse_prefix (text "ov@+") ≡ none)
    × (parse_prefix (text "()") ≡ none)
    × (parse_prefix (text "(ov)@") ≡ none)
unfolding parse_prefix cut pair_up
malformed_run = (refl, refl, refl)

isupport_tokens_run :
    isupport_tokens ((text "NETWORK", text "a b") ∷ (text "EXCEPTS", []) ∷ [])
    ≡ text "NETWORK=a\\x20b" ∷ text "EXCEPTS" ∷ []
unfolding isupport_tokens token escape escape_byte
isupport_tokens_run = refl

voiced-IsPrefixList : IsPrefixList voiced
unfolding contains
voiced-IsPrefixList = record { nonempty = λ e. ground arith; no_paren = refl }

parse_prefix-advertise_example : parse_prefix (text "(ov)@+") ≡ some voiced
parse_prefix-advertise_example = parse_prefix-advertise voiced voiced-IsPrefixList
