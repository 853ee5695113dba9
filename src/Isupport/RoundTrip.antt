-- ===== src/Isupport/RoundTrip.antt =====
-- parsePrefix accepts exactly the well-formed PREFIX values, and reads each back.
use lierc.Base.{
  false, List, [], ◌∷◌, ◌++◌, none, some, ◌≡◌, refl, ◌≢◌, arith, Text, contains, cut, cut-append,
  cut_sound, length, Option-cases, Bool-cases, inl, inr, ◌==◌, ap, is_nil, not, ◌||◌, if◌then◌else◌,
}
use lierc.Isupport.{Prefix, pair_up, parse_modes, parse_prefix}

-- The modes and the symbols of a list of entries, and the PREFIX value that advertises it.
abbrev pub modes : List Prefix → Text
modes [] = []
modes (p ∷ ps) = p.mode ∷ modes ps

abbrev pub symbols : List Prefix → Text
symbols [] = []
symbols (p ∷ ps) = p.symbol ∷ symbols ps

abbrev pub advertise : List Prefix → Text
advertise ps = b'(' ∷ (modes ps ++ b')' ∷ symbols ps)

-- A list that a PREFIX value can stand for: not empty, and no mode is the ")" that ends the modes.
pub record IsPrefixList (ps : List Prefix) : Type 0 where
  pub nonempty : ps ≢ []
  pub no_paren : contains b')' (modes ps) ≡ false

pair_up-modes-symbols : (ps : List Prefix) → pair_up (modes ps) (symbols ps) ≡ ps
unfolding pair_up
pair_up-modes-symbols [] = refl
pair_up-modes-symbols (p ∷ ps) = ap (◌∷◌ p) (pair_up-modes-symbols ps)

length-modes-symbols : (ps : List Prefix) → length (modes ps) ≡ length (symbols ps)
length-modes-symbols [] = refl
length-modes-symbols (p ∷ ps) = ground (arith, length-modes-symbols ps)

-- A well-formed list of prefixes is read back from the PREFIX value that advertises it.
pub parse_prefix-advertise :
    (ps : List Prefix) → IsPrefixList ps → parse_prefix (advertise ps) ≡ some ps
unfolding parse_prefix
parse_prefix-advertise [] h = absurd (h.nonempty refl)
parse_prefix-advertise (p ∷ ps) h = ground (
  arith,
  cut-append b')' (modes (p ∷ ps)) (symbols (p ∷ ps)),
  length-modes-symbols (p ∷ ps),
  pair_up-modes-symbols (p ∷ ps),
)

modes-pair_up : (m s : Text) → length m ≡ length s → modes (pair_up m s) ≡ m
unfolding pair_up
modes-pair_up [] s h = refl
modes-pair_up (x ∷ m) [] h = absurd (omega arith)
modes-pair_up (x ∷ m) (y ∷ s) h = ground (arith, modes-pair_up m s)

symbols-pair_up : (m s : Text) → length m ≡ length s → symbols (pair_up m s) ≡ s
unfolding pair_up
symbols-pair_up [] [] h = refl
symbols-pair_up [] (y ∷ s) h = absurd (omega arith)
symbols-pair_up (x ∷ m) [] h = absurd (omega arith)
symbols-pair_up (x ∷ m) (y ∷ s) h = ground (arith, symbols-pair_up m s)

accepted :
    (m s : Text) (ps : List Prefix)
    → (if is_nil m || not (length m == length s) then none else some (pair_up m s)) ≡ some ps
    → (is_nil m ≡ false) × (length m ≡ length s) × (pair_up m s ≡ ps)
accepted m s ps h = ground arith

pair_up-ne-nil : (m s : Text) → is_nil m ≡ false → length m ≡ length s → pair_up m s ≢ []
unfolding pair_up
pair_up-ne-nil [] s h l = cc
pair_up-ne-nil (x ∷ m) [] h l = absurd (omega arith)
pair_up-ne-nil (x ∷ m) (y ∷ s) h l = ground arith

parse_modes_sound :
    (rest : Text) (ps : List Prefix)
    → parse_modes rest ≡ some ps
    → (rest ≡ modes ps ++ b')' ∷ symbols ps) × (ps ≢ []) × (contains b')' (modes ps) ≡ false)
unfolding parse_modes
parse_modes_sound rest ps h = elim (Option-cases (cut b')' rest)) [
  | inl e ↦ ground arith
  | inr ((m, s), e) ↦
      let (ne, len, eq) = accepted m s ps (rw (e, parse_modes) at h) in
      let (splits, none_in) = cut_sound b')' rest m s e in
      rw (← eq) (
        rw (modes-pair_up m s len, symbols-pair_up m s len)
          (splits, pair_up-ne-nil m s ne len, none_in))
]

-- A value that parsePrefix accepts is the advertisement of the list it returns, and that list is
-- well formed.
pub parse_prefix_sound :
    (v : Text) (ps : List Prefix) → parse_prefix v ≡ some ps → (v ≡ advertise ps) × IsPrefixList ps
unfolding parse_prefix
parse_prefix_sound [] ps h = absurd (cc)
parse_prefix_sound (c ∷ rest) ps h = elim (Bool-cases (c == b'(')) [
  | inl e ↦
      let (splits, ne, none_in) = parse_modes_sound rest ps (rw (e, parse_prefix) at h) in
      (ground arith, record { nonempty = ne; no_paren = none_in })
  | inr e ↦ ground arith
]
