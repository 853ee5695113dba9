-- ===== src/Unicode.antt =====
-- What packages strings, unicode and strconv decide by Unicode's tables and by UTF-8: parameters of
-- the development. Text is bytes; `runes` is what []rune and a range loop see of it.
pub mod Ascii
use lierc.Base.{
  ℕ, Bool, true, false, List, [], ◌∷◌, ◌≡◌, Text, contains, length, ◌<◌, if◌then◌else◌, Option,
  none, some,
}

pub record Unicode : Type 0 where
  -- []rune(s), and string(r) or WriteRune
  pub runes : Text → List ℕ
  pub of_runes : List ℕ → Text
  -- strings.ToLower, strings.ToUpper, strings.EqualFold
  pub lower : Text → Text
  pub upper : Text → Text
  pub equal_fold : Text → Text → Bool
  -- unicode.IsPrint, unicode.IsSpace
  pub is_print : ℕ → Bool
  pub is_space : ℕ → Bool
  -- fmt's %q
  pub quote : Text → Text

-- The documented facts that some theorems rely on.
pub record IsUnicode (u : Unicode) : Type 0 where
  -- each rune is written so that it is read back as one
  pub length_runes : (r : List ℕ) → length (u.runes (u.of_runes r)) ≡ length r
  -- UTF-8 writes no ASCII byte for another rune
  pub no_ascii :
      (b : ℕ) (r : List ℕ) → b < 128 → contains b r ≡ false → contains b (u.of_runes r) ≡ false
  -- a line break is no printable character
  pub control : (u.is_print b'\n' ≡ false) × (u.is_print b'\r' ≡ false)
  -- a text is equal to itself, whatever the case
  pub fold_refl : (s : Text) → u.equal_fold s s ≡ true

-- Leading elements that pass the test are dropped.
unfoldable pub drop_while : (ℕ → Bool) → List ℕ → List ℕ
drop_while p [] = []
drop_while p (x ∷ xs) = let rest = drop_while p xs in if p x then rest else x ∷ xs

-- Trailing elements that pass the test are dropped, as strings.TrimRight does.
unfoldable pub trim_right : (ℕ → Bool) → List ℕ → List ℕ
trim_right p [] = []
trim_right p (x ∷ xs) = elim (trim_right p xs) [
  | [] ↦ if p x then [] else x ∷ []
  | y ∷ ys ↦ x ∷ y ∷ ys
]

-- The first word of strings.Fields, where there is one: the runes up to the first space.
unfoldable pub take_word : (ℕ → Bool) → List ℕ → List ℕ
take_word p [] = []
take_word p (x ∷ xs) = if p x then [] else x ∷ take_word p xs

module _ ⦃u : Unicode⦄ where
  -- strings.TrimSpace
  unfoldable pub trim_space : Text → Text
  unfolding drop_while trim_right
  trim_space s = u.of_runes (trim_right u.is_space (drop_while u.is_space (u.runes s)))

  -- strings.Fields(s)[0], or none where there are no fields
  unfoldable pub first_field : Text → Option Text
  unfolding drop_while take_word
  first_field s = elim (drop_while u.is_space (u.runes s)) [
    | [] ↦ none
    | c ∷ cs ↦ some (u.of_runes (take_word u.is_space (c ∷ cs)))
  ]
