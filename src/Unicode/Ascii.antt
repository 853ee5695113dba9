-- ===== src/Unicode/Ascii.antt =====
-- ASCII: the instance at which the definitions are run.
use lierc.Base.{
  ℕ, Bool, ◌&&◌, ◌||◌, [], ◌∷◌, ◌+◌, ◌-◌, refl, map, text_eq, text_eq_refl, leb, ◌==◌,
  if◌then◌else◌, ◌++◌,
}
use lierc.Unicode.{Unicode, IsUnicode}

unfoldable pub to_lower : ℕ → ℕ
to_lower c = if leb b'A' c && leb c b'Z' then c + 32 else c

unfoldable pub to_upper : ℕ → ℕ
to_upper c = if leb b'a' c && leb c b'z' then c - 32 else c

abbrev printable : ℕ → Bool
printable c = leb 32 c && leb c 126

abbrev space : ℕ → Bool
space c = c == b' ' || leb 9 c && leb c 13

instance abbrev pub ascii : Unicode
unfolding to_lower to_upper text_eq
ascii = record {
  runes = λ s. s;
  of_runes = λ r. r;
  lower = map to_lower;
  upper = map to_upper;
  equal_fold = λ s t. text_eq (map to_lower s) (map to_lower t);
  is_print = printable;
  is_space = space;
  quote = λ s. b'"' ∷ (s ++ b'"' ∷ []);
}

pub ascii-IsUnicode : IsUnicode ascii
unfolding ascii
ascii-IsUnicode = record {
  length_runes = λ r. refl;
  no_ascii = λ b r h e. e;
  control = (refl, refl);
  fold_refl = λ s. text_eq_refl (map to_lower s);
}
