-- ===== src/Base/Strings.antt =====
-- Go strings as lists of bytes, with the tests and searches of package strings that the source uses.
use Prim.Native.Nat.{ℕ}
use Prim.Native.Char.{code}
use Prim.Native.String.{String}
use mathlib.Core.Path.{◌≡◌, refl}
use mathlib.Core.Logic.{◌↔◌, inl, inr, ◌≢◌}
use mathlib.Core.Bool.{Bool, true, false, not, ◌&&◌, ◌||◌}
use mathlib.Core.Option.{Option, none, some}
use mathlib.Core.List.{List, [], ◌∷◌, ◌++◌}
use native.Mathlib.Omega.{arith}
use lierc.Base.Tests.{◌==◌, if◌then◌else◌, Option-cases}

-- A Go string or []byte: its bytes.
abbrev pub Text : Type 0
Text = List ℕ

-- The bytes of an ASCII literal.
abbrev pub text : String → Text
text String.[] = []
text (String.◌∷◌ c s) = code c ∷ text s

-- ==
unfoldable pub text_eq : Text → Text → Bool
text_eq [] [] = true
text_eq (x ∷ xs) (y ∷ ys) = x == y && text_eq xs ys
text_eq _ _ = false

pub text_eq_iff : (a b : Text) → (text_eq a b ≡ true) ↔ (a ≡ b)
unfolding text_eq
text_eq_iff (x ∷ a) (y ∷ b) = ground (arith, text_eq_iff a b)
text_eq_iff _ _ = ground arith

pub text_eq_refl : (a : Text) → text_eq a a ≡ true
text_eq_refl a = (text_eq_iff a a).1 refl

pub text_eq_ne : (a b : Text) → text_eq a b ≡ false → a ≢ b
text_eq_ne a b h = ground (arith, text_eq_iff a b)

pub ne-text_eq : (a b : Text) → a ≢ b → text_eq a b ≡ false
ne-text_eq a b h = ground (arith, text_eq_iff a b)

-- bytes.IndexByte(s, b) != -1
unfoldable pub contains : ℕ → List ℕ → Bool
contains b [] = false
contains b (x ∷ xs) = x == b || contains b xs

pub contains-append :
    (b : ℕ) (xs ys : List ℕ) → contains b (xs ++ ys) ≡ (contains b xs || contains b ys)
unfolding contains
contains-append b [] ys = refl
contains-append b (x ∷ xs) ys = ground (arith, contains-append b xs ys)

-- No byte occurs twice.
unfoldable pub distinct : List ℕ → Bool
unfolding contains
distinct [] = true
distinct (x ∷ xs) = not (contains x xs) && distinct xs

-- strings.Cut(s, sep) at a one-byte separator: what stands before and behind the first one.
unfoldable pub cut : ℕ → Text → Option (Text × Text)
cut b [] = none
cut b (x ∷ xs) =
    let rest = cut b xs in
    if x == b then some ([], xs) else elim rest [ none ↦ none | some (l, r) ↦ some (x ∷ l, r) ]

pub cut-append : (b : ℕ) (l r : Text) → contains b l ≡ false → cut b (l ++ b ∷ r) ≡ some (l, r)
unfolding cut contains
cut-append b [] r h = ground arith
cut-append b (x ∷ l) r h = ground (arith, cut-append b l r)

pub cut_sound :
    (b : ℕ) (s l r : Text) → cut b s ≡ some (l, r) → (s ≡ l ++ b ∷ r) × (contains b l ≡ false)
unfolding cut contains
cut_sound b [] l r h = ground arith
cut_sound b (x ∷ s) l r h = elim (Option-cases (cut b s)) [
  | inl e ↦ ground arith
  | inr ((l', r'), e) ↦ ground (arith, cut_sound b s l' r' e)
]

-- strings.Split(s, sep) at a one-byte separator.
unfoldable pub split : ℕ → Text → List Text
split b [] = [] ∷ []
split b (x ∷ xs) =
    let rest = split b xs in
    if x == b then [] ∷ rest else elim rest [ [] ↦ (x ∷ []) ∷ [] | w ∷ ws ↦ (x ∷ w) ∷ ws ]
