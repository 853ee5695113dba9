-- ===== src/Channel/Modes.antt =====
-- The modes of a nick or a channel as a set: membership after a change, and no mode twice.
use lierc.Base.{
  ℕ, Bool, true, false, not, ◌&&◌, ◌||◌, [], ◌∷◌, ◌++◌, ◌≡◌, refl, arith, ◌==◌, if◌then◌else◌, Text,
  contains, contains-append, distinct,
}
use lierc.Channel.{mode_contains, add_mode, replace_first, remove_mode, apply_mode}

contains-replace_first :
    (m k : ℕ) (ms : Text)
    → distinct ms ≡ true
    → contains k (replace_first m ms) ≡ (contains k ms && not (m == k))
unfolding contains distinct replace_first
contains-replace_first m k [] h = refl
contains-replace_first m k (x ∷ ms) h = ground (arith, contains-replace_first m k ms)

distinct-replace_first :
    (m : ℕ) (ms : Text) → distinct ms ≡ true → distinct (replace_first m ms) ≡ true
unfolding distinct replace_first contains
distinct-replace_first m [] h = refl
distinct-replace_first m (x ∷ ms) h =
    ground (arith, distinct-replace_first m ms, contains-replace_first m x ms)

distinct-concat :
    (m : ℕ) (ms : Text)
    → distinct ms ≡ true
    → contains m ms ≡ false
    → distinct (ms ++ m ∷ []) ≡ true
unfolding distinct contains
distinct-concat m [] h e = refl
distinct-concat m (x ∷ ms) h e = ground (arith, distinct-concat m ms, contains-append x ms (m ∷ []))

-- Which mode letters are set after "+m", "-m" or another action.
abbrev pub set_after : ℕ → ℕ → ℕ → Bool → Bool
set_after action m k before =
    if action == b'+'
    then before || (m == k)
    else if action == b'-'
    then before && not (m == k)
    else before

-- On modes without a repeated letter, "+" sets just the letter given, "-" clears just that one,
-- and any other action changes none.
pub contains-apply_mode :
    (action m k : ℕ) (ms : Text)
    → distinct ms ≡ true
    → contains k (apply_mode action m ms) ≡ set_after action m k (contains k ms)
unfolding apply_mode add_mode remove_mode contains
contains-apply_mode action m k ms h =
    ground (arith, contains-append k ms (m ∷ []), contains-replace_first m k ms)

pub distinct-apply_mode :
    (action m : ℕ) (ms : Text) → distinct ms ≡ true → distinct (apply_mode action m ms) ≡ true
unfolding apply_mode add_mode remove_mode
distinct-apply_mode action m ms h =
    ground (arith, distinct-concat m ms, distinct-replace_first m ms)

replace_first-concat :
    (m : ℕ) (ms : Text) → contains m ms ≡ false → replace_first m (ms ++ m ∷ []) ≡ ms
unfolding contains replace_first
replace_first-concat m [] h = ground arith
replace_first-concat m (x ∷ ms) h = ground (arith, replace_first-concat m ms)

-- Adding a mode that is not there and removing it again gives the modes back.
pub remove_mode-add_mode :
    (m : ℕ) (ms : Text) → mode_contains ms m ≡ false → remove_mode (add_mode ms m) m ≡ ms
unfolding remove_mode add_mode contains
remove_mode-add_mode m ms h =
    ground (arith, contains-append m ms (m ∷ []), replace_first-concat m ms)
