-- ===== src/Ident/User.antt =====
-- cleanUser keeps the first 64 of the characters that cannot break a reply.
use lierc.Base.{
  ℕ, zero, suc, ◌+◌, ◌-◌, ◌≤◌, true, false, not, List, [], ◌∷◌, ◌≡◌, refl, ap, arith, Text, keep,
  take, length, length-take-le, contains,
}
use lierc.Unicode.{Unicode, IsUnicode}
use lierc.Ident.{max_user_len, dropped, clean_runes, clean_user}

module _ ⦃u : Unicode⦄ where
  clean_runes-take :
      (n k : ℕ) (rs : List ℕ)
      → n + k ≡ max_user_len
      → clean_runes n rs ≡ take k (keep (λ r. not (dropped r)) rs)
  unfolding clean_runes
  clean_runes-take n zero [] h = refl
  clean_runes-take n (suc k) [] h = refl
  clean_runes-take n zero (r ∷ rs) h = ground arith
  clean_runes-take n (suc k) (r ∷ rs) h =
      ground (arith, clean_runes-take n (suc k) rs h, clean_runes-take (n + 1) k rs)

  -- What cleanUser returns is the first 64 of the characters that are printable and neither a space
  -- nor a colon.
  pub clean_user_lem :
      (user : Text)
      → clean_user user
        ≡ u.of_runes (take max_user_len (keep (λ r. not (dropped r)) (u.runes user)))
  unfolding clean_user
  clean_user_lem user = ap u.of_runes (clean_runes-take 0 max_user_len (u.runes user) (omega arith))

  contains-clean_runes :
      (b n : ℕ) (rs : List ℕ) → dropped b ≡ true → contains b (clean_runes n rs) ≡ false
  unfolding clean_runes contains
  contains-clean_runes b n [] h = refl
  contains-clean_runes b n (r ∷ rs) h =
      ground (arith, contains-clean_runes b n rs h, contains-clean_runes b (n + 1) rs h)

  -- The user id that cleanUser returns has no colon, line feed or carriage return, and at most 64
  -- characters.
  pub clean_user_safe :
      IsUnicode u
      → (user : Text)
      → (contains b':' (clean_user user) ≡ false)
        × (contains b'\n' (clean_user user) ≡ false)
        × (contains b'\r' (clean_user user) ≡ false)
        × (length (u.runes (clean_user user)) ≤ max_user_len)
  unfolding clean_user
  clean_user_safe ok user = (
    ok.no_ascii b':' _ (omega arith) (contains-clean_runes b':' 0 _ colon),
    ok.no_ascii b'\n' _ (omega arith) (contains-clean_runes b'\n' 0 _ (ground (arith, ok.control))),
    ok.no_ascii b'\r' _ (omega arith) (contains-clean_runes b'\r' 0 _ (ground (arith, ok.control))),
    omega (
      arith,
      ok.length_runes (clean_runes 0 (u.runes user)),
      length-clean_runes 0 (u.runes user) (omega arith),
    ),
  )
    where
      colon : dropped b':' ≡ true
      colon = ground arith

      length-clean_runes :
          (n : ℕ) (rs : List ℕ) → n ≤ max_user_len → n + length (clean_runes n rs) ≤ max_user_len
      length-clean_runes n rs h =
          rw (clean_runes-take n (max_user_len - n) rs (omega arith))
            (omega (arith, length-take-le (max_user_len - n) (keep (λ r. not (dropped r)) rs)))
