-- ===== src/Ident/Reply.antt =====
-- A reply is one line, whatever the user is called and whatever was asked.
use lierc.Base.{
  true, false, [], ◌∷◌, ◌++◌, some, ◌≡◌, refl, arith, Text, text, contains, contains-append,
  append_assoc, cut, Option-cases, Bool-cases, inl, inr, is_nil,
}
use lierc.Unicode.{Unicode, IsUnicode, trim_space}
use lierc.Strconv.{digits, all_digits, is_digit, value}
use lierc.Strconv.Decimal.{all_digits-digits}
use lierc.Ident.{
  Found, found, no_user, failed, about, invalid_reply, cleaned, answer, parse_port, clean_user,
  reply,
}
use lierc.Ident.Port.{parse_port_lem}
use lierc.Ident.User.{clean_user_safe}

-- The text is one line: its only line feed ends it.
abbrev pub IsLine : Text → Type 0
IsLine s = (body : Text) × (s ≡ body ++ b'\n' ∷ []) × (contains b'\n' body ≡ false)

digits_one_line : (s : Text) → all_digits s ≡ true → contains b'\n' s ≡ false
unfolding all_digits is_digit contains
digits_one_line [] h = refl
digits_one_line (c ∷ s) h = ground (arith, digits_one_line s)

no_user_one_line : contains b'\n' (text "ERROR : NO-USER") ≡ false
unfolding contains
no_user_one_line = refl

failed_one_line : contains b'\n' (text "ERROR : UNKNOWN-ERROR") ≡ false
unfolding contains
failed_one_line = refl

userid_one_line :
    (user : Text)
    → contains b'\n' user ≡ false
    → contains b'\n' (text "USERID : UNIX : " ++ user) ≡ false
unfolding contains
userid_one_line user h = h

module _ ⦃u : Unicode⦄ where
  port_one_line : (s t : Text) → parse_port s ≡ some t → contains b'\n' t ≡ false
  port_one_line s t h = ground (
    arith,
    parse_port_lem s,
    digits_one_line (digits (value 0 (trim_space s))) (all_digits-digits (value 0 (trim_space s))),
  )

  about-IsLine :
      (local remote what : Text)
      → contains b'\n' local ≡ false
      → contains b'\n' remote ≡ false
      → contains b'\n' what ≡ false
      → IsLine (about local remote what)
  about-IsLine local remote what hl hr hw = (
    local ++ (text ", " ++ (remote ++ (text " : " ++ what))),
    simp append_assoc,
    simp (contains-append, hl, hr, hw) (unfold contains in refl),
  )

  answer-IsLine :
      IsUnicode u
      → (local remote : Text) (f : Found) → contains b'\n' local ≡ false
      → contains b'\n' remote ≡ false
      → IsLine (answer local remote (cleaned f))
  unfolding answer cleaned
  answer-IsLine ok local remote (found user) hl hr = elim (Bool-cases (is_nil (clean_user user))) [
    | inl e ↦
        rw (e, answer) (about-IsLine local remote (text "ERROR : NO-USER") hl hr no_user_one_line)
    | inr e ↦
        rw (e, answer)
          (about-IsLine local remote (text "USERID : UNIX : " ++ clean_user user) hl hr
            (userid_one_line (clean_user user) (clean_user_safe ok user).1))
  ]
  answer-IsLine ok local remote no_user hl hr =
      about-IsLine local remote (text "ERROR : NO-USER") hl hr no_user_one_line
  answer-IsLine ok local remote failed hl hr =
      about-IsLine local remote (text "ERROR : UNKNOWN-ERROR") hl hr failed_one_line

  -- Whatever line is asked, and whatever user the lookup finds, the reply is exactly one line.
  pub reply-IsLine :
      IsUnicode u → (line : Text) (find : Text → Text → Found) → IsLine (reply line find)
  unfolding reply
  reply-IsLine ok line find = elim (Option-cases (cut b',' line)) [
    | inl e ↦ rw (e, reply) invalid
    | inr ((left, right), e) ↦ elim (Option-cases (parse_port left)) [
      | inl e1 ↦ rw (e, reply) (rw (e1, reply) invalid)
      | inr (local, e1) ↦ elim (Option-cases (parse_port right)) [
        | inl e2 ↦ rw (e, reply) (rw (e1, reply) (rw (e2, reply) invalid))
        | inr (remote, e2) ↦
            rw (e, reply)
              (rw (e1, reply)
                (rw (e2, reply)
                  (answer-IsLine ok local remote (find local remote) (port_one_line left local e1)
                    (port_one_line right remote e2))))
      ]
    ]
  ]
    where
      invalid : IsLine invalid_reply
      invalid = (text "0, 0 : ERROR : INVALID-PORT", refl, unfold contains in refl)
