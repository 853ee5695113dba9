-- ===== src/Notify/Email/Headers.antt =====
-- A mail has one line for each message, and only its own headers.
use lierc.Base.{
  ℕ, suc, ◌+◌, Bool, true, false, ◌&&◌, List, [], ◌∷◌, ◌++◌, Option, none, some, ◌==◌, ◌≡◌, refl,
  ap, ◌∙◌, ◌⊎◌, inl, inr, arith, if◌then◌else◌, Text, text, is_nil, is_some, contains, length,
  length-append, Option-cases,
}
use lierc.Notify.{LoggedMessage, NotifierConfig}
use lierc.Notify.Email.{
  Mention, mention, subject_of, line_of, add_lines, headers, mail_text, email_text,
}

abbrev pub count : ℕ → Text → ℕ
count b [] = 0
count b (x ∷ xs) = if x == b then suc (count b xs) else count b xs

count-append : (b : ℕ) (s t : Text) → count b (s ++ t) ≡ count b s + count b t
count-append b [] t = omega arith
count-append b (x ∷ s) t = ground (arith, count-append b s t)

count_none : (b : ℕ) (s : Text) → contains b s ≡ false → count b s ≡ 0
unfolding contains
count_none b [] h = refl
count_none b (x ∷ s) h = ground (arith, count_none b s)

abbrev pub breaks : Text → ℕ
breaks s = count b'\n' s

-- A mention whose parts have no line break.
abbrev pub IsOneLine : Mention → Type 0
IsOneLine m =
    (contains b'\n' m.channel ≡ false)
    × (contains b'\n' m.from ≡ false)
    × (contains b'\n' m.said ≡ false)

breaks-subject_of : (m : Mention) → IsOneLine m → breaks (subject_of m) ≡ 0
breaks-subject_of m h =
    let tail = m.from ++ (text "> " ++ m.said) in
    let first = count-append b'\n' m.channel (text "] < " ++ tail) in
    let second = count-append b'\n' m.from (text "> " ++ m.said) in
    let opened : breaks (subject_of m) ≡ breaks (m.channel ++ (text "] < " ++ tail)) = refl in
    let inner : breaks (text "] < " ++ tail) ≡ breaks tail = refl in
    let last : breaks (text "> " ++ m.said) ≡ breaks m.said = refl in
    omega (
      arith,
      first,
      second,
      opened,
      inner,
      last,
      count_none b'\n' m.channel h.0,
      count_none b'\n' m.from h.1,
      count_none b'\n' m.said h.2,
    )

abbrev behind_address : Text → Text
behind_address rest =
    text "\r\nFrom: Relaychat Party <notifications@relaychat.party>\nSubject: " ++ rest

breaks-behind_address : (rest : Text) → breaks (behind_address rest) ≡ 2 + breaks rest
breaks-behind_address rest = omega arith

abbrev behind_subject : Text
behind_subject =
    text
      "\nMIME-Version: 1.0\nContent-Type: text/plain; charset=\"utf-8\"\nContent-Transfer-Encoding: 8bit\nX-Mailer: relaychat 0.1\n"

breaks-headers :
    (address subject : Text)
    → contains b'\n' address ≡ false
    → breaks subject ≡ 0
    → breaks (headers address subject) ≡ 7
breaks-headers address subject h s =
    let opened : breaks (headers address subject)
        ≡ breaks (address ++ behind_address (subject ++ behind_subject)) =
      refl in
    let fixed : breaks behind_subject ≡ 5 = refl in
    omega (
      arith,
      opened,
      fixed,
      s,
      count-append b'\n' address (behind_address (subject ++ behind_subject)),
      breaks-behind_address (subject ++ behind_subject),
      count-append b'\n' subject behind_subject,
      count_none b'\n' address h,
    )

-- Every message has a prefix and two parameters.
abbrev pub readable : List LoggedMessage → Bool
readable [] = true
readable (m ∷ ms) = is_some (mention m) && readable ms

module _ (path_escape : Text → Text) where
  -- What the loop makes of the messages, with a subject that is not empty.
  LinesOf : Text → List LoggedMessage → List Text → Text → Option (List Text × Text) → Type 0
  LinesOf api_url ms lines subject r =
      ((readable ms ≡ false) × (r ≡ none))
      ⊎ ((readable ms ≡ true)
          × (more : List Text) × (length more ≡ length lines + length ms)
          × (r ≡ some (more, subject)))

  add_lines-none :
      (api_url : Text) (m : LoggedMessage) (ms : List LoggedMessage) (lines : List Text)
      (subject : Text)
      → mention m ≡ none
      → add_lines path_escape api_url (m ∷ ms) lines subject ≡ none
  unfolding add_lines
  add_lines-none api_url m ms lines subject e = rw (e, add_lines)

  add_lines-some :
      (api_url : Text) (m : LoggedMessage) (x : Mention) (ms : List LoggedMessage)
      (lines : List Text) (subject : Text)
      → mention m ≡ some x
      → add_lines path_escape api_url (m ∷ ms) lines subject
        ≡ add_lines path_escape api_url ms
            (lines ++ line_of path_escape api_url x ∷ [])
            (if is_nil subject then subject_of x else subject)
  unfolding add_lines
  add_lines-some api_url m x ms lines subject e = rw (e, add_lines)

  add_lines_lem :
      (api_url : Text) (ms : List LoggedMessage) (lines : List Text) (subject : Text)
      → is_nil subject ≡ false
      → LinesOf api_url ms lines subject (add_lines path_escape api_url ms lines subject)
  unfolding add_lines LinesOf
  add_lines_lem api_url [] lines subject h = inr (refl, lines, omega arith, refl)
  add_lines_lem api_url (m ∷ ms) lines subject h = elim (Option-cases (mention m)) [
    | inl e ↦ inl (rw e, add_lines-none api_url m ms lines subject e)
    | inr (x, e) ↦
        let longer = lines ++ line_of path_escape api_url x ∷ [] in
        let step =
          add_lines-some api_url m x ms lines subject e
          ∙ ap (λ b. add_lines path_escape api_url ms longer (if b then subject_of x else subject))
              h in
        elim (add_lines_lem api_url ms longer subject h) [
          | inl (bad, r) ↦ inl (rw e bad, step ∙ r)
          | inr (good, more, size, r) ↦ inr (
            rw e good,
            more,
            omega (arith, size, length-append lines (line_of path_escape api_url x ∷ [])),
            step ∙ r,
          )
        ]
  ]

  -- The mail, by what the loop makes.
  mail_of : Text → Option (List Text × Text) → Option Text
  mail_of address none = none
  mail_of address (some r) = some (mail_text address r)

  email_text_of :
      (c : NotifierConfig) (ms : List LoggedMessage) (address : Text)
      (r : Option (List Text × Text))
      → add_lines path_escape c.api_url ms [] [] ≡ r
      → email_text path_escape c ms address ≡ mail_of address r
  unfolding email_text mail_of
  email_text_of c ms address none e = rw (e, email_text)
  email_text_of c ms address (some r) e = rw (e, email_text)

  -- If the first message can be read, its channel, sender and text have no line break, and the
  -- address has none, then the text of the mail fails (a panic) exactly if some message lacks its
  -- prefix or its second parameter; otherwise it has one line for each message, the first message is
  -- the subject, and the headers are the seven lines of the source.
  pub email_text-headers :
      (c : NotifierConfig) (m : LoggedMessage) (ms : List LoggedMessage) (address : Text)
      (x : Mention)
      → mention m ≡ some x
      → IsOneLine x
      → contains b'\n' address ≡ false
      → ((readable (m ∷ ms) ≡ false) × (email_text path_escape c (m ∷ ms) address ≡ none))
        ⊎ ((readable (m ∷ ms) ≡ true)
            × (lines : List Text) × (length lines ≡ length (m ∷ ms))
            × (email_text path_escape c (m ∷ ms) address
                ≡ some (mail_text address (lines, subject_of x)))
            × (breaks (headers address (subject_of x)) ≡ 7))
  unfolding LinesOf mail_of
  email_text-headers c m ms address x e one_line h =
      let first = line_of path_escape c.api_url x ∷ [] in
      let step = add_lines-some c.api_url m x ms [] [] e in
      elim (add_lines_lem c.api_url ms first (subject_of x) refl) [
        | inl (bad, r) ↦ inl (rw e bad, email_text_of c (m ∷ ms) address none (step ∙ r))
        | inr (good, more, size, r) ↦ inr (
          rw e good,
          more,
          omega (arith, size),
          email_text_of c (m ∷ ms) address (some (more, subject_of x)) (step ∙ r),
          breaks-headers address (subject_of x) h (breaks-subject_of x one_line),
        )
      ]
