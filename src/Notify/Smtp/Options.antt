-- ===== src/Notify/Smtp/Options.antt =====
-- What SetSMTPOpts makes of its pairs: the last value of a key counts.
use lierc.Base.{
  ◌%◌, Bool, true, false, not, ◌&&◌, ◌||◌, List, [], ◌∷◌, Option, none, some, ◌==◌, ◌≡◌, refl, sym,
  ap, ◌∙◌, inl, inr, ◌⊎◌, if◌then◌else◌, Text, text, text_eq, text_eq_iff, is_nil, is_none, is_some,
  split, length, Bool-cases,
}
use mathlib.Core.Path.{subst}
use lierc.Unicode.{Unicode, trim_space}
use lierc.Strconv.{ℤ, atoi}
use lierc.Notify.{NotifierConfig}
use lierc.Notify.Smtp.{
  default_smtp_host, default_smtp_port, OptError, set_opt, set_port, set_opts, go_on, set_trimmed,
  set_smtp_opts,
}

abbrev known : Text → Bool
known key =
    text_eq key (text "host")
    || (text_eq key (text "port")
        || (text_eq key (text "ssl")
            || (text_eq key (text "authuser") || text_eq key (text "authpass"))))

abbrev port_or : ℤ → Option ℤ → ℤ
port_or z none = z
port_or z (some port) = port

-- A key is one of the five, or none of them.
key_cases :
    (key : Text)
    → (key ≡ text "host")
      ⊎ ((key ≡ text "port")
          ⊎ ((key ≡ text "ssl")
              ⊎ ((key ≡ text "authuser")
                  ⊎ ((key ≡ text "authpass")
                      ⊎ ((text_eq key (text "host") ≡ false)
                          × (text_eq key (text "port") ≡ false)
                          × (text_eq key (text "ssl") ≡ false)
                          × (text_eq key (text "authuser") ≡ false)
                          × (text_eq key (text "authpass") ≡ false))))))
key_cases key =
    let is = λ (t : Text). (text_eq_iff key t).0 in
    elim (Bool-cases (text_eq key (text "host"))) [
      | inl e ↦ inl (is (text "host") e)
      | inr h ↦ elim (Bool-cases (text_eq key (text "port"))) [
        | inl e ↦ inr (inl (is (text "port") e))
        | inr p ↦ elim (Bool-cases (text_eq key (text "ssl"))) [
          | inl e ↦ inr (inr (inl (is (text "ssl") e)))
          | inr s ↦ elim (Bool-cases (text_eq key (text "authuser"))) [
            | inl e ↦ inr (inr (inr (inl (is (text "authuser") e))))
            | inr a ↦ elim (Bool-cases (text_eq key (text "authpass"))) [
              | inl e ↦ inr (inr (inr (inr (inl (is (text "authpass") e)))))
              | inr w ↦ inr (inr (inr (inr (inr (h, p, s, a, w)))))
            ]
          ]
        ]
      ]
    ]

module _ ⦃u : Unicode⦄ where
  -- A pair that can be set: a key that is known, and a number where it is a port.
  abbrev pub valid_pair : Text → Text → Bool
  valid_pair lower value =
      known lower && (not (text_eq lower (text "port")) || is_some (atoi value))

  abbrev pub valid_pairs : List Text → Bool
  valid_pairs (key ∷ value ∷ rest) =
      valid_pair (u.lower (trim_space key)) (trim_space value) && valid_pairs rest
  valid_pairs _ = true

  -- What the last value of the key is read as, or z where the key is not there.
  abbrev pub last_of : {A : Type 0} → Text → (A → Text → A) → A → List Text → A
  last_of name read z (key ∷ value ∷ rest) =
      last_of name read
        (if text_eq (u.lower (trim_space key)) name then read z (trim_space value) else z) rest
  last_of name read z _ = z

  abbrev is_yes : Text → Bool
  is_yes value = text_eq value (text "1") || u.equal_fold value (text "true")

  -- The configuration that pairs without an error give.
  pub record IsConfigured (pairs : List Text) (c c' : NotifierConfig) : Type 0 where
    pub host : c'.smtp_host ≡ last_of (text "host") (λ z v. v) c.smtp_host pairs
    pub port : c'.smtp_port ≡ last_of (text "port") (λ z v. port_or z (atoi v)) c.smtp_port pairs
    pub ssl : c'.smtp_ssl ≡ last_of (text "ssl") (λ z v. is_yes v) c.smtp_ssl pairs
    pub auth_user : c'.smtp_auth_user ≡ last_of (text "authuser") (λ z v. v) c.smtp_auth_user pairs
    pub auth_pass : c'.smtp_auth_pass ≡ last_of (text "authpass") (λ z v. v) c.smtp_auth_pass pairs

  -- One pair: no error exactly if it can be set, and each field behind it.
  abbrev SetsPair :
      Text → Text → Option ℤ → NotifierConfig → NotifierConfig × Option OptError → Type 0
  SetsPair lower value port c r =
      (is_none r.1 ≡ (known lower && (not (text_eq lower (text "port")) || is_some port)))
      × (r.0.smtp_host ≡ (if text_eq lower (text "host") then value else c.smtp_host))
      × (r.0.smtp_port
          ≡ (if text_eq lower (text "port") then port_or c.smtp_port port else c.smtp_port))
      × (r.0.smtp_ssl ≡ (if text_eq lower (text "ssl") then is_yes value else c.smtp_ssl))
      × (r.0.smtp_auth_user ≡ (if text_eq lower (text "authuser") then value else c.smtp_auth_user))
      × (r.0.smtp_auth_pass ≡ (if text_eq lower (text "authpass") then value else c.smtp_auth_pass))

  set_port-SetsPair :
      (value : Text) (port : Option ℤ) (c : NotifierConfig)
      → SetsPair (text "port") value port c (set_port value port c)
  unfolding set_port text_eq
  set_port-SetsPair value none c = (refl, refl, refl, refl, refl, refl)
  set_port-SetsPair value (some z) c = (refl, refl, refl, refl, refl, refl)

  set_opt-SetsPair :
      (lower key value : Text) (c : NotifierConfig)
      → SetsPair lower value (atoi value) c (set_opt lower key value c)
  unfolding set_opt text_eq
  set_opt-SetsPair lower key value c =
      let P = λ (l : Text). SetsPair l value (atoi value) c (set_opt l key value c) in
      elim (key_cases lower) [
        | inl e ↦ subst P (sym e) (refl, refl, refl, refl, refl, refl)
        | inr (inl e) ↦ subst P (sym e) (set_port-SetsPair value (atoi value) c)
        | inr (inr (inl e)) ↦ subst P (sym e) (refl, refl, refl, refl, refl, refl)
        | inr (inr (inr (inl e))) ↦ subst P (sym e) (refl, refl, refl, refl, refl, refl)
        | inr (inr (inr (inr (inl e)))) ↦ subst P (sym e) (refl, refl, refl, refl, refl, refl)
        | inr (inr (inr (inr (inr (h, p, s, a, w))))) ↦
            rw (h, p, s, a, w) (refl, refl, refl, refl, refl, refl)
      ]

  -- The pairs set what they are to set, or one of them is in error.
  abbrev SetsAll : List Text → NotifierConfig → NotifierConfig × Option OptError → Type 0
  SetsAll pairs c r = (is_none r.1 ≡ valid_pairs pairs) × (r.1 ≡ none → IsConfigured pairs c r.0)

  go_on-SetsAll :
      (key value : Text) (rest : List Text) (error : Option OptError) (c' c : NotifierConfig)
      (next : NotifierConfig × Option OptError)
      → SetsPair
          (u.lower (trim_space key))
          (trim_space value)
          (atoi (trim_space value))
          c
          (c', error)
      → SetsAll rest c' next
      → SetsAll (key ∷ value ∷ rest) c (go_on error c' next)
  unfolding go_on
  go_on-SetsAll key value rest none c' c next one all = (
    all.0 ∙ ap (λ b. b && valid_pairs rest) one.0,
    λ h.
        let set = all.1 h in
        record {
          host = set.host ∙ ap (λ z. last_of (text "host") (λ y w. w) z rest) one.1;
          port =
              set.port ∙ ap (λ z. last_of (text "port") (λ y w. port_or y (atoi w)) z rest) one.2;
          ssl = set.ssl ∙ ap (λ z. last_of (text "ssl") (λ y w. is_yes w) z rest) one.3;
          auth_user = set.auth_user ∙ ap (λ z. last_of (text "authuser") (λ y w. w) z rest) one.4;
          auth_pass = set.auth_pass ∙ ap (λ z. last_of (text "authpass") (λ y w. w) z rest) one.5;
        },
  )
  go_on-SetsAll key value rest (some x) c' c next one all =
      (ap (λ b. b && valid_pairs rest) one.0, λ h. absurd (cc h))

  set_opts-SetsAll : (pairs : List Text) (c : NotifierConfig) → SetsAll pairs c (set_opts pairs c)
  unfolding set_opts
  set_opts-SetsAll [] c = (
    refl,
    λ h. record { host = refl; port = refl; ssl = refl; auth_user = refl; auth_pass = refl },
  )
  set_opts-SetsAll (key ∷ []) c = (
    refl,
    λ h. record { host = refl; port = refl; ssl = refl; auth_user = refl; auth_pass = refl },
  )
  set_opts-SetsAll (key ∷ value ∷ rest) c =
      let lower = u.lower (trim_space key) in
      let first = set_opt lower (trim_space key) (trim_space value) c in
      go_on-SetsAll key value rest first.1 first.0 c (set_opts rest first.0)
        (set_opt-SetsPair lower (trim_space key) (trim_space value) c)
        (set_opts-SetsAll rest first.0)

  abbrev pub defaults : NotifierConfig → NotifierConfig
  defaults c = record c { smtp_host = default_smtp_host; smtp_port = default_smtp_port }

  -- The pairs of the options, behind the spaces around them.
  abbrev pub option_pairs : Text → List Text
  option_pairs opts = split b',' (trim_space opts)

  trimmed-SetsAll :
      (opts : Text) (c : NotifierConfig)
      → let r = set_trimmed opts c in
        let pairs = split b',' opts in
        (is_none r.1 ≡ (is_nil opts || (length pairs % 2 == 0 && valid_pairs pairs)))
        × (r.1 ≡ none → IsConfigured pairs (defaults c) r.0)
  unfolding set_trimmed split
  trimmed-SetsAll [] c = (
    refl,
    λ h. record { host = refl; port = refl; ssl = refl; auth_user = refl; auth_pass = refl },
  )
  trimmed-SetsAll (x ∷ xs) c =
      let pairs = split b',' (x ∷ xs) in
      let all = set_opts-SetsAll pairs (defaults c) in
      elim (Bool-cases (length pairs % 2 == 0)) [
        | inl even ↦ rw even all
        | inr odd ↦ rw odd (refl, λ h. absurd (cc h))
      ]

  -- SetSMTPOpts returns no error exactly if the options are empty or are pairs of known keys whose
  -- ports are numbers; then each field is what the last value of its key is read as, or the default
  -- host and port, or the field that was there before.
  pub set_smtp_opts_lem :
      (opts : Text) (c : NotifierConfig)
      → let r = set_smtp_opts opts c in
        let pairs = option_pairs opts in
        (is_none r.1 ≡ (is_nil (trim_space opts) || (length pairs % 2 == 0 && valid_pairs pairs)))
        × (r.1 ≡ none → IsConfigured pairs (defaults c) r.0)
  unfolding set_smtp_opts
  set_smtp_opts_lem opts c = trimmed-SetsAll (trim_space opts) c
