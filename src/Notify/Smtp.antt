-- ===== src/Notify/Smtp.antt =====
-- pkg/notify/email.go: the options of the mail server, and the calls that hand a mail to it.
pub mod Options
use lierc.Base.{
  ℕ, ◌+◌, ◌%◌, Bool, true, false, not, ◌||◌, List, [], ◌∷◌, ◌++◌, Option, none, some, ◌==◌,
  if◌then◌else◌, Text, text, text_eq, is_nil, split, length,
}
use lierc.Unicode.{Unicode, trim_space}
use lierc.Strconv.{ℤ, pos, atoi, itoa}
use lierc.Notify.{NotifierConfig}

abbrev pub default_smtp_host : Text
default_smtp_host = text "127.0.0.1"

abbrev pub default_smtp_port : ℤ
default_smtp_port = pos 25

pub data OptError : Type 0 where
  odd_number : Text → OptError
  bad_port : Text → OptError
  unknown_opt : Text → OptError

module _ ⦃u : Unicode⦄ where
  unfoldable pub set_port : Text → Option ℤ → NotifierConfig → NotifierConfig × Option OptError
  set_port value none c = (c, some (bad_port value))
  set_port value (some port) c = (record c { smtp_port = port }, none)

  -- One round of the loop, by the key in lower case.
  unfoldable pub set_opt : Text → Text → Text → NotifierConfig → NotifierConfig × Option OptError
  unfolding set_port atoi
  set_opt lower key value c =
      if text_eq lower (text "host")
      then (record c { smtp_host = value }, none)
      else if text_eq lower (text "port")
      then set_port value (atoi value) c
      else if text_eq lower (text "ssl")
      then (
        record c { smtp_ssl = text_eq value (text "1") || u.equal_fold value (text "true") },
        none,
      )
      else if text_eq lower (text "authuser")
      then (record c { smtp_auth_user = value }, none)
      else if text_eq lower (text "authpass")
      then (record c { smtp_auth_pass = value }, none)
      else (c, some (unknown_opt key))

  -- return fmt.Errorf(...), or the next round.
  unfoldable pub go_on :
      Option OptError
      → NotifierConfig
      → NotifierConfig × Option OptError
      → NotifierConfig × Option OptError
  go_on none c next = next
  go_on (some e) c next = (c, some e)

  -- The loop over the pairs, which an error ends.
  unfoldable pub set_opts : List Text → NotifierConfig → NotifierConfig × Option OptError
  unfolding set_opt trim_space go_on
  set_opts (key ∷ value ∷ rest) c =
      let r = set_opt (u.lower (trim_space key)) (trim_space key) (trim_space value) c in
      go_on r.1 r.0 (set_opts rest r.0)
  set_opts _ c = (c, none)

  unfoldable pub set_trimmed : Text → NotifierConfig → NotifierConfig × Option OptError
  unfolding set_opts split
  set_trimmed opts c =
      let reset = record c { smtp_host = default_smtp_host; smtp_port = default_smtp_port } in
      let pairs = split b',' opts in
      if is_nil opts
      then (reset, none)
      else if not (length pairs % 2 == 0)
      then (reset, some (odd_number opts))
      else set_opts pairs reset

  -- SetSMTPOpts
  unfoldable pub set_smtp_opts : Text → NotifierConfig → NotifierConfig × Option OptError
  unfolding set_trimmed trim_space
  set_smtp_opts opts c = set_trimmed (trim_space opts) c

abbrev is_zero : ℤ → Bool
is_zero (pos n) = n == 0
is_zero _ = false

-- SMTPAddress
unfoldable pub smtp_address : NotifierConfig → Text × ℤ
smtp_address c = (
  if is_nil c.smtp_host then default_smtp_host else c.smtp_host,
  if is_zero c.smtp_port then default_smtp_port else c.smtp_port,
)

-- smtp.PlainAuth's arguments behind the identity.
pub record PlainAuth : Type 0 where
  pub user : Text
  pub pass : Text
  pub host : Text

-- SMTPAuth
unfoldable pub smtp_auth : Text → NotifierConfig → Option PlainAuth
smtp_auth host c =
    if is_nil c.smtp_auth_user
    then none
    else some (record { user = c.smtp_auth_user; pass = c.smtp_auth_pass; host = host })

-- A call of net/smtp or crypto/tls that can fail.
pub data Call : Type 0 where
  send_mail : Text → Option PlainAuth → Text → Text → Text → Call
  dial : Text → Text → Call
  new_client : Text → Call
  auth : PlainAuth → Call
  mail : Text → Call
  rcpt : Text → Call
  data_begin : Call
  write : Text → Call
  data_end : Call
  quit : Call

-- The calls up to the first that fails, and whether none does.
unfoldable pub until_error : (Call → Bool) → List Call → List Call × Bool
until_error works [] = ([], true)
until_error works (call ∷ calls) =
    let rest = until_error works calls in
    if works call then (call ∷ rest.0, rest.1) else (call ∷ [], false)

abbrev pub auth_calls : Option PlainAuth → List Call
auth_calls none = []
auth_calls (some a) = auth a ∷ []

unfoldable pub mail_calls : Text → Text → Text → NotifierConfig → List Call
unfolding smtp_address smtp_auth itoa
mail_calls from to msg c =
    let (host, port) = smtp_address c in
    let addr = host ++ b':' ∷ itoa port in
    let a = smtp_auth host c in
    if not c.smtp_ssl
    then send_mail addr a from to msg ∷ []
    else dial addr host
      ∷ new_client host
      ∷ (auth_calls a ++ (mail from ∷ rcpt to ∷ data_begin ∷ write msg ∷ data_end ∷ quit ∷ []))

-- sendMail, where `works` says which calls succeed.
unfoldable pub deliver_mail : (Call → Bool) → Text → Text → Text → NotifierConfig → List Call × Bool
unfolding until_error mail_calls
deliver_mail works from to msg c = until_error works (mail_calls from to msg c)
