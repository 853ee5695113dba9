-- ===== src/Notify/Email.antt =====
-- pkg/notify/email.go: the text of a mail. A panic is `none`: a message without a prefix, or with too
-- few parameters.
pub mod Headers
use lierc.Base.{
  ℕ, Bool, true, false, List, [], ◌∷◌, ◌++◌, Option, none, some, if◌then◌else◌, Text, text, is_nil,
  get_elem?,
}
use lierc.Irc.{IrcMessage, Prefix}
use lierc.Notify.{LoggedMessage, NotifierConfig}
use lierc.Notify.Smtp.{Call, deliver_mail}

-- What the loop takes from a message.
pub record Mention : Type 0 where
  pub channel : Text
  pub from : Text
  pub said : Text
  pub connection : Text

unfoldable pub mention_of : Text → Bool → List Text → Option Prefix → Option Mention
mention_of connection direct (target ∷ said ∷ _) (some p) = some (record {
  channel = if direct then p.name else target;
  from = p.name;
  said = said;
  connection = connection;
})
mention_of connection direct _ _ = none

unfoldable pub mention : LoggedMessage → Option Mention
unfolding mention_of
mention m = mention_of m.connection_id m.message.direct m.message.params m.message.prefix

abbrev pub subject_of : Mention → Text
subject_of m = b'[' ∷ (m.channel ++ (text "] < " ++ (m.from ++ (text "> " ++ m.said))))

-- `path_escape` is url.PathEscape.
module _ (path_escape : Text → Text) (api_url : Text) where
  abbrev pub line_of : Mention → Text
  line_of m =
      text "    "
      ++ (subject_of m
          ++ (b'\n'
              ∷ (text "    "
                  ++ (api_url
                      ++ (text "/app/#/" ++ (m.connection ++ b'/' ∷ path_escape m.channel))))))

  -- The loop: the lines, and the subject, which is set where it is still empty.
  unfoldable pub add_lines : List LoggedMessage → List Text → Text → Option (List Text × Text)
  unfolding mention
  add_lines [] lines subject = some (lines, subject)
  add_lines (m ∷ ms) lines subject = elim (mention m) [
    | none ↦ none
    | some x ↦
        add_lines ms (lines ++ line_of x ∷ []) (if is_nil subject then subject_of x else subject)
  ]

-- strings.Join
unfoldable pub join : Text → List Text → Text
join sep [] = []
join sep (t ∷ []) = t
join sep (t ∷ ts) = t ++ (sep ++ join sep ts)

abbrev pub headers : Text → Text → Text
headers address subject =
    text "To: "
    ++ (address
        ++ (text "\r\nFrom: Relaychat Party <notifications@relaychat.party>\nSubject: "
            ++ (subject
                ++ text
                    "\nMIME-Version: 1.0\nContent-Type: text/plain; charset=\"utf-8\"\nContent-Transfer-Encoding: 8bit\nX-Mailer: relaychat 0.1\n")))

abbrev pub farewell : Text
farewell =
    text
      "This message is coming from the relaychat.party IRC client. You enabled email notifications in the client. When someone mentions your name, or uses a word that matches a highlight term you configured, you will recieve an email from us. If you would like to stop recieving these messages, please use this link to unsubscribe: https://relaychat.party/unsubscribe/\n\nThank you for using relaychat.party!\r\n"

unfoldable pub mail_text : Text → List Text × Text → Text
unfolding join
mail_text address (lines, subject) =
    headers address subject
    ++ (text "\r\nYou were mentioned in the following channels:\n\n"
        ++ (join (text "\n\n") lines ++ (text "\n\n" ++ farewell)))

abbrev pub notifications_address : Text
notifications_address = text "notifications@relaychat.party"

module _ (path_escape : Text → Text) where
  unfoldable pub email_text : NotifierConfig → List LoggedMessage → Text → Option Text
  unfolding add_lines mail_text
  email_text c ms address = elim (add_lines path_escape c.api_url ms [] []) [
    | none ↦ none
    | some r ↦ some (mail_text address r)
  ]

  -- SendEmail: the calls to the mail server; a failure of sendMail is a panic, too.
  unfoldable pub send_email :
      NotifierConfig → (Call → Bool) → List LoggedMessage → Text → Option (List Call)
  unfolding email_text deliver_mail
  send_email c works ms address = elim (email_text c ms address) [
    | none ↦ none
    | some msg ↦
        let r = deliver_mail works notifications_address address msg c in
        if r.1 then some r.0 else none
  ]
