-- ===== src/Manager/Line.antt =====
-- pkg/liercd/manager.go: raw lines from the API.
use lierc.Base.{
  ℕ, Bool, false, not, ◌&&◌, ◌||◌, List, [], ◌∷◌, Option, none, some, ◌==◌, if◌then◌else◌, Text,
  text, text_eq, is_nil,
}
use lierc.Unicode.{Unicode, trim_right, trim_space}
use lierc.Irc.{IrcGo, IrcMessage, parse_irc_message}

abbrev pub is_line_break : ℕ → Bool
is_line_break b = b == b'\r' || b == b'\n'

-- strings.ContainsAny(s, "\r\n")
unfoldable pub has_line_break : Text → Bool
has_line_break [] = false
has_line_break (b ∷ s) = is_line_break b || has_line_break s

unfoldable pub raw_line : Text → Text × Bool
unfolding trim_right has_line_break
raw_line body = let line = trim_right is_line_break body in (line, not (has_line_break line))

-- A nick to ask for, or none where the source's second result is false.
unfoldable pub asked_nick : Text → Option Text
asked_nick nick = if is_nil nick then none else some nick

module _ ⦃u : Unicode⦄ ⦃g : IrcGo⦄ where
  unfoldable pub nick_of_params : List Text → Option Text
  unfolding asked_nick trim_space
  nick_of_params [] = none
  nick_of_params (nick ∷ _) = asked_nick (trim_space nick)

  unfoldable pub nick_of_message : IrcMessage → Option Text
  unfolding nick_of_params
  nick_of_message m = if text_eq m.command (text "NICK") then nick_of_params m.params else none

  unfoldable pub requested_nick : ℕ → Text → Option Text
  unfolding nick_of_message parse_irc_message
  requested_nick now line = elim (parse_irc_message now line) [
    | none ↦ none
    | some m ↦ nick_of_message m
  ]

module _ ⦃g : IrcGo⦄ where
  unfoldable pub command : ℕ → Text → Text
  unfolding parse_irc_message
  command now line = elim (parse_irc_message now line) [ none ↦ [] | some m ↦ m.command ]

  unfoldable pub is_message : ℕ → Text → Bool
  unfolding command
  is_message now line =
      text_eq (command now line) (text "PRIVMSG") || text_eq (command now line) (text "NOTICE")

  unfoldable pub should_echo : ℕ → Text → Bool → Bool → Bool
  unfolding is_message
  should_echo now line queued echo_acked = queued && (is_message now line && not echo_acked)
