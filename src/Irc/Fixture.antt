-- ===== src/Irc/Fixture.antt =====
-- A stand-in for irc-go at which the definitions are run: "nick!user@host" sources, and lines that
-- are a command and its parameters with one space between.
use lierc.Base.{List, [], ◌∷◌, Option, none, some, Text, cut, split}
use lierc.Irc.{Message, Nuh, IrcGo}

abbrev nuh_of : Text → Nuh
nuh_of source = elim (cut b'!' source) [
  | none ↦ record { name = source; user = []; host = [] }
  | some (nick, rest) ↦ elim (cut b'@' rest) [
    | none ↦ record { name = nick; user = rest; host = [] }
    | some (user, host) ↦ record { name = nick; user = user; host = host }
  ]
]

abbrev message_of : List Text → Option Message
message_of [] = none
message_of (command ∷ params) = some (record { source = []; command = command; params = params })

instance abbrev pub fixture : IrcGo
unfolding cut split
fixture = record {
  parse_line = λ line. message_of (split b' ' line);
  parse_nuh = nuh_of;
  nick = λ m. (nuh_of m.source).name;
  nuh = λ m. some (nuh_of m.source);
  all_tags = λ m. [];
}
