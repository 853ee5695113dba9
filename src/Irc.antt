-- ===== src/Irc.antt =====
-- pkg/lierc/message.go, and what irc-go (github.com/ergochat/irc-go) gives it: a parsed line is
-- irc-go's type, and parsing it and its source are irc-go's functions, which are parameters here.
pub mod Fixture
use lierc.Base.{
  ℕ, Bool, true, false, List, [], ◌∷◌, Option, none, some, Text, Map, is_nil, if◌then◌else◌,
}

-- ircmsg.Message: the source ("nick!user@host"), the command and its parameters.
pub record Message : Type 0 where
  pub source : Text
  pub command : Text
  pub params : List Text

-- ircmsg.NUH
pub record Nuh : Type 0 where
  pub name : Text
  pub user : Text
  pub host : Text

-- irc-go's functions on lines and messages.
pub record IrcGo : Type 0 where
  -- ircmsg.ParseLine: none for an error
  pub parse_line : Text → Option Message
  -- ircmsg.ParseNUH, which fails on an empty source
  pub parse_nuh : Text → Nuh
  -- Message.Nick
  pub nick : Message → Text
  -- Message.NUH: none for an error
  pub nuh : Message → Option Nuh
  -- Message.AllTags
  pub all_tags : Message → Map Text

-- IRCPrefix
pub record Prefix : Type 0 where
  pub name : Text
  pub user : Text
  pub server : Text
  pub self : Bool

abbrev pub no_prefix : Prefix
no_prefix = record { name = []; user = []; server = []; self = false }

-- IRCMessage. `time` is in nanoseconds, the integer that the source divides into seconds; a
-- prefix is `none` for a nil pointer, which a message read from JSON may have.
pub record IrcMessage : Type 0 where
  pub prefix : Option Prefix
  pub tags : Map Text
  pub command : Text
  pub time : ℕ
  pub params : List Text
  pub direct : Bool

module _ ⦃g : IrcGo⦄ where
  abbrev pub source_prefix : Text → Prefix
  source_prefix source = if is_nil source then no_prefix else record {
    name = (g.parse_nuh source).name;
    user = (g.parse_nuh source).user;
    server = (g.parse_nuh source).host;
    self = false;
  }

  -- newIRCMessage, at time `now`
  unfoldable pub new_irc_message : ℕ → Message → IrcMessage
  new_irc_message now m = record {
    prefix = some (source_prefix m.source);
    tags = g.all_tags m;
    command = m.command;
    time = now;
    params = m.params;
    direct = false;
  }

  unfoldable pub parse_irc_message : ℕ → Text → Option IrcMessage
  unfolding new_irc_message
  parse_irc_message now line = elim (g.parse_line line) [
    | none ↦ none
    | some m ↦ some (new_irc_message now m)
  ]
