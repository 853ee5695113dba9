-- ===== src/Client.antt =====
-- pkg/lierc/client.go: a connection's state, and the operations that the handlers are made of.
-- irc-go's connection object is seen through what it reports at the moment of a call.
pub mod ConfigChannels
pub mod Data
use lierc.Base.{
  ℕ, Bool, true, false, not, ◌&&◌, List, [], ◌∷◌, ◌++◌, Option, none, some, ◌==◌, if◌then◌else◌,
  Text, text, Map, lookup, insert, has, is_nil, text_eq, length, contains, keep,
}
use lierc.Unicode.{Unicode, first_field}
use lierc.Irc.{IrcMessage}
use lierc.Strconv.{ℤ, pos, atoi}
use lierc.Config.{IrcConfig}
use lierc.Channel.{Channel}
use lierc.Isupport.{Prefix, prefixes_from}

-- ircevent.Connection: which one it is, and what CurrentNick, ISupport and AcknowledgedCaps return.
pub record Conn : Type 0 where
  pub serial : ℕ
  pub current_nick : Text
  pub isupport : Map Text
  pub acked_caps : Map Text

-- IRCClient. `socket` and `sender` are the numbers of the objects pointed to; a zero time is none.
pub record Client : Type 0 where
  pub id : Text
  pub config : IrcConfig
  pub channels : Map Channel
  pub user : Text
  pub host : Text
  pub registered : Bool
  pub connected : Bool
  pub status_message : Text
  pub retries : ℕ
  pub quitting : Bool
  pub stopped : Text
  pub requested_nick : Text
  pub conn : Option Conn
  pub socket : Option ℕ
  pub attempt_done : Option ℕ
  pub reg_nick : Text
  pub reg_tries : ℕ
  pub gave_up : Text
  pub welcomed_at : Option ℕ
  pub sender : Option ℕ

-- IRCClientMultiMessage
pub record MultiMessage : Type 0 where
  pub id : Text
  pub message : IrcMessage
  pub channels : List Text

-- The fields that an IRCConfigChange carries: the map's entries.
pub data ConfigField : Type 0 where
  channels_field : List Text → ConfigField
  nick_field : Text → ConfigField

pub record ConfigChange : Type 0 where
  pub id : Text
  pub fields : List ConfigField

unfoldable pub current_nick : Client → Text
current_nick c = elim c.conn [
  | none ↦ c.config.nick
  | some conn ↦ if not (is_nil conn.current_nick) then conn.current_nick else c.config.nick
]

-- Source: nick!user@host
unfoldable pub source : Client → Text
unfolding current_nick
source c = current_nick c ++ b'!' ∷ (c.user ++ b'@' ∷ c.host)

-- The lines that Join sends.
unfoldable pub join_lines : List Text → List Text
join_lines [] = []
join_lines (channel ∷ rest) =
    if not (is_nil channel) then (text "JOIN " ++ channel) ∷ join_lines rest else join_lines rest

unfoldable pub isupport : Client → Map Text
isupport c = elim c.conn [ none ↦ [] | some conn ↦ conn.isupport ]

unfoldable pub prefixes : Client → List Prefix
unfolding isupport
prefixes c = prefixes_from (isupport c)

unfoldable pub acked_caps : Client → Map Text
acked_caps c = elim c.conn [ none ↦ [] | some conn ↦ if c.registered then conn.acked_caps else [] ]

unfoldable pub cap_enabled : Text → Client → Bool
unfolding acked_caps
cap_enabled name c = has name (acked_caps c)

-- The symbol for the highest of a nick's modes, in the order of the prefixes, or "".
unfoldable pub nick_prefix : List Prefix → Text → Text
unfolding contains
nick_prefix [] mode = []
nick_prefix (p ∷ ps) mode = if contains p.mode mode then p.symbol ∷ [] else nick_prefix ps mode

-- The loops of NickPrefixMode and IsNickMode.
unfoldable pub mode_of_symbol : List Prefix → ℕ → Option ℕ
mode_of_symbol [] symbol = none
mode_of_symbol (p ∷ ps) symbol =
    if symbol == p.symbol then some p.mode else mode_of_symbol ps symbol

unfoldable pub is_mode_of : List Prefix → ℕ → Bool
is_mode_of [] mode = false
is_mode_of (p ∷ ps) mode = if mode == p.mode then true else is_mode_of ps mode

unfoldable pub nick_prefix_mode : ℕ → Client → Option ℕ
unfolding mode_of_symbol prefixes
nick_prefix_mode prefix c = mode_of_symbol (prefixes c) prefix

unfoldable pub is_nick_mode : ℕ → Client → Bool
unfolding is_mode_of prefixes
is_nick_mode mode c = is_mode_of (prefixes c) mode

unfoldable pub request_nick : Text → Client → Client
request_nick nick c = record c { requested_nick = nick }

-- configChanged at one field: the change that is appended to e.changes.
unfoldable pub channels_changed : Client → ConfigChange
channels_changed c = record { id = c.id; fields = channels_field c.config.channels ∷ [] }

unfoldable pub nick_changed : Client → ConfigChange
nick_changed c = record { id = c.id; fields = nick_field c.config.nick ∷ [] }

unfoldable pub set_config_channels : List Text → Client → Client
set_config_channels entries c = record c { config = record (c.config) { channels = entries } }

module _ ⦃u : Unicode⦄ where
  unfoldable pub channel_name : Text → Text
  channel_name entry = elim (first_field entry) [ none ↦ [] | some f ↦ u.lower f ]

  -- channelName(entry) == strings.ToLower(name)
  unfoldable pub names_channel : Text → Text → Bool
  unfolding channel_name
  names_channel name entry = text_eq (channel_name entry) (u.lower name)

  unfoldable pub any_names : Text → List Text → Bool
  unfolding names_channel
  any_names name [] = false
  any_names name (entry ∷ rest) = if names_channel name entry then true else any_names name rest

  unfoldable pub add_config_channel : Text → Client → Client × Bool
  unfolding any_names set_config_channels
  add_config_channel name c =
      if any_names name c.config.channels
      then (c, false)
      else (set_config_channels (c.config.channels ++ name ∷ []) c, true)

  -- The entries that removeConfigChannel keeps.
  unfoldable pub kept : Text → List Text → List Text
  unfolding names_channel
  kept name entries = keep (λ entry. not (names_channel name entry)) entries

  unfoldable pub remove_config_channel : Text → Client → Client × Bool
  unfolding kept set_config_channels
  remove_config_channel name c =
      if length (kept name c.config.channels) == length c.config.channels
      then (c, false)
      else (set_config_channels (kept name c.config.channels) c, true)

-- LogLevel: none is its panic. On a 64-bit platform ParseInt(env, 10, 0) is Atoi.
unfoldable pub log_level : Text → Option ℤ
unfolding atoi
log_level env = if is_nil env then some (pos 0) else atoi env

unfoldable pub nick_prefix_of : Text → Client → Text
unfolding nick_prefix prefixes
nick_prefix_of mode c = nick_prefix (prefixes c) mode
