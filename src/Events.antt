-- ===== src/Events.antt =====
-- pkg/lierc/events.go: one handler for each command from the server, with the client locked. A
-- handler returns the client and what it publishes or does to the connection.
pub mod Nick
pub mod Names
pub mod Handlers
pub mod Membership
pub mod Joining
pub mod Invariant
pub mod Preservation
pub mod Registration
pub mod Identity
mod Tests
use lierc.Base.{
  ℕ, zero, suc, ◌+◌, ◌-◌, Bool, true, false, not, ◌&&◌, ◌||◌, List, [], ◌∷◌, ◌++◌, Option, none,
  some, ◌==◌, ltb, leb, if◌then◌else◌, Text, text, Map, lookup, insert, delete, has, is_nil,
  text_eq, length,
}
use lierc.Unicode.{Unicode}
use lierc.Irc.{Message, IrcGo, IrcMessage, new_irc_message, no_prefix, Prefix}
use lierc.Channel.{Channel}
use lierc.Client.{Client, Conn, MultiMessage, ConfigChange, current_nick}

-- effects, with what a handler does to other objects: the lines that it passes to Send, in order,
-- and whether it closes the socket.
pub record Effects : Type 0 where
  pub multi : Option MultiMessage
  pub changes : List ConfigChange
  pub sends : List Text
  pub closes : Bool

abbrev pub no_effects : Effects
no_effects = record { multi = none; changes = []; sends = []; closes = false }

abbrev pub send : Text → Effects → Effects
send line e = record e { sends = e.sends ++ line ∷ [] }

abbrev pub publish : ConfigChange → Effects → Effects
publish change e = record e { changes = e.changes ++ change ∷ [] }

-- A handler, at the time of the message.
abbrev pub Handler : Type 0
Handler = ℕ → Client → Message → Effects → Client × Effects

-- m.Params[i], read only behind a test of the length.
abbrev pub param_of : List Text → ℕ → Text
param_of [] i = []
param_of (p ∷ ps) zero = p
param_of (p ∷ ps) (suc i) = param_of ps i

abbrev pub param : Message → ℕ → Text
param m i = param_of m.params i

abbrev pub param_count : Message → ℕ
param_count m = length m.params

abbrev pub set_channels : Map Channel → Client → Client
set_channels channels c = record c { channels = channels }

-- if channel, ok := c.Channels[name]; ok { … }
unfoldable pub update_channel : Text → (Channel → Channel) → Client → Client
update_channel name f c = elim (lookup name c.channels) [
  | none ↦ c
  | some channel ↦ set_channels (insert name (f channel) c.channels) c
]

module _ ⦃g : IrcGo⦄ where
  unfoldable pub multi_message : ℕ → Client → Message → List Text → MultiMessage
  multi_message now c m channels = record {
    id = c.id;
    message = new_irc_message now m;
    channels = channels;
  }

-- run: a message from a connection that is no longer the client's is ignored.
unfoldable pub run_if : Option Conn → ℕ → Handler → ℕ → Client → Message → Client × Effects
run_if none serial h now c m = (c, no_effects)
run_if (some conn) serial h now c m =
    if conn.serial == serial then h now c m no_effects else (c, no_effects)

unfoldable pub run : ℕ → Handler → ℕ → Client → Message → Client × Effects
unfolding run_if
run serial h now c m = run_if c.conn serial h now c m

-- annotate, once the message has a prefix.
unfoldable pub annotate_with : Prefix → Client → IrcMessage → IrcMessage
annotate_with prefix c m =
    let privmsg = text_eq m.command (text "PRIVMSG") in
    let addressed = (privmsg || text_eq m.command (text "NOTICE")) && ltb 0 (length m.params) in
    let nick = current_nick c in
    let self = not (is_nil prefix.name) && text_eq prefix.user c.user && text_eq prefix.name nick in
    record m {
      prefix = some (if addressed && privmsg then record prefix { self = self } else prefix);
      direct = if addressed then text_eq (param_of m.params 0) nick else m.direct;
    }

unfoldable pub annotate : Client → IrcMessage → IrcMessage
unfolding annotate_with
annotate c m = elim m.prefix [
  | none ↦ annotate_with no_prefix c m
  | some prefix ↦ annotate_with prefix c m
]
