-- ===== src/Manager.antt =====
-- pkg/liercd/manager.go: the clients that liercd runs, and what they publish. JSON, net and the
-- clients' sockets are the environment's (Outside).
pub mod Line
pub mod Requests
pub mod Raw
pub mod Tasks
pub mod Registry
pub mod Shutdown
pub mod Sink
pub mod Queueing
pub mod PortMaps
pub mod Identd
mod Tests
use lierc.Base.{
  ℕ, ◌+◌, Bool, true, false, List, [], ◌∷◌, ◌++◌, Option, none, some, if◌then◌else◌, Text, text,
  Map, lookup, insert, delete, get_elem?, set, length,
}
use lierc.Irc.{IrcGo, IrcMessage, parse_irc_message}
use lierc.Config.{IrcConfig, display}
use lierc.Client.{Client, MultiMessage, ConfigChange, current_nick, source}
use lierc.Client.Data.{ClientData}
use lierc.Connection.{Status, status, Attempts, start}
use lierc.Sender
use lierc.Sender.{Sender}

-- What is not the repository's: net's parse of an address, the addresses of a socket, encoding/json
-- of the values that are answered with, a duration's text, the host's name.
pub record Outside : Type 0 where
  pub split_host_port : Text → Text × Text
  pub local_addr : ℕ → Text
  pub remote_addr : ℕ → Text
  pub json_portmap : List (List Text) → Text
  pub json_data : ClientData → Text
  pub duration : ℕ → Text
  pub hostname : Text

-- IRCClientMessage
pub record ClientMessage : Type 0 where
  pub id : Text
  pub message : IrcMessage

-- What is queued for nsqd, on its topic.
pub data Queued : Type 0 where
  chats : ClientMessage → Queued
  multi : MultiMessage → Queued
  config : ConfigChange → Queued

-- A client's object: its attempts, the sender that it points to while connected, and whether Destroy
-- has been called.
pub record Object : Type 0 where
  pub attempts : Attempts
  pub sender : Option Sender
  pub destroyed : Bool

-- ClientManager. Clients are pointed to by their number in `objects`, where each one that was made
-- stays.
pub record Manager : Type 0 where
  pub clients : Map ℕ
  pub objects : List Object
  pub queue : List Queued

unfoldable pub new_client_manager : Manager
new_client_manager = record { clients = []; objects = []; queue = [] }

unfoldable pub enqueue : Queued → Manager → Manager
enqueue e m = record m { queue = m.queue ++ e ∷ [] }

-- Message, Multi and ConfigChange
unfoldable pub message : ClientMessage → Manager → Manager
unfolding enqueue
message e m = enqueue (chats e) m

unfoldable pub publish_multi : MultiMessage → Manager → Manager
unfolding enqueue
publish_multi e m = enqueue (multi e) m

unfoldable pub config_change : ConfigChange → Manager → Manager
unfolding enqueue
config_change e m = enqueue (config e) m

-- if event != nil { m.Message(event) }
unfoldable pub message_if : Option ClientMessage → Manager → Manager
unfolding message
message_if none m = m
message_if (some e) m = message e m

unfoldable pub get_client : Text → Manager → Option ℕ
get_client uuid m = lookup uuid m.clients

unfoldable pub add_client : Text → ℕ → Manager → Manager
add_client id n m = record m { clients = insert id n m.clients }

-- RemoveClient, by the client's id: whichever client is listed under it.
unfoldable pub remove_client : Text → Manager → Manager
remove_client id m = record m { clients = delete id m.clients }

module _ ⦃g : IrcGo⦄ where
  -- An event of a client, from a line that irc-go parses.
  unfoldable pub line_event : ℕ → Text → Text → Option ClientMessage
  unfolding parse_irc_message
  line_event now id line = elim (parse_irc_message now line) [
    | none ↦ none
    | some m ↦ some (record { id = id; message = m })
  ]

  unfoldable pub connect_event : ℕ → Status → Option ClientMessage
  unfolding line_event
  connect_event now s =
      let event = if s.connected then text "CONNECT" else text "DISCONNECT" in
      line_event now s.id (b':' ∷ (s.host ++ b' ' ∷ (event ++ b' ' ∷ (b':' ∷ s.message))))

  unfoldable pub privmsg_event : ℕ → Client → Text → Option ClientMessage
  unfolding line_event source
  privmsg_event now c line = line_event now c.id (b':' ∷ (source c ++ b' ' ∷ line))

  unfoldable pub create_event : ℕ → Client → Option ClientMessage
  unfolding line_event current_nick display
  create_event now c =
      line_event now c.id (text "CREATE " ++ (current_nick c ++ b' ' ∷ (b':' ∷ display c.config)))

  unfoldable pub delete_event : ℕ → Client → Option ClientMessage
  unfolding line_event
  delete_event now c = line_event now c.id (text "DELETE " ++ c.id)

  -- Status, as the manager's method.
  unfoldable pub publish_status : ℕ → Status → Manager → Manager
  unfolding connect_event message_if
  publish_status now s m = message_if (connect_event now s) m

  unfoldable pub publish_statuses : ℕ → List Status → Manager → Manager
  unfolding publish_status
  publish_statuses now [] m = m
  publish_statuses now (s ∷ ss) m = publish_statuses now ss (publish_status now s m)
