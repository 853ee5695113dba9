-- ===== src/Connection.antt =====
-- pkg/lierc/connection.go: a client's connection attempts, from connect to endAttempt, the timer
-- between them, and Destroy. The objects that an attempt makes (irc-go's connection, the sender,
-- attemptDone, the dial's cancel function) carry the attempt's number. What runs with a lock held is
-- one step; goroutines that wait for each other are lists of what they have still to do.
pub mod Endings
pub mod Steps
pub mod Phase
pub mod Single
pub mod Destroyed
pub mod Stopped
pub mod Retry
pub mod Backoff
pub mod Tracked
pub mod Messages
pub mod PortMap
pub mod Names
mod Tests
use lierc.Base.{
  ℕ, ◌+◌, ◌-◌, ◌*◌, Bool, true, false, not, ◌&&◌, ◌||◌, List, [], ◌∷◌, ◌++◌, Option, none, some,
  ◌==◌, ltb, leb, if◌then◌else◌, Text, text, is_nil, keep,
}
use lierc.Config.{IrcConfig}
use lierc.Client.{Client, Conn, join_lines}

-- Durations and times are in nanoseconds.
abbrev pub retry_unit : ℕ
retry_unit = 15000000000

abbrev pub stable_after : ℕ
stable_after = 300000000000

unfoldable pub backoff : ℕ → ℕ
backoff retries = if ltb 20 retries then retry_unit * 20 else retry_unit * retries

-- IRCClientStatus
pub record Status : Type 0 where
  pub id : Text
  pub message : Text
  pub connected : Bool
  pub host : Text

unfoldable pub status : Client → Status
status c = record {
  id = c.id;
  message = c.status_message;
  connected = c.connected;
  host = c.config.host;
}

-- A call of endAttempt, past its first part: it has still to close the socket and publish the
-- message, then to decide on the next attempt, and then to close attemptDone.
pub data Ending : Type 0 where
  reporting : Option ℕ → ℕ → Text → Ending
  deciding : ℕ → Ending
  closing : ℕ → Ending

-- The client and what belongs to its attempts: how many have begun, what they published and closed,
-- the timers whose time has not come, by the attemptDone that their functions wait for, and the
-- goroutines that are about to call connect (`none` is Start's).
pub record Attempts : Type 0 where
  pub client : Client
  pub begun : ℕ
  pub cancel_dial : Option ℕ
  pub timer : Option ℕ
  pub timers : List ℕ
  pub waiting : List (Option ℕ)
  pub endings : List Ending
  pub statuses : List Status
  pub sends : List Text
  pub closed : List ℕ
  pub cancelled : List ℕ
  pub closed_sockets : List ℕ
  pub stopped_senders : List ℕ

-- NewIRCClient
unfoldable pub new_irc_client : IrcConfig → Text → Text → Client
new_irc_client config id hostname = record {
  id = id;
  config = config;
  channels = [];
  user = config.user;
  host = hostname;
  registered = false;
  connected = false;
  status_message = text "Connecting";
  retries = 0;
  quitting = false;
  stopped = [];
  requested_nick = [];
  conn = none;
  socket = none;
  attempt_done = none;
  reg_nick = [];
  reg_tries = 0;
  gave_up = [];
  welcomed_at = none;
  sender = none;
}

-- NewIRCClient, which publishes the first status, and Start.
unfoldable pub start : IrcConfig → Text → Text → Attempts
unfolding new_irc_client status
start config id hostname = record {
  client = new_irc_client config id hostname;
  begun = 0;
  cancel_dial = none;
  timer = none;
  timers = [];
  waiting = none ∷ [];
  endings = [];
  statuses = status (new_irc_client config id hostname) ∷ [];
  sends = [];
  closed = [];
  cancelled = [];
  closed_sockets = [];
  stopped_senders = [];
}

abbrev pub also : Option ℕ → List ℕ → List ℕ
also none ns = ns
also (some n) ns = ns ++ n ∷ []

-- sendStatus
unfoldable pub send_status : Attempts → Attempts
unfolding status
send_status a = record a { statuses = a.statuses ++ status a.client ∷ [] }

-- setStatus
unfoldable pub set_status : Bool → Text → Attempts → Attempts
unfolding send_status
set_status connected msg a =
    send_status
      (record a { client = record (a.client) { connected = connected; status_message = msg } })

-- c.conn == conn
unfoldable pub is_conn : ℕ → Option Conn → Bool
is_conn n none = false
is_conn n (some conn) = conn.serial == n

-- The state that connect resets, with the new connection.
unfoldable pub begin_attempt : ℕ → Conn → Client → Client
begin_attempt n conn c = record c {
  conn = some (record conn { serial = n });
  socket = none;
  attempt_done = some n;
  requested_nick = [];
  reg_nick = c.config.nick;
  reg_tries = 0;
  gave_up = [];
  welcomed_at = none;
  registered = false;
}

-- connect, up to irc-go's Connect.
unfoldable pub connect : Conn → Attempts → Attempts
unfolding begin_attempt
connect conn a = if a.client.quitting then a else record a {
  client = begin_attempt a.begun conn a.client;
  begun = a.begun + 1;
  cancel_dial = some a.begun;
}

-- onConnected, of attempt n.
unfoldable pub on_connected : ℕ → ℕ → Attempts → Attempts
unfolding is_conn set_status
on_connected n sock a =
    if not (is_conn n a.client.conn) || a.client.quitting
    then record a { closed_sockets = a.closed_sockets ++ sock ∷ [] }
    else set_status true (text "Connected")
        (record a { client = record (a.client) { socket = some sock; sender = some n } })

-- connect, once irc-go's Connect has returned without an error: finishSetup.
unfoldable pub finish_setup : ℕ → Attempts → Attempts
unfolding is_conn join_lines
finish_setup n a =
    if is_conn n a.client.conn
    then record a {
      client = record (a.client) { registered = true };
      sends = a.sends ++ join_lines a.client.config.channels;
    }
    else a
