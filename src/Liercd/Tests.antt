-- ===== src/Liercd/Tests.antt =====
-- Runs and instances for cmd/liercd.
use lierc.Base.{
  text_eq, true, Entries, ℕ, false, List, [], ◌∷◌, Option, none, some, ◌≡◌, refl, arith, Text, text,
  length, lookup, insert,
}
use lierc.Unicode.Ascii.{ascii}
use lierc.Strconv.{pos}
use lierc.Irc.{IrcGo}
use lierc.Config.{IrcConfig}
use lierc.Client.{Conn}
use lierc.Manager.{Outside, Queued, chats}
use lierc.Manager.{create_event, publish_statuses}
use lierc.Manager.Requests.{raw_object, send_raw, later, destroy_object}
use lierc.Connection.{start, finish_setup, on_connected, connect}
use lierc.Connection.Endings.{end_attempt, advance}
use lierc.Sender
use lierc.Connection.Steps
use lierc.Manager.Tasks
use lierc.Publisher.{Outcome, accepts}
use lierc.Publisher.Order.{after}
use lierc.Liercd.{
  Liercd, new_liercd, listen_addr, Op, requests, lines, moves, takes, publishes, run, stop,
}
use lierc.Liercd.Taken.{encoded}
use lierc.Liercd.Flushed.{stop-accepted}
use lierc.Liercd.Clients.{stop-IsDestroyed}
use lierc.Manager.Registry.Interleaved.{Named}
use lierc.Manager.Shutdown.{IsDestroyed}

-- A line is its command.
instance abbrev commands : IrcGo
commands = record {
  parse_line = λ line. some (record { source = []; command = line; params = [] });
  parse_nuh = λ source. record { name = source; user = []; host = [] };
  nick = λ m. m.source;
  nuh = λ m. none;
  all_tags = λ m. [];
}

instance abbrev outside : Outside
outside = record {
  split_host_port = λ t. (t, []);
  local_addr = λ s. [];
  remote_addr = λ s. [];
  json_portmap = λ rows. [];
  json_data = λ d. [];
  duration = λ d. [];
  hostname = text "h";
}

abbrev config : IrcConfig
config = record {
  host = text "irc.test";
  port = pos 6667;
  ssl = false;
  nick = text "me";
  user = text "u";
  pass = [];
  sasl = false;
  alias = [];
  channels = [];
  highlight = [];
}

-- Only lines that come in are encoded, by their commands.
abbrev encode : Queued → Option Text
encode (chats e) = some e.message.command
encode _ = none

abbrev conn : Conn
conn = record { serial = 0; current_nick = text "me"; isupport = []; acked_caps = [] }

-- A client is made, connects, and gets a line; we send a line, which is echoed; nsqd refuses the first
-- event twice.
abbrev ops : List Op
ops =
    requests (Tasks.creates (text "1") (some config))
    ∷ requests (Tasks.continues 0 0 [])
    ∷ publishes (accepts 2)
    ∷ moves 1 0 (Steps.connects 0 conn ∷ Steps.connected 0 7 ∷ Steps.registers 0 ∷ [])
    ∷ requests (Tasks.raws 1 (text "1") (some (text "PRIVMSG")))
    ∷ takes 0 true
    ∷ lines 1 0 (some (record { source = text "s"; command = text "PING"; params = [] }))
    ∷ []

abbrev nsqd : List Outcome
nsqd = accepts 0 ∷ accepts 0 ∷ accepts 0 ∷ accepts 0 ∷ accepts 1 ∷ accepts 0 ∷ accepts 0 ∷ []

abbrev stopped : Liercd × ℕ
stopped = stop encode 2 (λ n. []) [] nsqd (run encode ops new_liercd)

-- The two lines, and what the manager says of the client.
queue_run : length stopped.0.server.manager.queue ≡ 7
unfolding stop run Tasks.step lookup new_liercd create_event publish_statuses start insert later
    destroy_object Steps.run Steps.step Steps.advance_call finish_setup on_connected Steps.resume
    connect text_eq raw_object send_raw Sender.send end_attempt advance
queue_run = refl

address_run : listen_addr [] ≡ text "0.0.0.0:5005"
unfolding listen_addr
address_run = refl

stop-accepted_example :
    (stopped.1 ≡ 0)
    × (stopped.0.events.publisher.accepted ≡ encoded encode stopped.0.server.manager.queue)
stop-accepted_example =
    stop-accepted encode ops 2 (λ n. []) [] nsqd (omega (arith, queue_run))
      (after 0, (after 0, (after 0, (after 0, (after 1, (after 0, (after 0, tt)))))))
      (omega (arith, queue_run))

stop-IsDestroyed_example :
    let d = run encode ops new_liercd in
    Named d.server.manager
    × Entries (λ id n. IsDestroyed 2 (λ k. []) stopped.0.server.manager n) d.server.manager.clients
stop-IsDestroyed_example = stop-IsDestroyed encode ops 2 (λ k. []) [] nsqd

-- There is a client.
clients_run : length (run encode ops new_liercd).server.manager.clients ≡ 1
unfolding run Tasks.step lookup new_liercd create_event publish_statuses start insert later
    Steps.run Steps.step finish_setup on_connected Steps.resume connect text_eq raw_object send_raw
    Sender.send
clients_run = refl
