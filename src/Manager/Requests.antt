-- ===== src/Manager/Requests.antt =====
-- pkg/liercd/manager.go: HandleCommand, a request of the API at a time. What other goroutines do
-- while Destroy waits is given to it.
use lierc.Base.{
  ℕ, zero, suc, Bool, true, false, not, List, [], ◌∷◌, ◌++◌, Option, none, some, if◌then◌else◌,
  Text, text, text_eq, Map, get_elem?, set, length, cut,
}
use lierc.Unicode.{Unicode}
use lierc.Irc.{IrcGo}
use lierc.Config.{IrcConfig}
use lierc.Client.{Client, Conn, request_nick, cap_enabled}
use lierc.Client.Data.{client_data}
use lierc.Connection.{start}
use lierc.Connection.Endings.{destroy, destroy_end}
use lierc.Connection.Steps
use lierc.Connection.PortMap.{PortMapEntry, port_map}
use lierc.Sender
use lierc.Sender.{Sender}
use lierc.Manager.{
  Outside, ClientMessage, Object, Manager, message_if, get_client, add_client, remove_client,
  privmsg_event, create_event, delete_event, publish_statuses,
}
use lierc.Manager.Line.{raw_line, requested_nick, should_echo}

-- An http.Request: the path, the body where it can be read, and the config that the body decodes to.
pub record Request : Type 0 where
  pub path : Text
  pub body : Option Text
  pub config : Option IrcConfig

-- A status code and the body, without the line ending that http.Error adds.
pub record Response : Type 0 where
  pub code : ℕ
  pub answer : Text

abbrev pub ok : Text → Response
ok answer = record { code = 200; answer = answer }

abbrev pub nok : ℕ → Response
nok code = record { code = code; answer = text "nok" }

abbrev pub not_registered : Text
not_registered = text "Not connected yet, try again in a moment"

-- parts := strings.SplitN(path, "/", 3), as parts[1] and parts[2] where there are three.
unfoldable pub id_and_action : Text → Option (Text × Text)
unfolding cut
id_and_action path = elim (cut b'/' path) [ none ↦ none | some (_, rest) ↦ cut b'/' rest ]

-- Object n with what `f` makes of it.
unfoldable pub update_object : ℕ → Object → Manager → Manager
update_object n o m = record m { objects = set m.objects n o }

-- c, err := m.GetClient(id): the number and the object, or none.
unfoldable pub object_at : ℕ → Option Object → Option (ℕ × Object)
object_at n none = none
object_at n (some o) = some (n, o)

unfoldable pub find_at : List Object → Option ℕ → Option (ℕ × Object)
unfolding object_at
find_at objects none = none
find_at objects (some n) = object_at n (get_elem? objects n)

unfoldable pub find_object : Text → Manager → Option (ℕ × Object)
unfolding find_at get_client
find_object id m = find_at m.objects (get_client id m)

-- The statuses published after the first `n`.
unfoldable pub later {ℓ} : {A : Type ℓ} → ℕ → List A → List A
later zero xs = xs
later (suc n) [] = []
later (suc n) (x ∷ xs) = later n xs

unfoldable pub with_self : ClientMessage → ClientMessage
with_self e = record e {
  message = record (e.message) {
    prefix = elim e.message.prefix [ none ↦ none | some p ↦ some (record p { self = true }) ];
  };
}

-- An event of our own message, if the line parses.
unfoldable pub own_event : Option ClientMessage → Option ClientMessage
unfolding with_self
own_event none = none
own_event (some e) = some (with_self e)

-- c.Send
unfoldable pub client_send : Text → Object → Object × Bool
client_send line o = elim o.sender [
  | none ↦ (o, false)
  | some s ↦ (record o { sender = some (Sender.send line s).0 }, (Sender.send line s).1)
]

unfoldable pub set_client : Client → Object → Object
set_client c o = record o { attempts = record (o.attempts) { client = c } }

-- if nick, ok := requestedNick(line); ok { c.RequestNick(nick) }
unfoldable pub ask_nick : Option Text → Client → Client
unfolding request_nick
ask_nick none c = c
ask_nick (some nick) c = request_nick nick c

-- The steps that end an attempt, from its connection on or from wherever endAttempt is; those of a
-- part that is over change nothing, and once the client quits the time is not looked at.
abbrev pub end_steps : List Steps.Op
end_steps = Steps.advances 0 0 ∷ Steps.advances 0 0 ∷ Steps.advances 0 0 ∷ []

unfoldable pub to_end : Option Conn → List Steps.Op
to_end none = end_steps
to_end (some conn) = Steps.ends conn.serial (text "Disconnected") ∷ end_steps

module _ ⦃u : Unicode⦄ ⦃g : IrcGo⦄ ⦃out : Outside⦄ where
  -- The entries of the portmap, as identd reads them.
  unfoldable pub entry_row : Option PortMapEntry → Option (List Text)
  entry_row none = none
  entry_row (some e) = some (e.user ∷ e.local ∷ e.remote ∷ e.remote_ip ∷ [])

  abbrev pub entry_of : Client → Option PortMapEntry
  unfolding port_map
  entry_of c = port_map out.split_host_port out.local_addr out.remote_addr c

  unfoldable pub object_row : Option Object → Option (List Text)
  unfolding entry_row
  object_row none = none
  object_row (some o) = entry_row (entry_of o.attempts.client)

  unfoldable pub portmap_rows : List Object → Map ℕ → List (List Text)
  unfolding object_row
  portmap_rows objects [] = []
  portmap_rows objects ((id, n) ∷ rest) =
      let rows = portmap_rows objects rest in
      elim (object_row (get_elem? objects n)) [ none ↦ rows | some row ↦ row ∷ rows ]

  -- The second half of "create", once no client of the name was found.
  unfoldable pub add_new : ℕ → Text → IrcConfig → Manager → Manager
  unfolding add_client
  add_new now id config m =
      let a = start config id out.hostname in
      let added = add_client id (length m.objects) (record m {
        objects = m.objects ++ (record { attempts = a; sender = none; destroyed = false }) ∷ [];
      }) in
      message_if (create_event now a.client) (publish_statuses now a.statuses added)

  unfoldable pub create_unless : ℕ → Text → IrcConfig → Option ℕ → Manager → Manager × Response
  create_unless now id config (some n) m = (m, nok 400)
  create_unless now id config none m = (add_new now id config m, ok (text "ok"))

  unfoldable pub create : ℕ → Text → Option IrcConfig → Manager → Manager × Response
  unfolding create_unless get_client
  create now id none m = (m, nok 400)
  create now id (some config) m = create_unless now id config (get_client id m) m

  -- c.Destroy(), with the steps of other goroutines while it waits, and then what these have left of
  -- the end of the attempt: it returns once attemptDone is closed.
  unfoldable pub destroy_object : List Steps.Op → Object → Object
  unfolding destroy destroy_end to_end
  destroy_object during o = record {
    attempts =
        destroy_end
          (Steps.run out.duration (during ++ to_end o.attempts.client.conn) (destroy o.attempts));
    sender = none;
    destroyed = true;
  }

  -- c.Destroy(), of object n, with the statuses that it publishes.
  unfoldable pub destroy_pointed : ℕ → ℕ → List Steps.Op → Object → Manager → Manager
  unfolding update_object
  destroy_pointed now n during o m =
      let o' = destroy_object during o in
      update_object n o'
        (publish_statuses now (later (length o.attempts.statuses) o'.attempts.statuses) m)

  -- The rest of "destroy", for the client that was found.
  unfoldable pub destroy_found : ℕ → ℕ → List Steps.Op → Object → Manager → Manager
  unfolding remove_client destroy_pointed
  destroy_found now n during o m =
      remove_client o.attempts.client.id
        (destroy_pointed now n during o (message_if (delete_event now o.attempts.client) m))

  -- What "raw" does with a line for a registered client.
  unfoldable pub send_raw : ℕ → Text → Object → Object × Option ClientMessage
  unfolding requested_nick ask_nick set_client cap_enabled client_send should_echo privmsg_event
      own_event
  send_raw now line o =
      let c = ask_nick (requested_nick now line) o.attempts.client in
      let echo_acked = cap_enabled (text "echo-message") c in
      let (o', queued) = client_send line (set_client c o) in
      (
        o',
        if should_echo now line queued echo_acked
            then own_event (privmsg_event now c line)
            else none,
      )

  -- "raw", from the two checks on.
  unfoldable pub raw_checked : ℕ → ℕ → Text → Bool → Bool → Object → Manager → Manager × Response
  unfolding update_object message_if
  raw_checked now n line fits registered o m =
      if not fits
      then (m, record { code = 400; answer = text "A line can't contain a line break" })
      else if not registered
      then (m, record { code = 409; answer = not_registered })
      else let (o', event) = send_raw now line o in (message_if event (update_object n o' m), ok [])

  unfoldable pub raw_object : ℕ → ℕ → Option Text → Object → Manager → Manager × Response
  unfolding raw_line raw_checked
  raw_object now n none o m = (m, nok 404)
  raw_object now n (some body) o m =
      let (line, fits) = raw_line body in
      raw_checked now n line fits o.attempts.client.registered o m

  -- "destroy", "raw" and "status", for the client that was found or not.
  unfoldable pub destroy_by_id :
      ℕ → List Steps.Op → Option (ℕ × Object) → Manager → Manager × Response
  destroy_by_id now during none m = (m, nok 404)
  destroy_by_id now during (some (n, o)) m = (destroy_found now n during o m, ok (text "ok"))

  unfoldable pub raw_by_id : ℕ → Option Text → Option (ℕ × Object) → Manager → Manager × Response
  raw_by_id now body none m = (m, nok 404)
  raw_by_id now body (some (n, o)) m = raw_object now n body o m

  unfoldable pub status_by_id : Option (ℕ × Object) → Manager → Manager × Response
  unfolding client_data
  status_by_id none m = (m, nok 404)
  status_by_id (some (n, o)) m = (m, ok (out.json_data (client_data o.attempts.client)))

  unfoldable pub act : ℕ → List Steps.Op → Text → Text → Request → Manager → Manager × Response
  act now during id action r m =
      if text_eq action (text "create")
      then create now id r.config m
      else if text_eq action (text "destroy")
      then destroy_by_id now during (find_object id m) m
      else if text_eq action (text "raw")
      then raw_by_id now r.body (find_object id m) m
      else if text_eq action (text "status")
      then status_by_id (find_object id m) m
      else (m, ok [])

  -- HandleCommand
  unfoldable pub handle_command : ℕ → List Steps.Op → Request → Manager → Manager × Response
  unfolding id_and_action portmap_rows
  handle_command now during r m =
      if text_eq r.path (text "/state")
      then (m, ok (text "ok"))
      else if text_eq r.path (text "/portmap")
      then (m, ok (out.json_portmap (portmap_rows m.objects m.clients)))
      else elim (id_and_action r.path) [
        | none ↦ (m, ok (text "Invalid request"))
        | some (id, action) ↦ act now during id action r m
      ]
