-- ===== src/Liercd.antt =====
-- cmd/liercd/main.go: the manager, whose clients queue their events at the publisher, and how main stops
-- them. The encoding of an event is json.Marshal's, none for an error. The binding of the command API's
-- address is an argument.
pub mod Taken
pub mod Flushed
pub mod Clients
mod Tests
use lierc.Base.{
  ℕ, zero, suc, Bool, true, false, List, [], ◌∷◌, ◌++◌, Option, none, some, Text, text, is_nil,
  if◌then◌else◌, get_elem?, length, ◌==◌,
}
use lierc.Unicode.{Unicode}
use lierc.Irc.{IrcGo, Message}
use lierc.Connection.Steps
use lierc.Manager.{
  Outside, Object, Manager, Queued, chats, multi, config, new_client_manager, publish_statuses,
}
use lierc.Manager.Requests.{later, update_object}
use lierc.Manager.Tasks
use lierc.Manager.Tasks.{Server, with_manager}
use lierc.Manager.Shutdown.{shutdown}
use lierc.Manager.Sink.{on_line, callback}
use lierc.Sender.{Sender, new_sender, take, pass as pass_line}
use lierc.Publisher.{Outcome, Publisher, queue_size, flush}
use lierc.Publisher.Order
use lierc.Publisher.Order.{Traced, enqueues, rounds, done}

-- listenAddr, with the variable LISTEN.
unfoldable pub listen_addr : Text → Text
listen_addr addr = if is_nil addr then text "0.0.0.0:5005" else addr

-- The address of nsqd, with the variable NSQD_HOST.
unfoldable pub nsqd_addr : Text → Text
nsqd_addr host = host ++ text ":4150"

-- The topic that the manager passes to Enqueue.
unfoldable pub topic_of : Queued → Text
topic_of (chats e) = text "chats"
topic_of (multi e) = text "multi"
topic_of (config e) = text "config"

-- The server of the API, and the publisher with the events that it took.
pub record Liercd : Type 0 where
  pub server : Server
  pub events : Traced

unfoldable pub new_liercd : Liercd
unfolding new_client_manager
new_liercd = record {
  server = record { manager = new_client_manager; tasks = [] };
  events = Order.start queue_size;
}

-- main, up to where it serves: whether nsq.NewProducer and the binding of the address work.
unfoldable pub start_liercd : Bool → Bool → Option Liercd
unfolding new_liercd
start_liercd produces binds = if produces then (if binds then some new_liercd else none) else none

unfoldable pub run_rounds : List Outcome → Traced → Traced
run_rounds [] t = t
run_rounds (o ∷ os) t = run_rounds os (Order.step (rounds o) t)

module _ ⦃u : Unicode⦄ ⦃g : IrcGo⦄ ⦃out : Outside⦄ where
  -- The line of a connection of client n, as onLine gets it.
  unfoldable pub line_at : ℕ → Option Message → Option Object → Manager → Manager
  unfolding on_line
  line_at now parsed none m = m
  line_at now parsed (some o) m = on_line now parsed o.attempts.client m

  -- Where c.sender points, with the attempts' senders before and after steps: onConnected stores the
  -- new sender of its attempt, which nothing was sent over yet.
  unfoldable pub sender_now : Option ℕ → Option ℕ → Option Sender → Option Sender
  unfolding new_sender
  sender_now before none s = none
  sender_now none (some n) s = some new_sender
  sender_now (some k) (some n) s = if k == n then s else some new_sender

  unfoldable pub drained : (Sender → Sender) → Option Sender → Option Sender
  drained f none = none
  drained f (some s) = some (f s)

  -- A step of the goroutine of client n's sender.
  unfoldable pub drain : ℕ → (Sender → Sender) → Option Object → Manager → Manager
  unfolding update_object drained
  drain n f none m = m
  drain n f (some o) m = update_object n (record o { sender = drained f o.sender }) m

  -- Steps of the attempts of client n, with the statuses that they publish.
  unfoldable pub move : ℕ → ℕ → List Steps.Op → Option Object → Manager → Manager
  unfolding update_object sender_now
  move now n ops none m = m
  move now n ops (some o) m =
      let a = Steps.run out.duration ops o.attempts in
      update_object n
        (record o {
          attempts = a;
          sender = sender_now o.attempts.client.sender a.client.sender o.sender;
        })
        (publish_statuses now (later (length o.attempts.statuses) a.statuses) m)

  -- A step of a request; a line of client n, by onLine or by the handler of its command; steps of the
  -- client's attempts; a step of run of its sender; a round of Run.
  pub data Op : Type 0 where
    requests : Tasks.Op → Op
    lines : ℕ → ℕ → Option Message → Op
    calls : ℕ → ℕ → ℕ → Message → Op
    moves : ℕ → ℕ → List Steps.Op → Op
    takes : ℕ → Bool → Op
    passes : ℕ → Bool → Bool → Bool → Op
    publishes : Outcome → Op

  unfoldable pub serve : Op → Server → Server
  unfolding line_at callback move drain
  serve (requests op) s = Tasks.step op s
  serve (lines now n parsed) s = with_manager (line_at now parsed (get_elem? s.manager.objects n)) s
  serve (calls serial now n message) s =
      with_manager (callback serial now message n (get_elem? s.manager.objects n)) s
  serve (moves now n ops) s = with_manager (move now n ops (get_elem? s.manager.objects n)) s
  serve (takes n chosen) s =
      with_manager (drain n (λ r. take chosen r.hand r) (get_elem? s.manager.objects n)) s
  serve (passes n waited works debug) s =
      with_manager
        (drain n (λ r. pass_line waited works debug r.hand r) (get_elem? s.manager.objects n)) s
  serve (publishes outcome) s = s

  unfoldable pub published : Op → Liercd → Liercd
  published (publishes outcome) d = record d { events = Order.step (rounds outcome) d.events }
  published _ d = d

module _ (encode : Queued → Option Text) where
  -- Enqueue, for each event in turn.
  unfoldable pub offer : List Queued → Traced → Traced
  unfolding topic_of
  offer [] t = t
  offer (e ∷ es) t = offer es (Order.step (enqueues (topic_of e) (encode e)) t)

  -- What the manager has queued by now goes to the publisher.
  unfoldable pub pass : Server → Liercd → Liercd
  unfolding offer
  pass s d = record {
    server = s;
    events = offer (later (length d.server.manager.queue) s.manager.queue) d.events;
  }

  module _ ⦃u : Unicode⦄ ⦃g : IrcGo⦄ ⦃out : Outside⦄ where
    unfoldable pub step : Op → Liercd → Liercd
    unfolding pass serve published
    step op d = published op (pass (serve op d.server) d)

    unfoldable pub run : List Op → Liercd → Liercd
    unfolding step
    run [] d = d
    run (op ∷ ops) d = run ops (step op d)

    -- Behind the signal: Shutdown, the rounds that Run still takes, the end of Run, and Flush, which
    -- returns how many events are left.
    unfoldable pub stop :
        ℕ → (ℕ → List Steps.Op) → List Outcome → List Outcome → Liercd → Liercd × ℕ
    unfolding pass shutdown run_rounds flush
    stop now during last_rounds outcomes d =
        let closed = pass (with_manager (shutdown now during) d.server) d in
        let ran = Order.step done (run_rounds last_rounds closed.events) in
        let (p, left) = flush outcomes ran.publisher in
        (record { server = closed.server; events = record ran { publisher = p } }, left)
