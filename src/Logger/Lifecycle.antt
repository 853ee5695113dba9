-- ===== src/Logger/Lifecycle.antt =====
-- pkg/logger/logger.go, New, Start and Stop, and cmd/lierc-logger: how the logger comes up and goes down,
-- one call at a time. What postgres, nsqd and the signal do comes as events; the order in which Start
-- goes over its map of topics is a parameter. The connection string and the interval of retry are not here.
pub mod Running
pub mod Standing
pub mod Handling
use lierc.Base.{
  keep, not, text_eq, Bool, true, false, List, [], ◌∷◌, ◌++◌, Option, none, some, if◌then◌else◌,
  Text, Map,
}
use lierc.Logger.{one_of}
use lierc.Logger.Highlights.{Regexps, reload}

-- A call that returned, or a message that was handled.
pub data Call : Type 0 where
  db_opened : Call
  db_answered : Call
  nsqd_answered : Call
  highlights_read : Call
  listened : Call
  subscribed : Text → Call
  handled : Text → Call
  told_to_stop : List Text → Call
  consumer_stopped : Text → Call
  producer_stopped : Call
  listener_closed : Call
  db_closed : Call

-- The call that New, Start or Stop waits for; main waits for a signal when it is ready.
pub data Stage : Type 0 where
  pinging_db : Stage
  pinging_nsqd : Stage
  loading : Stage
  listening : Stage
  making : Text → List Text → Stage
  connecting : Text → List Text → Stage
  ready : Stage
  stopping : Stage
  draining : Text → List Text → Stage
  stopping_producer : Stage
  closing_listener : Stage
  closing_db : Stage
  ended : Stage

-- `running` are the consumers whose handlers are called: those that are connected, up to where nsq closes
-- their StopChan. The calls are the newest first.
pub record Logger : Type 0 where
  pub stage : Stage
  pub consumers : List Text
  pub running : List Text
  pub listener : Bool
  pub highlights : Map (Text → Bool)
  pub calls : List Call

-- New: whether sql.Open and nsq.NewProducer work. Without a producer the database is closed again.
unfoldable pub new_logger : Bool → Bool → List Call × Option Logger
new_logger false producer = ([], none)
new_logger true false = (db_closed ∷ db_opened ∷ [], none)
new_logger true true = (
  db_opened ∷ [],
  some (record {
    stage = pinging_db;
    consumers = [];
    running = [];
    listener = false;
    highlights = [];
    calls = db_opened ∷ [];
  }),
)

-- How a call ends. In retry, one that fails ends the retries if the context is done, and else waits.
pub data Attempt : Type 0 where
  worked : Attempt
  stopped : Attempt
  waited : Attempt

-- One round of retry, at the state behind it if f works. Where it returns an error so does Start, and main
-- ends the program, with what runs.
unfoldable pub retry : Attempt → Logger → Logger → Logger
retry worked next s = next
retry stopped next s = record s { stage = ended; running = [] }
retry waited next s = s

-- A call that is not tried again.
unfoldable pub try : Attempt → Logger → Logger → Logger
try worked next s = next
try stopped next s = record s { stage = ended; running = [] }
try waited next s = record s { stage = ended; running = [] }

-- The loop of Start over the topics, and the second one of Stop.
abbrev pub next_topic : List Text → Stage
next_topic [] = ready
next_topic (t ∷ ts) = making t ts

abbrev pub next_drain : List Text → Stage
next_drain [] = stopping_producer
next_drain (t ∷ ts) = draining t ts

pub data Event : Type 0 where
  answers : Attempt → Event
  -- Highlights returns, in Start or after a NOTIFY.
  reads : Option (Map Text) → Event
  handles : Text → Event
  finishes : Text → Event
  signalled : Event

abbrev pub with_call : Call → Stage → Logger → Logger
with_call c stage s = record s { stage = stage; calls = c ∷ s.calls }

unfoldable pub signal : Stage → Logger → Logger
signal ready s = record s { stage = stopping }
signal _ s = s

-- nsq closes the StopChan of a consumer that was told to stop, behind its handlers.
unfoldable pub finish : Stage → Text → Logger → Logger
finish (draining u us) t s = record s { running = keep (λ r. not (text_eq t r)) s.running }
finish _ t s = s

module _ ⦃re : Regexps⦄ (order : List Text) where
  unfoldable pub answer : Stage → Attempt → Logger → Logger
  unfolding retry try
  answer pinging_db a s = retry a (with_call db_answered pinging_nsqd s) s
  answer pinging_nsqd a s = retry a (with_call nsqd_answered loading s) s
  answer loading a s = s
  answer listening a s =
      try a (record s { stage = next_topic order; listener = true; calls = listened ∷ s.calls }) s
  answer (making t ts) a s = try a (record s { stage = connecting t ts }) s
  answer (connecting t ts) a s =
      retry a
        (record s {
          stage = next_topic ts;
          consumers = s.consumers ++ t ∷ [];
          running = s.running ++ t ∷ [];
          calls = subscribed t ∷ s.calls;
        })
        s
  answer ready a s = s
  answer stopping a s = with_call (told_to_stop s.consumers) (next_drain s.consumers) s
  answer (draining t ts) a s =
      if one_of t s.running then s else with_call (consumer_stopped t) (next_drain ts) s
  answer stopping_producer a s = with_call producer_stopped closing_listener s
  answer closing_listener a s =
      if s.listener
      then record s { stage = closing_db; listener = false; calls = listener_closed ∷ s.calls }
      else record s { stage = closing_db }
  answer closing_db a s = with_call db_closed ended s
  answer ended a s = s

  -- reloadHighlights, in Start, and in the goroutine of listenForHighlights while the listener is open.
  unfoldable pub read_highlights : Stage → Option (Map Text) → Logger → Logger
  read_highlights loading configs s = record s {
    stage = listening;
    highlights = reload configs s.highlights;
    calls = highlights_read ∷ s.calls;
  }
  read_highlights ended configs s = s
  read_highlights _ configs s =
      if s.listener then record s { highlights = reload configs s.highlights } else s

  unfoldable pub step : Event → Logger → Logger
  unfolding answer read_highlights signal finish
  step (answers a) s = answer s.stage a s
  step (reads configs) s = read_highlights s.stage configs s
  step (handles t) s = if one_of t s.running then record s { calls = handled t ∷ s.calls } else s
  step (finishes t) s = finish s.stage t s
  step signalled s = signal s.stage s

  unfoldable pub run : List Event → Logger → Logger
  unfolding step
  run [] s = s
  run (e ∷ es) s = run es (step e s)
