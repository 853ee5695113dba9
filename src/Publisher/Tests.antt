-- ===== src/Publisher/Tests.antt =====
-- Runs and instances for pkg/liercd/publisher.go.
use lierc.Base.{false, List, [], ◌∷◌, some, none, text}
use lierc.Publisher.{Publisher, Outgoing, gives_up}
use lierc.Publisher.Order.{Op, enqueues, rounds, done, run, start, IsKept, run-IsKept}

abbrev event : Outgoing
event = record { topic = text "chats"; body = text "{}" }

abbrev ops : List Op
ops =
    enqueues (text "chats") (some (text "{}"))
    ∷ enqueues (text "chats") none
    ∷ enqueues (text "multi") (some (text "{}"))
    ∷ rounds (gives_up 2)
    ∷ done
    ∷ []

run-IsKept_example : IsKept (run ops (start 2))
run-IsKept_example = run-IsKept 2 ops

abbrev left : Publisher
left = record {
  size = 2;
  queue = event ∷ [];
  pending = some event;
  accepted = [];
  attempts = 0;
  running = false;
}
