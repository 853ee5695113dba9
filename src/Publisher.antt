-- ===== src/Publisher.antt =====
-- pkg/liercd/publisher.go: events on their way to nsqd. Publishing to nsqd and the context are the
-- environment's: how each call of publish turns out is given to the steps.
pub mod Order
mod Tests
use lierc.Base.{
  ℕ, zero, suc, ◌+◌, Bool, true, false, not, ◌&&◌, List, [], ◌∷◌, ◌++◌, Option, none, some, ltb,
  ◌==◌, if◌then◌else◌, Text, length,
}

abbrev pub queue_size : ℕ
queue_size = 10000

pub record Outgoing : Type 0 where
  pub topic : Text
  pub body : Text

-- Publisher, with the events that nsqd has accepted, in order, and whether Run has returned. `size`
-- is the capacity of the channel.
pub record Publisher : Type 0 where
  pub size : ℕ
  pub queue : List Outgoing
  pub pending : Option Outgoing
  pub accepted : List Outgoing
  pub attempts : ℕ
  pub running : Bool

unfoldable pub new_publisher : ℕ → Publisher
new_publisher size = record {
  size = size;
  queue = [];
  pending = none;
  accepted = [];
  attempts = 0;
  running = true;
}

-- Enqueue, with the event's encoding, or none where encoding it fails. The answer is whether it
-- was queued.
unfoldable pub enqueue : Text → Option Text → Publisher → Publisher × Bool
enqueue topic none p = (p, false)
enqueue topic (some body) p =
    if ltb (length p.queue) p.size
    then (record p { queue = p.queue ++ (record { topic = topic; body = body }) ∷ [] }, true)
    else (p, false)

-- How a call of publish turns out: after so many failures nsqd accepts the event, or the context
-- is done behind the last of them.
pub data Outcome : Type 0 where
  accepts : ℕ → Outcome
  gives_up : ℕ → Outcome

-- publish
unfoldable pub publish : Outgoing → Outcome → Publisher → Publisher × Bool
publish o (accepts failures) p =
    (record p { accepted = p.accepted ++ o ∷ []; attempts = p.attempts + (failures + 1) }, true)
publish o (gives_up failures) p = (record p { attempts = p.attempts + (failures + 1) }, false)

-- What publish is followed by where the event came from the queue: a failed one stays pending.
unfoldable pub settle : Outgoing → Publisher × Bool → Publisher × Bool
settle o (p, true) = (p, true)
settle o (p, false) = (record p { pending = some o }, false)

-- One round of Run that takes an event; it returns if publishing it is given up.
unfoldable pub run_queue : Outcome → List Outgoing → Publisher → Publisher
unfolding publish settle
run_queue outcome [] p = p
run_queue outcome (o ∷ rest) p =
    let (p', published) = settle o (publish o outcome (record p { queue = rest })) in
    record p' { running = published }

unfoldable pub run_round : Outcome → Publisher → Publisher
unfolding run_queue
run_round outcome p = if p.running then run_queue outcome p.queue p else p

-- The round of Run in which the context is done.
unfoldable pub run_done : Publisher → Publisher
run_done p = record p { running = false }

abbrev pub first_outcome : List Outcome → Outcome
first_outcome [] = gives_up 0
first_outcome (o ∷ os) = o

abbrev pub later_outcomes : List Outcome → List Outcome
later_outcomes [] = []
later_outcomes (o ∷ os) = os

-- The loop of Flush, over the events queued. With no outcome left the context is done.
unfoldable pub flush_queue : List Outcome → List Outgoing → Publisher → Publisher × ℕ
unfolding publish settle
flush_queue outcomes [] p = (p, 0)
flush_queue outcomes (o ∷ rest) p =
    let (p', published) =
      settle o (publish o (first_outcome outcomes) (record p { queue = rest })) in
    let more = flush_queue (later_outcomes outcomes) rest p' in
    if published then more else (p', length rest + 1)

-- Flush: what Run left pending comes first.
unfoldable pub flush_pending : List Outcome → Option Outgoing → Publisher → Publisher × ℕ
unfolding flush_queue
flush_pending outcomes none p = flush_queue outcomes p.queue p
flush_pending outcomes (some o) p =
    let (p', published) = publish o (first_outcome outcomes) p in
    let more = flush_queue (later_outcomes outcomes) p'.queue (record p' { pending = none }) in
    if published then more else (p', length p'.queue + 1)

unfoldable pub flush : List Outcome → Publisher → Publisher × ℕ
unfolding flush_pending
flush outcomes p = flush_pending outcomes p.pending p
