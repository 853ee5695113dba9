-- ===== src/Sender.antt =====
-- pkg/lierc/sender.go: the queue of the lines that we send. The mutex and the channel make the parts of
-- an operation one step each: Send tests the context before it takes the mutex, and run takes a line
-- before it waits for the rate limiter, which only delays it and may fail once the sender is stopped.
pub mod Order
mod Tests
use lierc.Base.{
  Option, some, none, ℕ, zero, suc, ◌+◌, Bool, true, false, not, ◌&&◌, List, [], ◌∷◌, ◌++◌, ltb,
  ◌==◌, if◌then◌else◌, Text, length,
}

abbrev pub send_queue_size : ℕ
send_queue_size = 256

-- What the sender logs.
pub data Log : Type 0 where
  queue_full : Log
  dropped_lines : ℕ → Log
  send_failed : Log

-- sender, with the line that run has taken and waits for the limiter with, the lines passed to s.send,
-- those that run took and lost because the sender was stopped, and the log. `running` is whether run
-- has not returned.
pub record Sender : Type 0 where
  pub queue : List Text
  pub hand : Option Text
  pub dropped : ℕ
  pub stopped : Bool
  pub running : Bool
  pub sent : List Text
  pub lost : List Text
  pub log : List Log

unfoldable pub new_sender : Sender
new_sender = record {
  queue = [];
  hand = none;
  dropped = 0;
  stopped = false;
  running = true;
  sent = [];
  lost = [];
  log = [];
}

unfoldable pub log_dropped : Sender → Sender
log_dropped s =
    if ltb 0 s.dropped
    then record s { log = s.log ++ dropped_lines s.dropped ∷ []; dropped = 0 }
    else s

-- Send's two cases of the select, once the sender is seen not to be stopped.
unfoldable pub enqueue : Text → Sender → Sender
unfolding log_dropped
enqueue line s = log_dropped (record s { queue = s.queue ++ line ∷ [] })

unfoldable pub drop_line : Sender → Sender
drop_line s = record s {
  log = if s.dropped == 0 then s.log ++ queue_full ∷ [] else s.log;
  dropped = s.dropped + 1;
}

-- Send, behind its test of the context.
unfoldable pub offer : Text → Sender → Sender × Bool
unfolding enqueue drop_line
offer line s =
    if ltb (length s.queue) send_queue_size then (enqueue line s, true) else (drop_line s, false)

unfoldable pub send : Text → Sender → Sender × Bool
unfolding offer
send line s = if s.stopped then (s, false) else offer line s

-- run takes the first line of the queue.
unfoldable pub take_first : List Text → Sender → Sender
take_first [] s = s
take_first (line ∷ rest) s = record s { queue = rest; hand = some line }

-- The select of run. Once the sender is stopped, run may return or take a line, whichever case is
-- chosen; `takes` is whether it takes one.
unfoldable pub take : Bool → Option Text → Sender → Sender
unfolding take_first
take takes (some line) s = s
take takes none s =
    if not s.running
    then s
    else if s.stopped && not takes
    then record s { running = false }
    else take_first s.queue s

-- s.send. An error of it is logged under debug, and the line is gone.
unfoldable pub send_line : Bool → Bool → Text → Sender → Sender
send_line works debug line s = record s {
  hand = none;
  sent = s.sent ++ line ∷ [];
  log = if not works && debug then s.log ++ send_failed ∷ [] else s.log;
}

-- The limiter's Wait has failed, and run returns.
unfoldable pub lose_line : Text → Sender → Sender
lose_line line s = record s { hand = none; lost = s.lost ++ line ∷ []; running = false }

-- run, with the line that it took. The limiter's Wait fails only once the sender is stopped; `waited` is
-- whether it has ended before.
unfoldable pub pass : Bool → Bool → Bool → Option Text → Sender → Sender
unfolding send_line lose_line
pass waited works debug none s = s
pass waited works debug (some line) s =
    if s.stopped && not waited then lose_line line s else send_line works debug line s

unfoldable pub stop : Sender → Sender
unfolding log_dropped
stop s = if s.stopped then s else log_dropped (record s { stopped = true })
