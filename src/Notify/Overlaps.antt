-- ===== src/Notify/Overlaps.antt =====
-- pkg/notify/notifier.go: Sends that overlap. Each timer's function is a goroutine of its own: one may
-- be let pass while another one waits for the limiter or mails, and n.Last is written only at the end of
-- a Send. A Send begins when UserRateLimit reads n.Last and, at once behind it, the limiter reserves;
-- the delay that the limiter gives, and the mail, are between its beginning and its end.
pub mod Spacing
use lierc.Base.{
  ℕ, Bool, true, false, ◌||◌, List, [], ◌∷◌, ◌++◌, Option, none, some, if◌then◌else◌, Text, Map,
  ltb,
}
use lierc.Connection.Steps.{take_out}
use lierc.Notify.{NotifierConfig, Notification, rate_limit}
use lierc.Notify.Sending.{Trip, Outcome, canceled, sent, panicked, send_now, email_effects}
use lierc.Notify.Limits.{Job, Sent}

-- A Send that UserRateLimit let pass, when it read n.Last, and that the limiter reserved for.
pub record Begun : Type 0 where
  pub user : Text
  pub began : ℕ

-- n.Last, the Sends that are under way, and what has happened: those that were let pass, those that
-- went out, the time, and whether one panicked, which ends the program.
pub record Sends : Type 0 where
  pub last : Map ℕ
  pub active : List Job
  pub begun : List Begun
  pub done : List Sent
  pub clock : ℕ
  pub crashed : Bool

unfoldable pub new_sends : Sends
new_sends = record { last = []; active = []; begun = []; done = []; clock = 0; crashed = false }

abbrev pub begun_by : Job → Begun
begun_by j = record { user = j.note.user; began = j.trip.now }

-- Send, up to where it sleeps for the limiter's delay.
unfoldable pub begin_if : Bool → Job → Sends → Sends
begin_if true j s = record s { clock = j.trip.now }
begin_if false j s = record s {
  active = s.active ++ j ∷ [];
  begun = s.begun ++ begun_by j ∷ [];
  clock = j.trip.now;
}

-- The rest of Send, with what it does, at the time it ends.
unfoldable pub settle : ℕ → Job → List Job → Map ℕ × Outcome → Sends → Sends
settle time j rest (last, sent effects) s = record s {
  last = last;
  active = rest;
  done = s.done ++ (record { user = j.note.user; began = j.trip.now; ended = time }) ∷ [];
  clock = time;
}
settle time j rest (last, panicked) s = record s { active = rest; clock = time; crashed = true }
settle time j rest (last, canceled) s = record s { active = rest; clock = time }

-- A Send begins, at the time of its trip, or the i-th that is under way ends.
pub data Op : Type 0 where
  begins : Job → Op
  ends : ℕ → ℕ → Op

module _ (path_escape : Text → Text) (c : NotifierConfig) where
  unfoldable pub finish : ℕ → Option (Job × List Job) → Sends → Sends
  unfolding settle send_now email_effects
  finish time none s = s
  finish time (some (j, rest)) s =
      settle time j rest
        (send_now (record (j.trip) { ended = time }) j.note
          (email_effects path_escape c j.trip j.note) s.last)
        s

  -- A step at a time that is past does not happen, nor any once the program has ended.
  unfoldable pub step : Op → Sends → Sends
  unfolding begin_if rate_limit finish take_out
  step (begins j) s =
      if s.crashed || ltb j.trip.now s.clock
      then s
      else begin_if (rate_limit c s.last j.note.user j.trip.now j.trip.reserved) j s
  step (ends i time) s =
      if s.crashed || ltb time s.clock then s else finish time (take_out i s.active) s

  unfoldable pub run : List Op → Sends → Sends
  unfolding step
  run [] s = s
  run (op ∷ ops) s = run ops (step op s)
