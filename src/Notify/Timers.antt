-- ===== src/Notify/Timers.antt =====
-- pkg/notify/notifier.go: the notifications that wait, their timers, and what Accumulate does with a
-- message. Steps of the timers and of Accumulate come in any order.
pub mod Arming
pub mod Waiting
pub mod Steps
pub mod Stopped
pub mod Messages
pub mod Kept
use lierc.Base.{
  ℕ, zero, suc, ◌+◌, ◌*◌, Bool, true, false, List, [], ◌∷◌, ◌++◌, Option, none, some, ◌==◌,
  if◌then◌else◌, Text, text, text_eq, Map, lookup, insert, delete, get_elem?, set, length, contains,
  ltb,
}
use lierc.Notify.{LoggedMessage, Notification, NotificationPref, WebPushConfig}

-- Notifications are pointed to by their number in `notes`, where each one that was made stays. A timer
-- is armed until it fires or is stopped; then its function waits in `fired` to run. `to_send` is what
-- was passed to Send.
pub record Timers : Type 0 where
  pub notes : List Notification
  pub listed : Map ℕ
  pub armed : List ℕ
  pub fired : List ℕ
  pub to_send : List ℕ

unfoldable pub new_timers : Timers
new_timers = record { notes = []; listed = []; armed = []; fired = []; to_send = [] }

-- Timer.Stop
unfoldable pub disarm : ℕ → List ℕ → List ℕ
disarm n [] = []
disarm n (k ∷ ks) = if k == n then disarm n ks else k ∷ disarm n ks

-- AfterFunc and Timer.Reset
unfoldable pub arm : ℕ → List ℕ → List ℕ
unfolding disarm
arm n ks = n ∷ disarm n ks

unfoldable pub with_message : LoggedMessage → Notification → Notification
with_message m o = record o { messages = o.messages ++ m ∷ [] }

unfoldable pub append_at :
    ℕ → LoggedMessage → Option Notification → List Notification → List Notification
unfolding with_message
append_at n m none notes = notes
append_at n m (some o) notes = set notes n (with_message m o)

unfoldable pub remove_listed : Option ℕ → Text → Timers → Timers
unfolding disarm
remove_listed none user s = s
remove_listed (some n) user s = record s { listed = delete user s.listed; armed = disarm n s.armed }

-- RemoveNotification
unfoldable pub remove_notification : Text → Timers → Timers
unfolding remove_listed
remove_notification user s = remove_listed (lookup user s.listed) user s

unfoldable pub add_listed : Option ℕ → Text → NotificationPref → LoggedMessage → Timers → Timers
unfolding append_at arm
add_listed (some n) user p m s = record s {
  notes = append_at n m (get_elem? s.notes n) s.notes;
  armed = arm n s.armed;
}
add_listed none user p m s = record s {
  notes = s.notes ++ (record { messages = m ∷ []; user = user; pref = p }) ∷ [];
  listed = insert user (length s.notes) s.listed;
  armed = arm (length s.notes) s.armed;
}

-- AddNotification
unfoldable pub add_notification : Text → NotificationPref → LoggedMessage → Timers → Timers
unfolding add_listed
add_notification user p m s = add_listed (lookup user s.listed) user p m s

-- The first of the waiting functions of notification n is taken.
unfoldable pub take_one : ℕ → List ℕ → List ℕ
take_one n [] = []
take_one n (k ∷ ks) = if k == n then ks else k ∷ take_one n ks

-- The time of a timer comes.
unfoldable pub fire : ℕ → Timers → Timers
unfolding disarm
fire n s =
    if contains n s.armed then record s { armed = disarm n s.armed; fired = n ∷ s.fired } else s

-- The timer's function, for the user it was made for and with the number of the user's open streams.
unfoldable pub run_function : ℕ → ℕ → Option Notification → Timers → Timers
unfolding remove_notification take_one
run_function n streams none s = s
run_function n streams (some o) s =
    let removed = remove_notification o.user (record s { fired = take_one n s.fired }) in
    if streams == 0 then record removed { to_send = removed.to_send ++ n ∷ [] } else removed

-- What Accumulate reads for a message: the user and the address, p.value, the configs of web pushes,
-- and the user's open streams.
pub record Looked : Type 0 where
  pub user : Text
  pub email_address : Text
  pub email_pref : Option Text
  pub web_pushes : List (Text × Text × Text)
  pub streams : ℕ

abbrev pub email_enabled : Option Text → Bool
email_enabled none = false
email_enabled (some value) = text_eq value (text "true")

-- endpoint, auth, key
unfoldable pub web_push_configs : Text → List (Text × Text × Text) → List WebPushConfig
web_push_configs user [] = []
web_push_configs user ((endpoint, auth, key) ∷ rows) =
    record { endpoint = endpoint; key = key; auth = auth; user = user } ∷ web_push_configs user rows

abbrev pub pref_of : Looked → NotificationPref
unfolding web_push_configs
pref_of l = record {
  email_enabled = email_enabled l.email_pref;
  email_address = l.email_address;
  web_push_configs = web_push_configs l.user l.web_pushes;
}

-- One round of Accumulate's loop.
unfoldable pub accumulate : Looked → LoggedMessage → Timers → Timers
unfolding remove_notification add_notification
accumulate l m s =
    if ltb 0 l.streams
    then remove_notification l.user s
    else add_notification l.user (pref_of l) m s

pub data Op : Type 0 where
  accumulates : Looked → LoggedMessage → Op
  fires : ℕ → Op
  runs : ℕ → ℕ → Op

unfoldable pub step : Op → Timers → Timers
unfolding accumulate fire run_function
step (accumulates l m) s = accumulate l m s
step (fires n) s = fire n s
step (runs n streams) s =
    if contains n s.fired then run_function n streams (get_elem? s.notes n) s else s

unfoldable pub run : List Op → Timers → Timers
unfolding step
run [] s = s
run (op ∷ ops) s = run ops (step op s)
