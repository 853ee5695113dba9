-- ===== src/Notify/Rounds/Noted.antt =====
-- What a round leaves of a highlight of a user who has no open streams.
use lierc.Base.{
  ℕ, true, false, List, [], ◌∷◌, ◌++◌, Option, ltb, none, some, Text, text_eq_refl, lookup,
  lookup-insert, contains, contains-append, get_elem?, get_elem?-append_last, get_elem?-set_self,
  set, length, ◌≡◌, refl, ap, ◌∙◌, arith,
}
use lierc.Notify.{LoggedMessage, Notification, NotificationPref, NotifierConfig}
use lierc.Notify.Timers.{
  Timers, new_timers, Looked, Op, fires, runs, step, run, accumulate, add_notification, add_listed,
  append_at, with_message, fire, run_function, pref_of,
}
use lierc.Notify.Timers.Arming.{arm_this, contains_first}
use lierc.Notify.Timers.Waiting.{Inv}
use lierc.Notify.Timers.Steps.{run-new-Inv}
use lierc.Notify.Rounds.{Queries, receive, take_queued, look, handle_highlight}

-- The notification that is listed for the user is the user's and ends in the message; its timer is armed,
-- and once it fires and its function finds no streams, the notification is passed to Send.
pub record Waits (user : Text) (m : LoggedMessage) (s : Timers) : Type 0 where
  pub number : ℕ
  pub note : Notification
  pub before : List LoggedMessage
  pub listed : lookup user s.listed ≡ some number
  pub at : get_elem? s.notes number ≡ some note
  pub of_user : note.user ≡ user
  pub last : note.messages ≡ before ++ m ∷ []
  pub armed : contains number s.armed ≡ true
  pub sent : contains number (run (fires number ∷ runs number 0 ∷ []) s).to_send ≡ true

contains_last : (n : ℕ) (ns : List ℕ) → contains n (ns ++ n ∷ []) ≡ true
contains_last n ns = ground (arith, contains-append n ns (n ∷ []), contains_first n [])

-- A timer that fires and whose function finds no streams passes its notification to Send.
fires-runs :
    (n : ℕ) (o : Notification) (s : Timers)
    → contains n s.armed ≡ true
    → get_elem? s.notes n ≡ some o
    → contains n (run (fires n ∷ runs n 0 ∷ []) s).to_send ≡ true
unfolding run step fire run_function
fires-runs n o s armed at = rw armed (rw (contains_first n s.fired) (rw at (contains_last n _)))

-- What is listed behind AddNotification, by what was listed before.
abbrev Found : Text → Option ℕ → Timers → Type 0
Found user none s = Unit
Found user (some n) s = (o : Notification) × (get_elem? s.notes n ≡ some o) × (o.user ≡ user)

add_listed-Waits :
    (found : Option ℕ) (user : Text) (p : NotificationPref) (m : LoggedMessage) (s : Timers)
    → lookup user s.listed ≡ found
    → Found user found s
    → Waits user m (add_listed found user p m s)
unfolding add_listed append_at with_message
add_listed-Waits none user p m s is there =
    let n = length s.notes in
    let o : Notification = record { messages = m ∷ []; user = user; pref = p } in
    let s' = add_listed none user p m s in
    let at : get_elem? s'.notes n ≡ some o = get_elem?-append_last s.notes o in
    record {
      number = n;
      note = o;
      before = [];
      listed = lookup-insert user user n s.listed ∙ rw (text_eq_refl user) refl;
      at = at;
      of_user = refl;
      last = refl;
      armed = arm_this n s.armed;
      sent = fires-runs n o s' (arm_this n s.armed) at;
    }
add_listed-Waits (some n) user p m s is (o, there, of_user) =
    let o' = with_message m o in
    let s' = add_listed (some n) user p m s in
    let notes : s'.notes ≡ set s.notes n o' = ap (λ at. append_at n m at s.notes) there in
    let at : get_elem? s'.notes n ≡ some o' =
      ap (λ os. get_elem? os n) notes ∙ get_elem?-set_self s.notes n o' o there in
    record {
      number = n;
      note = o';
      before = o.messages;
      listed = is;
      at = at;
      of_user = of_user;
      last = refl;
      armed = arm_this n s.armed;
      sent = fires-runs n o' s' (arm_this n s.armed) at;
    }

found-Found :
    (user : Text) (found : Option ℕ) (s : Timers)
    → Inv s
    → lookup user s.listed ≡ found
    → Found user found s
found-Found user none s inv is = tt
found-Found user (some n) s inv is = inv.of_user user n is

accumulate-Waits :
    (l : Looked) (m : LoggedMessage) (s : Timers)
    → Inv s
    → l.streams ≡ 0
    → Waits l.user m (accumulate l m s)
unfolding accumulate add_notification
accumulate-Waits l m s inv quiet =
    let none_open : ltb 0 l.streams ≡ false = ground (arith, quiet) in
    rw none_open (
      add_listed-Waits (lookup l.user s.listed) l.user (pref_of l) m s refl
        (found-Found l.user (lookup l.user s.listed) s inv refl))

-- If, after any history of a new notifier, a body decodes to a highlight, however old, whose user
-- can be looked up and has no open streams, then the round leaves the highlight as the last
-- message of the notification that is listed for the user, whose timer is armed; and once the
-- timer fires and its function finds no streams, that notification is passed to Send.
pub receive-Waits :
    (ops : List Op) (q : Queries) (c : NotifierConfig) (body : Text) (m : LoggedMessage)
    (l : Looked)
    → q.decode body ≡ some (some m)
    → look q c m.connection_id ≡ some l
    → l.streams ≡ 0
    → let s = run ops new_timers in
      (s' : Timers) × (receive q c body s ≡ some s') × Waits l.user m s'
unfolding receive
receive-Waits ops q c body m l decoded looked quiet =
    let s = run ops new_timers in
    (
      accumulate l m s,
      rw (decoded, handle_highlight) (rw (looked, take_queued) refl),
      accumulate-Waits l m s (run-new-Inv ops) quiet,
    )
