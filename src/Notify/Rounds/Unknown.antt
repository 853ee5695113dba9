-- ===== src/Notify/Rounds/Unknown.antt =====
-- What a round does with a message of a connection that the database does not have.
use lierc.Base.{true, List, [], none, some, Text, lookup, ◌≡◌, refl}
use lierc.Notify.{LoggedMessage, NotifierConfig}
use lierc.Notify.Timers.{Timers, Op, new_timers, run}
use lierc.Notify.Rounds.{Queries, answer, receive, look, looked, stream_count, UserRow}
use lierc.Notify.Rounds.Noted.{Waits, receive-Waits}

-- The user whom a message of an unknown connection is accumulated for.
abbrev nobody : UserRow
nobody = record { email = []; id = []; pref = none }

-- If, after any history of a new notifier, a highlight's connection has no user in the database,
-- the empty user has no web pushes, and the API can be asked and counts no streams for it, then
-- the highlight is accumulated all the same: it becomes the last message of the notification that
-- is listed for the empty user, whose timer is armed, and which is passed to Send once the timer
-- fires and its function finds no streams.
pub receive-unknown :
    (ops : List Op) (q : Queries) (c : NotifierConfig) (body stats : Text) (m : LoggedMessage)
    → q.decode body ≡ some (some m)
    → q.user_row m.connection_id ≡ none
    → q.push_rows [] ≡ some []
    → q.request c.api_stats ≡ true
    → q.stats c.api_stats c.api_key ≡ answer stats
    → lookup [] (q.counts stats) ≡ none
    → let s = run ops new_timers in (s' : Timers) × (receive q c body s ≡ some s') × Waits [] m s'
unfolding look stream_count
receive-unknown ops q c body stats m decoded unknown pushes made answers counts =
    receive-Waits ops q c body m (looked nobody [] 0) decoded
      (rw (unknown, look) (rw pushes (rw (made, answers, counts) refl))) refl
