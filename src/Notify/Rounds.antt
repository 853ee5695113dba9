-- ===== src/Notify/Rounds.antt =====
-- pkg/notify/notifier.go: a round of Accumulate from the body of a message on, and the queries that it
-- makes. JSON, the database and the API are parameters; a panic, which ends the notifier, is none.
pub mod Unknown
pub mod Noted
use lierc.Base.{
  ℕ, Bool, true, false, List, [], ◌∷◌, ◌++◌, Option, none, some, if◌then◌else◌, Text, text, Map,
  lookup,
}
use lierc.Notify.{LoggedMessage, NotifierConfig}
use lierc.Notify.Timers.{Timers, Looked, accumulate, run_function}

-- DB: the connection string, and whether sql.Open works.
unfoldable pub dsn : NotifierConfig → Text
dsn c =
    text "user="
    ++ (c.db_user
        ++ (text " password="
            ++ (c.db_pass
                ++ (text " dbname="
                    ++ (c.db_name ++ (text " host=" ++ (c.db_host ++ text " sslmode=disable")))))))

unfoldable pub db : Bool → NotifierConfig → Option Text
unfolding dsn
db opens c = if opens then some (dsn c) else none

-- The API's answer to a request for the streams: an error, a body that cannot be read, or a body.
pub data Answer : Type 0 where
  no_answer : Answer
  unreadable : Answer
  answer : Text → Answer

-- email, id and p.value of the connection's user; endpoint, auth and key of a web push.
pub record UserRow : Type 0 where
  pub email : Text
  pub id : Text
  pub pref : Option Text

-- What the environment gives: what a body decodes to, none for an error, where a message may be missing; the row of a connection's user, none
-- where Scan fails; the rows of a user's web pushes, none where the query fails, each of them none where
-- Scan does; whether a request can be made, and its answer; the counts that a body decodes to, as far as it
-- does.
pub record Queries : Type 0 where
  pub decode : Text → Option (Option LoggedMessage)
  pub user_row : Text → Option UserRow
  pub push_rows : Text → Option (List (Option (Text × Text × Text)))
  pub request : Text → Bool
  pub stats : Text → Text → Answer
  pub counts : Text → Map ℕ

unfoldable pub count_of : Option ℕ → ℕ
count_of none = 0
count_of (some n) = n

unfoldable pub read_count : (Text → Map ℕ) → Text → Answer → Option ℕ
unfolding count_of
read_count counts connection no_answer = none
read_count counts connection unreadable = none
read_count counts connection (answer body) = some (count_of (lookup connection (counts body)))

-- StreamCount
unfoldable pub stream_count : Queries → NotifierConfig → Text → Option ℕ
unfolding read_count
stream_count q c connection =
    if q.request c.api_stats
    then read_count q.counts connection (q.stats c.api_stats c.api_key)
    else none

-- handleHighlight: what it queues. What cannot be decoded is dropped.
unfoldable pub handle_highlight : Queries → Text → Option (Option LoggedMessage)
handle_highlight q body = q.decode body

-- The error of the first query is not looked at: its values are then empty.
unfoldable pub scanned_user : Option UserRow → UserRow
scanned_user none = record { email = []; id = []; pref = none }
scanned_user (some row) = row

unfoldable pub scanned_pushes :
    List (Option (Text × Text × Text)) → Option (List (Text × Text × Text))
scanned_pushes [] = some []
scanned_pushes (none ∷ rows) = none
scanned_pushes (some row ∷ rows) = elim (scanned_pushes rows) [
  | none ↦ none
  | some rest ↦ some (row ∷ rest)
]

unfoldable pub push_configs :
    Option (List (Option (Text × Text × Text))) → Option (List (Text × Text × Text))
unfolding scanned_pushes
push_configs none = none
push_configs (some rows) = scanned_pushes rows

abbrev pub looked : UserRow → List (Text × Text × Text) → ℕ → Looked
looked u pushes streams = record {
  user = u.id;
  email_address = u.email;
  email_pref = u.pref;
  web_pushes = pushes;
  streams = streams;
}

unfoldable pub with_streams : UserRow → List (Text × Text × Text) → Option ℕ → Option Looked
with_streams u pushes none = none
with_streams u pushes (some streams) = some (looked u pushes streams)

unfoldable pub look_at :
    Queries → NotifierConfig → UserRow → Option (List (Text × Text × Text)) → Option Looked
unfolding with_streams stream_count
look_at q c u none = none
look_at q c u (some pushes) = with_streams u pushes (stream_count q c u.id)

unfoldable pub look : Queries → NotifierConfig → Text → Option Looked
unfolding look_at push_configs scanned_user
look q c connection =
    let u = scanned_user (q.user_row connection) in look_at q c u (push_configs (q.push_rows u.id))

unfoldable pub accumulate_looked : LoggedMessage → Option Looked → Timers → Option Timers
unfolding accumulate
accumulate_looked m none s = none
accumulate_looked m (some l) s = some (accumulate l m s)

-- Accumulate reads the time of the message, which panics where there is none.
unfoldable pub take_queued :
    Queries → NotifierConfig → Option (Option LoggedMessage) → Timers → Option Timers
unfolding accumulate_looked look
take_queued q c none s = some s
take_queued q c (some none) s = none
take_queued q c (some (some m)) s = accumulate_looked m (look q c m.connection_id) s

-- handleHighlight, and the round of Accumulate that takes what it queued.
unfoldable pub receive : Queries → NotifierConfig → Text → Timers → Option Timers
unfolding take_queued handle_highlight
receive q c body s = take_queued q c (handle_highlight q body) s
