-- ===== src/Notify/Tests.antt =====
-- Runs and instances for pkg/notify.
use lierc.Base.{
  keep, Bool, Option, split, if◌then◌else◌, All, ℕ, ◌+◌, ◌%◌, true, false, ◌&&◌, ◌||◌, List, [],
  ◌∷◌, none, some, Text, text, ◌≡◌, refl, ◌⊎◌, arith, lookup, insert, text_eq, contains, is_none,
  is_nil, length, ◌==◌, delete,
}
use lierc.Unicode.{trim_space}
use lierc.Unicode.Ascii.{ascii}
use lierc.Strconv.{pos}
use lierc.Irc.{Prefix}
use lierc.Notify.{
  LoggedMessage, Notification, NotifierConfig, set_limit, parsed_limit, default_user_rate_limit,
  limit_of,
}
use lierc.Notify.Smtp.{set_smtp_opts, set_trimmed}
use lierc.Notify.Smtp.Options.{valid_pairs, option_pairs, IsConfigured, defaults, set_smtp_opts_lem}
use lierc.Notify.Email.{Mention, mention, subject_of, headers, mail_text, email_text}
use lierc.Notify.Email.Headers.{breaks, readable, email_text-headers}
use lierc.Notify.Limits.{Job, Sent}
use lierc.Notify.{WebPushConfig}
use lierc.Notify.Sending.{push_all}
use lierc.Notify.WebPush.{endpoint_id, WebPush, Push, payload, push_of}
use lierc.Notify.WebPush.Gone.{answers, is_gone, pushes_of, removed_of, push_all-removed}
use lierc.Notify.Rounds.{Queries, UserRow, answer, receive, look, looked, stream_count}
use lierc.Notify.Rounds.Unknown.{receive-unknown}
use lierc.Notify.Rounds.Noted.{Waits, receive-Waits}
use lierc.Notify.Setup.{conf_of, retry}
use lierc.Notify.Overlaps
use lierc.Notify.Overlaps.Spacing.{Apart, run-Apart}
use lierc.Notify.Timers.{
  new_timers, Timers, Looked, Op, accumulates, fires, runs, run, step, accumulate,
  remove_notification, add_notification, add_listed, arm, disarm, fire, run_function,
}
use lierc.Notify.Timers.Waiting.{Inv}
use lierc.Notify.Timers.Steps.{run-new-Inv}
use lierc.Notify.Timers.{take_one, remove_listed}
use lierc.Notify.Timers.Messages.{messages_of, accumulated}
use lierc.Notify.Timers.Kept.{messages_of-run}
use lierc.Notify.Timers.Stopped.{accumulate_unsent}

abbrev config : NotifierConfig
config = record {
  db_user = [];
  db_pass = [];
  db_host = [];
  db_name = [];
  api_stats = [];
  api_key = [];
  api_url = text "https://chat.test";
  vapid_private_key = [];
  vapid_public_key = [];
  nsqd_host = [];
  smtp_host = [];
  smtp_port = pos 0;
  smtp_ssl = false;
  smtp_auth_user = [];
  smtp_auth_pass = [];
  delay = 15;
  user_rate_limit = 600;
}

abbrev bob : Prefix
bob = record { name = text "bob"; user = text "b"; server = text "h"; self = false }

abbrev said : LoggedMessage
said = record {
  message = record {
    prefix = some bob;
    tags = [];
    command = text "PRIVMSG";
    time = 0;
    params = text "#go" ∷ text "hi ann" ∷ [];
    direct = false;
  };
  connection_id = text "c1";
  message_id = 1;
  self = false;
  highlight = true;
  direct = false;
}

abbrev ann_looked : ℕ → Looked
ann_looked streams = record {
  user = text "1";
  email_address = text "ann@test";
  email_pref = some (text "true");
  web_pushes = [];
  streams = streams;
}

-- A message is accumulated, its timer fires, and its function runs; a second one is accumulated.
abbrev ops : List Op
ops = accumulates (ann_looked 0) said ∷ fires 0 ∷ runs 0 0 ∷ accumulates (ann_looked 0) said ∷ []

history_run : (run ops new_timers).to_send ≡ 0 ∷ []
unfolding run step accumulate add_notification add_listed arm disarm fire run_function
    remove_notification new_timers lookup contains text_eq insert delete
history_run = refl

run-new-Inv_example : Inv (run ops new_timers)
run-new-Inv_example = run-new-Inv ops

accumulate_unsent_example :
    let s = run (accumulates (ann_looked 0) said ∷ []) new_timers in
    contains 0 (run (fires 0 ∷ runs 0 0 ∷ []) (accumulate (ann_looked 1) said s)).to_send
    ≡ contains 0 s.to_send
unfolding run step accumulate add_notification add_listed arm disarm new_timers lookup contains
    text_eq insert
accumulate_unsent_example =
    accumulate_unsent (accumulates (ann_looked 0) said ∷ []) (fires 0 ∷ runs 0 0 ∷ [])
      (ann_looked 1) said 0 (omega arith) refl refl

abbrev same : Text → Text
same t = t

abbrev note : Notification
note = record {
  messages = said ∷ [];
  user = text "1";
  pref = record { email_enabled = true; email_address = text "ann@test"; web_push_configs = [] };
}

abbrev job : ℕ → Job
job now = record {
  trip = record {
    now = now;
    reserved = some 0;
    works = λ call. true;
    answer = λ c. none;
    ended = now + 1;
  };
  note = note;
}

abbrev opts : Text
opts = text " Host,smtp.test,SSL,1,Host,mail.test "

set_smtp_opts_lem_example :
    let r = set_smtp_opts opts config in
    let pairs = option_pairs opts in
    (is_none r.1 ≡ (is_nil (trim_space opts) || (length pairs % 2 == 0 && valid_pairs pairs)))
    × (r.1 ≡ none → IsConfigured pairs (defaults config) r.0)
set_smtp_opts_lem_example = set_smtp_opts_lem opts config

-- SetSMTPOpts sets the host and the port first; the other options stay as they were.
kept_run :
    (set_trimmed [] (record config { smtp_ssl = true; smtp_auth_user = text "me" })).0.smtp_ssl
    ≡ true
unfolding set_trimmed
kept_run = refl

-- A limit of zero is stored, and the default is kept instead.
zero_run : limit_of (set_limit (λ t. some (pos 0)) (text "0s") config).0 ≡ default_user_rate_limit
unfolding set_limit parsed_limit
zero_run = refl

abbrev mentioned : Mention
mentioned = record {
  channel = text "#go";
  from = text "bob";
  said = text "hi ann";
  connection = text "c1";
}

email_text-headers_example :
    ((readable (said ∷ []) ≡ false) × (email_text same config (said ∷ []) (text "ann@test") ≡ none))
    ⊎ ((readable (said ∷ []) ≡ true)
        × (lines : List Text) × (length lines ≡ length (said ∷ []))
        × (email_text same config (said ∷ []) (text "ann@test")
            ≡ some (mail_text (text "ann@test") (lines, subject_of mentioned)))
        × (breaks (headers (text "ann@test") (subject_of mentioned)) ≡ 7))
unfolding mention contains
email_text-headers_example =
    email_text-headers same config said [] (text "ann@test") mentioned refl (refl, refl, refl) refl

messages_of-run_example :
    messages_of (text "1") (run ops new_timers).notes ≡ accumulated (text "1") ops
messages_of-run_example = messages_of-run (text "1") ops

-- The function of a timer that has fired waits while the notification is removed and a new one is made;
-- it then stops the new one, and passes the removed one to Send.
abbrev swallowing : List Op
swallowing =
    accumulates (ann_looked 0) said
    ∷ fires 0
    ∷ accumulates (ann_looked 1) said
    ∷ accumulates (ann_looked 0) said
    ∷ runs 0 0
    ∷ []

wrong_note_run :
    ((run swallowing new_timers).listed ≡ [])
    × ((run swallowing new_timers).armed ≡ [])
    × ((run swallowing new_timers).fired ≡ [])
    × ((run swallowing new_timers).to_send ≡ 0 ∷ [])
unfolding run step accumulate add_notification add_listed arm disarm fire run_function
    remove_notification new_timers lookup contains text_eq insert delete take_one remove_listed
wrong_note_run = (refl, refl, refl, refl)

-- The second one passes the limit while the first one is under way, the third one does not.
abbrev overlapping : List Overlaps.Op
overlapping =
    Overlaps.begins (job 0)
    ∷ Overlaps.begins (job 1)
    ∷ Overlaps.ends 0 2
    ∷ Overlaps.ends 0 3
    ∷ Overlaps.begins (job 600)
    ∷ []

overlap_run : length (Overlaps.run same config overlapping Overlaps.new_sends).done ≡ 2
unfolding Overlaps.run Overlaps.new_sends lookup insert text_eq
overlap_run = refl

run-Apart_example :
    let s = Overlaps.run same config overlapping Overlaps.new_sends in
    All (λ (t : Sent). All (Apart same config t) s.begun) s.done
run-Apart_example = run-Apart same config overlapping

endpoint_run : endpoint_id (text "https://push.test/a/b") ≡ text "b"
unfolding endpoint_id split
endpoint_run = refl

-- No connection has a user.
abbrev queries : Queries
queries = record {
  decode = λ body. if text_eq body (text "m") then some (some said) else none;
  user_row = λ connection. none;
  push_rows = λ user. some [];
  request = λ url. true;
  stats = λ url key. answer (text "{}");
  counts = λ body. [];
}

receive-unknown_example :
    (s' : Timers) × (receive queries config (text "m") (run swallowing new_timers) ≡ some s')
    × Waits [] said s'
unfolding text_eq lookup
receive-unknown_example =
    receive-unknown swallowing queries config (text "m") (text "{}") said refl refl refl refl refl
      refl

abbrev ann_row : UserRow
ann_row = record { email = text "ann@x"; id = text "ann"; pref = none }

-- Every connection has the user ann.
abbrev ann_queries : Queries
ann_queries = record queries { user_row = λ connection. some ann_row }

receive-Waits_example :
    (s' : Timers) × (receive ann_queries config (text "m") (run swallowing new_timers) ≡ some s')
    × Waits (text "ann") said s'
unfolding look stream_count text_eq lookup
receive-Waits_example =
    receive-Waits swallowing ann_queries config (text "m") said (looked ann_row [] 0) refl refl refl

dropped_run : receive queries config (text "?") new_timers ≡ some new_timers
unfolding receive text_eq
dropped_run = refl

abbrev environment : Text → Text
environment name = if text_eq name (text "API_URL") then text "https://chat.test" else []

conf_run : (conf_of environment).api_url ≡ text "https://chat.test"
unfolding conf_of text_eq
conf_run = refl

retry_run : retry (false ∷ false ∷ true ∷ []) ≡ true
unfolding retry
retry_run = refl

-- The first subscription is gone; the answer to the second one cannot be read.
abbrev subscriptions : List WebPushConfig
subscriptions =
    record { endpoint = text "a/1"; key = []; auth = []; user = text "1" }
    ∷ record { endpoint = text "a/2"; key = []; auth = []; user = text "1" }
    ∷ []

abbrev encode_push : WebPush → Option Text
encode_push w = some w.to

abbrev push_service : Push → Option (ℕ × Bool)
push_service p = some (410, text_eq p.body (text "1"))

push_all-removed_example :
    let effects = push_all (answers encode_push push_service config []) [] subscriptions in
    (pushes_of effects ≡ subscriptions)
    × (removed_of effects ≡ keep (is_gone encode_push push_service config []) subscriptions)
push_all-removed_example = push_all-removed encode_push push_service config [] subscriptions

gone_run : length (keep (is_gone encode_push push_service config []) subscriptions) ≡ 1
unfolding payload endpoint_id push_of split text_eq
gone_run = refl
