-- ===== src/Logger/Tests.antt =====
-- Runs and instances for pkg/logger.
use lierc.Logger.Store.{highlight_rows}
use lierc.Logger.Highlights.{Regexps, reload}
use lierc.Logger.Highlights.Reload.{chosen, last_words, lookup-reload}
use lierc.Unicode.Ascii.{ascii}
use lierc.Logger.Store.{scanned, greatest}
use lierc.Logger.Lifecycle
use lierc.Logger.Lifecycle.{
  Event, answers, reads, handles, finishes, signalled, worked, waited, pinging_db, db_opened,
  db_answered, nsqd_answered, highlights_read, listened, subscribed, handled, told_to_stop,
  consumer_stopped,
}
use lierc.Logger.Lifecycle.Standing.{IsServed, IsComplete}
use lierc.Logger.Lifecycle.Handling.{run-IsServed}
use lierc.Logger.Inbox.{Backend, receive_chat, receive_multi, receive_config}
use lierc.Base.{
  if◌then◌else◌, not, Option, Text, lookup, insert, is_nil, true, false, List, [], ◌∷◌, none, some,
  ◌≡◌, ◌≤◌, refl, text, text_eq,
}
use lierc.Irc.{IrcMessage, Prefix}
use lierc.Logger.{
  Route, Answers, log_target, store_failed, stored, handle_route, route_chat, store_chat, log_type,
  route_kind, handle_config, merged, inserted, inserted_private, published, logged,
}
use lierc.Logger.Delivery.{count, is_insert, is_logged, deliver_counts, delivered}

abbrev ann : Prefix
ann = record { name = text "ann"; user = text "u"; server = text "h"; self = false }

abbrev me : Prefix
me = record { name = text "me"; user = text "u"; server = text "h"; self = true }

abbrev private_message : Prefix → IrcMessage
private_message p = record {
  prefix = some p;
  tags = [];
  command = text "PRIVMSG";
  time = 5;
  params = text "me" ∷ text "hi" ∷ [];
  direct = true;
}

abbrev conversation : Route
conversation = record { kind = log_target; channel = text "ann"; private = true }

-- The store fails once, then works.
abbrev tries : List Answers
tries =
    record { private_works = true; insert = store_failed }
    ∷ record { private_works = true; insert = stored 7 }
    ∷ []

route_run : route_chat [] ann (private_message ann) ≡ some conversation
unfolding route_chat log_type route_kind text_eq
route_run = refl

config_run :
    (handle_config (text "1") (text "Nick" ∷ []) (some (text "{}")) true).0
    ≡ merged (text "1") (text "{}") ∷ []
unfolding handle_config
config_run = refl

deliver_counts_example :
    let actions = delivered none ann (text "1") (private_message ann) conversation tries in
    (count is_logged actions ≡ 1) × (count is_insert actions ≤ 1)
unfolding handle_route store_chat
deliver_counts_example =
    deliver_counts none ann (text "1") (private_message ann) conversation tries refl

abbrev patterns : Regexps
patterns = record {
  decode_words = λ s. some (s ∷ []);
  non_blank = λ s. not (is_nil s);
  quote_meta = λ s. s;
  compile = λ s. some (λ t. text_eq s t);
}

-- One connection has a word, another one none, and a third one NULL.
abbrev highlight_table : List (Option (Text × Option Text))
highlight_table =
    some (text "a", some (text "go")) ∷ some (text "b", some []) ∷ some (text "c", none) ∷ []

lookup-reload_example :
    lookup
      (text "a")
      (reload ⦃re = patterns⦄ (some ((text "a", text "go") ∷ (text "b", []) ∷ [])) [])
    ≡ chosen ⦃re = patterns⦄ (last_words (text "a") none highlight_table) none
unfolding highlight_rows insert text_eq
lookup-reload_example =
    lookup-reload ⦃re = patterns⦄ highlight_table ((text "a", text "go") ∷ (text "b", []) ∷ []) []
      (text "a") refl

-- postgres answers at the second try; a message comes while the last topic is still to be consumed, and
-- then the signal.
abbrev comes_up : List Event
comes_up =
    answers waited
    ∷ answers worked
    ∷ answers worked
    ∷ reads (some ((text "a", text "go") ∷ []))
    ∷ answers worked
    ∷ answers worked
    ∷ answers worked
    ∷ handles (text "chats")
    ∷ handles (text "multi")
    ∷ answers worked
    ∷ answers worked
    ∷ handles (text "multi")
    ∷ signalled
    ∷ answers worked
    ∷ answers worked
    ∷ handles (text "chats")
    ∷ finishes (text "chats")
    ∷ answers worked
    ∷ handles (text "chats")
    ∷ []

abbrev fresh_logger : Lifecycle.Logger
fresh_logger = record {
  stage = pinging_db;
  consumers = [];
  running = [];
  listener = false;
  highlights = [];
  calls = db_opened ∷ [];
}

-- The first message of multi does not come, nor the last one of chats; Stop waits for the one before.
lifecycle_run :
    (Lifecycle.run ⦃re = patterns⦄ (text "chats" ∷ text "multi" ∷ []) comes_up fresh_logger).calls
    ≡ consumer_stopped (text "chats")
      ∷ handled (text "chats")
      ∷ told_to_stop (text "chats" ∷ text "multi" ∷ [])
      ∷ handled (text "multi")
      ∷ subscribed (text "multi")
      ∷ handled (text "chats")
      ∷ subscribed (text "chats")
      ∷ listened
      ∷ highlights_read
      ∷ nsqd_answered
      ∷ db_answered
      ∷ db_opened
      ∷ []
unfolding Lifecycle.run text_eq reload
lifecycle_run = refl

run-IsServed_example :
    let last =
      Lifecycle.run ⦃re = patterns⦄ (text "chats" ∷ text "multi" ∷ []) comes_up fresh_logger in
    IsServed last.calls × IsComplete (text "chats" ∷ text "multi" ∷ []) last.stage last.consumers
unfolding Lifecycle.new_logger
run-IsServed_example =
    run-IsServed ⦃re = patterns⦄ (text "chats" ∷ text "multi" ∷ []) true true fresh_logger
      (db_opened ∷ []) comes_up refl

-- What cannot be read, or has no message, is dropped, and a config change is saved.
abbrev backend : Backend
backend = record {
  decode_chat = λ b.
      if text_eq b (text "{}")
      then some (record { id = []; message = none })
      else if text_eq b (text "m")
      then some (record { id = text "1"; message = some (private_message ann) })
      else none;
  decode_multi = λ b. some (record { id = []; message = none; channels = [] });
  decode_config = λ b. some (record { id = text "1"; fields = text "Nick" ∷ [] });
  encode_message = λ m. some (text "json");
  encode_fields = λ f. some (text "{}");
  insert_row = λ r. scanned 7;
  insert_rows = λ r. greatest none;
  upsert_private = λ r. true;
  update_config = λ r. true;
}

unread_run : receive_chat ⦃u = ascii⦄ backend [] (λ id. none) (text "?") ≡ some ([], true)
unfolding receive_chat text_eq
unread_run = refl

nothing_run : receive_chat ⦃u = ascii⦄ backend [] (λ id. none) (text "{}") ≡ some ([], true)
unfolding receive_chat text_eq
nothing_run = refl

private_run :
    receive_chat ⦃u = ascii⦄ backend [] (λ id. none) (text "m")
    ≡ some (
      inserted_private (text "1") (text "ann") 5
          ∷ inserted (text "1") (private_message ann) (text "ann") false
          ∷ published (text "logged") (logged (text "1") (private_message ann) 7 false)
          ∷ published (text "highlight") (logged (text "1") (private_message ann) 7 false)
          ∷ [],
      true,
    )
unfolding receive_chat text_eq log_type route_kind route_chat
private_run = refl

saved_run :
    receive_config ⦃u = ascii⦄ backend (text "{}") ≡ (merged (text "1") (text "{}") ∷ [], true)
unfolding receive_config
saved_run = refl

rowless_run : receive_multi ⦃u = ascii⦄ backend (text "{}") ≡ some ([], true)
unfolding receive_multi
rowless_run = refl
