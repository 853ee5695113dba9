-- ===== src/Events/Tests.antt =====
-- Runs and instances for pkg/lierc/events.go.
use lierc.Base.{
  true, false, List, [], ◌∷◌, none, some, ◌≡◌, refl, arith, Text, text, lookup, text_eq, distinct,
  cut, split,
}
use lierc.Unicode.{first_field, trim_right}
use lierc.Unicode.Ascii.{ascii, to_lower, to_upper}
use lierc.Irc.{Message}
use lierc.Irc.Fixture.{fixture}
use lierc.Strconv.{pos}
use lierc.Channel.{Channel}
use lierc.Client.{Client, current_nick, names_channel, any_names, kept, add_config_channel}
use lierc.Client.ConfigChannels.{any_names-add_config_channel}
use lierc.Events.{no_effects}
use lierc.Events.Nick.{underscore_last, on_nick_refused}
use lierc.Events.Handlers.{new_channel, on_quit, on_nick, on_join, on_kick, handle}
use lierc.Events.Membership.{modes_in, modes_in-on_quit, modes_in-on_nick}
use lierc.Events.Joining.{on_join_self, leave_self, kick}
use lierc.Events.Preservation.{Inv, handle-Inv}
use lierc.Events.Registration.{
  IsRegistering, Answer, on_nick_refused-Answer, refusals, refusals_end, ended,
}

abbrev message : Text → Text → List Text → Message
message source command params = record { source = source; command = command; params = params }

abbrev lobby : Channel
lobby = record (new_channel (text "#Lobby")) {
  nicks = (text "me", text "o") ∷ (text "ann", text "v") ∷ [];
}

-- Registered as "me", in one channel.
abbrev client : Client
client = record {
  id = text "1";
  config = record {
    host = text "irc.test";
    port = pos 6667;
    ssl = false;
    nick = text "me";
    user = text "u";
    pass = [];
    sasl = false;
    alias = [];
    channels = text "#lobby key" ∷ [];
    highlight = [];
  };
  channels = (text "#lobby", lobby) ∷ [];
  user = text "u";
  host = text "h";
  registered = true;
  connected = true;
  status_message = [];
  retries = 0;
  quitting = false;
  stopped = [];
  requested_nick = [];
  conn = some (record { serial = 3; current_nick = text "me"; isupport = []; acked_caps = [] });
  socket = some 3;
  attempt_done = some 3;
  reg_nick = text "me";
  reg_tries = 0;
  gave_up = [];
  welcomed_at = some 5;
  sender = some 3;
}

-- The same before 001.
abbrev registering : Client
registering = record client {
  conn = some (record { serial = 3; current_nick = []; isupport = []; acked_caps = [] });
  channels = [];
}

abbrev refusal : Message
refusal = message (text "irc.test") (text "433") (text "*" ∷ text "me" ∷ text "in use" ∷ [])

abbrev refused_eleven : List Message
refused_eleven =
    refusal ∷ refusal ∷ refusal ∷ refusal ∷ refusal ∷ refusal ∷ refusal ∷ refusal ∷ refusal
    ∷ refusal ∷ refusal ∷ []

abbrev renaming : Message
renaming = message (text "ann!a@b") (text "NICK") (text "bob" ∷ [])

client-Inv : Inv client.channels
unfolding to_lower to_upper text_eq distinct
client-Inv = ((refl, (refl, (refl, tt))), tt)

handle-Inv_example : Inv (handle 3 7 client renaming).0.channels
handle-Inv_example = handle-Inv 3 7 client renaming client-Inv

modes_in-on_nick_example :
    modes_in (text "#lobby") (text "bob") (on_nick 7 client renaming no_effects).0.channels
    ≡ some (text "v")
unfolding lookup text_eq cut split to_lower to_upper
modes_in-on_nick_example =
    modes_in-on_nick 7 client renaming no_effects (text "#lobby") (text "bob") (omega arith)

modes_in-on_quit_example :
    modes_in (text "#lobby") (text "ann") (on_quit 7 client renaming no_effects).0.channels ≡ none
unfolding lookup text_eq cut split to_lower to_upper
modes_in-on_quit_example =
    modes_in-on_quit 7 client renaming no_effects (text "#lobby") (text "ann")

abbrev joining : Message
joining = message (text "me!u@h") (text "JOIN") (text "#New" ∷ [])

on_join_self_example : (on_join 7 client joining no_effects).1.sends ≡ text "MODE #New" ∷ []
unfolding current_nick text_eq cut split names_channel first_field to_lower to_upper
on_join_self_example = (on_join_self 7 client joining no_effects (omega arith) refl refl).2

-- ann kicks us.
abbrev kicking : Message
kicking = message (text "ann") (text "KICK") (text "#LOBBY" ∷ text "me" ∷ [])

leave_self_example : (on_kick 7 client kicking no_effects).0.config.channels ≡ []
unfolding current_nick text_eq kept first_field to_lower to_upper names_channel
leave_self_example = (leave_self kick 7 client kicking no_effects (omega arith) refl).1

registering-IsRegistering : IsRegistering registering
registering-IsRegistering =
    (record { serial = 3; current_nick = []; isupport = []; acked_caps = [] }, refl, refl)

on_nick_refused-Answer_example :
    Answer registering (on_nick_refused 7 registering refusal no_effects)
on_nick_refused-Answer_example =
    on_nick_refused-Answer 7 registering refusal registering-IsRegistering (omega arith)

refusals_end_example : ended (refusals 7 refused_eleven registering) ≡ true
refusals_end_example =
    refusals_end 7 refused_eleven registering registering-IsRegistering (omega arith) (omega arith)
      (omega arith)

underscore_last_run : underscore_last (text "nick_") ≡ text "nic__"
unfolding underscore_last trim_right to_lower to_upper text_eq
underscore_last_run = refl

names_example :
    any_names (text "#new") (add_config_channel (text "#new") client).0.config.channels ≡ true
unfolding names_channel first_field to_lower to_upper text_eq
names_example = (any_names-add_config_channel (text "#new") client refl).0

-- A NICK from a nick to itself takes the nick out of the channel: it is set, then deleted.
same_nick_run :
    modes_in
      (text "#lobby")
      (text "ann")
      (on_nick 7 client
        (message (text "ann!a@b") (text "NICK") (text "ann" ∷ []))
        no_effects).0.channels
    ≡ none
unfolding lookup text_eq cut split to_lower to_upper
same_nick_run =
    modes_in-on_nick 7 client (message (text "ann!a@b") (text "NICK") (text "ann" ∷ [])) no_effects
      (text "#lobby") (text "ann") (omega arith)
