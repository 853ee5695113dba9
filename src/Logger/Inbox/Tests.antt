-- ===== src/Logger/Inbox/Tests.antt =====
-- A private message that comes in, to a client that goes by the nick of its config.
use lierc.Base.{true, false, [], ◌∷◌, none, some, refl, text, text_eq}
use lierc.Unicode.Ascii.{ascii}
use lierc.Strconv.{pos}
use lierc.Irc.{IrcGo, Prefix, new_irc_message}
use lierc.Config.{IrcConfig}
use lierc.Client.{Client, current_nick}
use lierc.Connection.{start}
use lierc.Events.{annotate}
use lierc.Manager.{ClientMessage}
use lierc.Manager.Sink.{line_message}
use lierc.Logger.Store.{scanned, greatest}
use lierc.Logger.Inbox.{Backend, receive_chat}
use lierc.Logger.Inbox.Private.{Taken, receive_chat-Taken}

-- Every source is ann's.
abbrev anns : IrcGo
anns = record {
  parse_line = λ line. none;
  parse_nuh = λ source. record { name = text "ann"; user = text "u"; host = text "h" };
  nick = λ m. text "ann";
  nuh = λ m. none;
  all_tags = λ m. [];
}

abbrev config : IrcConfig
config = record {
  host = text "irc.test";
  port = pos 6667;
  ssl = false;
  nick = text "me";
  user = text "u";
  pass = [];
  sasl = false;
  alias = [];
  channels = [];
  highlight = [];
}

abbrev client : Client
unfolding start
client = (start config (text "1") (text "h")).client

abbrev ann : Prefix
ann = record { name = text "ann"; user = text "u"; server = text "h"; self = false }

abbrev event : ClientMessage
event = record {
  id = text "1";
  message = record {
    prefix = some ann;
    tags = [];
    command = text "PRIVMSG";
    time = 5;
    params = text "me" ∷ text "hi" ∷ [];
    direct = true;
  };
}

abbrev backend : Backend
backend = record {
  decode_chat = λ b. some (record { id = event.id; message = some event.message });
  decode_multi = λ b. none;
  decode_config = λ b. none;
  encode_message = λ m. some (text "json");
  encode_fields = λ f. none;
  insert_row = λ r. scanned 7;
  insert_rows = λ r. greatest none;
  upsert_private = λ r. true;
  update_config = λ r. true;
}

receive_chat-Taken_example :
    Taken ⦃u = ascii⦄ ⦃g = anns⦄ backend []
      (λ id. none)
      (text "1")
      ann
      event.message
      7
      (receive_chat ⦃u = ascii⦄ backend [] (λ id. none) (text "body"))
unfolding start line_message annotate new_irc_message current_nick text_eq
receive_chat-Taken_example =
    receive_chat-Taken ⦃u = ascii⦄ ⦃g = anns⦄ backend [] (λ id. none) 5 client (text "ann!u@h")
      (text "hi" ∷ []) event (text "body") (text "json") 7 (λ e. cc e) refl refl refl refl refl
