-- ===== src/Connection/Messages.antt =====
-- pkg/lierc/connection.go: what irc-go's connection is made with, and the messages of an attempt's end.
-- An error is known by its text.
use lierc.Base.{
  ℕ, ◌≤◌, Bool, true, false, List, [], ◌∷◌, ◌++◌, Option, none, some, ◌≡◌, refl, if◌then◌else◌,
  Text, text, is_nil,
}
use lierc.Config.{IrcConfig, server}
use lierc.Connection.Tracked
use lierc.Connection.Tracked.{TrackedConn, read_q_limit, line_length, run_too_long}

-- quitMessage, with the variable QUIT_MESSAGE.
unfoldable pub quit_message : Text → Text
quit_message env = if is_nil env then text "bye" else env

-- How the connection says who it is.
pub data Login : Type 0 where
  sasl_plain : Text → Text → Login
  password : Text → Login

-- ircevent.Connection, as connect makes it.
pub record Options : Type 0 where
  pub server : Text
  pub nick : Text
  pub keep_nick : Bool
  pub user : Text
  pub real_name : Text
  pub request_caps : List Text
  pub timeout : ℕ
  pub keep_alive : ℕ
  pub quit_message : Text
  pub max_line_len : ℕ
  pub debug : Bool
  pub login : Login

abbrev pub irc_timeout : ℕ
irc_timeout = 120000000000

abbrev pub irc_keep_alive : ℕ
irc_keep_alive = 240000000000

abbrev pub irc_max_line_len : ℕ
irc_max_line_len = 512

unfoldable pub login_of : IrcConfig → Login
login_of config = if config.sasl then sasl_plain config.user config.pass else password config.pass

-- The user of a config, or its nick where it has none.
unfoldable pub user_of : IrcConfig → Text
user_of config = if is_nil config.user then config.nick else config.user

-- The connection that connect makes, with QUIT_MESSAGE and whether the client debugs more than one level.
unfoldable pub options : Text → Bool → IrcConfig → Options
unfolding login_of user_of server
options env debug config = record {
  server = server config;
  nick = config.nick;
  keep_nick = true;
  user = user_of config;
  real_name = user_of config;
  request_caps = text "echo-message" ∷ text "message-tags" ∷ [];
  timeout = irc_timeout;
  keep_alive = irc_keep_alive;
  quit_message = quit_message env;
  max_line_len = irc_max_line_len;
  debug = debug;
  login = login_of config;
}

-- err, of a socket.
unfoldable pub first_error_of : TrackedConn → Option Text
first_error_of t = t.first

-- The status's message and the log's, where the connection ends.
unfoldable pub disconnected : Option Text → Text × Text
disconnected none = (
  text "Disconnected",
  text "disconnected: no socket error (ping timeout, readQ or server ERROR)",
)
disconnected (some err) = (err, text "disconnected: " ++ err)

-- The disconnect callback, of a socket.
unfoldable pub disconnect_end : TrackedConn → Text × Text
unfolding disconnected first_error_of
disconnect_end t = disconnected (first_error_of t)

-- The first error of a socket there is, if any.
unfoldable pub socket_error : Option TrackedConn → Option Text
unfolding first_error_of
socket_error none = none
socket_error (some t) = first_error_of t

unfoldable pub chosen_error : Text → Option Text → Text
chosen_error err none = err
chosen_error err (some first) = first

-- Connect's error, whether it is ServerDisconnected, and the socket.
unfoldable pub connect_end : Text → Bool → Option TrackedConn → Text × Text
unfolding chosen_error socket_error
connect_end err by_server socket =
    let e = if by_server then chosen_error err (socket_error socket) else err in
    (e, text "connection failed: " ++ e)

-- If a read of a socket without an error leaves a line of 8704 bytes or more that has not ended,
-- then, whatever is read and written later, the end of the connection is reported as ErrReadQ, by
-- the disconnect callback and by a Connect that fails with ServerDisconnected; another error of
-- Connect is reported as it is.
pub disconnect_end_too_long :
    (read_q s err : Text) (first : Option Text) (ops : List Tracked.Op) (t : TrackedConn)
    → t.first ≡ none
    → read_q_limit ≤ line_length t.pending s
    → let ended = Tracked.run read_q (Tracked.reads s first ∷ ops) t in
      (disconnect_end ended ≡ (read_q, text "disconnected: " ++ read_q))
      × (connect_end err true (some ended) ≡ (read_q, text "connection failed: " ++ read_q))
      × (connect_end err false (some ended) ≡ (err, text "connection failed: " ++ err))
unfolding disconnect_end connect_end
disconnect_end_too_long read_q s err first ops t fresh long =
    let e = run_too_long read_q s first ops t fresh long in (rw e refl, rw e refl, refl)
