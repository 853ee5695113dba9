-- ===== src/Events/Handlers.antt =====
-- events.go: who joins, leaves and is renamed, and the table of the handlers.
use lierc.Base.{
  ℕ, false, not, ◌&&◌, List, [], ◌∷◌, ◌++◌, Option, none, some, ltb, if◌then◌else◌, Text, text, Map,
  lookup, insert, delete, has, is_nil, text_eq,
}
use lierc.Unicode.{Unicode}
use lierc.Irc.{Message, IrcGo}
use lierc.Strconv.{pos}
use lierc.Channel.{Channel}
use lierc.Client.{
  Client, current_nick, add_config_channel, remove_config_channel, channels_changed, nick_changed,
}
use lierc.Events.Nick.{on_nick_refused, on_nick_change_refused}
use lierc.Events.Names.{
  on_names, on_end_of_names, on_mode, on_topic, on_topic_reply, on_channel_modes, on_topic_who_time,
}
use lierc.Events.{
  Effects, Handler, send, publish, param, param_count, set_channels, update_channel, multi_message,
  no_effects, run,
}

-- IRCChannel as onJoin makes it, before anybody is in it.
abbrev pub new_channel : Text → Channel
new_channel name = record {
  topic = record { topic = []; user = []; time = pos 0 };
  nicks = [];
  name = name;
  mode = [];
  synced = false;
}

-- delete(channel.Nicks, nick), and channel.Nicks[nick] = []byte{}
unfoldable pub remove_nick : Text → Channel → Channel
remove_nick nick ch = record ch { nicks = delete nick ch.nicks }

unfoldable pub add_nick : Text → Channel → Channel
add_nick nick ch = record ch { nicks = insert nick [] ch.nicks }

-- The loop of onQuit: each channel that the nick is in loses it and is named.
unfoldable pub quit_channels : Text → Map Channel → Map Channel × List Text
unfolding remove_nick
quit_channels nick [] = ([], [])
quit_channels nick ((k, ch) ∷ rest) =
    let (rest', names) = quit_channels nick rest in
    if has nick ch.nicks
    then ((k, remove_nick nick ch) ∷ rest', ch.name ∷ names)
    else ((k, ch) ∷ rest', names)

-- channel.Nicks[new_nick] = channel.Nicks[nick]; delete(channel.Nicks, nick)
unfoldable pub rename_nick : Text → Text → Channel → Channel
rename_nick nick new_nick ch = elim (lookup nick ch.nicks) [
  | none ↦ ch
  | some modes ↦ record ch { nicks = delete nick (insert new_nick modes ch.nicks) }
]

-- The loop of onNick.
unfoldable pub rename_channels : Text → Text → Map Channel → Map Channel × List Text
unfolding rename_nick
rename_channels nick new_nick [] = ([], [])
rename_channels nick new_nick ((k, ch) ∷ rest) =
    let (rest', names) = rename_channels nick new_nick rest in
    if has nick ch.nicks
    then ((k, rename_nick nick new_nick ch) ∷ rest', ch.name ∷ names)
    else ((k, ch) ∷ rest', names)

module _ ⦃u : Unicode⦄ ⦃g : IrcGo⦄ where
  unfoldable pub on_welcome : Handler
  on_welcome now c m e = (record c { welcomed_at = some now }, e)

  -- The NUH of our own JOIN tells our host and user.
  unfoldable pub take_address : Message → Client → Client
  take_address m c = elim (g.nuh m) [
    | none ↦ c
    | some nuh ↦ record c { host = nuh.host; user = nuh.user }
  ]

  -- addConfigChannel, with the change published if there is one.
  unfoldable pub save_join : Text → Client → Effects → Client × Effects
  save_join name c e =
      let (c', added) = add_config_channel name c in
      if added then (c', publish (channels_changed c') e) else (c', e)

  unfoldable pub save_leave : Text → Client → Effects → Client × Effects
  save_leave name c e =
      let (c', removed) = remove_config_channel name c in
      if removed then (c', publish (channels_changed c') e) else (c', e)

  -- What onJoin does when it is we who join.
  unfoldable pub join_self : Message → Client → Effects → Client × Effects
  join_self m c e =
      let opened =
        set_channels (insert (u.lower (param m 0)) (new_channel (param m 0)) c.channels) c in
      save_join (param m 0) (take_address m opened) (send (text "MODE " ++ param m 0) e)

  unfoldable pub on_join : Handler
  on_join now c m e =
      if ltb (param_count m) 1
      then (c, e)
      else let (c', e') = if text_eq (g.nick m) (current_nick c) then join_self m c e else (c, e) in
        (update_channel (u.lower (param m 0)) (add_nick (g.nick m)) c', e')

  -- The rest of onKick and onPart, for the nick that leaves the channel.
  unfoldable pub leave : Text → Text → Client → Effects → Client × Effects
  leave name nick c e =
      if text_eq nick (current_nick c)
      then save_leave name (set_channels (delete name c.channels) c) e
      else (update_channel name (remove_nick nick) c, e)

  unfoldable pub on_kick : Handler
  on_kick now c m e =
      if ltb (param_count m) 2 then (c, e) else leave (u.lower (param m 0)) (param m 1) c e

  unfoldable pub on_part : Handler
  on_part now c m e =
      if ltb (param_count m) 1 then (c, e) else leave (u.lower (param m 0)) (g.nick m) c e

  unfoldable pub on_quit : Handler
  unfolding quit_channels
  on_quit now c m e =
      let (channels, names) = quit_channels (g.nick m) c.channels in
      let c' = set_channels channels c in
      (c', record e { multi = some (multi_message now c' m names) })

  -- It only logs CTCP VERSION requests.
  unfoldable pub on_privmsg : Handler
  on_privmsg now c m e = (c, e)

  -- Our own change is saved only when it is to the nick that we asked for.
  unfoldable pub save_nick : Message → Client → Effects → Client × Effects
  save_nick m c e =
      let new_nick = param m 0 in
      let ours = not (text_eq (g.nick m) new_nick) && text_eq new_nick (current_nick c) in
      let asked = not (is_nil c.requested_nick) && u.equal_fold new_nick c.requested_nick in
      let c' = record c { requested_nick = []; config = record (c.config) { nick = new_nick } } in
      if ours && asked then (c', publish (nick_changed c') e) else (c, e)

  -- What onNick does once our own change is saved.
  unfoldable pub rename_all : ℕ → Message → Client → Effects → Client × Effects
  unfolding rename_channels
  rename_all now m c e =
      let (channels, names) = rename_channels (g.nick m) (param m 0) c.channels in
      let c' = set_channels channels c in
      (c', record e { multi = some (multi_message now c' m names) })

  unfoldable pub on_nick : Handler
  on_nick now c m e =
      if ltb (param_count m) 1
      then (c, e)
      else let (c', e') = save_nick m c e in rename_all now m c' e'

  -- eachHandler
  unfoldable pub handlers : List (Text × Handler)
  handlers =
      (text "001", on_welcome)
      ∷ (text "432", on_nick_refused)
      ∷ (text "433", on_nick_refused)
      ∷ (text "437", on_nick_refused)
      ∷ (text "435", on_nick_change_refused)
      ∷ (text "438", on_nick_change_refused)
      ∷ (text "353", on_names)
      ∷ (text "366", on_end_of_names)
      ∷ (text "MODE", on_mode)
      ∷ (text "JOIN", on_join)
      ∷ (text "KICK", on_kick)
      ∷ (text "PART", on_part)
      ∷ (text "QUIT", on_quit)
      ∷ (text "TOPIC", on_topic)
      ∷ (text "332", on_topic_reply)
      ∷ (text "324", on_channel_modes)
      ∷ (text "333", on_topic_who_time)
      ∷ (text "PRIVMSG", on_privmsg)
      ∷ (text "NICK", on_nick)
      ∷ []

-- The handler that is registered for a command.
unfoldable pub find_handler : Text → List (Text × Handler) → Option Handler
find_handler command [] = none
find_handler command ((k, h) ∷ hs) = if text_eq k command then some h else find_handler command hs

module _ ⦃u : Unicode⦄ ⦃g : IrcGo⦄ where
  -- One message from connection `serial`, as addHandlers hands it to its handler.
  unfoldable pub handle : ℕ → ℕ → Client → Message → Client × Effects
  handle serial now c m = elim (find_handler m.command handlers) [
    | none ↦ (c, no_effects)
    | some h ↦ run serial h now c m
  ]
