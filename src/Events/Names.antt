-- ===== src/Events/Names.antt =====
-- events.go: who is in a channel and under which modes (NAMES, MODE), and its topic.
use lierc.Base.{
  ℕ, ◌/◌, true, false, List, [], ◌∷◌, none, some, ◌==◌, ltb, if◌then◌else◌, Text, Map, insert,
  text_eq, split,
}
use lierc.Unicode.{Unicode}
use lierc.Irc.{Message, IrcGo}
use lierc.Strconv.{pos, parse_or_nearest}
use lierc.Channel.{Channel, set_mode, set_nick_mode}
use lierc.Client.{Client, nick_prefix_mode, is_nick_mode}
use lierc.Events.{Handler, param, param_count, update_channel}

-- One word of a NAMES reply, such as "@nick".
unfoldable pub add_name : Client → Text → Map Text → Map Text
add_name c [] nicks = nicks
add_name c (b ∷ rest) nicks = elim (nick_prefix_mode b c) [
  | some mode ↦ insert rest (mode ∷ []) nicks
  | none ↦ insert (b ∷ rest) [] nicks
]

unfoldable pub add_names : Client → List Text → Map Text → Map Text
unfolding add_name
add_names c [] nicks = nicks
add_names c (w ∷ ws) nicks = add_names c ws (add_name c w nicks)

-- A reply that follows a complete list starts a new one.
abbrev pub reopen : Channel → Channel
reopen ch = if ch.synced then record ch { synced = false; nicks = [] } else ch

unfoldable pub receive_names : Client → Text → Channel → Channel
unfolding add_names
receive_names c words ch = record (reopen ch) {
  nicks = add_names c (split b' ' words) (reopen ch).nicks;
}

-- The body of the loop of onMode, for one mode letter.
unfoldable pub mode_letter : Client → Message → ℕ → ℕ → Channel → Channel
mode_letter c m action mode ch =
    if is_nick_mode mode c
    then (if ltb 2 (param_count m) then set_nick_mode action mode (param m 2) ch else ch)
    else if param_count m == 2
    then set_mode action mode ch
    else ch

unfoldable pub mode_letters : Client → Message → ℕ → Text → Channel → Channel
unfolding mode_letter
mode_letters c m action [] ch = ch
mode_letters c m action (mode ∷ modes) ch =
    mode_letters c m action modes (mode_letter c m action mode ch)

-- The second parameter of MODE: its first byte is the action.
unfoldable pub apply_modes : Client → Message → Text → Channel → Channel
unfolding mode_letters
apply_modes c m [] ch = ch
apply_modes c m (action ∷ modes) ch = mode_letters c m action modes ch

-- if m.Params[2] != "" { channel.Mode = []byte(m.Params[2][1:]) }
unfoldable pub read_modes : Text → Channel → Channel
read_modes [] ch = ch
read_modes (sign ∷ modes) ch = record ch { mode = modes }

abbrev pub set_topic : Text → Channel → Channel
set_topic t ch = record ch { topic = record (ch.topic) { topic = t } }

module _ ⦃u : Unicode⦄ where
  unfoldable pub on_names : Handler
  on_names now c m e =
      if ltb (param_count m) 4
      then (c, e)
      else (update_channel (u.lower (param m 2)) (receive_names c (param m 3)) c, e)

  unfoldable pub on_end_of_names : Handler
  on_end_of_names now c m e =
      if ltb (param_count m) 2
      then (c, e)
      else (update_channel (u.lower (param m 1)) (λ ch. record ch { synced = true }) c, e)

  unfoldable pub on_topic_reply : Handler
  on_topic_reply now c m e =
      if ltb (param_count m) 3
      then (c, e)
      else (update_channel (u.lower (param m 1)) (set_topic (param m 2)) c, e)

  unfoldable pub on_channel_modes : Handler
  on_channel_modes now c m e =
      if ltb (param_count m) 3
      then (c, e)
      else (update_channel (u.lower (param m 1)) (read_modes (param m 2)) c, e)

  unfoldable pub on_topic_who_time : Handler
  on_topic_who_time now c m e = if ltb (param_count m) 4 then (c, e) else (
    update_channel (u.lower (param m 1))
        (λ ch. record ch {
          topic = record (ch.topic) { time = parse_or_nearest (param m 3); user = param m 2 };
        })
        c,
    e,
  )

module _ ⦃u : Unicode⦄ ⦃g : IrcGo⦄ where
  unfoldable pub on_mode : Handler
  on_mode now c m e =
      if ltb (param_count m) 2
      then (c, e)
      else if text_eq (g.nick m) (u.lower (param m 0))
      then (c, e)
      else (update_channel (u.lower (param m 0)) (apply_modes c m (param m 1)) c, e)

  -- `now` is in nanoseconds; the topic's time is in seconds.
  unfoldable pub on_topic : Handler
  on_topic now c m e = if ltb (param_count m) 2 then (c, e) else (
    update_channel (u.lower (param m 0))
        (λ ch. record ch {
          topic = record { topic = param m 1; user = g.nick m; time = pos (now / 1_000_000_000) };
        })
        c,
    e,
  )
