-- ===== src/Events/Preservation.antt =====
-- Every handler, and so every message, keeps the channels well formed.
use lierc.Base.{
  ℕ, Bool, true, false, List, [], ◌∷◌, Option, none, some, ◌≡◌, refl, sym, ◌∙◌, ap, arith,
  if◌then◌else◌, Text, Map, lookup, delete, text_eq, Entries, lookup-Entries, insert-Entries,
  delete-Entries, map_values, map_values-Entries, Option-cases, Bool-cases, inl, inr, ltb, All,
  ◌==◌,
}
use mathlib.Core.Path.{subst}
use mathlib.Core.Option.{some-injective}
use lierc.Unicode.{Unicode}
use lierc.Irc.{Message, IrcGo}
use lierc.Channel.{Channel}
use lierc.Client.{Client, Conn, add_config_channel, remove_config_channel}
use lierc.Events.{
  Effects, Handler, no_effects, param, param_count, update_channel, set_channels, run, run_if,
}
use lierc.Events.Membership.{quit_channels_lem, rename_channels_lem}
use lierc.Events.Invariant.{
  ModesDistinct, Keeps, receive_names-Keeps, apply_modes-Keeps, read_modes-Keeps, remove_nick-Keeps,
  add_nick-Keeps, rename_nick-Keeps,
}
use lierc.Events.Nick.{
  on_nick_refused, on_nick_change_refused, nick_refused, registration_nick_refused, try_next,
  give_up, stop, end_nick_request,
}
use lierc.Events.Names.{
  receive_names, apply_modes, read_modes, on_names, on_end_of_names, on_mode, on_topic,
  on_topic_reply, on_channel_modes, on_topic_who_time,
}
use lierc.Events.Handlers.{
  remove_nick, add_nick, rename_nick, new_channel, on_welcome, on_join, join_self, take_address,
  save_join, save_leave, leave, on_kick, on_part, on_quit, on_privmsg, save_nick, rename_all,
  on_nick, handlers, find_handler, handle,
}

-- What holds of every handler of a table holds of the one that is found.
pub found-All :
    (P : Handler → Type 0) (command : Text) (table : List (Text × Handler)) (handler : Handler)
    → All (λ (entry : Text × Handler). P entry.1) table
    → find_handler command table ≡ some handler
    → P handler
unfolding find_handler
found-All P command [] handler h e = absurd (cc)
found-All P command ((k, f) ∷ table) handler h e = elim (Bool-cases (text_eq k command)) [
  | inl t ↦
      let same : f ≡ handler = some-injective _ _ (rw (t, find_handler) at e) in subst P same h.0
  | inr t ↦ found-All P command table handler h.1 (rw (t, find_handler) at e)
]

module _ ⦃u : Unicode⦄ where
  -- A channel is found under its name in lower case, and no nick of it has a mode twice.
  abbrev pub IsChannel : Text → Channel → Type 0
  IsChannel k ch = (k ≡ u.lower ch.name) × ModesDistinct ch.nicks

  abbrev pub Inv : Map Channel → Type 0
  Inv channels = Entries IsChannel channels

  update_channel-Inv :
      (name : Text) (f : Channel → Channel) (c : Client)
      → Keeps f
      → Inv c.channels
      → Inv (update_channel name f c).channels
  unfolding update_channel
  update_channel-Inv name f c keeps h = elim (Option-cases (lookup name c.channels)) [
    | inl e ↦ rw (e, update_channel) h
    | inr (ch, e) ↦
        let old = lookup-Entries IsChannel name ch c.channels h e in
        let new = keeps ch old.1 in
        rw (e, update_channel)
          (insert-Entries IsChannel name (f ch) c.channels (old.0 ∙ ap u.lower (sym new.0), new.1)
            h)
  ]

  map_values-Inv :
      (f : Channel → Channel) (channels : Map Channel)
      → Keeps f
      → Inv channels
      → Inv (map_values f channels)
  map_values-Inv f channels keeps h =
      map_values-Entries IsChannel f
        (λ k ch old. let new = keeps ch old.1 in (old.0 ∙ ap u.lower (sym new.0), new.1)) channels h

  abbrev pub Preserves : Handler → Type 0
  Preserves handler =
      (now : ℕ) (c : Client) (m : Message) (e : Effects)
      → Inv c.channels
      → Inv (handler now c m e).0.channels

  -- A handler that updates one channel, behind a test.
  if-Inv :
      (b : Bool) (r s : Client × Effects)
      → Inv r.0.channels
      → Inv s.0.channels
      → Inv (if◌then◌else◌ {A = Client × Effects} b r s).0.channels
  if-Inv true r s hr hs = hr
  if-Inv false r s hr hs = hs

  on_names-Preserves : Preserves on_names
  unfolding on_names
  on_names-Preserves now c m e h =
      if-Inv _ (c, e) (_, e) h
        (update_channel-Inv _ (receive_names c (param m 3)) c (receive_names-Keeps c _) h)

  on_end_of_names-Preserves : Preserves on_end_of_names
  unfolding on_end_of_names
  on_end_of_names-Preserves now c m e h =
      if-Inv _ (c, e) (_, e) h (update_channel-Inv _ _ c (λ ch k. (refl, k)) h)

  on_topic_reply-Preserves : Preserves on_topic_reply
  unfolding on_topic_reply
  on_topic_reply-Preserves now c m e h =
      if-Inv _ (c, e) (_, e) h (update_channel-Inv _ _ c (λ ch k. (refl, k)) h)

  on_channel_modes-Preserves : Preserves on_channel_modes
  unfolding on_channel_modes
  on_channel_modes-Preserves now c m e h =
      if-Inv _ (c, e) (_, e) h
        (update_channel-Inv _ (read_modes (param m 2)) c (read_modes-Keeps _) h)

  on_topic_who_time-Preserves : Preserves on_topic_who_time
  unfolding on_topic_who_time
  on_topic_who_time-Preserves now c m e h =
      if-Inv _ (c, e) (_, e) h (update_channel-Inv _ _ c (λ ch k. (refl, k)) h)

module _ ⦃u : Unicode⦄ ⦃g : IrcGo⦄ where
  on_topic-Preserves : Preserves on_topic
  unfolding on_topic
  on_topic-Preserves now c m e h =
      if-Inv _ (c, e) (_, e) h (update_channel-Inv _ _ c (λ ch k. (refl, k)) h)

  on_mode-Preserves : Preserves on_mode
  unfolding on_mode
  on_mode-Preserves now c m e h =
      let updated = update_channel (u.lower (param m 0)) (apply_modes c m (param m 1)) c in
      let keeps = apply_modes-Keeps c m (param m 1) in
      if-Inv (ltb (param_count m) 2) (c, e)
        (if text_eq (g.nick m) (u.lower (param m 0)) then (c, e) else (updated, e)) h
        (if-Inv (text_eq (g.nick m) (u.lower (param m 0))) (c, e) (updated, e) h
          (update_channel-Inv (u.lower (param m 0)) (apply_modes c m (param m 1)) c keeps h))

  on_welcome-Preserves : Preserves on_welcome
  unfolding on_welcome
  on_welcome-Preserves now c m e h = h

  on_privmsg-Preserves : Preserves on_privmsg
  unfolding on_privmsg
  on_privmsg-Preserves now c m e h = h

  on_quit-Preserves : Preserves on_quit
  unfolding on_quit
  on_quit-Preserves now c m e h =
      rw quit_channels_lem
        (map_values-Inv (remove_nick (g.nick m)) c.channels (remove_nick-Keeps (g.nick m)) h)

  save_nick-channels :
      (m : Message) (c : Client) (e : Effects) → (save_nick m c e).0.channels ≡ c.channels
  unfolding save_nick
  save_nick-channels m c e = ground arith

  on_nick-Preserves : Preserves on_nick
  unfolding on_nick rename_all
  on_nick-Preserves now c m e h =
      let saved = save_nick m c e in
      if-Inv (ltb (param_count m) 1) (c, e) (rename_all now m saved.0 saved.1) h
        (rw (rename_channels_lem, save_nick-channels)
          (map_values-Inv (rename_nick (g.nick m) (param m 0)) c.channels (rename_nick-Keeps _ _)
            h))

  save_leave-channels :
      (name : Text) (c : Client) (e : Effects) → (save_leave name c e).0.channels ≡ c.channels
  unfolding save_leave remove_config_channel
  save_leave-channels name c e = ground arith

  leave-Inv :
      (name nick : Text) (c : Client) (e : Effects)
      → Inv c.channels
      → Inv (leave name nick c e).0.channels
  unfolding leave
  leave-Inv name nick c e h =
      if-Inv _ (save_leave name (set_channels (delete name c.channels) c) e) (_, e)
        (rw save_leave-channels (delete-Entries IsChannel name c.channels h))
        (update_channel-Inv name (remove_nick nick) c (remove_nick-Keeps nick) h)

  on_kick-Preserves : Preserves on_kick
  unfolding on_kick
  on_kick-Preserves now c m e h = if-Inv _ (c, e) _ h (leave-Inv _ _ c e h)

  on_part-Preserves : Preserves on_part
  unfolding on_part
  on_part-Preserves now c m e h = if-Inv _ (c, e) _ h (leave-Inv _ _ c e h)

  join_self-Inv :
      (m : Message) (c : Client) (e : Effects) → Inv c.channels → Inv (join_self m c e).0.channels
  unfolding join_self
  join_self-Inv m c e h =
      rw (save_join-channels, take_address-channels)
        (insert-Entries IsChannel _ (new_channel (param m 0)) c.channels (refl, tt) h)
    where
      take_address-channels : (m : Message) (c : Client) → (take_address m c).channels ≡ c.channels
      take_address-channels m c = unfold take_address in ground arith

      save_join-channels :
          (name : Text) (c : Client) (e : Effects) → (save_join name c e).0.channels ≡ c.channels
      save_join-channels name c e = unfold save_join add_config_channel in ground arith

  on_join-Preserves : Preserves on_join
  unfolding on_join
  on_join-Preserves now c m e h =
      if-Inv _ (c, e) _ h
        (update_channel-Inv _ (add_nick (g.nick m)) _ (add_nick-Keeps (g.nick m))
          (if-Inv _ (join_self m c e) (c, e) (join_self-Inv m c e h) h))

  registration-channels :
      (m : Message) (c : Client) (e : Effects)
      → (registration_nick_refused c m e).0.channels ≡ c.channels
  unfolding registration_nick_refused try_next give_up stop
  registration-channels m c e = ground arith

  end_nick_request-channels :
      (m : Message) (c : Client) → (end_nick_request c m).channels ≡ c.channels
  unfolding end_nick_request
  end_nick_request-channels m c = ground arith

  nick_refused-channels :
      (o : Option Conn) (m : Message) (c : Client) (e : Effects)
      → (nick_refused o c m e).0.channels ≡ c.channels
  unfolding nick_refused
  nick_refused-channels none m c e = refl
  nick_refused-channels (some conn) m c e =
      ground (arith, registration-channels m c e, end_nick_request-channels m c)

  on_nick_refused-Preserves : Preserves on_nick_refused
  unfolding on_nick_refused
  on_nick_refused-Preserves now c m e h =
      if-Inv (ltb (param_count m) 2) (c, e) (nick_refused c.conn c m e) h
        (rw nick_refused-channels h)

  on_nick_change_refused-Preserves : Preserves on_nick_change_refused
  on_nick_change_refused-Preserves now c m e h = rw same h
    where
      same : (on_nick_change_refused now c m e).0.channels ≡ c.channels
      same = unfold on_nick_change_refused end_nick_request in ground arith

  handlers-Preserves : All (λ entry. Preserves entry.1) handlers
  unfolding handlers
  handlers-Preserves = (
    on_welcome-Preserves,
    (
      on_nick_refused-Preserves,
      (
        on_nick_refused-Preserves,
        (
          on_nick_refused-Preserves,
          (
            on_nick_change_refused-Preserves,
            (
              on_nick_change_refused-Preserves,
              (
                on_names-Preserves,
                (
                  on_end_of_names-Preserves,
                  (
                    on_mode-Preserves,
                    (
                      on_join-Preserves,
                      (
                        on_kick-Preserves,
                        (
                          on_part-Preserves,
                          (
                            on_quit-Preserves,
                            (
                              on_topic-Preserves,
                              (
                                on_topic_reply-Preserves,
                                (
                                  on_channel_modes-Preserves,
                                  (
                                    on_topic_who_time-Preserves,
                                    (on_privmsg-Preserves, (on_nick-Preserves, tt)),
                                  ),
                                ),
                              ),
                            ),
                          ),
                        ),
                      ),
                    ),
                  ),
                ),
              ),
            ),
          ),
        ),
      ),
    ),
  )

  run_if-Inv :
      (o : Option Conn) (serial now : ℕ) (c : Client) (m : Message) (handler : Handler)
      → Preserves handler
      → Inv c.channels
      → Inv (run_if o serial handler now c m).0.channels
  unfolding run_if
  run_if-Inv none serial now c m handler keeps h = h
  run_if-Inv (some conn) serial now c m handler keeps h =
      if-Inv (conn.serial == serial) (handler now c m no_effects) (c, no_effects)
        (keeps now c m no_effects h) h

  -- If each channel stands under its name in lower case and has no nick with a mode twice, then so
  -- it is after any message, from whichever connection it comes.
  pub handle-Inv :
      (serial now : ℕ) (c : Client) (m : Message)
      → Inv c.channels
      → Inv (handle serial now c m).0.channels
  unfolding handle run
  handle-Inv serial now c m h = elim (Option-cases (find_handler m.command handlers)) [
    | inl e ↦ rw (e, handle) h
    | inr (f, e) ↦
        rw (e, handle)
          (run_if-Inv c.conn serial now c m f
            (found-All Preserves m.command handlers f handlers-Preserves e) h)
  ]
