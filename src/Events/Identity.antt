-- ===== src/Events/Identity.antt =====
-- No message changes the id of a client.
use lierc.Base.{
  ℕ, ◌+◌, ◌/◌, ◌==◌, Bool, true, false, Option, none, some, if◌then◌else◌, Text, lookup, text_eq,
  is_nil, ◌≡◌, refl, ◌∙◌, inl, inr, arith, All, Option-cases,
}
use lierc.Unicode.{Unicode}
use lierc.Irc.{Message, IrcGo}
use lierc.Channel.{Channel}
use lierc.Client.{
  Client, Conn, current_nick, add_config_channel, remove_config_channel, set_config_channels,
}
use lierc.Events.{Effects, Handler, param, update_channel, no_effects, run, run_if}
use lierc.Events.Nick.{
  on_nick_refused, on_nick_change_refused, nick_refused, registration_nick_refused, try_next,
  end_nick_request, refused_nick, give_up, stop,
}
use lierc.Events.Names.{
  on_names, on_end_of_names, on_mode, on_topic, on_topic_reply, on_channel_modes, on_topic_who_time,
  receive_names, apply_modes, set_topic, read_modes,
}
use lierc.Strconv.{pos, parse_or_nearest}
use lierc.Events.Preservation.{found-All}
use lierc.Events.Handlers.{
  handlers, find_handler, handle, on_welcome, on_join, on_kick, on_part, on_quit, on_privmsg,
  on_nick, join_self, save_join, save_leave, take_address, leave, save_nick, rename_all,
}

-- A handler leaves the id as it is.
abbrev Keeps : Handler → Type 0
Keeps h = (now : ℕ) (c : Client) (m : Message) (e : Effects) → (h now c m e).0.id ≡ c.id

-- One of two results with the id.
if-id :
    (b : Bool) (id : Text) (p q : Client × Effects)
    → p.0.id ≡ id
    → q.0.id ≡ id
    → (if b then p else q).0.id ≡ id
if-id true id p q hp hq = hp
if-id false id p q hp hq = hq

update_channel-id :
    (name : Text) (f : Channel → Channel) (c : Client) → (update_channel name f c).id ≡ c.id
unfolding update_channel
update_channel-id name f c = elim (Option-cases (lookup name c.channels)) [
  | inl e ↦ rw (e, update_channel)
  | inr (channel, e) ↦ rw (e, update_channel)
]

module _ ⦃u : Unicode⦄ where
  end_nick_request-id : (c : Client) (m : Message) → (end_nick_request c m).id ≡ c.id
  unfolding end_nick_request
  end_nick_request-id c m = ground arith

  try_next-id :
      (c : Client) (m : Message) (refused : Text) (e : Effects)
      → (try_next c m refused e).0.id ≡ c.id
  unfolding try_next stop give_up
  try_next-id c m refused e = ground arith

  registration_nick_refused-id :
      (c : Client) (m : Message) (e : Effects) → (registration_nick_refused c m e).0.id ≡ c.id
  unfolding registration_nick_refused stop give_up
  registration_nick_refused-id c m e =
      ground (arith, try_next-id (record c { reg_tries = c.reg_tries + 1 }) m (refused_nick c m) e)

  nick_refused-id :
      (conn : Option Conn) (c : Client) (m : Message) (e : Effects)
      → (nick_refused conn c m e).0.id ≡ c.id
  unfolding nick_refused
  nick_refused-id none c m e = refl
  nick_refused-id (some conn) c m e =
      if-id (is_nil conn.current_nick) c.id (registration_nick_refused c m e)
        (end_nick_request c m, e) (registration_nick_refused-id c m e) (end_nick_request-id c m)

  on_nick_refused-id : Keeps on_nick_refused
  unfolding on_nick_refused
  on_nick_refused-id now c m e =
      if-id _ c.id (c, e) (nick_refused c.conn c m e) refl (nick_refused-id c.conn c m e)

  on_nick_change_refused-id : Keeps on_nick_change_refused
  unfolding on_nick_change_refused
  on_nick_change_refused-id now c m e = elim (Option-cases c.conn) [
    | inl none_there ↦ rw (none_there, on_nick_change_refused)
    | inr (conn, there) ↦
        rw (there, on_nick_change_refused)
          (if-id (is_nil conn.current_nick) c.id (c, e) (end_nick_request c m, e) refl
            (end_nick_request-id c m))
  ]

  on_names-id : Keeps on_names
  unfolding on_names
  on_names-id now c m e =
      ground (arith, update_channel-id (u.lower (param m 2)) (receive_names c (param m 3)) c)

  on_end_of_names-id : Keeps on_end_of_names
  unfolding on_end_of_names
  on_end_of_names-id now c m e = ground (
    arith,
    update_channel-id (u.lower (param m 1)) (λ (ch : Channel). record ch { synced = true }) c,
  )

  on_topic_reply-id : Keeps on_topic_reply
  unfolding on_topic_reply
  on_topic_reply-id now c m e =
      ground (arith, update_channel-id (u.lower (param m 1)) (set_topic (param m 2)) c)

  on_channel_modes-id : Keeps on_channel_modes
  unfolding on_channel_modes
  on_channel_modes-id now c m e =
      ground (arith, update_channel-id (u.lower (param m 1)) (read_modes (param m 2)) c)

  on_topic_who_time-id : Keeps on_topic_who_time
  unfolding on_topic_who_time
  on_topic_who_time-id now c m e =
      let f = λ (ch : Channel). record ch {
        topic = record (ch.topic) { time = parse_or_nearest (param m 3); user = param m 2 };
      } in
      ground (arith, update_channel-id (u.lower (param m 1)) f c)

  add_config_channel-id : (name : Text) (c : Client) → (add_config_channel name c).0.id ≡ c.id
  unfolding add_config_channel set_config_channels
  add_config_channel-id name c = ground arith

  remove_config_channel-id : (name : Text) (c : Client) → (remove_config_channel name c).0.id ≡ c.id
  unfolding remove_config_channel set_config_channels
  remove_config_channel-id name c = ground arith

module _ ⦃u : Unicode⦄ ⦃g : IrcGo⦄ where
  on_mode-id : Keeps on_mode
  unfolding on_mode
  on_mode-id now c m e =
      ground (arith, update_channel-id (u.lower (param m 0)) (apply_modes c m (param m 1)) c)

  save_join-id : (name : Text) (c : Client) (e : Effects) → (save_join name c e).0.id ≡ c.id
  unfolding save_join
  save_join-id name c e = ground (arith, add_config_channel-id name c)

  save_leave-id : (name : Text) (c : Client) (e : Effects) → (save_leave name c e).0.id ≡ c.id
  unfolding save_leave
  save_leave-id name c e = ground (arith, remove_config_channel-id name c)

  take_address-id : (m : Message) (c : Client) → (take_address m c).id ≡ c.id
  unfolding take_address
  take_address-id m c = elim (Option-cases (g.nuh m)) [
    | inl e ↦ rw (e, take_address)
    | inr (nuh, e) ↦ rw (e, take_address)
  ]

  join_self-id : (m : Message) (c : Client) (e : Effects) → (join_self m c e).0.id ≡ c.id
  unfolding join_self
  join_self-id m c e = save_join-id _ _ _ ∙ take_address-id m _

  on_join-id : Keeps on_join
  unfolding on_join
  on_join-id now c m e =
      let joined = if text_eq (g.nick m) (current_nick c) then join_self m c e else (c, e) in
      if-id _ c.id (c, e) _ refl
        (update_channel-id _ _ joined.0
          ∙ if-id _ c.id (join_self m c e) (c, e) (join_self-id m c e) refl)

  leave-id : (name nick : Text) (c : Client) (e : Effects) → (leave name nick c e).0.id ≡ c.id
  unfolding leave
  leave-id name nick c e = if-id _ c.id _ _ (save_leave-id name _ e) (update_channel-id name _ c)

  on_kick-id : Keeps on_kick
  unfolding on_kick
  on_kick-id now c m e = if-id _ c.id (c, e) _ refl (leave-id _ _ c e)

  on_part-id : Keeps on_part
  unfolding on_part
  on_part-id now c m e = if-id _ c.id (c, e) _ refl (leave-id _ _ c e)

  on_quit-id : Keeps on_quit
  unfolding on_quit
  on_quit-id now c m e = refl

  save_nick-id : (m : Message) (c : Client) (e : Effects) → (save_nick m c e).0.id ≡ c.id
  unfolding save_nick
  save_nick-id m c e = if-id _ c.id _ _ refl refl

  on_nick-id : Keeps on_nick
  unfolding on_nick rename_all
  on_nick-id now c m e = if-id _ c.id (c, e) _ refl (save_nick-id m c e)

  on_topic-id : Keeps on_topic
  unfolding on_topic
  on_topic-id now c m e =
      let f = λ (ch : Channel). record ch {
        topic = record { topic = param m 1; user = g.nick m; time = pos (now / 1_000_000_000) };
      } in
      ground (arith, update_channel-id (u.lower (param m 0)) f c)

  on_welcome-id : Keeps on_welcome
  unfolding on_welcome
  on_welcome-id now c m e = refl

  on_privmsg-id : Keeps on_privmsg
  unfolding on_privmsg
  on_privmsg-id now c m e = refl

  handlers-Keep : All (λ (entry : Text × Handler). Keeps entry.1) handlers
  unfolding handlers
  handlers-Keep = (
    on_welcome-id,
    (
      on_nick_refused-id,
      (
        on_nick_refused-id,
        (
          on_nick_refused-id,
          (
            on_nick_change_refused-id,
            (
              on_nick_change_refused-id,
              (
                on_names-id,
                (
                  on_end_of_names-id,
                  (
                    on_mode-id,
                    (
                      on_join-id,
                      (
                        on_kick-id,
                        (
                          on_part-id,
                          (
                            on_quit-id,
                            (
                              on_topic-id,
                              (
                                on_topic_reply-id,
                                (
                                  on_channel_modes-id,
                                  (on_topic_who_time-id, (on_privmsg-id, (on_nick-id, tt))),
                                ),
                              ),
                            ),
                          ),
                        ),
                      ),
                    ),
                  ),
                ),
              ),
            ),
          ),
        ),
      ),
    ),
  )

  run_if-id :
      (o : Option Conn) (serial now : ℕ) (c : Client) (m : Message) (h : Handler)
      → Keeps h
      → (run_if o serial h now c m).0.id ≡ c.id
  unfolding run_if
  run_if-id none serial now c m h keeps = refl
  run_if-id (some conn) serial now c m h keeps =
      if-id (conn.serial == serial) c.id (h now c m no_effects) (c, no_effects)
        (keeps now c m no_effects) refl

  -- Any message, from whichever connection it comes, leaves the client's id as it is.
  pub handle-id : (serial now : ℕ) (c : Client) (m : Message) → (handle serial now c m).0.id ≡ c.id
  unfolding handle run
  handle-id serial now c m = elim (Option-cases (find_handler m.command handlers)) [
    | inl e ↦ rw (e, handle)
    | inr (f, e) ↦
        rw (e, handle)
          (run_if-id c.conn serial now c m f (found-All Keeps m.command handlers f handlers-Keep e))
  ]
