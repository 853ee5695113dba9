-- ===== src/Events/Joining.antt =====
-- JOIN, PART and KICK: the channels we are in, the nicks in them, and the config that lists them.
use lierc.Base.{
  ℕ, true, false, ◌&&◌, [], ◌∷◌, ◌++◌, none, some, ◌≡◌, refl, ◌∙◌, arith, if◌then◌else◌, Text, text,
  lookup, insert, delete, lookup-insert, lookup-delete, text_eq, text_eq_iff, text_eq_refl, ltb,
  Option-cases, inl, inr, ◌<◌, ◌≤◌, ap,
}
use lierc.Unicode.{Unicode}
use lierc.Irc.{Message, IrcGo}
use lierc.Channel.{Channel}
use lierc.Client.{
  Client, current_nick, any_names, names_channel, kept, add_config_channel, remove_config_channel,
  channels_changed,
}
use lierc.Client.ConfigChannels.{any_names-add_config_channel, remove_config_channel_lem}
use lierc.Events.{Handler, Effects, param, param_count, update_channel, set_channels, send}
use lierc.Events.Membership.{modes_in}
use lierc.Events.Handlers.{
  remove_nick, add_nick, new_channel, leave, save_leave, save_join, take_address, join_self,
  on_join, on_part, on_kick,
}

lookup-update_channel :
    (name : Text) (f : Channel → Channel) (c : Client) (k : Text)
    → lookup k (update_channel name f c).channels ≡ (
        if text_eq name k
        then elim (lookup name c.channels) [ none ↦ none | some ch ↦ some (f ch) ]
        else lookup k c.channels)
unfolding update_channel
lookup-update_channel name f c k = elim (Option-cases (lookup name c.channels)) [
  | inl e ↦ rw (e, update_channel) (ground (arith, text_eq_iff name k))
  | inr (ch, e) ↦ rw (e, update_channel) (lookup-insert name k (f ch) c.channels)
]

modes_in-remove_nick :
    (name nick : Text) (c : Client) (k j : Text)
    → modes_in k j (update_channel name (remove_nick nick) c).channels
      ≡ (if text_eq name k && text_eq nick j then none else modes_in k j c.channels)
unfolding remove_nick
modes_in-remove_nick name nick c k j = elim (Option-cases (lookup name c.channels)) [
  | inl e ↦ ground (arith, lookup-update_channel name (remove_nick nick) c k, text_eq_iff name k)
  | inr (ch, e) ↦ ground (
    arith,
    lookup-update_channel name (remove_nick nick) c k,
    lookup-delete nick j ch.nicks,
    text_eq_iff name k,
  )
]

update_channel-config :
    (name : Text) (f : Channel → Channel) (c : Client) → (update_channel name f c).config ≡ c.config
unfolding update_channel
update_channel-config name f c = ground arith

module _ ⦃u : Unicode⦄ ⦃g : IrcGo⦄ where
  remove_config_channel-channels :
      (name : Text) (c : Client) → (remove_config_channel name c).0.channels ≡ c.channels
  unfolding remove_config_channel
  remove_config_channel-channels name c = ground arith

  -- PART or KICK of somebody else removes that nick from that channel and no other nick from any
  -- channel, has no effects and leaves the config.
  pub leave_other :
      (name nick : Text) (c : Client) (e : Effects) (k j : Text)
      → text_eq nick (current_nick c) ≡ false
      → (modes_in k j (leave name nick c e).0.channels
          ≡ (if text_eq name k && text_eq nick j then none else modes_in k j c.channels))
        × ((leave name nick c e).1 ≡ e)
        × ((leave name nick c e).0.config ≡ c.config)
  unfolding leave
  leave_other name nick c e k j h =
      rw h (
        modes_in-remove_nick name nick c k j,
        refl,
        update_channel-config name (remove_nick nick) c,
      )

  save_leave_lem :
      (name : Text) (c : Client) (e : Effects)
      → ((save_leave name c e).0.channels ≡ c.channels)
        × ((save_leave name c e).0.config.channels ≡ kept name c.config.channels)
        × ((save_leave name c e).1.changes ≡ (
            if any_names name c.config.channels
            then e.changes ++ channels_changed (save_leave name c e).0 ∷ []
            else e.changes))
  unfolding save_leave
  save_leave_lem name c e =
      ground (arith, remove_config_channel_lem name c, remove_config_channel-channels name c)

  -- The channel `name` is gone, the others stay, just the config entries that do not name it stay, and
  -- a config change is published exactly when an entry did.
  abbrev pub IsLeft : Text → Client → Effects → Client × Effects → Type 0
  IsLeft name c e r =
      ((k : Text) → lookup k r.0.channels ≡ (if text_eq name k then none else lookup k c.channels))
      × (r.0.config.channels ≡ kept name c.config.channels)
      × (r.1.changes ≡ (
          if any_names name c.config.channels
          then e.changes ++ channels_changed r.0 ∷ []
          else e.changes))

  leave_ours :
      (name nick : Text) (c : Client) (e : Effects)
      → text_eq nick (current_nick c) ≡ true
      → IsLeft name c e (leave name nick c e)
  unfolding leave
  leave_ours name nick c e h =
      let c' = set_channels (delete name c.channels) c in
      let (same, entries, changes) = save_leave_lem name c' e in
      rw h (λ k. ap (lookup k) same ∙ lookup-delete name k c.channels, entries, changes)

  -- PART and KICK: the handler, how many parameters it reads, and the nick that it takes to leave.
  pub data Departure : Type 0 where
    part : Departure
    kick : Departure

  abbrev pub departs : Departure → Handler
  departs part = on_part
  departs kick = on_kick

  abbrev pub reads : Departure → ℕ
  reads part = 1
  reads kick = 2

  abbrev pub leaver : Departure → Message → Text
  leaver part m = g.nick m
  leaver kick m = param m 1

  -- A PART of ours, and a KICK, whoever sends it, of our nick, that has its parameters removes the
  -- channel, by its name in lower case, keeps the others, keeps just the config entries that do not
  -- name it, and publishes a config change exactly when an entry did.
  pub leave_self :
      (d : Departure) (now : ℕ) (c : Client) (m : Message) (e : Effects)
      → reads d ≤ param_count m
      → text_eq (leaver d m) (current_nick c) ≡ true
      → IsLeft (u.lower (param m 0)) c e (departs d now c m e)
  unfolding on_part on_kick
  leave_self part now c m e enough ours =
      let has : ltb (param_count m) 1 ≡ false = ground arith in
      rw has (leave_ours (u.lower (param m 0)) (g.nick m) c e ours)
  leave_self kick now c m e enough ours =
      let has : ltb (param_count m) 2 ≡ false = ground arith in
      rw has (leave_ours (u.lower (param m 0)) (param m 1) c e ours)

  add_config_channel-channels :
      (name : Text) (c : Client) → (add_config_channel name c).0.channels ≡ c.channels
  unfolding add_config_channel
  add_config_channel-channels name c = ground arith

  take_address_lem :
      (m : Message) (c : Client)
      → ((take_address m c).channels ≡ c.channels)
        × ((take_address m c).config ≡ c.config)
        × (current_nick (take_address m c) ≡ current_nick c)
  unfolding take_address current_nick
  take_address_lem m c = ground arith

  save_join_lem :
      (name : Text) (c : Client) (e : Effects)
      → names_channel name name ≡ true
      → ((save_join name c e).0.channels ≡ c.channels)
        × (any_names name (save_join name c e).0.config.channels ≡ true)
        × ((save_join name c e).1.sends ≡ e.sends)
        × ((save_join name c e).1.changes ≡ (
            if any_names name c.config.channels
            then e.changes
            else e.changes ++ channels_changed (save_join name c e).0 ∷ []))
  unfolding save_join
  save_join_lem name c e h =
      ground (arith, any_names-add_config_channel name c h, add_config_channel-channels name c)

  join_self_lem :
      (m : Message) (c : Client) (e : Effects)
      → names_channel (param m 0) (param m 0) ≡ true
      → ((k : Text)
          → lookup k (join_self m c e).0.channels ≡ (
              if text_eq (u.lower (param m 0)) k
              then some (new_channel (param m 0))
              else lookup k c.channels))
        × (any_names (param m 0) (join_self m c e).0.config.channels ≡ true)
        × ((join_self m c e).1.sends ≡ e.sends ++ (text "MODE " ++ param m 0) ∷ [])
        × ((join_self m c e).1.changes ≡ (
            if any_names (param m 0) c.config.channels
            then e.changes
            else e.changes ++ channels_changed (join_self m c e).0 ∷ []))
  unfolding join_self take_address
  join_self_lem m c e named =
      let p = param m 0 in
      let opened = set_channels (insert (u.lower p) (new_channel p) c.channels) c in
      let e' = send (text "MODE " ++ p) e in
      let address = take_address_lem m opened in
      let saved = save_join_lem p (take_address m opened) e' named in
      (
        λ k.
            ap (lookup k) (saved.0 ∙ address.0)
            ∙ lookup-insert (u.lower p) k (new_channel p) c.channels,
        saved.1,
        saved.2,
        rw address.1 at saved.3,
      )

  channels_changed-update_channel :
      (name : Text) (f : Channel → Channel) (c : Client)
      → channels_changed (update_channel name f c) ≡ channels_changed c
  unfolding channels_changed update_channel
  channels_changed-update_channel name f c = ground arith

  -- Our own JOIN of a name that a config entry can give: the channel is opened with us alone in it,
  -- the other channels stay, MODE is sent for it, the config names it, and a config change is
  -- published exactly when no entry named it before.
  pub on_join_self :
      (now : ℕ) (c : Client) (m : Message) (e : Effects)
      → 0 < param_count m
      → text_eq (g.nick m) (current_nick c) ≡ true
      → names_channel (param m 0) (param m 0) ≡ true
      → let r = on_join now c m e in
        ((k : Text)
          → lookup k r.0.channels ≡ (
              if text_eq (u.lower (param m 0)) k
              then some (add_nick (g.nick m) (new_channel (param m 0)))
              else lookup k c.channels))
        × (any_names (param m 0) r.0.config.channels ≡ true)
        × (r.1.sends ≡ e.sends ++ (text "MODE " ++ param m 0) ∷ [])
        × (r.1.changes ≡ (
            if any_names (param m 0) c.config.channels
            then e.changes
            else e.changes ++ channels_changed r.0 ∷ []))
  unfolding on_join
  on_join_self now c m e positive ours named =
      let reads : ltb (param_count m) 1 ≡ false = ground arith in
      let p = param m 0 in
      let f = add_nick (g.nick m) in
      let joined = join_self_lem m c e named in
      let c' = (join_self m c e).0 in
      rw (reads, ours)
        (
          (λ k. ground (
            arith,
            lookup-update_channel (u.lower p) f c' k,
            joined.0 k,
            joined.0 (u.lower p),
            text_eq_refl (u.lower p),
          )),
          rw (update_channel-config (u.lower p) f c') joined.1,
          joined.2,
          rw (channels_changed-update_channel (u.lower p) f c') joined.3,
        )
