-- ===== src/Events/Membership.antt =====
-- Who is in which channel, and under which modes, after a message.
use lierc.Base.{
  ℕ, false, ◌&&◌, List, [], ◌∷◌, Option, none, some, ◌≡◌, refl, ◌∙◌, arith, if◌then◌else◌, Text,
  Map, lookup, insert, delete, has, lookup-insert, lookup-delete, map_values, lookup-map_values,
  map_option, text_eq, text_eq_iff, ltb, Bool-cases, Option-cases, inl, inr, is_some, ◌<◌,
}
use lierc.Unicode.{Unicode}
use lierc.Irc.{Message, IrcGo}
use lierc.Channel.{Channel}
use lierc.Client.{Client}
use lierc.Events.{Effects, param, param_count, multi_message}
use lierc.Events.Handlers.{
  remove_nick, quit_channels, rename_nick, rename_channels, rename_all, on_quit, on_nick, save_nick,
}

abbrev pub modes_at : Text → Option Channel → Option Text
modes_at nick none = none
modes_at nick (some ch) = lookup nick ch.nicks

-- The modes of a nick in a channel; none if it is not there, or if we are not in the channel.
abbrev pub modes_in : Text → Text → Map Channel → Option Text
modes_in name nick channels = modes_at nick (lookup name channels)

-- The names of the channels that a nick is in.
abbrev pub channels_with : Text → Map Channel → List Text
channels_with nick [] = []
channels_with nick ((k, ch) ∷ rest) =
    if has nick ch.nicks then ch.name ∷ channels_with nick rest else channels_with nick rest

delete_absent {ℓ} : {V : Type ℓ} (k : Text) (m : Map V) → lookup k m ≡ none → delete k m ≡ m
unfolding lookup delete
delete_absent k [] h = refl
delete_absent k ((j, w) ∷ m) h = ground (arith, delete_absent k m)

remove_nick_absent :
    (nick : Text) (ch : Channel) → has nick ch.nicks ≡ false → remove_nick nick ch ≡ ch
unfolding remove_nick
remove_nick_absent nick ch h = ground (arith, delete_absent nick ch.nicks)

pub quit_channels_lem :
    (nick : Text) (channels : Map Channel)
    → quit_channels nick channels
      ≡ (map_values (remove_nick nick) channels, channels_with nick channels)
unfolding quit_channels map_values
quit_channels_lem nick [] = refl
quit_channels_lem nick ((k, ch) ∷ rest) = elim (Bool-cases (has nick ch.nicks)) [
  | inl e ↦ rw (e, quit_channels_lem nick rest)
  | inr e ↦ rw (e, quit_channels_lem nick rest) (ground (arith, remove_nick_absent nick ch))
]

-- Where `f` acts on one nick's channels, so do the lookups.
modes_in-map_values :
    (f : Channel → Channel) (name nick : Text) (channels : Map Channel)
    → modes_in name nick (map_values f channels)
      ≡ modes_at nick (map_option f (lookup name channels))
modes_in-map_values f name nick channels = rw (lookup-map_values f name channels)

modes_at-remove_nick :
    (nick j : Text) (o : Option Channel)
    → modes_at j (map_option (remove_nick nick) o) ≡ (if text_eq nick j then none else modes_at j o)
unfolding remove_nick
modes_at-remove_nick nick j none = ground arith
modes_at-remove_nick nick j (some ch) = lookup-delete nick j ch.nicks

-- A nick's modes after a rename: the new nick takes over the old one's, where it was.
abbrev pub renamed : Text → Text → Text → Option Text → Option Text → Option Text
renamed nick new_nick j old before =
    if text_eq nick j then none else if text_eq new_nick j && is_some old then old else before

modes_at-rename_nick :
    (nick new_nick j : Text) (o : Option Channel)
    → modes_at j (map_option (rename_nick nick new_nick) o)
      ≡ renamed nick new_nick j (modes_at nick o) (modes_at j o)
unfolding rename_nick
modes_at-rename_nick nick new_nick j none = ground arith
modes_at-rename_nick nick new_nick j (some ch) = elim (Option-cases (lookup nick ch.nicks)) [
  | inl e ↦ ground (arith, text_eq_iff nick j)
  | inr (modes, e) ↦ ground (
    arith,
    lookup-delete nick j (insert new_nick modes ch.nicks),
    lookup-insert new_nick j modes ch.nicks,
  )
]

rename_nick_absent :
    (nick new_nick : Text) (ch : Channel)
    → has nick ch.nicks ≡ false
    → rename_nick nick new_nick ch ≡ ch
unfolding rename_nick
rename_nick_absent nick new_nick ch h = ground arith

pub rename_channels_lem :
    (nick new_nick : Text) (channels : Map Channel)
    → rename_channels nick new_nick channels
      ≡ (map_values (rename_nick nick new_nick) channels, channels_with nick channels)
unfolding rename_channels map_values
rename_channels_lem nick new_nick [] = refl
rename_channels_lem nick new_nick ((k, ch) ∷ rest) = elim (Bool-cases (has nick ch.nicks)) [
  | inl e ↦ rw (e, rename_channels_lem nick new_nick rest)
  | inr e ↦
      rw (e, rename_channels_lem nick new_nick rest)
        (ground (arith, rename_nick_absent nick new_nick ch))
]

module _ ⦃u : Unicode⦄ ⦃g : IrcGo⦄ (now : ℕ) (c : Client) (m : Message) (e : Effects) where
  -- After QUIT the nick is in no channel, and everybody else has the modes they had in each channel.
  pub modes_in-on_quit :
      (name j : Text)
      → modes_in name j (on_quit now c m e).0.channels
        ≡ (if text_eq (g.nick m) j then none else modes_in name j c.channels)
  unfolding on_quit
  modes_in-on_quit name j = rw quit_channels_lem (
      modes_in-map_values (remove_nick (g.nick m)) name j c.channels
      ∙ modes_at-remove_nick (g.nick m) j (lookup name c.channels))

  save_nick-channels : (save_nick m c e).0.channels ≡ c.channels
  unfolding save_nick
  save_nick-channels = ground arith

  on_nick-channels :
      0 < param_count m
      → (on_nick now c m e).0.channels ≡ map_values (rename_nick (g.nick m) (param m 0)) c.channels
  unfolding on_nick rename_all
  on_nick-channels h =
      let reads : ltb (param_count m) 1 ≡ false = ground arith in
      rw (reads, rename_channels_lem, save_nick-channels)

  -- After a NICK that names a nick, the new nick has the old one's modes in each channel that the
  -- old one was in, the old nick is in no channel (even if it is the new one), and everybody else
  -- has the modes they had.
  pub modes_in-on_nick :
      (name j : Text)
      → 0 < param_count m
      → modes_in name j (on_nick now c m e).0.channels
        ≡ renamed
            (g.nick m)
            (param m 0)
            j
            (modes_in name (g.nick m) c.channels)
            (modes_in name j c.channels)
  modes_in-on_nick name j h = rw (on_nick-channels h) (
      modes_in-map_values (rename_nick (g.nick m) (param m 0)) name j c.channels
      ∙ modes_at-rename_nick (g.nick m) (param m 0) j (lookup name c.channels))

  -- The multi message of a QUIT lists the channels that the nick was in.
  pub multi-on_quit :
      (on_quit now c m e).1.multi
      ≡ some (multi_message now (on_quit now c m e).0 m (channels_with (g.nick m) c.channels))
  unfolding on_quit
  multi-on_quit = rw quit_channels_lem

  -- The multi message of a NICK that names a nick lists the channels that the old nick was in.
  pub multi-on_nick :
      0 < param_count m
      → (on_nick now c m e).1.multi
        ≡ some (multi_message now (on_nick now c m e).0 m (channels_with (g.nick m) c.channels))
  unfolding on_nick rename_all
  multi-on_nick h =
      let reads : ltb (param_count m) 1 ≡ false = ground arith in
      rw (reads, rename_channels_lem, save_nick-channels)
