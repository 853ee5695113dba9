-- ===== src/Events/Invariant.antt =====
-- What every handler keeps true of the channels: each stands under its name in lower case, and no
-- nick of it has a mode twice.
use lierc.Base.{
  ℕ, Bool, true, false, List, [], ◌∷◌, ◌≡◌, refl, ◌∙◌, if◌then◌else◌, Text, Map, lookup, insert,
  distinct, Entries, lookup-Entries, insert-Entries, delete-Entries, Option-cases, inl, inr, ltb,
  split, ◌==◌,
}
use lierc.Irc.{Message}
use lierc.Channel.{Channel, apply_mode, set_nick_mode, set_mode}
use lierc.Channel.Modes.{distinct-apply_mode}
use lierc.Client.{Client, nick_prefix_mode, is_nick_mode}
use lierc.Events.{param, param_count}
use lierc.Events.Names.{
  add_name, add_names, receive_names, reopen, mode_letter, mode_letters, apply_modes, read_modes,
}
use lierc.Events.Handlers.{remove_nick, add_nick, rename_nick}

-- No nick has a mode twice.
abbrev pub ModesDistinct : Map Text → Type 0
ModesDistinct nicks = Entries (λ nick modes. distinct modes ≡ true) nicks

-- The same name, and still no mode twice.
abbrev pub Keeps : (Channel → Channel) → Type 0
Keeps f =
    (ch : Channel) → ModesDistinct ch.nicks → ((f ch).name ≡ ch.name) × ModesDistinct (f ch).nicks

abbrev P : Text → Text → Type 0
P nick modes = distinct modes ≡ true

add_name-ModesDistinct :
    (c : Client) (w : Text) (nicks : Map Text)
    → ModesDistinct nicks
    → ModesDistinct (add_name c w nicks)
unfolding add_name distinct
add_name-ModesDistinct c [] nicks h = h
add_name-ModesDistinct c (b ∷ rest) nicks h = elim (Option-cases (nick_prefix_mode b c)) [
  | inl e ↦ rw (e, add_name) (insert-Entries P (b ∷ rest) [] nicks refl h)
  | inr (mode, e) ↦ rw (e, add_name) (insert-Entries P rest (mode ∷ []) nicks refl h)
]

add_names-ModesDistinct :
    (c : Client) (ws : List Text) (nicks : Map Text)
    → ModesDistinct nicks
    → ModesDistinct (add_names c ws nicks)
unfolding add_names
add_names-ModesDistinct c [] nicks h = h
add_names-ModesDistinct c (w ∷ ws) nicks h =
    add_names-ModesDistinct c ws (add_name c w nicks) (add_name-ModesDistinct c w nicks h)

Keeps-if :
    (b : Bool) (f g : Channel → Channel)
    → Keeps f
    → Keeps g
    → Keeps (λ ch. if b then f ch else g ch)
Keeps-if true f g hf hg = hf
Keeps-if false f g hf hg = hg

pub Keeps-id : Keeps (λ ch. ch)
Keeps-id ch h = (refl, h)

reopen-Keeps : Keeps reopen
reopen-Keeps ch h =
    Keeps-if ch.synced (λ ch. record ch { synced = false; nicks = [] }) (λ ch. ch)
      (λ ch h. (refl, tt)) Keeps-id ch h

pub receive_names-Keeps : (c : Client) (words : Text) → Keeps (receive_names c words)
unfolding receive_names
receive_names-Keeps c words ch h =
    let opened = reopen-Keeps ch h in
    (opened.0, add_names-ModesDistinct c (split b' ' words) (reopen ch).nicks opened.1)

set_nick_mode-Keeps : (action mode : ℕ) (nick : Text) → Keeps (set_nick_mode action mode nick)
unfolding set_nick_mode
set_nick_mode-Keeps action mode nick ch h = elim (Option-cases (lookup nick ch.nicks)) [
  | inl e ↦ rw (e, set_nick_mode) (refl, h)
  | inr (modes, e) ↦
      rw (e, set_nick_mode)
        (
          refl,
          insert-Entries P nick (apply_mode action mode modes) ch.nicks
              (distinct-apply_mode action mode modes (lookup-Entries P nick modes ch.nicks h e)) h,
        )
]

mode_letter-Keeps :
    (c : Client) (m : Message) (action mode : ℕ) → Keeps (mode_letter c m action mode)
unfolding mode_letter set_mode
mode_letter-Keeps c m action mode =
    Keeps-if (is_nick_mode mode c) _ _
      (Keeps-if (ltb 2 (param_count m)) _ (λ ch. ch) (set_nick_mode-Keeps action mode (param m 2))
        Keeps-id)
      (Keeps-if (param_count m == 2) (set_mode action mode) (λ ch. ch) (λ ch h. (refl, h)) Keeps-id)

mode_letters-Keeps :
    (c : Client) (m : Message) (action : ℕ) (modes : Text) → Keeps (mode_letters c m action modes)
unfolding mode_letters
mode_letters-Keeps c m action [] ch h = (refl, h)
mode_letters-Keeps c m action (mode ∷ modes) ch h =
    let first = mode_letter-Keeps c m action mode ch h in
    let rest = mode_letters-Keeps c m action modes (mode_letter c m action mode ch) first.1 in
    (rest.0 ∙ first.0, rest.1)

pub apply_modes-Keeps : (c : Client) (m : Message) (modes : Text) → Keeps (apply_modes c m modes)
unfolding apply_modes
apply_modes-Keeps c m [] ch h = (refl, h)
apply_modes-Keeps c m (action ∷ modes) ch h = mode_letters-Keeps c m action modes ch h

pub read_modes-Keeps : (modes : Text) → Keeps (read_modes modes)
unfolding read_modes
read_modes-Keeps [] ch h = (refl, h)
read_modes-Keeps (sign ∷ modes) ch h = (refl, h)

pub remove_nick-Keeps : (nick : Text) → Keeps (remove_nick nick)
unfolding remove_nick
remove_nick-Keeps nick ch h = (refl, delete-Entries P nick ch.nicks h)

pub add_nick-Keeps : (nick : Text) → Keeps (add_nick nick)
unfolding add_nick distinct
add_nick-Keeps nick ch h = (refl, insert-Entries P nick [] ch.nicks refl h)

pub rename_nick-Keeps : (nick new_nick : Text) → Keeps (rename_nick nick new_nick)
unfolding rename_nick
rename_nick-Keeps nick new_nick ch h = elim (Option-cases (lookup nick ch.nicks)) [
  | inl e ↦ rw (e, rename_nick) (refl, h)
  | inr (modes, e) ↦
      rw (e, rename_nick)
        (
          refl,
          delete-Entries P nick (insert new_nick modes ch.nicks) (
              insert-Entries P new_nick modes ch.nicks (lookup-Entries P nick modes ch.nicks h e)
                h),
        )
]
