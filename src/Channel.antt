-- ===== src/Channel.antt =====
-- pkg/lierc/channel.go: a channel's topic, nicks and modes.
pub mod Modes
mod Tests
use lierc.Base.{
  ℕ, Bool, true, false, List, [], ◌∷◌, ◌++◌, Option, none, some, ◌==◌, if◌then◌else◌, Text, Map,
  lookup, insert, contains,
}
use lierc.Strconv.{ℤ, pos}

-- IRCTopic
pub record Topic : Type 0 where
  pub topic : Text
  pub user : Text
  pub time : ℤ

-- IRCChannel
pub record Channel : Type 0 where
  pub topic : Topic
  pub nicks : Map Text
  pub name : Text
  pub mode : Text
  pub synced : Bool

unfoldable pub mode_contains : Text → ℕ → Bool
unfolding contains
mode_contains modes mode = contains mode modes

unfoldable pub add_mode : Text → ℕ → Text
unfolding mode_contains
add_mode modes mode = if mode_contains modes mode then modes else modes ++ mode ∷ []

-- bytes.Replace(modes, {mode}, {}, 1)
unfoldable pub replace_first : ℕ → Text → Text
replace_first mode [] = []
replace_first mode (m ∷ ms) = if m == mode then ms else m ∷ replace_first mode ms

unfoldable pub remove_mode : Text → ℕ → Text
unfolding mode_contains replace_first
remove_mode modes mode = if mode_contains modes mode then replace_first mode modes else modes

-- The switch on action of SetMode and SetNickMode.
unfoldable pub apply_mode : ℕ → ℕ → Text → Text
apply_mode action mode modes =
    if action == b'+'
    then add_mode modes mode
    else if action == b'-'
    then remove_mode modes mode
    else modes

unfoldable pub set_mode : ℕ → ℕ → Channel → Channel
unfolding apply_mode
set_mode action mode c = record c { mode = apply_mode action mode c.mode }

unfoldable pub set_nick_mode : ℕ → ℕ → Text → Channel → Channel
unfolding apply_mode
set_nick_mode action mode nick c = elim (lookup nick c.nicks) [
  | none ↦ c
  | some modes ↦ record c { nicks = insert nick (apply_mode action mode modes) c.nicks }
]
