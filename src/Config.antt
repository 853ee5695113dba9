-- ===== src/Config.antt =====
-- pkg/lierc/config.go: a connection's configuration.
use lierc.Base.{Bool, List, ◌∷◌, ◌++◌, Text, is_nil, not, if◌then◌else◌}
use lierc.Strconv.{ℤ, itoa}

pub record IrcConfig : Type 0 where
  pub host : Text
  pub port : ℤ
  pub ssl : Bool
  pub nick : Text
  pub user : Text
  pub pass : Text
  pub sasl : Bool
  pub alias : Text
  pub channels : List Text
  pub highlight : List Text

unfoldable pub display : IrcConfig → Text
display c = if not (is_nil c.alias) then c.alias else c.host

unfoldable pub server : IrcConfig → Text
unfolding itoa
server c = c.host ++ b':' ∷ itoa c.port
