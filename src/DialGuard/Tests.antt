-- ===== src/DialGuard/Tests.antt =====
-- Runs and instances for pkg/lierc/dialguard.go.
use lierc.Base.{
  [], Option, none, some, Text, ◌⊎◌, not, ◌||◌, ◌+◌, ◌*◌, ◌^◌, true, false, ◌≡◌, refl, text,
}
use lierc.Unicode.Ascii.{ascii}
use lierc.Strconv.{pos}
use lierc.Config.{IrcConfig}
use lierc.DialGuard.Dial.{
  Network, exempt, dialer, is_told, open_after, IsDefaultNetwork, IsPublic, dialer-exempt,
}
use lierc.DialGuard.{
  Addr, v4, v6, blocked_ip, any_contains, blocked_prefixes, prefix_contains, unmap, without_zone,
  quad,
}

private_run : blocked_ip (v4 (quad 172 31 255 255)) ≡ true
unfolding blocked_ip any_contains blocked_prefixes prefix_contains unmap without_zone
private_run = refl

public_run : blocked_ip (v4 (quad 172 32 0 0)) ≡ false
unfolding blocked_ip any_contains blocked_prefixes prefix_contains unmap without_zone
public_run = refl

zone_run : blocked_ip (v6 (65152 * 2 ^ 112 + 1) (text "eth0")) ≡ true
unfolding blocked_ip any_contains blocked_prefixes prefix_contains unmap without_zone
zone_run = refl

abbrev default_network : IrcConfig
default_network = record {
  host = text "irc.test";
  port = pos 6667;
  ssl = true;
  nick = text "me";
  user = [];
  pass = [];
  sasl = false;
  alias = [];
  channels = [];
  highlight = [];
}

-- A private address that does not answer the handshake.
abbrev loopback : Network
loopback = record { resolved = text "127.0.0.1:6667"; reached = true; shakes = false }

abbrev parse : Text → Option Addr
parse address = some (v4 (quad 127 0 0 1))

abbrev split_host_port : Text → Option (Text × Text)
split_host_port addr = none

dialer-exempt_example :
    let steps =
      dialer parse split_host_port
        (exempt (text "irc.test") [] default_network)
        true
        loopback
        (text "irc.test:6667") in
    (steps ≡ [])
    ⊎ ((IsDefaultNetwork (text "irc.test") [] default_network
          ⊎ IsPublic parse split_host_port (text "127.0.0.1:6667"))
        × (is_told steps ≡ (not true || false))
        × (open_after false steps ≡ is_told steps))
dialer-exempt_example =
    dialer-exempt parse split_host_port (text "irc.test") [] default_network loopback
      (text "irc.test:6667")
