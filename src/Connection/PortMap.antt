-- ===== src/Connection/PortMap.antt =====
-- pkg/lierc/connection.go: PortMap, an entry of liercd's /portmap. The addresses of a socket and
-- net.SplitHostPort are parameters; the latter returns empty texts where it fails.
use lierc.Base.{ℕ, Option, none, some, Text, is_nil, if◌then◌else◌}
use lierc.Client.{Client}

pub record PortMapEntry : Type 0 where
  pub user : Text
  pub local : Text
  pub remote : Text
  pub remote_ip : Text

module _ (split_host_port : Text → Text × Text) (local_addr remote_addr : ℕ → Text) where
  unfoldable pub port_map : Client → Option PortMapEntry
  port_map c = elim c.socket [
    | none ↦ none
    | some sock ↦ some (record {
      user = if is_nil c.config.user then c.config.nick else c.config.user;
      local = (split_host_port (local_addr sock)).1;
      remote = (split_host_port (remote_addr sock)).1;
      remote_ip = (split_host_port (remote_addr sock)).0;
    })
  ]
