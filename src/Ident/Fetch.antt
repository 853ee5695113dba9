-- ===== src/Ident/Fetch.antt =====
-- cmd/lierc-identd/main.go: where the portmaps are, and what identd makes of an answer. net, net/http
-- and encoding/json are parameters.
use lierc.Base.{
  ℕ, Bool, List, [], ◌∷◌, ◌++◌, Option, none, some, ◌==◌, if◌then◌else◌, Text, text, is_nil,
}
use lierc.Ident.{Fetched, ports, refused, broken}

-- What Get returns: a refused connection, another error, or a status and what the body is read as, if
-- it is a list of entries.
pub data Got : Type 0 where
  get_refused : Got
  get_failed : Got
  answered : ℕ → Option (List (List Text)) → Got

unfoldable pub decoded : Option (List (List Text)) → Fetched
decoded none = broken
decoded (some rows) = ports rows

-- fetchPortmap
unfoldable pub fetch_portmap : Got → Fetched
unfolding decoded
fetch_portmap get_refused = refused
fetch_portmap get_failed = broken
fetch_portmap (answered status body) = if status == 200 then decoded body else broken

-- `has_port` says whether net.SplitHostPort has no error, and `join_host_port` is net.JoinHostPort.
module _ (has_port : Text → Bool) (join_host_port : Text → Text → Text) where
  unfoldable pub portmap_url : Text → Text
  portmap_url host =
      text "http://"
      ++ ((if has_port host then host else join_host_port host (text "5005")) ++ text "/portmap")

  unfoldable pub portmap_urls : Text → Text → List Text
  unfolding portmap_url
  portmap_urls main_host next_host =
      portmap_url main_host ∷ (if is_nil next_host then [] else portmap_url next_host ∷ [])
