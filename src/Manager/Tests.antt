-- ===== src/Manager/Tests.antt =====
-- Runs and instances for pkg/liercd/manager.go.
use lierc.Base.{
  Bool, true, false, Option, sym, ap, List, [], ◌∷◌, none, some, Text, text, ◌≡◌, refl, text_eq,
  cut,
}
use mathlib.Core.Path.{subst}
use lierc.Unicode.Ascii.{ascii}
use lierc.Irc.Fixture.{fixture}
use lierc.Strconv.{pos}
use lierc.Config.{IrcConfig}
use lierc.Connection.{start}
use lierc.Connection.PortMap.{port_map}
use lierc.Ident.{first_user, entry_user, lookup}
use lierc.Manager.{Outside, Object, Manager, new_client_manager}
use lierc.Manager.Requests.{id_and_action, raw_object, portmap_rows, object_row, entry_row}
use lierc.Manager.Raw.{RawOutcome, raw_object-RawOutcome}
use lierc.Manager.Identd.{Instance, running, Outcome, fetch, lookup-get}
use lierc.Manager.Registry.Spec.{InvOf, listed}
use lierc.Manager.Registry.Refines.{Arrival, serve, spec_serve, AllAgree, serve-new_refines}

instance abbrev pub outside : Outside
unfolding cut
outside = record {
  split_host_port = λ t. elim (cut b':' t) [ none ↦ ([], []) | some p ↦ p ];
  local_addr = λ s. text "10.0.0.1:50000";
  remote_addr = λ s. text "10.0.0.2:6667";
  json_portmap = λ rows. text "[]";
  json_data = λ d. d.nick;
  duration = λ d. text "15s";
  hostname = text "h";
}

abbrev pub config : IrcConfig
config = record {
  host = text "irc.test";
  port = pos 6667;
  ssl = false;
  nick = text "me";
  user = text "u";
  pass = [];
  sasl = false;
  alias = [];
  channels = [];
  highlight = [];
}

-- A client that has not registered, and the manager that has it alone.
abbrev fresh : Object
unfolding start
fresh = record { attempts = start config (text "a") (text "h"); sender = none; destroyed = false }

abbrev one : Manager
one = record { clients = (text "a", 0) ∷ []; objects = fresh ∷ []; queue = [] }

abbrev request : Text → Arrival
request path = record {
  now = 0;
  during = [];
  request = record { path = path; body = some []; config = some config };
}

-- A client is made, made again, destroyed, and asked for.
abbrev arrivals : List Arrival
arrivals =
    request (text "/a/create")
    ∷ request (text "/a/create")
    ∷ request (text "/a/destroy")
    ∷ request (text "/a/status")
    ∷ []

spec_run : (spec_serve arrivals (λ id. false)).1 ≡ some 200 ∷ some 400 ∷ some 200 ∷ some 404 ∷ []
unfolding cut text_eq id_and_action
spec_run = refl

serve-new_refines_example :
    let r = serve arrivals new_client_manager in
    let s = spec_serve arrivals (λ id. false) in InvOf r.0 × (listed r.0 ≡ s.0) × AllAgree s.1 r.1
serve-new_refines_example = serve-new_refines arrivals

-- A line for a client that has not registered is refused.
refused_run : (raw_object 0 0 (some (text "JOIN #a\r\n")) fresh one).1.code ≡ 409
unfolding raw_object start
refused_run = refl

raw_object-RawOutcome_example :
    RawOutcome 0 0
      (some (text "JOIN #a\r\n"))
      fresh
      one
      (raw_object 0 0 (some (text "JOIN #a\r\n")) fresh one)
raw_object-RawOutcome_example = raw_object-RawOutcome 0 0 (some (text "JOIN #a\r\n")) fresh one refl

abbrev any_ip : Text → Bool
any_ip ip = true

-- The client, connected by socket 0.
abbrev connected : Object
unfolding start
connected = record fresh {
  attempts = record (fresh.attempts) {
    client = record (fresh.attempts.client) { socket = some 0 };
  };
}

owner_run :
    first_user any_ip (text "50000") (text "6667") (portmap_rows (connected ∷ []) one.clients)
    ≡ some (text "u")
unfolding portmap_rows object_row entry_row port_map cut text_eq start first_user entry_user
owner_run = refl

abbrev one_row : List (List Text)
one_row = (text "u" ∷ text "50000" ∷ text "6667" ∷ text "10.0.0.2" ∷ []) ∷ []

abbrev main_liercd : Manager
main_liercd = record one { objects = connected ∷ [] }

abbrev instance_at : Text → Instance
instance_at url = running main_liercd

abbrev decode : Text → Option (List (List Text))
decode body = some one_row

rows_run : portmap_rows main_liercd.objects main_liercd.clients ≡ one_row
unfolding portmap_rows object_row entry_row port_map cut start
rows_run = refl

lookup-get_example :
    Outcome decode any_ip
      (text "50000")
      (text "6667")
      0
      instance_at
      (text "main" ∷ [])
      (lookup
        (fetch decode any_ip (text "50000") (text "6667") 0 instance_at)
        any_ip
        (text "50000")
        (text "6667")
        false
        []
        (text "main" ∷ [])).0
lookup-get_example =
    lookup-get decode any_ip (text "50000") (text "6667") 0 instance_at (text "main" ∷ []) []
      (λ url m e.
        let same : main_liercd ≡ m = cc e in
        subst
          (λ (k : Manager).
            decode (outside.json_portmap (portmap_rows k.objects k.clients))
            ≡ some (portmap_rows k.objects k.clients))
          same (ap some (sym rows_run)))
