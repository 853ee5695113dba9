-- ===== src/Connection/Tests.antt =====
-- Runs and instances for pkg/lierc/connection.go.
use lierc.Base.{
  contains, List, ◌++◌, ℕ, [], ◌∷◌, none, some, true, false, Text, text, ◌≡◌, ◌+◌, refl, arith,
}
use lierc.Strconv.{pos}
use lierc.Config.{IrcConfig}
use lierc.Client.{Conn, join_lines}
use lierc.Events.Nick.{stop}
use lierc.Connection.{
  Attempts, start, new_irc_client, status, connect, begin_attempt, on_connected, is_conn,
  set_status, send_status, finish_setup,
}
use lierc.Connection.Endings.{advance, destroy, end_attempt, end_current, next_retries}
use lierc.Connection.Steps.{
  expire, advance_call, Op, expires, connects, connected, registers, ends, advances, stops, run,
  step, resume, take_out, may_connect,
}
use lierc.Connection.Single.{IsSingle, alive-run-start}
use lierc.Connection.Destroyed.{run-destroy}
use lierc.Connection.Stopped.{stays_stopped}
use lierc.Connection.Retry.{goes_on_again}
use lierc.Connection.Tracked
use lierc.Connection.Tracked.{TrackedConn, read_q_limit, line_length, run-pending}
use lierc.Connection.Messages.{disconnect_end, connect_end, options, disconnect_end_too_long}

abbrev config : IrcConfig
config = record {
  host = text "irc.test";
  port = pos 6667;
  ssl = false;
  nick = text "me";
  user = text "u";
  pass = [];
  sasl = false;
  alias = [];
  channels = text "#lobby" ∷ [];
  highlight = [];
}

abbrev conn : Conn
conn = record { serial = 0; current_nick = text "me"; isupport = []; acked_caps = [] }

abbrev seconds : ℕ → Text
seconds d = text "15s"

-- A first attempt that has registered.
abbrev up : Attempts
unfolding run step take_out resume may_connect connect begin_attempt start new_irc_client status
    on_connected is_conn set_status send_status finish_setup join_lines
up =
    run seconds (connects 0 conn ∷ connected 0 7 ∷ registers 0 ∷ [])
      (start config (text "1") (text "h"))

abbrev up_stopped : Attempts
up_stopped = step seconds (stops b'n' (text "ope")) up

opening_run : up.sends ≡ text "JOIN #lobby" ∷ []
unfolding run step take_out resume may_connect connect begin_attempt start new_irc_client status
    on_connected is_conn set_status send_status finish_setup join_lines
opening_run = refl

-- The timer's function starts before attemptDone is closed, and comes to connect only behind it.
abbrev ending_late : List Op
ending_late =
    connects 0 conn ∷ ends 0 [] ∷ advances 0 5 ∷ advances 0 6 ∷ expires 0 ∷ connects 0 conn ∷ []

late_run : (run seconds ending_late (start config [] [])).begun ≡ 1
unfolding run step take_out resume may_connect connect begin_attempt start new_irc_client status
    end_attempt end_current is_conn contains expire advance_call advance
late_run = refl

alive-run-start_example : IsSingle (run seconds ending_late (start config [] []))
alive-run-start_example = alive-run-start seconds ending_late config [] []

run-destroy_example :
    let b = run seconds (ends 0 [] ∷ []) (destroy up) in
    (b.begun ≡ up.begun)
    × (b.client.quitting ≡ true)
    × (up.client.connected ≡ false → b.client.connected ≡ false)
run-destroy_example = run-destroy seconds (ends 0 [] ∷ []) up

stays_stopped_example :
    (run seconds (ends 0 [] ∷ advances 0 5 ∷ advances 0 6 ∷ []) up_stopped).begun ≡ up_stopped.begun
unfolding run step take_out resume may_connect connect begin_attempt start new_irc_client status
    on_connected is_conn set_status send_status finish_setup join_lines stop
stays_stopped_example =
    stays_stopped seconds (ends 0 [] ∷ advances 0 5 ∷ advances 0 6 ∷ []) up_stopped (omega arith)
      refl refl

goes_on_again_example :
    let b =
      run seconds
        (ends 0 [] ∷ advances 0 5 ∷ advances 0 6 ∷ expires 0 ∷ advances 0 6 ∷ connects 0 conn ∷ [])
        up in
    (b.begun ≡ up.begun + 1)
    × (b.client.conn ≡ some (record conn { serial = up.begun }))
    × (b.client.retries ≡ next_retries 6 up.client)
unfolding run step take_out resume may_connect connect begin_attempt start new_irc_client status
    on_connected is_conn set_status send_status finish_setup join_lines
goes_on_again_example = goes_on_again seconds up 0 0 5 6 [] conn (omega arith) refl refl refl refl

abbrev quiet_socket : TrackedConn
quiet_socket = record { first = none; pending = 0 }

run-pending_example :
    (Tracked.run
      (text "q")
      (Tracked.reads (text "PING\nPO") none ∷ Tracked.reads (text "NG") none ∷ [])
      quiet_socket).pending
    ≡ 4
run-pending_example =
    run-pending (text "q")
      (Tracked.reads (text "PING\nPO") none ∷ Tracked.reads (text "NG") none ∷ []) quiet_socket

disconnect_end_too_long_example :
    let ended =
      Tracked.run
        (text "q")
        (Tracked.reads (text "NG") none ∷ Tracked.reads (text "\n") none ∷ [])
        (record quiet_socket { pending = 8703 }) in
    (disconnect_end ended ≡ (text "q", text "disconnected: " ++ text "q"))
    × (connect_end (text "gone") true (some ended)
        ≡ (text "q", text "connection failed: " ++ text "q"))
    × (connect_end (text "gone") false (some ended)
        ≡ (text "gone", text "connection failed: " ++ text "gone"))
disconnect_end_too_long_example =
    disconnect_end_too_long (text "q") (text "NG") (text "gone") none
      (Tracked.reads (text "\n") none ∷ []) (record quiet_socket { pending = 8703 }) refl
      (omega arith)

-- A client without a user logs in by its nick.
user_run : (options [] false (record config { user = [] })).user ≡ text "me"
unfolding options
user_run = refl
