-- ===== src/Connection/Steps.antt =====
-- pkg/lierc/connection.go, as steps: the goroutines of a client and the handlers that change what its
-- attempts read, in any order.
use lierc.Base.{
  ℕ, zero, suc, List, [], ◌∷◌, ◌++◌, Option, none, some, Bool, true, Text, contains, if◌then◌else◌,
}
use lierc.Client.{Conn}
use lierc.Events.{no_effects}
use lierc.Events.Nick.{give_up, stop}
use lierc.Connection.{Attempts, Ending, also, connect, on_connected, finish_setup}
use lierc.Connection.Endings.{end_attempt, advance, destroy, destroy_timeout, destroy_end}

-- What can happen next. Lists are indexed: any goroutine may be the one that runs. The numbers of
-- connects are the goroutine's, and of connected the attempt's and the socket's; a reason to stop is
-- never empty.
pub data Op : Type 0 where
  expires : ℕ → Op
  connects : ℕ → Conn → Op
  connected : ℕ → ℕ → Op
  registers : ℕ → Op
  ends : ℕ → Text → Op
  advances : ℕ → ℕ → Op
  welcomes : ℕ → Op
  gives_up : Text → Op
  stops : ℕ → Text → Op
  destroys : Op
  times_out : Op
  destroyed : Op

unfoldable pub take_out {ℓ} : {A : Type ℓ} → ℕ → List A → Option (A × List A)
take_out i [] = none
take_out zero (x ∷ xs) = some (x, xs)
take_out (suc i) (x ∷ xs) = elim (take_out i xs) [ none ↦ none | some (y, ys) ↦ some (y, x ∷ ys) ]

-- Whether a goroutine may go on: Start's, or one whose attempt has ended.
unfoldable pub may_connect : Option ℕ → List ℕ → Bool
may_connect none closed = true
may_connect (some done) closed = contains done closed

unfoldable pub expire : Option (ℕ × List ℕ) → Attempts → Attempts
expire none a = a
expire (some (done, rest)) a = record a { timers = rest; waiting = a.waiting ++ some done ∷ [] }

unfoldable pub resume : Conn → Option (Option ℕ × List (Option ℕ)) → Attempts → Attempts
unfolding may_connect
resume conn none a = a
resume conn (some (done, rest)) a =
    if may_connect done a.closed then connect conn (record a { waiting = rest }) else a

module _ (duration : ℕ → Text) where
  unfoldable pub advance_call : ℕ → Option (Ending × List Ending) → Attempts → Attempts
  advance_call now none a = a
  advance_call now (some (e, rest)) a = advance duration now e (record a { endings = rest })

  unfoldable pub step : Op → Attempts → Attempts
  unfolding give_up stop
  step (expires i) a = expire (take_out i a.timers) a
  step (connects i conn) a = resume conn (take_out i a.waiting) a
  step (connected n sock) a = on_connected n sock a
  step (registers n) a = finish_setup n a
  step (ends n msg) a = end_attempt n msg a
  step (advances i now) a = advance_call now (take_out i a.endings) a
  step (welcomes now) a = record a { client = record (a.client) { welcomed_at = some now } }
  step (gives_up reason) a = record a {
    client = (give_up reason a.client no_effects).0;
    closed_sockets = also a.client.socket a.closed_sockets;
  }
  step (stops first rest) a = record a {
    client = (stop (first ∷ rest) a.client no_effects).0;
    closed_sockets = also a.client.socket a.closed_sockets;
  }
  step destroys a = destroy a
  step times_out a = destroy_timeout a
  step destroyed a = destroy_end a

  unfoldable pub run : List Op → Attempts → Attempts
  run [] a = a
  run (op ∷ ops) a = run ops (step op a)
