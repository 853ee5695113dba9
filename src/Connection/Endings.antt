-- ===== src/Connection/Endings.antt =====
-- pkg/lierc/connection.go: endAttempt and Destroy.
use lierc.Base.{
  ℕ, ◌+◌, ◌-◌, Bool, true, false, not, ◌||◌, List, [], ◌∷◌, ◌++◌, Option, none, some, ◌==◌, leb,
  if◌then◌else◌, Text, text, is_nil, keep,
}
use lierc.Client.{Client}
use lierc.Connection.{
  stable_after, backoff, Ending, reporting, deciding, closing, Attempts, also, send_status,
  set_status, is_conn,
}

-- The message that endAttempt reports.
unfoldable pub end_reason : Client → Text → Text
end_reason c msg =
    if not (is_nil c.stopped) then c.stopped else if not (is_nil c.gave_up) then c.gave_up else msg

-- c.sender.CompareAndSwap(s, nil)
unfoldable pub swapped : ℕ → Option ℕ → Option ℕ
swapped n none = none
swapped n (some s) = if s == n then none else some s

-- What endAttempt does to the attempt that is current; connect has set attemptDone with conn.
unfoldable pub end_current : Option ℕ → Text → Attempts → Attempts
unfolding end_reason
end_current none msg a = a
end_current (some done) msg a = record a {
  client = record (a.client) { conn = none; socket = none; registered = false };
  cancel_dial = none;
  endings = a.endings ++ reporting a.client.socket done (end_reason a.client msg) ∷ [];
}

-- endAttempt, up to where it unlocks the client.
unfoldable pub end_attempt : ℕ → Text → Attempts → Attempts
unfolding swapped is_conn end_current
end_attempt n msg a =
    let a' = record a {
      client = record (a.client) { sender = swapped n a.client.sender };
      stopped_senders = a.stopped_senders ++ n ∷ [];
    } in
    if is_conn n a.client.conn then end_current a.client.attempt_done msg a' else a'

-- welcomedAt is set and lies stableAfter back.
unfoldable pub was_stable : ℕ → Option ℕ → Bool
was_stable now none = false
was_stable now (some welcomed) = leb stable_after (now - welcomed)

unfoldable pub next_retries : ℕ → Client → ℕ
unfolding was_stable
next_retries now c = if was_stable now c.welcomed_at then 1 else c.retries + 1

-- c.timer.Stop(): a timer whose time has come is not stopped.
unfoldable pub stop_timer : Option ℕ → List ℕ → List ℕ
stop_timer none timers = timers
stop_timer (some t) timers = keep (λ timer. not (timer == t)) timers

-- Destroy, up to where it unlocks.
unfoldable pub destroy : Attempts → Attempts
unfolding send_status stop_timer
destroy a = send_status (record a {
  client = record (a.client) { quitting = true; status_message = text "Closing connection" };
  timers = stop_timer a.timer a.timers;
  cancelled = also a.cancel_dial a.cancelled;
})

-- Destroy, where the attempt has not ended in time.
unfoldable pub destroy_timeout : Attempts → Attempts
destroy_timeout a = record a { closed_sockets = also a.client.socket a.closed_sockets }

-- The end of Destroy.
unfoldable pub destroy_end : Attempts → Attempts
destroy_end a = record a {
  client = record (a.client) { sender = none };
  stopped_senders = also a.client.sender a.stopped_senders;
}

-- time.Duration's String is a parameter.
module _ (duration : ℕ → Text) where
  -- endAttempt, from where it has published the status of the end, up to where it unlocks.
  unfoldable pub decide : ℕ → ℕ → Attempts → Attempts
  unfolding next_retries set_status backoff
  decide now done a =
      if a.client.quitting || not (is_nil a.client.stopped)
      then record a { endings = a.endings ++ closing done ∷ [] }
      else set_status false
          (text "Reconnecting in " ++ duration (backoff (next_retries now a.client)))
          (record a {
            client = record (a.client) { retries = next_retries now a.client };
            timer = some done;
            timers = a.timers ++ done ∷ [];
            endings = a.endings ++ closing done ∷ [];
          })

  -- What a call of endAttempt does next.
  unfoldable pub advance : ℕ → Ending → Attempts → Attempts
  unfolding set_status decide
  advance now (reporting sock done msg) a = set_status false msg (record a {
    closed_sockets = also sock a.closed_sockets;
    endings = a.endings ++ deciding done ∷ [];
  })
  advance now (deciding done) a = decide now done a
  advance now (closing done) a = record a { closed = a.closed ++ done ∷ [] }
