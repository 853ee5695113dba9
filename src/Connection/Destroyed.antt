-- ===== src/Connection/Destroyed.antt =====
-- A client whose Destroy has begun makes no attempt.
use lierc.Base.{
  ℕ, List, [], ◌∷◌, ◌++◌, Option, none, some, Bool, true, false, Text, ◌≡◌, refl, inl, inr,
  Bool-cases,
}
use lierc.Client.{Conn}
use lierc.Connection.{
  Attempts, Ending, reporting, deciding, closing, connect, on_connected, finish_setup, set_status,
  send_status, is_conn,
}
use lierc.Connection.Endings.{
  end_attempt, end_current, advance, decide, destroy, destroy_timeout, destroy_end, swapped,
}
use lierc.Events.Nick.{give_up, stop}
use lierc.Connection.Steps.{
  Op, expires, connects, connected, registers, ends, advances, welcomes, gives_up, stops, destroys,
  times_out, destroyed, take_out, expire, resume, advance_call, step, run, may_connect,
}

-- What holds from the moment that Destroy has begun: `begun` attempts had begun, and the client was
-- connected or not.
abbrev pub IsQuiet : ℕ → Bool → Attempts → Type 0
IsQuiet begun was a =
    (a.client.quitting ≡ true) × (a.begun ≡ begun) × (was ≡ false → a.client.connected ≡ false)

module _ (duration : ℕ → Text) (begun : ℕ) (was : Bool) where
  connect-IsQuiet :
      (conn : Conn) (a : Attempts) → IsQuiet begun was a → IsQuiet begun was (connect conn a)
  unfolding connect
  connect-IsQuiet conn a q = rw q.0 (refl, q.1, q.2)

  resume-IsQuiet :
      (conn : Conn) (next : Option (Option ℕ × List (Option ℕ))) (a : Attempts)
      → IsQuiet begun was a
      → IsQuiet begun was (resume conn next a)
  unfolding resume
  resume-IsQuiet conn none a q = q
  resume-IsQuiet conn (some (done, rest)) a q = elim (Bool-cases (may_connect done a.closed)) [
    | inl e ↦ rw e (connect-IsQuiet conn (record a { waiting = rest }) q)
    | inr e ↦ rw e q
  ]

  end_current-IsQuiet :
      (done : Option ℕ) (msg : Text) (a : Attempts)
      → IsQuiet begun was a
      → IsQuiet begun was (end_current done msg a)
  unfolding end_current
  end_current-IsQuiet none msg a q = q
  end_current-IsQuiet (some done) msg a q = q

  end_attempt-IsQuiet :
      (n : ℕ) (msg : Text) (a : Attempts)
      → IsQuiet begun was a
      → IsQuiet begun was (end_attempt n msg a)
  unfolding end_attempt
  end_attempt-IsQuiet n msg a q =
      let a' = record a {
        client = record (a.client) { sender = swapped n a.client.sender };
        stopped_senders = a.stopped_senders ++ n ∷ [];
      } in
      elim (Bool-cases (is_conn n a.client.conn)) [
        | inl e ↦ rw e (end_current-IsQuiet a.client.attempt_done msg a' q)
        | inr e ↦ rw e q
      ]

  on_connected-IsQuiet :
      (n sock : ℕ) (a : Attempts) → IsQuiet begun was a → IsQuiet begun was (on_connected n sock a)
  unfolding on_connected
  on_connected-IsQuiet n sock a q = elim (Bool-cases (is_conn n a.client.conn)) [
    | inl e ↦ rw e (rw q.0 (refl, q.1, q.2))
    | inr e ↦ rw e q
  ]

  finish_setup-IsQuiet :
      (n : ℕ) (a : Attempts) → IsQuiet begun was a → IsQuiet begun was (finish_setup n a)
  unfolding finish_setup
  finish_setup-IsQuiet n a q = elim (Bool-cases (is_conn n a.client.conn)) [
    | inl e ↦ rw e q
    | inr e ↦ rw e q
  ]

  advance-IsQuiet :
      (now : ℕ) (e : Ending) (a : Attempts)
      → IsQuiet begun was a
      → IsQuiet begun was (advance duration now e a)
  unfolding advance decide set_status send_status
  advance-IsQuiet now (reporting sock done msg) a q = (q.0, q.1, λ _. refl)
  advance-IsQuiet now (deciding done) a q = rw q.0 (refl, q.1, q.2)
  advance-IsQuiet now (closing done) a q = q

  advance_call-IsQuiet :
      (now : ℕ) (next : Option (Ending × List Ending)) (a : Attempts)
      → IsQuiet begun was a
      → IsQuiet begun was (advance_call duration now next a)
  unfolding advance_call
  advance_call-IsQuiet now none a q = q
  advance_call-IsQuiet now (some (e, rest)) a q =
      advance-IsQuiet now e (record a { endings = rest }) q

  expire-IsQuiet :
      (next : Option (ℕ × List ℕ)) (a : Attempts)
      → IsQuiet begun was a
      → IsQuiet begun was (expire next a)
  unfolding expire
  expire-IsQuiet none a q = q
  expire-IsQuiet (some (done, rest)) a q = q

  step-IsQuiet :
      (op : Op) (a : Attempts) → IsQuiet begun was a → IsQuiet begun was (step duration op a)
  unfolding step give_up stop destroy send_status destroy_timeout destroy_end
  step-IsQuiet (expires i) a q = expire-IsQuiet (take_out i a.timers) a q
  step-IsQuiet (connects i conn) a q = resume-IsQuiet conn (take_out i a.waiting) a q
  step-IsQuiet (connected n sock) a q = on_connected-IsQuiet n sock a q
  step-IsQuiet (registers n) a q = finish_setup-IsQuiet n a q
  step-IsQuiet (ends n msg) a q = end_attempt-IsQuiet n msg a q
  step-IsQuiet (advances i now) a q = advance_call-IsQuiet now (take_out i a.endings) a q
  step-IsQuiet (welcomes now) a q = q
  step-IsQuiet (gives_up reason) a q = q
  step-IsQuiet (stops first rest) a q = q
  step-IsQuiet destroys a q = (refl, q.1, q.2)
  step-IsQuiet times_out a q = q
  step-IsQuiet destroyed a q = q

  pub run-IsQuiet :
      (ops : List Op) (a : Attempts) → IsQuiet begun was a → IsQuiet begun was (run duration ops a)
  unfolding run
  run-IsQuiet [] a q = q
  run-IsQuiet (op ∷ ops) a q = run-IsQuiet ops (step duration op a) (step-IsQuiet op a q)

module _ (duration : ℕ → Text) where
  -- Once Destroy has begun, no history begins another attempt, the client keeps quitting, and one
  -- that was not connected never is.
  pub run-destroy :
      (ops : List Op) (a : Attempts)
      → let b = run duration ops (destroy a) in
        (b.begun ≡ a.begun)
        × (b.client.quitting ≡ true)
        × (a.client.connected ≡ false → b.client.connected ≡ false)
  unfolding destroy send_status
  run-destroy ops a =
      let q =
        run-IsQuiet duration a.begun a.client.connected ops (destroy a) (refl, refl, λ e. e) in
      (q.1, q.0, q.2)
