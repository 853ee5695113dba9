-- ===== src/Connection/Stopped.antt =====
-- A client that has a reason to stop makes no attempt after the current one.
use lierc.Base.{
  ℕ, ◌≤◌, List, [], ◌∷◌, ◌++◌, Option, none, some, false, Text, ◌≡◌, refl, ◌∙◌, ap, arith, inl, inr,
  length, Bool-cases, not, ◌||◌, is_nil,
}
use lierc.Connection.{
  Attempts, Ending, reporting, deciding, closing, on_connected, finish_setup, set_status,
  send_status, is_conn,
}
use lierc.Connection.Endings.{
  end_attempt, end_current, advance, decide, destroy, destroy_timeout, destroy_end, swapped,
  stop_timer,
}
use lierc.Events.Nick.{give_up, stop}
use lierc.Connection.Steps.{
  Op, expires, connects, connected, registers, ends, advances, welcomes, gives_up, stops, destroys,
  times_out, destroyed, take_out, expire, resume, advance_call, step, run,
}
use lierc.Connection.Phase.{alive, has_conn}

-- What holds once a stopped client has nothing planned.
abbrev pub IsSettled : ℕ → Attempts → Type 0
IsSettled begun a =
    (is_nil a.client.stopped ≡ false) × (a.begun ≡ begun) × (a.timers ≡ []) × (a.waiting ≡ [])

module _ (duration : ℕ → Text) (begun : ℕ) where
  end_current-IsSettled :
      (done : Option ℕ) (msg : Text) (a : Attempts)
      → IsSettled begun a
      → IsSettled begun (end_current done msg a)
  unfolding end_current
  end_current-IsSettled none msg a q = q
  end_current-IsSettled (some done) msg a q = q

  end_attempt-IsSettled :
      (n : ℕ) (msg : Text) (a : Attempts)
      → IsSettled begun a
      → IsSettled begun (end_attempt n msg a)
  unfolding end_attempt
  end_attempt-IsSettled n msg a q =
      let a' = record a {
        client = record (a.client) { sender = swapped n a.client.sender };
        stopped_senders = a.stopped_senders ++ n ∷ [];
      } in
      elim (Bool-cases (is_conn n a.client.conn)) [
        | inl e ↦ rw e (end_current-IsSettled a.client.attempt_done msg a' q)
        | inr e ↦ rw e q
      ]

  on_connected-IsSettled :
      (n sock : ℕ) (a : Attempts) → IsSettled begun a → IsSettled begun (on_connected n sock a)
  unfolding on_connected set_status send_status
  on_connected-IsSettled n sock a q =
      elim (Bool-cases (not (is_conn n a.client.conn) || a.client.quitting)) [
        | inl e ↦ rw e q
        | inr e ↦ rw e q
      ]

  finish_setup-IsSettled :
      (n : ℕ) (a : Attempts) → IsSettled begun a → IsSettled begun (finish_setup n a)
  unfolding finish_setup
  finish_setup-IsSettled n a q = elim (Bool-cases (is_conn n a.client.conn)) [
    | inl e ↦ rw e q
    | inr e ↦ rw e q
  ]

  advance-IsSettled :
      (now : ℕ) (e : Ending) (a : Attempts)
      → IsSettled begun a
      → IsSettled begun (advance duration now e a)
  unfolding advance decide set_status send_status
  advance-IsSettled now (reporting sock done msg) a q = q
  advance-IsSettled now (deciding done) a q = elim (Bool-cases a.client.quitting) [
    | inl e ↦ ground arith
    | inr e ↦ ground arith
  ]
  advance-IsSettled now (closing done) a q = q

  advance_call-IsSettled :
      (now : ℕ) (next : Option (Ending × List Ending)) (a : Attempts)
      → IsSettled begun a
      → IsSettled begun (advance_call duration now next a)
  unfolding advance_call
  advance_call-IsSettled now none a q = q
  advance_call-IsSettled now (some (e, rest)) a q =
      advance-IsSettled now e (record a { endings = rest }) q

  stop_timer-nil : (timer : Option ℕ) → stop_timer timer [] ≡ []
  unfolding stop_timer
  stop_timer-nil none = refl
  stop_timer-nil (some t) = refl

  step-IsSettled :
      (op : Op) (a : Attempts) → IsSettled begun a → IsSettled begun (step duration op a)
  unfolding step give_up stop destroy send_status destroy_timeout destroy_end take_out expire resume
  step-IsSettled (expires i) a q = rw q.2 (q.0, q.1, refl, q.3)
  step-IsSettled (connects i conn) a q = rw q.3 (q.0, q.1, q.2, refl)
  step-IsSettled (connected n sock) a q = on_connected-IsSettled n sock a q
  step-IsSettled (registers n) a q = finish_setup-IsSettled n a q
  step-IsSettled (ends n msg) a q = end_attempt-IsSettled n msg a q
  step-IsSettled (advances i now) a q = advance_call-IsSettled now (take_out i a.endings) a q
  step-IsSettled (welcomes now) a q = q
  step-IsSettled (gives_up reason) a q = q
  step-IsSettled (stops first rest) a q = (refl, q.1, q.2, q.3)
  step-IsSettled destroys a q =
      (q.0, q.1, ap (stop_timer a.timer) q.2 ∙ stop_timer-nil a.timer, q.3)
  step-IsSettled times_out a q = q
  step-IsSettled destroyed a q = q

  run-IsSettled :
      (ops : List Op) (a : Attempts) → IsSettled begun a → IsSettled begun (run duration ops a)
  unfolding run
  run-IsSettled [] a q = q
  run-IsSettled (op ∷ ops) a q = run-IsSettled ops (step duration op a) (step-IsSettled op a q)

no_more {ℓ} : {A : Type ℓ} (xs : List A) → length xs ≤ 0 → xs ≡ []
no_more xs h = ground arith

module _ (duration : ℕ → Text) where
  -- If the current connection is the one attempt of a client that has a reason to stop, no history
  -- begins another attempt.
  pub stays_stopped :
      (ops : List Op) (a : Attempts)
      → alive a ≤ 1
      → has_conn a.client.conn ≡ 1
      → is_nil a.client.stopped ≡ false
      → (run duration ops a).begun ≡ a.begun
  stays_stopped ops a single conn h =
      (run-IsSettled duration a.begun ops a
        (h, refl, no_more a.timers (omega arith), no_more a.waiting (omega arith))).1
