-- ===== src/Connection/Names.antt =====
-- What happens to a client's attempts never changes the client's id.
use lierc.Base.{
  ℕ, List, [], ◌∷◌, ◌++◌, Option, none, some, Text, ◌≡◌, refl, ◌∙◌, arith, inl, inr, Bool-cases,
}
use lierc.Client.{Conn}
use lierc.Connection.{
  Attempts, Ending, reporting, deciding, closing, connect, begin_attempt, on_connected,
  finish_setup, set_status, send_status, is_conn,
}
use lierc.Connection.Endings.{
  end_attempt, end_current, swapped, decide, advance, destroy, destroy_timeout, destroy_end,
}
use lierc.Events.Nick.{give_up, stop}
use lierc.Connection.Steps.{
  Op, expires, connects, connected, registers, ends, advances, welcomes, gives_up, stops, destroys,
  times_out, destroyed, take_out, expire, resume, advance_call, step, run,
}

expire-id : (next : Option (ℕ × List ℕ)) (a : Attempts) → (expire next a).client.id ≡ a.client.id
unfolding expire
expire-id none a = refl
expire-id (some (end, rest)) a = refl

resume-id :
    (conn : Conn) (next : Option (Option ℕ × List (Option ℕ))) (a : Attempts)
    → (resume conn next a).client.id ≡ a.client.id
unfolding resume connect begin_attempt
resume-id conn none a = refl
resume-id conn (some (end, rest)) a = ground arith

on_connected-id : (n sock : ℕ) (a : Attempts) → (on_connected n sock a).client.id ≡ a.client.id
unfolding on_connected set_status send_status
on_connected-id n sock a = ground arith

finish_setup-id : (n : ℕ) (a : Attempts) → (finish_setup n a).client.id ≡ a.client.id
unfolding finish_setup
finish_setup-id n a = ground arith

end_current-id :
    (done : Option ℕ) (msg : Text) (a : Attempts) → (end_current done msg a).client.id ≡ a.client.id
unfolding end_current
end_current-id none msg a = refl
end_current-id (some end) msg a = refl

end_attempt-id : (n : ℕ) (msg : Text) (a : Attempts) → (end_attempt n msg a).client.id ≡ a.client.id
unfolding end_attempt
end_attempt-id n msg a =
    let a' = record a {
      client = record (a.client) { sender = swapped n a.client.sender };
      stopped_senders = a.stopped_senders ++ n ∷ [];
    } in
    elim (Bool-cases (is_conn n a.client.conn)) [
      | inl e ↦ rw e (end_current-id a.client.attempt_done msg a')
      | inr e ↦ rw e
    ]

module _ (duration : ℕ → Text) where
  advance-id :
      (now : ℕ) (e : Ending) (a : Attempts) → (advance duration now e a).client.id ≡ a.client.id
  unfolding advance decide set_status send_status
  advance-id now (reporting sock done msg) a = refl
  advance-id now (deciding done) a = ground arith
  advance-id now (closing done) a = refl

  advance_call-id :
      (now : ℕ) (next : Option (Ending × List Ending)) (a : Attempts)
      → (advance_call duration now next a).client.id ≡ a.client.id
  unfolding advance_call
  advance_call-id now none a = refl
  advance_call-id now (some (e, rest)) a = advance-id now e (record a { endings = rest })

  step-id : (op : Op) (a : Attempts) → (step duration op a).client.id ≡ a.client.id
  unfolding step give_up stop destroy send_status destroy_timeout destroy_end
  step-id (expires i) a = expire-id (take_out i a.timers) a
  step-id (connects i conn) a = resume-id conn (take_out i a.waiting) a
  step-id (connected n sock) a = on_connected-id n sock a
  step-id (registers n) a = finish_setup-id n a
  step-id (ends n msg) a = end_attempt-id n msg a
  step-id (advances i now) a = advance_call-id now (take_out i a.endings) a
  step-id (welcomes now) a = refl
  step-id (gives_up reason) a = refl
  step-id (stops first rest) a = refl
  step-id destroys a = refl
  step-id times_out a = refl
  step-id destroyed a = refl

  pub run-id : (ops : List Op) (a : Attempts) → (run duration ops a).client.id ≡ a.client.id
  unfolding run
  run-id [] a = refl
  run-id (op ∷ ops) a = run-id ops (step duration op a) ∙ step-id op a
