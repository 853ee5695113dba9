-- ===== src/Connection/Retry.antt =====
-- A client that lost its connection connects again.
use lierc.Base.{
  ℕ, ◌+◌, ◌≤◌, List, [], ◌∷◌, ◌++◌, some, true, false, Text, text, ◌≡◌, ◌∙◌, ap, arith, length,
  is_nil, contains,
}
use lierc.Client.{Conn}
use lierc.Connection.{
  Attempts, closing, connect, set_status, send_status, is_conn, backoff, begin_attempt,
}
use lierc.Connection.Endings.{end_attempt, end_current, advance, decide, swapped, next_retries}
use lierc.Connection.Steps.{
  Op, expires, connects, ends, advances, take_out, expire, resume, advance_call, step, run,
  may_connect,
}
use lierc.Connection.Phase.{alive, has_conn, is_conn-has_conn}

contains-last : (x : ℕ) (xs : List ℕ) → contains x (xs ++ x ∷ []) ≡ true
unfolding contains
contains-last x [] = ground arith
contains-last x (y ∷ ys) = ground (arith, contains-last x ys)

-- The states on the way: the attempt ended, the next one planned, the next one begun.
abbrev ending : ℕ → ℕ → Text → Attempts → Attempts
ending n done msg a = end_current (some done) msg (record a {
  client = record (a.client) { sender = swapped n a.client.sender };
  stopped_senders = a.stopped_senders ++ n ∷ [];
})

abbrev plan : (ℕ → Text) → ℕ → ℕ → Attempts → Attempts
plan duration now done a =
    set_status false (text "Reconnecting in " ++ duration (backoff (next_retries now a.client)))
      (record a {
        client = record (a.client) { retries = next_retries now a.client };
        timer = some done;
        timers = a.timers ++ done ∷ [];
        endings = a.endings ++ closing done ∷ [];
      })

abbrev fresh : Conn → Attempts → Attempts
fresh conn a = record a {
  client = begin_attempt a.begun conn a.client;
  begun = a.begun + 1;
  cancel_dial = some a.begun;
}

end_attempt_lem :
    (n done : ℕ) (msg : Text) (a : Attempts)
    → is_conn n a.client.conn ≡ true
    → a.client.attempt_done ≡ some done
    → end_attempt n msg a ≡ ending n done msg a
unfolding end_attempt
end_attempt_lem n done msg a h d = simp (h, d)

decide_lem :
    (duration : ℕ → Text) (now done : ℕ) (a : Attempts)
    → a.client.quitting ≡ false
    → is_nil a.client.stopped ≡ true
    → decide duration now done a ≡ plan duration now done a
unfolding decide
decide_lem duration now done a nq ns = simp (nq, ns)

resume_lem :
    (done : ℕ) (conn : Conn) (a : Attempts)
    → contains done a.closed ≡ true
    → a.client.quitting ≡ false
    → resume conn (some (some done, [])) a ≡ fresh conn (record a { waiting = [] })
unfolding resume connect may_connect
resume_lem done conn a h nq = simp (h, nq)

no_more {ℓ} : {A : Type ℓ} (xs : List A) → length xs ≤ 0 → xs ≡ []
no_more xs h = ground arith

module _ (duration : ℕ → Text) where
  abbrev retried : ℕ → Text → ℕ → ℕ → Conn → List Op
  retried n msg t t' conn =
      ends n msg ∷ advances 0 t ∷ advances 0 t' ∷ expires 0 ∷ advances 0 t' ∷ connects 0 conn ∷ []

  abbrev Reconnects : Attempts → ℕ → Conn → Attempts → Type 0
  Reconnects a now conn b =
      (b.begun ≡ a.begun + 1)
      × (b.client.conn ≡ some (record conn { serial = a.begun }))
      × (b.client.retries ≡ next_retries now a.client)

  -- The one attempt, with nothing else planned.
  abbrev only : Attempts → Attempts
  only a = record a { endings = []; timers = []; waiting = [] }

  only-Reconnects :
      (a : Attempts) (n done t t' : ℕ) (msg : Text) (conn : Conn)
      → is_conn n a.client.conn ≡ true
      → a.client.attempt_done ≡ some done
      → a.client.quitting ≡ false
      → is_nil a.client.stopped ≡ true
      → Reconnects a t' conn (run duration (retried n msg t t' conn) (only a))
  unfolding run step end_current advance_call take_out advance set_status send_status expire connect
      begin_attempt
  only-Reconnects a n done t t' msg conn h d nq ns =
      let ended = ending n done msg (only a) in
      let reported = step duration (advances 0 t) ended in
      let planned = plan duration t' done (record reported { endings = [] }) in
      let expired = step duration (expires 0) planned in
      let e1 : end_attempt n msg (only a) ≡ ended = end_attempt_lem n done msg (only a) h d in
      let e2 : step duration (advances 0 t') reported ≡ planned =
        decide_lem duration t' done (record reported { endings = [] }) nq ns in
      let closed = step duration (advances 0 t') expired in
      let e3 : step duration (connects 0 conn) closed
          ≡ fresh conn (record closed { waiting = [] }) =
        resume_lem done conn closed (contains-last done a.closed) nq in
      let e =
        ap
          (run duration
            (advances 0 t ∷ advances 0 t' ∷ expires 0 ∷ advances 0 t' ∷ connects 0 conn ∷ []))
          e1
        ∙ ap (run duration (expires 0 ∷ advances 0 t' ∷ connects 0 conn ∷ [])) e2
        ∙ e3 in
      (ap (λ b. b.begun) e, ap (λ b. b.client.conn) e, ap (λ b. b.client.retries) e)

  only_lem : (a : Attempts) → alive a ≤ 1 → has_conn a.client.conn ≡ 1 → a ≡ only a
  only_lem a single conn =
      ap (λ xs. record a { endings = xs }) (no_more a.endings (omega arith))
      ∙ ap (λ xs. record a { endings = []; timers = xs }) (no_more a.timers (omega arith))
      ∙ ap (λ xs. record a { endings = []; timers = []; waiting = xs })
          (no_more a.waiting (omega arith))

  -- If the current connection is the one attempt of a client that neither quits nor has a reason to
  -- stop, then the end of the connection, the three parts of endAttempt behind it, the timer and its
  -- function begin the next attempt, with a new connection and the retries counted.
  pub goes_on_again :
      (a : Attempts) (n done t t' : ℕ) (msg : Text) (conn : Conn)
      → alive a ≤ 1
      → is_conn n a.client.conn ≡ true
      → a.client.attempt_done ≡ some done
      → a.client.quitting ≡ false
      → is_nil a.client.stopped ≡ true
      → Reconnects a t' conn (run duration (retried n msg t t' conn) a)
  goes_on_again a n done t t' msg conn single h d nq ns =
      let e =
        ap (run duration (retried n msg t t' conn))
          (only_lem a single (is_conn-has_conn n a.client.conn h)) in
      let r = only-Reconnects a n done t t' msg conn h d nq ns in
      (
        ap (λ b. b.begun) e ∙ r.0,
        ap (λ b. b.client.conn) e ∙ r.1,
        ap (λ b. b.client.retries) e ∙ r.2,
      )
