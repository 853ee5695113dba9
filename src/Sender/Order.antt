-- ===== src/Sender/Order.antt =====
-- Lines leave in the order in which they were queued, each once; and each dropped line is counted.
use lierc.Base.{
  ℕ, ◌+◌, ◌≤◌, Bool, true, false, not, ◌&&◌, List, [], ◌∷◌, ◌++◌, Option, none, some, ◌≡◌, refl,
  sym, ◌∙◌, ap, arith, if◌then◌else◌, Text, length, length-append, append_assoc, ltb, Bool-cases,
  inl, inr,
}
use lierc.Sender.{
  Sender, Log, queue_full, dropped_lines, send_failed, send_queue_size, new_sender, send, offer,
  take, take_first, pass, send_line, lose_line, stop,
}

-- What the program and the goroutine do, in any order.
pub data Op : Type 0 where
  sends : Text → Op
  -- A Send that had tested the context before, also before a stop.
  offers : Text → Op
  takes : Bool → Op
  passes : Bool → Bool → Bool → Op
  stops : Op

-- A history: the sender, the lines that Send has answered true for, and how many it has answered
-- false for because the queue was full.
pub record History : Type 0 where
  pub sender : Sender
  pub taken : List Text
  pub refused : ℕ

-- Send's answer, in the history.
note_send : Text → Bool → Sender × Bool → History → History
note_send line stopped (s, true) h = record h { sender = s; taken = h.taken ++ line ∷ [] }
note_send line stopped (s, false) h = record h {
  sender = s;
  refused = if stopped then h.refused else h.refused + 1;
}

unfoldable pub step : Op → History → History
unfolding note_send
step (sends line) h = note_send line h.sender.stopped (send line h.sender) h
step (offers line) h = note_send line false (offer line h.sender) h
step (takes chosen) h = record h { sender = take chosen h.sender.hand h.sender }
step (passes waited works debug) h = record h {
  sender = pass waited works debug h.sender.hand h.sender;
}
step stops h = record h { sender = stop h.sender }

unfoldable pub run : List Op → History → History
run [] h = h
run (op ∷ ops) h = run ops (step op h)

-- The lines that the log reports as dropped.
abbrev pub reported : List Log → ℕ
reported [] = 0
reported (queue_full ∷ ls) = reported ls
reported (dropped_lines n ∷ ls) = n + reported ls
reported (send_failed ∷ ls) = reported ls

reported-append : (xs ys : List Log) → reported (xs ++ ys) ≡ reported xs + reported ys
reported-append [] ys = omega arith
reported-append (queue_full ∷ xs) ys = omega (arith, reported-append xs ys)
reported-append (dropped_lines n ∷ xs) ys = omega (arith, reported-append xs ys)
reported-append (send_failed ∷ xs) ys = omega (arith, reported-append xs ys)

abbrev pub held : Option Text → List Text
held none = []
held (some line) = line ∷ []

-- In order and each once: what was sent, then a line lost by a stop, then the one in hand, then what is
-- queued, is what Send took. At most one line is lost, none while run goes on, and nothing is in hand
-- behind it. The queue keeps its size, and every line refused by a full queue is reported or still to
-- be.
pub record IsFifo (h : History) : Type 0 where
  pub in_order :
      h.taken ≡ h.sender.sent ++ (h.sender.lost ++ (held h.sender.hand ++ h.sender.queue))
  pub lost_one : length h.sender.lost ≤ 1
  pub none_lost : h.sender.running ≡ true → h.sender.lost ≡ []
  pub hand_empty : h.sender.running ≡ false → h.sender.hand ≡ none
  pub bounded : length h.sender.queue ≤ send_queue_size
  pub accounted : h.refused ≡ reported h.sender.log + h.sender.dropped

regroup :
    (sent lost hand queue new : List Text)
    → (sent ++ (lost ++ (hand ++ queue))) ++ new ≡ sent ++ (lost ++ (hand ++ (queue ++ new)))
regroup sent lost hand queue new =
    append_assoc sent (lost ++ (hand ++ queue)) new
    ∙ ap (◌++◌ sent)
        (append_assoc lost (hand ++ queue) new ∙ ap (◌++◌ lost) (append_assoc hand queue new))

offer-IsFifo : (line : Text) (h : History) → IsFifo h → IsFifo (step (offers line) h)
unfolding step offer
offer-IsFifo line h v = elim (Bool-cases (ltb (length h.sender.queue) send_queue_size)) [
  | inl room ↦ rw room (record {
    in_order = ground (
      arith,
      v.in_order,
      regroup h.sender.sent h.sender.lost (held h.sender.hand) h.sender.queue (line ∷ []),
    );
    lost_one = ground (arith, v.lost_one);
    none_lost = ground (arith, v.none_lost);
    hand_empty = ground (arith, v.hand_empty);
    bounded = ground (arith, room, length-append h.sender.queue (line ∷ []));
    accounted =
        ground
          (arith, v.accounted, reported-append h.sender.log (dropped_lines h.sender.dropped ∷ []));
  })
  | inr full ↦ rw full (record {
    in_order = v.in_order;
    lost_one = v.lost_one;
    none_lost = v.none_lost;
    hand_empty = v.hand_empty;
    bounded = v.bounded;
    accounted = ground (arith, v.accounted, reported-append h.sender.log (queue_full ∷ []));
  })
]

-- One of two senders, by a test.
chosen-IsFifo :
    (b : Bool) (x y : Sender) (h : History)
    → (b ≡ true → IsFifo (record h { sender = x }))
    → (b ≡ false → IsFifo (record h { sender = y }))
    → IsFifo (record h { sender = if b then x else y })
chosen-IsFifo true x y h f g = f refl
chosen-IsFifo false x y h f g = g refl

send_if-IsFifo :
    (b : Bool) (line : Text) (h : History)
    → IsFifo h
    → IsFifo (note_send line b (if b then (h.sender, false) else offer line h.sender) h)
unfolding note_send offer step
send_if-IsFifo true line h v = v
send_if-IsFifo false line h v = offer-IsFifo line h v

send-IsFifo : (line : Text) (h : History) → IsFifo h → IsFifo (step (sends line) h)
unfolding step send
send-IsFifo line h v = send_if-IsFifo h.sender.stopped line h v

take_first-IsFifo :
    (q : List Text) (h : History)
    → h.sender.queue ≡ q
    → h.sender.hand ≡ none
    → h.sender.running ≡ true
    → IsFifo h
    → IsFifo (record h { sender = take_first q h.sender })
unfolding take_first
take_first-IsFifo [] h at free on v = v
take_first-IsFifo (line ∷ rest) h at free on v = record {
  in_order = rw (free, at) at v.in_order;
  lost_one = v.lost_one;
  none_lost = v.none_lost;
  hand_empty = λ off. absurd (cc (sym on ∙ off));
  bounded = omega (arith, v.bounded, ap length at);
  accounted = v.accounted;
}

take-IsFifo :
    (chosen : Bool) (hand : Option Text) (h : History)
    → h.sender.hand ≡ hand
    → IsFifo h
    → IsFifo (record h { sender = take chosen hand h.sender })
unfolding take
take-IsFifo chosen (some line) h at v = v
take-IsFifo chosen none h at v =
    let s = h.sender in
    chosen-IsFifo (not s.running) s
      (if s.stopped && not chosen then record s { running = false } else take_first s.queue s) h
      (λ _. v)
      (λ on.
        chosen-IsFifo (s.stopped && not chosen) (record s { running = false })
          (take_first s.queue s) h
          (λ _. record {
            in_order = v.in_order;
            lost_one = v.lost_one;
            none_lost = λ off. absurd (cc off);
            hand_empty = λ _. at;
            bounded = v.bounded;
            accounted = v.accounted;
          })
          (λ _. take_first-IsFifo s.queue h refl at (ground (arith, on)) v))

pass-IsFifo :
    (waited works debug : Bool) (hand : Option Text) (h : History)
    → h.sender.hand ≡ hand
    → IsFifo h
    → IsFifo (record h { sender = pass waited works debug hand h.sender })
unfolding pass send_line lose_line
pass-IsFifo waited works debug none h at v = v
pass-IsFifo waited works debug (some line) h at v =
    let s = h.sender in
    let running : s.running ≡ true = elim (Bool-cases s.running) [
      | inl on ↦ on
      | inr off ↦ absurd (cc (sym at ∙ v.hand_empty off))
    ] in
    let none_yet = v.none_lost running in
    let order : h.taken ≡ s.sent ++ line ∷ s.queue = rw (none_yet, at) at v.in_order in
    elim (Bool-cases (s.stopped && not waited)) [
      | inl e ↦ rw e (record {
        in_order = rw none_yet order;
        lost_one = rw none_yet (omega arith);
        none_lost = λ off. absurd (cc off);
        hand_empty = λ _. refl;
        bounded = v.bounded;
        accounted = v.accounted;
      })
      | inr e ↦ rw e (record {
        in_order = rw none_yet (order ∙ sym (append_assoc s.sent (line ∷ []) s.queue));
        lost_one = v.lost_one;
        none_lost = v.none_lost;
        hand_empty = λ _. refl;
        bounded = v.bounded;
        accounted = ground (arith, v.accounted, reported-append s.log (send_failed ∷ []));
      })
    ]

stop-IsFifo : (h : History) → IsFifo h → IsFifo (step stops h)
unfolding step stop
stop-IsFifo h v = record {
  in_order = ground (arith, v.in_order);
  lost_one = ground (arith, v.lost_one);
  none_lost = ground (arith, v.none_lost);
  hand_empty = ground (arith, v.hand_empty);
  bounded = ground (arith, v.bounded);
  accounted =
      ground
        (arith, v.accounted, reported-append h.sender.log (dropped_lines h.sender.dropped ∷ []));
}

step-IsFifo : (op : Op) (h : History) → IsFifo h → IsFifo (step op h)
unfolding step
step-IsFifo (sends line) h v = send-IsFifo line h v
step-IsFifo (offers line) h v = offer-IsFifo line h v
step-IsFifo (takes chosen) h v = take-IsFifo chosen h.sender.hand h refl v
step-IsFifo (passes waited works debug) h v = pass-IsFifo waited works debug h.sender.hand h refl v
step-IsFifo stops h v = stop-IsFifo h v

run-IsFifo_from : (ops : List Op) (h : History) → IsFifo h → IsFifo (run ops h)
unfolding run
run-IsFifo_from [] h v = v
run-IsFifo_from (op ∷ ops) h v = run-IsFifo_from ops (step op h) (step-IsFifo op h v)

unfoldable pub new_history : History
unfolding new_sender
new_history = record { sender = new_sender; taken = []; refused = 0 }

-- In every history of a new sender, with Sends that had tested the context before a stop, the
-- lines sent, at most one that a stop loses, at most one in hand and those still queued are the
-- lines taken, each once and in order; the queue holds at most 256; and the refused lines are
-- those that the log has reported and those still to be reported.
pub run-IsFifo : (ops : List Op) → IsFifo (run ops new_history)
unfolding new_history new_sender
run-IsFifo ops = run-IsFifo_from ops new_history (record {
  in_order = refl;
  lost_one = omega arith;
  none_lost = λ _. refl;
  hand_empty = λ _. refl;
  bounded = omega arith;
  accounted = omega arith;
})
