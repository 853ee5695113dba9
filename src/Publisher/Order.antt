-- ===== src/Publisher/Order.antt =====
-- Every queued event is accepted by nsqd, pending or queued: once, and in order.
use lierc.Base.{
  ℕ, ◌+◌, ◌≤◌, ◌<◌, Bool, true, false, List, [], ◌∷◌, ◌++◌, Option, none, some, ◌≡◌, refl, sym, ◌∙◌,
  ap, arith, ltb, if◌then◌else◌, Text, length, length-append, append_assoc, append-nil, Bool-cases,
  inl, inr, All,
}
use lierc.Publisher.{
  Outgoing, Publisher, new_publisher, enqueue, Outcome, accepts, gives_up, run_queue, run_round,
  run_done, flush_queue, flush_pending, flush,
}

abbrev pub waiting : Option Outgoing → List Outgoing
waiting none = []
waiting (some o) = o ∷ []

-- The events that are still to be published, in order.
abbrev pub unpublished : Publisher → List Outgoing
unpublished p = waiting p.pending ++ p.queue

-- All that was queued, in order.
abbrev pub history : Publisher → List Outgoing
history p = p.accepted ++ unpublished p

-- What Enqueue does to the history: it adds one event at the end, or nothing.
pub history-enqueue :
    (topic body : Text) (p : Publisher)
    → history (enqueue topic (some body) p).0 ≡ (
        if ltb (length p.queue) p.size
        then history p ++ (record { topic = topic; body = body }) ∷ []
        else history p)
unfolding enqueue
history-enqueue topic body p = elim (Bool-cases (ltb (length p.queue) p.size)) [
  | inl e ↦ rw e (simp append_assoc)
  | inr e ↦ rw e
]

history-run_queue :
    (outcome : Outcome) (q : List Outgoing) (p : Publisher)
    → p.queue ≡ q
    → p.pending ≡ none
    → history (run_queue outcome q p) ≡ history p
unfolding run_queue
history-run_queue outcome [] p e n = refl
history-run_queue (accepts k) (o ∷ rest) p e n = rw (n, e) (append_assoc p.accepted (o ∷ []) rest)
history-run_queue (gives_up k) (o ∷ rest) p e n = rw (n, e)

-- The loop of Flush loses nothing, and returns how many events it left.
pub flush_queue_lem :
    (outcomes : List Outcome) (q : List Outgoing) (p : Publisher)
    → p.queue ≡ q
    → p.pending ≡ none
    → (history (flush_queue outcomes q p).0 ≡ history p)
      × ((flush_queue outcomes q p).1 ≡ length (unpublished (flush_queue outcomes q p).0))
unfolding flush_queue
flush_queue_lem outcomes [] p e n = (refl, rw (n, e))
flush_queue_lem [] (o ∷ rest) p e n = (rw (n, e), omega arith)
flush_queue_lem (gives_up k ∷ os) (o ∷ rest) p e n = (rw (n, e), omega arith)
flush_queue_lem (accepts k ∷ os) (o ∷ rest) p e n =
    let p' = record p {
      queue = rest;
      accepted = p.accepted ++ o ∷ [];
      attempts = p.attempts + (k + 1);
    } in
    let later = flush_queue_lem os rest p' refl n in
    (later.0 ∙ rw (n, e) (append_assoc p.accepted (o ∷ []) rest), later.1)

flush_pending_lem :
    (outcomes : List Outcome) (o : Option Outgoing) (p : Publisher)
    → p.pending ≡ o
    → (history (flush_pending outcomes o p).0 ≡ history p)
      × ((flush_pending outcomes o p).1 ≡ length (unpublished (flush_pending outcomes o p).0))
unfolding flush_pending
flush_pending_lem outcomes none p e = flush_queue_lem outcomes p.queue p refl e
flush_pending_lem [] (some o) p e = (refl, rw e (omega arith))
flush_pending_lem (gives_up k ∷ os) (some o) p e = (refl, rw e (omega arith))
flush_pending_lem (accepts k ∷ os) (some o) p e =
    let p' = record p {
      pending = none;
      accepted = p.accepted ++ o ∷ [];
      attempts = p.attempts + (k + 1);
    } in
    let later = flush_queue_lem os p.queue p' refl refl in
    (later.0 ∙ rw e (append_assoc p.accepted (o ∷ []) p.queue), later.1)

append_empty {ℓ} : {A : Type ℓ} (xs ys : List A) → length ys ≡ 0 → xs ++ ys ≡ xs
append_empty xs [] h = append-nil xs
append_empty xs (y ∷ ys) h = absurd (omega arith)

accepted_all : (p : Publisher) → length (unpublished p) ≡ 0 → p.accepted ≡ history p
accepted_all p h = sym (append_empty p.accepted (unpublished p) h)

-- Flush keeps every event once and in order, among those accepted and those left, and returns how
-- many are left.
pub flush_lem :
    (outcomes : List Outcome) (p : Publisher)
    → (history (flush outcomes p).0 ≡ history p)
      × ((flush outcomes p).1 ≡ length (unpublished (flush outcomes p).0))
unfolding flush
flush_lem outcomes p = flush_pending_lem outcomes p.pending p refl

-- An outcome in which nsqd accepts the event, after however many failures.
pub data IsAccepted : Outcome → Type 0 where
  after : (failures : ℕ) → IsAccepted (accepts failures)

not_given_up : (k : ℕ) → IsAccepted (gives_up k) → ⊥
not_given_up k h = elim h [ ]

flush_queue_leaves_none :
    (outcomes : List Outcome) (q : List Outgoing) (p : Publisher)
    → All IsAccepted outcomes
    → length q ≤ length outcomes
    → (flush_queue outcomes q p).1 ≡ 0
unfolding flush_queue
flush_queue_leaves_none outcomes [] p h l = refl
flush_queue_leaves_none [] (o ∷ rest) p h l = absurd (omega arith)
flush_queue_leaves_none (gives_up k ∷ os) (o ∷ rest) p h l = elim (not_given_up k h.0) [ ]
flush_queue_leaves_none (accepts k ∷ os) (o ∷ rest) p h l =
    flush_queue_leaves_none os rest _ h.1 (omega arith)

flush_pending_leaves_none :
    (outcomes : List Outcome) (o : Option Outgoing) (p : Publisher)
    → All IsAccepted outcomes
    → length (waiting o ++ p.queue) ≤ length outcomes
    → (flush_pending outcomes o p).1 ≡ 0
unfolding flush_pending
flush_pending_leaves_none outcomes none p h l = flush_queue_leaves_none outcomes p.queue p h l
flush_pending_leaves_none [] (some o) p h l = absurd (omega arith)
flush_pending_leaves_none (gives_up k ∷ os) (some o) p h l = elim (not_given_up k h.0) [ ]
flush_pending_leaves_none (accepts k ∷ os) (some o) p h l =
    flush_queue_leaves_none os p.queue _ h.1 (omega arith)

-- If nsqd accepts an event in each of as many outcomes as there are events left, Flush returns 0
-- and the events accepted are all of them, in order.
pub flush_leaves_none :
    (outcomes : List Outcome) (p : Publisher)
    → All IsAccepted outcomes
    → length (unpublished p) ≤ length outcomes
    → ((flush outcomes p).1 ≡ 0) × ((flush outcomes p).0.accepted ≡ history p)
unfolding flush
flush_leaves_none outcomes p h l =
    let returned = flush_pending_leaves_none outcomes p.pending p h l in
    let kept = flush_pending_lem outcomes p.pending p refl in
    (returned, accepted_all (flush_pending outcomes p.pending p).0 (sym kept.1 ∙ returned) ∙ kept.0)

-- What happens to a publisher before it is flushed: events are queued, Run takes its rounds.
pub data Op : Type 0 where
  enqueues : Text → Option Text → Op
  rounds : Outcome → Op
  done : Op

-- A publisher with the events for which Enqueue had room.
pub record Traced : Type 0 where
  pub publisher : Publisher
  pub taken : List Outgoing

note : Text → Option Text → Publisher × Bool → List Outgoing → Traced
note topic none (p, queued) taken = record { publisher = p; taken = taken }
note topic (some body) (p, true) taken = record {
  publisher = p;
  taken = taken ++ (record { topic = topic; body = body }) ∷ [];
}
note topic (some body) (p, false) taken = record { publisher = p; taken = taken }

unfoldable pub step : Op → Traced → Traced
unfolding note
step (enqueues topic body) t = note topic body (enqueue topic body t.publisher) t.taken
step (rounds outcome) t = record t { publisher = run_round outcome t.publisher }
step done t = record t { publisher = run_done t.publisher }

unfoldable pub run : List Op → Traced → Traced
run [] t = t
run (op ∷ ops) t = run ops (step op t)

-- The history is what was taken, nothing is pending while Run runs, and the queue keeps its size.
pub record IsKept (t : Traced) : Type 0 where
  pub in_order : t.taken ≡ history t.publisher
  pub none_pending : t.publisher.running ≡ true → t.publisher.pending ≡ none
  pub bounded : length t.publisher.queue ≤ t.publisher.size

noted-IsKept :
    (b : Bool) (topic body : Text) (p : Publisher) (taken : List Outgoing)
    → (b ≡ true → length p.queue < p.size)
    → IsKept (record { publisher = p; taken = taken })
    → IsKept (
        note topic
          (some body)
          (if b
            then (
              record p { queue = p.queue ++ (record { topic = topic; body = body }) ∷ [] },
              true,
            )
            else (p, false))
          taken)
unfolding note
noted-IsKept true topic body p taken room v = record {
  in_order = rw v.in_order (simp append_assoc);
  none_pending = v.none_pending;
  bounded =
      omega
        (arith, room refl, length-append p.queue ((record { topic = topic; body = body }) ∷ []));
}
noted-IsKept false topic body p taken room v = v

enqueue-IsKept :
    (topic : Text) (body : Option Text) (t : Traced)
    → IsKept t
    → IsKept (step (enqueues topic body) t)
unfolding step enqueue
enqueue-IsKept topic none t v = v
enqueue-IsKept topic (some body) t v =
    noted-IsKept (ltb (length t.publisher.queue) t.publisher.size) topic body t.publisher t.taken
      (λ h. ground arith) v

run_queue-IsKept :
    (outcome : Outcome) (q : List Outgoing) (p : Publisher) (taken : List Outgoing)
    → p.queue ≡ q
    → p.pending ≡ none
    → p.running ≡ true
    → IsKept (record { publisher = p; taken = taken })
    → IsKept (record { publisher = run_queue outcome q p; taken = taken })
unfolding run_queue
run_queue-IsKept outcome [] p taken e n r v = v
run_queue-IsKept (accepts k) (o ∷ rest) p taken e n r v = record {
  in_order = v.in_order ∙ sym (history-run_queue (accepts k) (o ∷ rest) p e n);
  none_pending = λ _. n;
  bounded = omega (arith, v.bounded, ap length e);
}
run_queue-IsKept (gives_up k) (o ∷ rest) p taken e n r v = record {
  in_order = v.in_order ∙ sym (history-run_queue (gives_up k) (o ∷ rest) p e n);
  none_pending = λ x. absurd (ground arith);
  bounded = omega (arith, v.bounded, ap length e);
}

round-IsKept :
    (b : Bool) (outcome : Outcome) (p : Publisher) (taken : List Outgoing)
    → p.running ≡ b
    → IsKept (record { publisher = p; taken = taken })
    → IsKept (record { publisher = if b then run_queue outcome p.queue p else p; taken = taken })
round-IsKept true outcome p taken e v =
    run_queue-IsKept outcome p.queue p taken refl (v.none_pending e) e v
round-IsKept false outcome p taken e v = v

pub step-IsKept : (op : Op) (t : Traced) → IsKept t → IsKept (step op t)
unfolding step run_round run_done
step-IsKept (enqueues topic body) t v = enqueue-IsKept topic body t v
step-IsKept (rounds outcome) t v =
    round-IsKept t.publisher.running outcome t.publisher t.taken refl v
step-IsKept done t v = record {
  in_order = v.in_order;
  none_pending = λ x. absurd (ground arith);
  bounded = v.bounded;
}

run-IsKept_from : (ops : List Op) (t : Traced) → IsKept t → IsKept (run ops t)
unfolding run
run-IsKept_from [] t v = v
run-IsKept_from (op ∷ ops) t v = run-IsKept_from ops (step op t) (step-IsKept op t v)

unfoldable pub start : ℕ → Traced
unfolding new_publisher
start size = record { publisher = new_publisher size; taken = [] }

-- In every history of a new publisher the events accepted by nsqd, then the pending one, then
-- those queued, are the events that were taken, in order, and the queue is never longer than its
-- size.
pub run-IsKept : (size : ℕ) (ops : List Op) → IsKept (run ops (start size))
unfolding start
run-IsKept size ops =
    run-IsKept_from ops (start size)
      (record { in_order = refl; none_pending = λ _. refl; bounded = omega arith })
