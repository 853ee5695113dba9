-- ===== src/Liercd/Taken.antt =====
-- What the publisher has taken, of what is passed to Enqueue.
use lierc.Base.{
  ◌≤◌, ◌<◌, Bool, true, false, List, [], ◌∷◌, ◌++◌, Option, none, some, ◌≡◌, refl, sym, ap, ◌∙◌,
  arith, Text, length, length-append, append_assoc, append-nil, ltb, if◌then◌else◌, All,
}
use mathlib.Core.Path.{subst}
use lierc.Manager.{Queued}
use lierc.Publisher.{
  Outcome, accepts, gives_up, Outgoing, Publisher, queue_size, flush, enqueue, run_round, run_queue,
  run_done,
}
use lierc.Publisher.Order
use lierc.Publisher.Order.{
  Traced, IsKept, enqueues, rounds, done, step-IsKept, IsAccepted, flush_leaves_none, history,
  unpublished, waiting,
}
use lierc.Liercd.{topic_of, offer, run_rounds}

module _ (encode : Queued → Option Text) where
  abbrev encoded_event : Queued → Option Text → List Outgoing
  encoded_event e none = []
  encoded_event e (some body) = (record { topic = topic_of e; body = body }) ∷ []

  -- The events that can be encoded, as they are to be published.
  abbrev pub encoded : List Queued → List Outgoing
  encoded [] = []
  encoded (e ∷ es) = encoded_event e (encode e) ++ encoded es

  encoded_event-le : (e : Queued) (body : Option Text) → length (encoded_event e body) ≤ 1
  encoded_event-le e none = omega arith
  encoded_event-le e (some body) = omega arith

  encoded-le : (es : List Queued) → length (encoded es) ≤ length es
  encoded-le [] = omega arith
  encoded-le (e ∷ es) = omega (
    arith,
    encoded-le es,
    encoded_event-le e (encode e),
    length-append (encoded_event e (encode e)) (encoded es),
  )

  encoded-append : (es fs : List Queued) → encoded (es ++ fs) ≡ encoded es ++ encoded fs
  encoded-append [] fs = refl
  encoded-append (e ∷ es) fs =
      ap (λ l. encoded_event e (encode e) ++ l) (encoded-append es fs)
      ∙ sym (append_assoc (encoded_event e (encode e)) (encoded es) (encoded fs))

  -- The publisher has kept and taken exactly these events.
  pub record Holds (t : Traced) (es : List Queued) : Type 0 where
    pub kept : IsKept t
    pub sized : t.publisher.size ≡ queue_size
    pub taken : t.taken ≡ encoded es

  queue-le : (t : Traced) → IsKept t → length t.publisher.queue ≤ length t.taken
  queue-le t k =
      let p = t.publisher in
      omega (
        arith,
        ap length k.in_order,
        length-append p.accepted (unpublished p),
        length-append (waiting p.pending) p.queue,
      )

  has_room :
      (t : Traced) (es : List Queued)
      → length t.taken < queue_size
      → Holds t es
      → ltb (length t.publisher.queue) t.publisher.size ≡ true
  has_room t es room h =
      let short = queue-le t h.kept in
      let lt : length t.publisher.queue < t.publisher.size = omega (arith, short, room, h.sized) in
      ground (arith, lt)

  enqueue_lem :
      (e : Queued) (body : Option Text) (t : Traced)
      → ltb (length t.publisher.queue) t.publisher.size ≡ true
      → let t' = Order.step (enqueues (topic_of e) body) t in
        (t'.publisher.size ≡ t.publisher.size) × (t'.taken ≡ t.taken ++ encoded_event e body)
  unfolding Order.step enqueue
  enqueue_lem e none t room = (refl, sym (append-nil t.taken))
  enqueue_lem e (some body) t room = rw room (refl, refl)

  enqueue-Holds :
      (e : Queued) (t : Traced) (es : List Queued)
      → length es < queue_size
      → Holds t es
      → Holds (Order.step (enqueues (topic_of e) (encode e)) t) (es ++ e ∷ [])
  enqueue-Holds e t es room h =
      let short = encoded-le es in
      let next =
        enqueue_lem e (encode e) t
          (has_room t es (omega (arith, ap length h.taken, short, room)) h) in
      record {
        kept = step-IsKept (enqueues (topic_of e) (encode e)) t h.kept;
        sized = next.0 ∙ h.sized;
        taken =
            next.1
            ∙ ap (λ l. l ++ encoded_event e (encode e)) h.taken
            ∙ ap (λ l. encoded es ++ l) (sym (append-nil (encoded_event e (encode e))))
            ∙ sym (encoded-append es (e ∷ []));
      }

  pub offer-Holds :
      (new : List Queued) (t : Traced) (es : List Queued)
      → length (es ++ new) ≤ queue_size
      → Holds t es
      → Holds (offer encode new t) (es ++ new)
  unfolding offer
  offer-Holds [] t es room h = subst (Holds t) (sym (append-nil es)) h
  offer-Holds (e ∷ new) t es room h =
      let regroup : (es ++ e ∷ []) ++ new ≡ es ++ e ∷ new = append_assoc es (e ∷ []) new in
      let size = length-append es (e ∷ new) in
      let next = Order.step (enqueues (topic_of e) (encode e)) t in
      subst (Holds (offer encode new next)) regroup (
        offer-Holds new next (es ++ e ∷ []) (subst (λ l. length l ≤ queue_size) (sym regroup) room)
          (enqueue-Holds e t es (omega (arith, size, room)) h))

  run_queue-size :
      (o : Outcome) (q : List Outgoing) (p : Publisher) → (run_queue o q p).size ≡ p.size
  unfolding run_queue
  run_queue-size o [] p = refl
  run_queue-size (accepts k) (x ∷ q) p = refl
  run_queue-size (gives_up k) (x ∷ q) p = refl

  chosen-size : (b : Bool) (p q : Publisher) → q.size ≡ p.size → (if b then q else p).size ≡ p.size
  chosen-size true p q e = e
  chosen-size false p q e = refl

  run_round-size : (o : Outcome) (p : Publisher) → (run_round o p).size ≡ p.size
  unfolding run_round
  run_round-size o p = chosen-size p.running p (run_queue o p.queue p) (run_queue-size o p.queue p)

  pub round-Holds :
      (o : Outcome) (t : Traced) (es : List Queued)
      → Holds t es
      → Holds (Order.step (rounds o) t) es
  unfolding Order.step
  round-Holds o t es h = record {
    kept = step-IsKept (rounds o) t h.kept;
    sized = run_round-size o t.publisher ∙ h.sized;
    taken = h.taken;
  }

  pub run_rounds-Holds :
      (os : List Outcome) (t : Traced) (es : List Queued) → Holds t es → Holds (run_rounds os t) es
  unfolding run_rounds
  run_rounds-Holds [] t es h = h
  run_rounds-Holds (o ∷ os) t es h =
      run_rounds-Holds os (Order.step (rounds o) t) es (round-Holds o t es h)

  pub done-Holds : (t : Traced) (es : List Queued) → Holds t es → Holds (Order.step done t) es
  unfolding Order.step run_done
  done-Holds t es h = record { kept = step-IsKept done t h.kept; sized = h.sized; taken = h.taken }

  pub flush-all :
      (outcomes : List Outcome) (t : Traced) (es : List Queued)
      → All IsAccepted outcomes
      → length es ≤ length outcomes
      → Holds t es
      → ((flush outcomes t.publisher).1 ≡ 0)
        × ((flush outcomes t.publisher).0.accepted ≡ encoded es)
  flush-all outcomes t es answered enough h =
      let p = t.publisher in
      let short : length (unpublished p) ≤ length outcomes = omega (
        arith,
        ap length h.taken,
        ap length h.kept.in_order,
        length-append p.accepted (unpublished p),
        encoded-le es,
        enough,
      ) in
      let r = flush_leaves_none outcomes p answered short in
      (r.0, r.1 ∙ sym h.kept.in_order ∙ h.taken)
