-- ===== src/Liercd/Flushed.antt =====
-- What nsqd has when main returns.
use lierc.Base.{
  ℕ, ◌≤◌, List, [], ◌∷◌, ◌++◌, Option, none, some, ◌≡◌, refl, sym, ap, ◌∙◌, arith, Text, get_elem?,
  length, length-append, All,
}
use mathlib.Core.Path.{subst}
use lierc.Unicode.{Unicode}
use lierc.Irc.{IrcGo, Message}
use lierc.Connection.Steps
use lierc.Manager.{Outside, Object, Manager, Queued}
use lierc.Manager.Requests.{later, update_object}
use lierc.Manager.Tasks.{Server, with_manager}
use lierc.Manager.Shutdown.{shutdown}
use lierc.Manager.Queueing.{
  Grows, Grows-refl, Grows-trans, on_line-Grows, callback-Grows, step-Grows, publish_statuses-Grows,
  shutdown-Grows,
}
use lierc.Sender.{Sender}
use lierc.Publisher.{Outcome, queue_size, new_publisher}
use lierc.Publisher.Order
use lierc.Publisher.Order.{
  Traced, IsKept, enqueues, rounds, done, step-IsKept, IsAccepted, flush_leaves_none, history,
  unpublished, waiting,
}
use lierc.Liercd.Taken.{
  encoded, Holds, offer-Holds, round-Holds, run_rounds-Holds, done-Holds, flush-all,
}
use lierc.Liercd.{
  Liercd, new_liercd, offer, pass, line_at, move, Op, requests, lines, calls, moves, takes, passes,
  drain, publishes, serve, published, step, run, stop,
}

later-append {ℓ} : {A : Type ℓ} (xs ys : List A) → later (length xs) (xs ++ ys) ≡ ys
unfolding later
later-append [] ys = refl
later-append (x ∷ xs) ys = later-append xs ys

module _ ⦃u : Unicode⦄ ⦃g : IrcGo⦄ ⦃out : Outside⦄ where
  line_at-Grows :
      (now : ℕ) (parsed : Option Message) (at : Option Object) (m : Manager)
      → Grows m (line_at now parsed at m)
  unfolding line_at
  line_at-Grows now parsed none m = Grows-refl m
  line_at-Grows now parsed (some o) m = on_line-Grows now parsed o.attempts.client m

  move-Grows :
      (now n : ℕ) (ops : List Steps.Op) (at : Option Object) (m : Manager)
      → Grows m (move now n ops at m)
  unfolding move update_object
  move-Grows now n ops none m = Grows-refl m
  move-Grows now n ops (some o) m = publish_statuses-Grows now _ m

  drain-Grows :
      (n : ℕ) (f : Sender → Sender) (at : Option Object) (m : Manager) → Grows m (drain n f at m)
  unfolding drain update_object
  drain-Grows n f none m = Grows-refl m
  drain-Grows n f (some o) m = Grows-refl m

module _ (encode : Queued → Option Text) where
  -- The publisher has what the manager has queued.
  abbrev Agrees : Liercd → Type 0
  Agrees d = Holds encode d.events d.server.manager.queue

  pass-Agrees :
      (s : Server) (d : Liercd)
      → Grows d.server.manager s.manager
      → length s.manager.queue ≤ queue_size
      → Agrees d
      → Agrees (pass encode s d)
  unfolding pass
  pass-Agrees s d (new, grown) room h =
      let old = d.server.manager.queue in
      let fresh = ap (later (length old)) grown ∙ later-append old new in
      subst (Holds encode (offer encode (later (length old) s.manager.queue) d.events)) (sym grown)
        (subst (λ l. Holds encode (offer encode l d.events) (old ++ new)) (sym fresh)
          (offer-Holds encode new d.events old (subst (λ l. length l ≤ queue_size) grown room) h))

  module _ ⦃u : Unicode⦄ ⦃g : IrcGo⦄ ⦃out : Outside⦄ where
    serve-Grows : (op : Op) (s : Server) → Grows s.manager (serve op s).manager
    unfolding serve
    serve-Grows (requests op) s = step-Grows op s
    serve-Grows (lines now n parsed) s =
        line_at-Grows now parsed (get_elem? s.manager.objects n) s.manager
    serve-Grows (calls serial now n message) s =
        callback-Grows serial now message n (get_elem? s.manager.objects n) s.manager
    serve-Grows (moves now n ops) s = move-Grows now n ops (get_elem? s.manager.objects n) s.manager
    serve-Grows (takes n chosen) s = drain-Grows n _ (get_elem? s.manager.objects n) s.manager
    serve-Grows (passes n waited works debug) s =
        drain-Grows n _ (get_elem? s.manager.objects n) s.manager
    serve-Grows (publishes outcome) s = Grows-refl s.manager

    published-server : (op : Op) (d : Liercd) → (published op d).server ≡ d.server
    unfolding published
    published-server (publishes outcome) d = refl
    published-server _ d = refl

    published-Agrees : (op : Op) (d : Liercd) → Agrees d → Agrees (published op d)
    unfolding published
    published-Agrees (publishes outcome) d h =
        round-Holds encode outcome d.events d.server.manager.queue h
    published-Agrees _ d h = h

    pub stepped-server : (op : Op) (d : Liercd) → (step encode op d).server ≡ serve op d.server
    unfolding step pass
    stepped-server op d = published-server op (pass encode (serve op d.server) d)

    stepped-Grows :
        (op : Op) (d : Liercd) → Grows d.server.manager (step encode op d).server.manager
    stepped-Grows op d =
        subst (λ (s : Server). Grows d.server.manager s.manager) (sym (stepped-server op d))
          (serve-Grows op d.server)

    step-Agrees :
        (op : Op) (d : Liercd)
        → length (step encode op d).server.manager.queue ≤ queue_size
        → Agrees d
        → Agrees (step encode op d)
    unfolding step
    step-Agrees op d room h = published-Agrees op (pass encode (serve op d.server) d) (
        pass-Agrees (serve op d.server) d (serve-Grows op d.server)
          (subst (λ (s : Server). length s.manager.queue ≤ queue_size) (stepped-server op d) room)
          h)

    run-Grows :
        (ops : List Op) (d : Liercd) → Grows d.server.manager (run encode ops d).server.manager
    unfolding run
    run-Grows [] d = Grows-refl d.server.manager
    run-Grows (op ∷ ops) d =
        let next = step encode op d in
        Grows-trans d.server.manager next.server.manager (run encode ops next).server.manager
          (stepped-Grows op d) (run-Grows ops next)

    Grows-length : (m m' : Manager) → Grows m m' → length m.queue ≤ length m'.queue
    Grows-length m m' (new, e) = omega (arith, ap length e, length-append m.queue new)

    run-Agrees :
        (ops : List Op) (d : Liercd)
        → length (run encode ops d).server.manager.queue ≤ queue_size
        → Agrees d
        → Agrees (run encode ops d)
    unfolding run
    run-Agrees [] d room h = h
    run-Agrees (op ∷ ops) d room h =
        let next = step encode op d in
        let grown =
          Grows-length next.server.manager (run encode ops next).server.manager
            (run-Grows ops next) in
        run-Agrees ops next room (step-Agrees op d (omega (arith, grown, room)) h)

    new_liercd-Agrees : Agrees new_liercd
    unfolding new_liercd Order.run Order.start new_publisher
    new_liercd-Agrees = record { kept = Order.run-IsKept queue_size []; sized = refl; taken = refl }

    -- In every history of liercd that is then stopped, if the manager has queued no more events than
    -- the publisher has room for, Shutdown's included, and nsqd accepts an event in each of at least
    -- as many outcomes of Flush, then Flush leaves none and nsqd has accepted every event that the
    -- manager queued and that can be encoded, once and in order.
    pub stop-accepted :
        (ops : List Op) (now : ℕ) (during : ℕ → List Steps.Op) (last_rounds outcomes : List Outcome)
        → let r = stop encode now during last_rounds outcomes (run encode ops new_liercd) in
          length r.0.server.manager.queue ≤ queue_size
          → All IsAccepted outcomes
          → length r.0.server.manager.queue ≤ length outcomes
          → (r.1 ≡ 0) × (r.0.events.publisher.accepted ≡ encoded encode r.0.server.manager.queue)
    unfolding stop
    stop-accepted ops now during last_rounds outcomes room answered enough =
        let d = run encode ops new_liercd in
        let s = with_manager (shutdown now during) d.server in
        let grown = shutdown-Grows now during d.server.manager in
        let before =
          run-Agrees ops new_liercd
            (omega (arith, room, Grows-length d.server.manager s.manager grown))
            new_liercd-Agrees in
        let closed = pass-Agrees s d grown room before in
        let ran =
          run_rounds-Holds encode last_rounds (pass encode s d).events s.manager.queue closed in
        flush-all encode outcomes _ s.manager.queue answered enough
          (done-Holds encode _ s.manager.queue ran)
