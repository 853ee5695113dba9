-- ===== src/Logger/Lifecycle/Handling.antt =====
-- When the logger handles messages.
use lierc.Base.{
  Bool, true, false, List, [], ◌∷◌, ◌++◌, Option, some, ◌≡◌, refl, sym, ap, ◌∙◌, if◌then◌else◌,
  Text, Map, Bool-cases, inl, inr, append_assoc,
}
use mathlib.Core.Path.{subst}
use lierc.Logger.{one_of}
use lierc.Logger.Highlights.{Regexps, reload}
use lierc.Logger.Lifecycle.{
  Call, listened, subscribed, told_to_stop, consumer_stopped, Stage, pinging_db, pinging_nsqd,
  loading, listening, making, connecting, ready, stopping, draining, stopping_producer,
  closing_listener, closing_db, ended, Logger, new_logger, Attempt, worked, stopped, waited, retry,
  try, Event, finishes, finish, answers, reads, handles, signalled, signal, answer, read_highlights,
  step, run,
}
use lierc.Logger.Lifecycle.Running.{LiveOf, step-Live}
use lierc.Logger.Lifecycle.Standing.{
  Live-live, IsServed, IsComplete, Subscribed, Stand, Inv, some_inj, handled-Stand, live-IsUp,
  next_topic-Stand, next_drain-Stand, subscribed-Subscribed,
}

module _ ⦃re : Regexps⦄ (order : List Text) where
  retry-Inv :
      (a : Attempt) (next s : Logger) → Inv order next → Inv order s → Inv order (retry a next s)
  unfolding retry
  retry-Inv worked next s h k = h
  retry-Inv stopped next s h k = (tt, k.1)
  retry-Inv waited next s h k = k

  try-Inv :
      (a : Attempt) (next s : Logger) → Inv order next → Inv order s → Inv order (try a next s)
  unfolding try
  try-Inv worked next s h k = h
  try-Inv stopped next s h k = (tt, k.1)
  try-Inv waited next s h k = (tt, k.1)

  answer-Inv :
      (stage : Stage) (a : Attempt) (s : Logger)
      → Stand order stage s.consumers s.calls
      → Inv order s
      → Inv order (answer order stage a s)
  unfolding answer
  answer-Inv pinging_db a s h inv = retry-Inv a _ s ((refl, h.0, h.1), inv.1) inv
  answer-Inv pinging_nsqd a s h inv = retry-Inv a _ s ((h.0, refl, h.1, h.2), inv.1) inv
  answer-Inv loading a s h inv = inv
  answer-Inv listening a s h inv =
      try-Inv a _ s
        (
          next_topic-Stand order order s.consumers (listened ∷ s.calls) (h.0, h.1, h.2, refl, h.3)
              (subst (λ ts. Subscribed ts (listened ∷ s.calls)) (sym h.4) tt)
              (ap (λ ts. ts ++ order) h.4),
          inv.1,
        )
        inv
  answer-Inv (making t ts) a s h inv = try-Inv a _ s (h, inv.1) inv
  answer-Inv (connecting t ts) a s h inv =
      retry-Inv a _ s
        (
          next_topic-Stand order ts (s.consumers ++ t ∷ []) (subscribed t ∷ s.calls) h.0
              (subscribed-Subscribed ts s.consumers s.calls t h.1)
              (append_assoc s.consumers (t ∷ []) ts ∙ h.2),
          inv.1,
        )
        inv
  answer-Inv ready a s h inv = inv
  answer-Inv stopping a s h inv = (
    next_drain-Stand order s.consumers s.consumers (told_to_stop s.consumers ∷ s.calls) h.0 h.1,
    inv.1,
  )
  answer-Inv (draining t ts) a s h inv = elim (Bool-cases (one_of t s.running)) [
    | inl e ↦ rw e inv
    | inr e ↦
        rw e (next_drain-Stand order ts s.consumers (consumer_stopped t ∷ s.calls) h.0 h.1.1, inv.1)
  ]
  answer-Inv stopping_producer a s h inv = (tt, inv.1)
  answer-Inv closing_listener a s h inv = elim (Bool-cases s.listener) [
    | inl e ↦ rw e (tt, inv.1)
    | inr e ↦ rw e (tt, inv.1)
  ]
  answer-Inv closing_db a s h inv = (tt, inv.1)
  answer-Inv ended a s h inv = inv

  reread-Inv :
      (configs : Option (Map Text)) (s : Logger)
      → Inv order s
      → Inv order (if s.listener then record s { highlights = reload configs s.highlights } else s)
  reread-Inv configs s inv = elim (Bool-cases s.listener) [ inl e ↦ rw e inv | inr e ↦ rw e inv ]

  read_highlights-Inv :
      (stage : Stage) (configs : Option (Map Text)) (s : Logger)
      → Stand order stage s.consumers s.calls
      → Inv order s
      → Inv order (read_highlights order stage configs s)
  unfolding read_highlights
  read_highlights-Inv loading configs s h inv = ((h.0, h.1, refl, h.2, h.3), inv.1)
  read_highlights-Inv ended configs s h inv = inv
  read_highlights-Inv _ configs s h inv = reread-Inv configs s inv

  signal-Inv :
      (stage : Stage) (s : Logger)
      → Stand order stage s.consumers s.calls
      → Inv order s
      → Inv order (signal stage s)
  unfolding signal
  signal-Inv ready s h inv = ((h.0, h.1), inv.1)
  signal-Inv _ s h inv = inv

  finish-Inv : (stage : Stage) (t : Text) (s : Logger) → Inv order s → Inv order (finish stage t s)
  unfolding finish
  finish-Inv (draining u us) t s inv = inv
  finish-Inv _ t s inv = inv

  step-Inv : (e : Event) (s : Logger) → LiveOf s → Inv order s → Inv order (step order e s)
  unfolding step
  step-Inv (answers a) s live inv = answer-Inv s.stage a s inv.0 inv
  step-Inv (reads configs) s live inv = read_highlights-Inv s.stage configs s inv.0 inv
  step-Inv (handles t) s live inv = elim (Bool-cases (one_of t s.running)) [
    | inl e ↦ rw e (
      handled-Stand order s.stage s.consumers s.calls t inv.0,
      (
        live-IsUp order s.stage s.consumers s.calls t inv.0
            (Live-live s.stage s.consumers s.running t live e),
        inv.1,
      ),
    )
    | inr e ↦ rw e inv
  ]
  step-Inv (finishes t) s live inv = finish-Inv s.stage t s inv
  step-Inv signalled s live inv = signal-Inv s.stage s inv.0 inv

  run-Inv : (es : List Event) (s : Logger) → LiveOf s → Inv order s → Inv order (run order es s)
  unfolding run
  run-Inv [] s live inv = inv
  run-Inv (e ∷ es) s live inv =
      run-Inv es (step order e s) (step-Live order e s live) (step-Inv e s live inv)

  Stand-IsComplete :
      (stage : Stage) (consumers : List Text) (calls : List Call)
      → Stand order stage consumers calls
      → IsComplete order stage consumers
  Stand-IsComplete ready consumers calls h = h.2
  Stand-IsComplete _ consumers calls h = tt

  new_logger-Inv :
      (opens makes : Bool) (s : Logger) (opened : List Call)
      → new_logger opens makes ≡ (opened, some s)
      → LiveOf s × Inv order s
  unfolding new_logger
  new_logger-Inv true true s opened h =
      subst (λ (l : Logger). LiveOf l × Inv order l) (some_inj _ _ (ap (λ r. r.1) h))
        ((refl, refl), ((refl, refl), tt))
  new_logger-Inv true false s opened h = absurd (cc h)
  new_logger-Inv false makes s opened h = absurd (cc h)

  -- In every history of a logger that New has made, each message is handled over a consumer that had
  -- been connected, after postgres and nsqd had answered, the highlights had been asked for and the
  -- listener was up, and before the producer is stopped or the database closed; and when main waits
  -- for its signal, every topic is consumed.
  pub run-IsServed :
      (opens makes : Bool) (s : Logger) (opened : List Call) (es : List Event)
      → new_logger opens makes ≡ (opened, some s)
      → let last = run order es s in
        IsServed last.calls × IsComplete order last.stage last.consumers
  run-IsServed opens makes s opened es h =
      let last = run order es s in
      let first = new_logger-Inv opens makes s opened h in
      let inv = run-Inv es s first.0 first.1 in
      (inv.1, Stand-IsComplete last.stage last.consumers last.calls inv.0)
