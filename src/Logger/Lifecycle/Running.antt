-- ===== src/Logger/Lifecycle/Running.antt =====
-- Whose handlers the logger runs, by its stage.
use lierc.Base.{
  Bool, true, false, not, List, [], ◌∷◌, ◌++◌, Option, ◌≡◌, refl, sym, ap, ◌∙◌, arith,
  if◌then◌else◌, keep, Text, Map, text_eq, text_eq_iff, text_eq_refl, All, Bool-cases, inl, inr,
}
use mathlib.Core.Path.{subst}
use lierc.Logger.{one_of}
use lierc.Logger.Highlights.{Regexps, reload}
use lierc.Logger.Lifecycle.{
  Stage, pinging_db, pinging_nsqd, loading, listening, making, connecting, ready, stopping,
  draining, stopping_producer, closing_listener, closing_db, ended, Logger, Attempt, worked,
  stopped, waited, retry, try, Event, answers, reads, handles, finishes, signalled, signal, finish,
  answer, read_highlights, step, next_topic, next_drain,
}

-- Each of these consumers is among those.
abbrev pub Among : List Text → List Text → Type 0
Among running ts = All (λ (r : Text). one_of r ts ≡ true) running

-- Whose handlers run.
abbrev pub Live : Stage → List Text → List Text → Type 0
Live (making t ts) consumers running = running ≡ consumers
Live (connecting t ts) consumers running = running ≡ consumers
Live ready consumers running = running ≡ consumers
Live stopping consumers running = running ≡ consumers
Live (draining t ts) consumers running = Among running (t ∷ ts)
Live pinging_db consumers running = (running ≡ []) × (consumers ≡ [])
Live pinging_nsqd consumers running = (running ≡ []) × (consumers ≡ [])
Live loading consumers running = (running ≡ []) × (consumers ≡ [])
Live listening consumers running = (running ≡ []) × (consumers ≡ [])
Live _ consumers running = running ≡ []

abbrev pub LiveOf : Logger → Type 0
LiveOf s = Live s.stage s.consumers s.running

next_topic-Live :
    (ts consumers running : List Text)
    → running ≡ consumers
    → Live (next_topic ts) consumers running
next_topic-Live [] consumers running e = e
next_topic-Live (t ∷ ts) consumers running e = e

Among-cons : (running ts : List Text) (t : Text) → Among running ts → Among running (t ∷ ts)
Among-cons [] ts t h = tt
Among-cons (r ∷ rs) ts t h = (ground (arith, h.0), Among-cons rs ts t h.1)

Among-refl : (ts : List Text) → Among ts ts
Among-refl [] = tt
Among-refl (t ∷ ts) = (rw (text_eq_refl t) refl, Among-cons ts ts t (Among-refl ts))

next_drain-Live :
    (ts consumers running : List Text) → Among running ts → Live (next_drain ts) consumers running
next_drain-Live [] consumers [] h = refl
next_drain-Live [] consumers (r ∷ rs) h = absurd (cc h.0)
next_drain-Live (t ∷ ts) consumers running h = h

-- Those that run are among the rest, once the first one does not.
drop_first :
    (t : Text) (ts running : List Text)
    → one_of t running ≡ false
    → Among running (t ∷ ts)
    → Among running ts
drop_first t ts [] off h = tt
drop_first t ts (r ∷ rs) off h = (
  ground (arith, h.0, text_eq_iff t r, text_eq_iff r t, off),
  drop_first t ts rs (ground (arith, off)) h.1,
)

keep-Among :
    (f : Text → Bool) (running ts : List Text) → Among running ts → Among (keep f running) ts
keep-Among f [] ts h = tt
keep-Among f (r ∷ rs) ts h = elim (Bool-cases (f r)) [
  | inl e ↦ rw e (h.0, keep-Among f rs ts h.1)
  | inr e ↦ rw e (keep-Among f rs ts h.1)
]

module _ ⦃re : Regexps⦄ (order : List Text) where
  retry-Live : (a : Attempt) (next s : Logger) → LiveOf next → LiveOf s → LiveOf (retry a next s)
  unfolding retry
  retry-Live worked next s h k = h
  retry-Live stopped next s h k = refl
  retry-Live waited next s h k = k

  try-Live : (a : Attempt) (next s : Logger) → LiveOf next → LiveOf (try a next s)
  unfolding try
  try-Live worked next s h = h
  try-Live stopped next s h = refl
  try-Live waited next s h = refl

  answer-Live :
      (stage : Stage) (a : Attempt) (s : Logger)
      → Live stage s.consumers s.running
      → LiveOf s
      → LiveOf (answer order stage a s)
  unfolding answer
  answer-Live pinging_db a s h live = retry-Live a _ s h live
  answer-Live pinging_nsqd a s h live = retry-Live a _ s h live
  answer-Live loading a s h live = live
  answer-Live listening a s h live =
      try-Live a _ s (next_topic-Live order s.consumers s.running (h.0 ∙ sym h.1))
  answer-Live (making t ts) a s h live = try-Live a _ s h
  answer-Live (connecting t ts) a s h live =
      retry-Live a _ s
        (next_topic-Live ts (s.consumers ++ t ∷ []) (s.running ++ t ∷ [])
          (ap (λ rs. rs ++ t ∷ []) h))
        live
  answer-Live ready a s h live = live
  answer-Live stopping a s h live =
      next_drain-Live s.consumers s.consumers s.running
        (subst (λ rs. Among rs s.consumers) (sym h) (Among-refl s.consumers))
  answer-Live (draining t ts) a s h live = elim (Bool-cases (one_of t s.running)) [
    | inl e ↦ rw e live
    | inr e ↦ rw e (next_drain-Live ts s.consumers s.running (drop_first t ts s.running e h))
  ]
  answer-Live stopping_producer a s h live = h
  answer-Live closing_listener a s h live = elim (Bool-cases s.listener) [
    | inl e ↦ rw e h
    | inr e ↦ rw e h
  ]
  answer-Live closing_db a s h live = h
  answer-Live ended a s h live = live

  reread-Live :
      (configs : Option (Map Text)) (s : Logger)
      → LiveOf s
      → LiveOf (if s.listener then record s { highlights = reload configs s.highlights } else s)
  reread-Live configs s live = elim (Bool-cases s.listener) [
    | inl e ↦ rw e live
    | inr e ↦ rw e live
  ]

  read_highlights-Live :
      (stage : Stage) (configs : Option (Map Text)) (s : Logger)
      → Live stage s.consumers s.running
      → LiveOf s
      → LiveOf (read_highlights order stage configs s)
  unfolding read_highlights
  read_highlights-Live loading configs s h live = h
  read_highlights-Live ended configs s h live = live
  read_highlights-Live _ configs s h live = reread-Live configs s live

  signal-Live :
      (stage : Stage) (s : Logger)
      → Live stage s.consumers s.running
      → LiveOf s
      → LiveOf (signal stage s)
  unfolding signal
  signal-Live ready s h live = h
  signal-Live _ s h live = live

  finish-Live :
      (stage : Stage) (t : Text) (s : Logger)
      → s.stage ≡ stage
      → LiveOf s
      → LiveOf (finish stage t s)
  unfolding finish
  finish-Live (draining u us) t s at live = rw at (
      keep-Among (λ r. not (text_eq t r)) s.running (u ∷ us)
        (subst (λ k. Live k s.consumers s.running) at live))
  finish-Live _ t s at live = live

  pub step-Live : (e : Event) (s : Logger) → LiveOf s → LiveOf (step order e s)
  unfolding step
  step-Live (answers a) s live = answer-Live s.stage a s live live
  step-Live (reads configs) s live = read_highlights-Live s.stage configs s live live
  step-Live (handles t) s live = elim (Bool-cases (one_of t s.running)) [
    | inl e ↦ rw e live
    | inr e ↦ rw e live
  ]
  step-Live (finishes t) s live = finish-Live s.stage t s refl live
  step-Live signalled s live = signal-Live s.stage s live live
