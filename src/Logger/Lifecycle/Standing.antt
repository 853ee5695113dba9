-- ===== src/Logger/Lifecycle/Standing.antt =====
-- What has happened by each stage of the logger.
use lierc.Base.{
  ap, Bool, true, false, ◌||◌, List, [], ◌∷◌, ◌++◌, Option, some, ◌≡◌, refl, sym, ◌∙◌, arith, Text,
  text_eq, text_eq_iff, text_eq_refl, All, Bool-cases, inl, inr, append-nil,
}
use mathlib.Core.Path.{subst}
use lierc.Logger.{one_of}
use lierc.Logger.Lifecycle.{
  Call, db_answered, nsqd_answered, highlights_read, listened, subscribed, handled,
  producer_stopped, db_closed, Stage, pinging_db, pinging_nsqd, loading, listening, making,
  connecting, ready, stopping, draining, Logger, next_topic, next_drain,
}
use lierc.Logger.Lifecycle.Running.{Among, Live}

abbrev pub any : (Call → Bool) → List Call → Bool
any f [] = false
any f (c ∷ cs) = f c || any f cs

abbrev pub is_db_answered : Call → Bool
is_db_answered db_answered = true
is_db_answered _ = false

abbrev pub is_nsqd_answered : Call → Bool
is_nsqd_answered nsqd_answered = true
is_nsqd_answered _ = false

abbrev pub is_read : Call → Bool
is_read highlights_read = true
is_read _ = false

abbrev pub is_listened : Call → Bool
is_listened listened = true
is_listened _ = false

abbrev pub is_subscribed : Text → Call → Bool
is_subscribed t (subscribed u) = text_eq t u
is_subscribed t _ = false

-- The producer or the database is shut.
abbrev pub is_shut : Call → Bool
is_shut producer_stopped = true
is_shut db_closed = true
is_shut _ = false

-- What is up before anything is consumed, and not shut.
abbrev pub IsUp : List Call → Type 0
IsUp calls =
    (any is_db_answered calls ≡ true)
    × (any is_nsqd_answered calls ≡ true)
    × (any is_read calls ≡ true)
    × (any is_listened calls ≡ true)
    × (any is_shut calls ≡ false)

-- Of calls, the newest first: each handled message came in over a consumer that had been connected,
-- when all was up.
abbrev pub IsServed : List Call → Type 0
IsServed [] = Unit
IsServed (handled t ∷ earlier) =
    (IsUp earlier × (any (is_subscribed t) earlier ≡ true)) × IsServed earlier
IsServed (_ ∷ earlier) = IsServed earlier

-- When main waits for its signal, every topic is consumed.
abbrev pub IsComplete : List Text → Stage → List Text → Type 0
IsComplete order ready consumers = consumers ≡ order
IsComplete order _ consumers = Unit

abbrev pub Subscribed : List Text → List Call → Type 0
Subscribed ts calls = All (λ (t : Text). any (is_subscribed t) calls ≡ true) ts

abbrev pub Stand : List Text → Stage → List Text → List Call → Type 0
Stand order pinging_db consumers calls = (any is_shut calls ≡ false) × (consumers ≡ [])
Stand order pinging_nsqd consumers calls =
    (any is_db_answered calls ≡ true) × (any is_shut calls ≡ false) × (consumers ≡ [])
Stand order loading consumers calls =
    (any is_db_answered calls ≡ true)
    × (any is_nsqd_answered calls ≡ true)
    × (any is_shut calls ≡ false)
    × (consumers ≡ [])
Stand order listening consumers calls =
    (any is_db_answered calls ≡ true)
    × (any is_nsqd_answered calls ≡ true)
    × (any is_read calls ≡ true)
    × (any is_shut calls ≡ false)
    × (consumers ≡ [])
Stand order (making t ts) consumers calls =
    IsUp calls × Subscribed consumers calls × (consumers ++ t ∷ ts ≡ order)
Stand order (connecting t ts) consumers calls =
    IsUp calls × Subscribed consumers calls × (consumers ++ t ∷ ts ≡ order)
Stand order ready consumers calls = IsUp calls × Subscribed consumers calls × (consumers ≡ order)
Stand order stopping consumers calls = IsUp calls × Subscribed consumers calls
Stand order (draining t ts) consumers calls = IsUp calls × Subscribed (t ∷ ts) calls
Stand order _ consumers calls = Unit

abbrev pub Inv : List Text → Logger → Type 0
Inv order s = Stand order s.stage s.consumers s.calls × IsServed s.calls

one_of-Subscribed :
    (t : Text) (ts : List Text) (calls : List Call)
    → Subscribed ts calls
    → one_of t ts ≡ true
    → any (is_subscribed t) calls ≡ true
one_of-Subscribed t [] calls h e = absurd (cc e)
one_of-Subscribed t (u ∷ us) calls h e = elim (Bool-cases (text_eq t u)) [
  | inl same ↦ subst (λ v. any (is_subscribed v) calls ≡ true) (sym ((text_eq_iff t u).0 same)) h.0
  | inr other ↦ one_of-Subscribed t us calls h.1 (rw other at e)
]

pub some_inj : (a b : Logger) → ◌≡◌ {A = Option Logger} (some a) (some b) → a ≡ b
some_inj a b h = cc h

-- A message handled meanwhile changes nothing of where the logger stands.
pub handled-Stand :
    (order : List Text) (stage : Stage) (consumers : List Text) (calls : List Call) (t : Text)
    → Stand order stage consumers calls
    → Stand order stage consumers (handled t ∷ calls)
handled-Stand order pinging_db consumers calls t h = h
handled-Stand order _ consumers calls t h = h

-- The consumers whose handlers may run.
abbrev live : Stage → List Text → List Text
live (making t ts) consumers = consumers
live (connecting t ts) consumers = consumers
live ready consumers = consumers
live stopping consumers = consumers
live (draining t ts) consumers = t ∷ ts
live _ consumers = []

one_of-Among :
    (t : Text) (running ts : List Text)
    → Among running ts
    → one_of t running ≡ true
    → one_of t ts ≡ true
one_of-Among t [] ts h e = absurd (cc e)
one_of-Among t (r ∷ rs) ts h e = elim (Bool-cases (text_eq t r)) [
  | inl same ↦ subst (λ v. one_of v ts ≡ true) (sym ((text_eq_iff t r).0 same)) h.0
  | inr other ↦ one_of-Among t rs ts h.1 (rw other at e)
]

same_one_of :
    (t : Text) (running ts : List Text)
    → running ≡ ts
    → one_of t running ≡ true
    → one_of t ts ≡ true
same_one_of t running ts e h = sym (ap (one_of t) e) ∙ h

pub Live-live :
    (stage : Stage) (consumers running : List Text) (t : Text)
    → Live stage consumers running
    → one_of t running ≡ true
    → one_of t (live stage consumers) ≡ true
Live-live (making u us) consumers running t h e = same_one_of t running consumers h e
Live-live (connecting u us) consumers running t h e = same_one_of t running consumers h e
Live-live ready consumers running t h e = same_one_of t running consumers h e
Live-live stopping consumers running t h e = same_one_of t running consumers h e
Live-live (draining u us) consumers running t h e = one_of-Among t running (u ∷ us) h e
Live-live pinging_db consumers running t h e = same_one_of t running [] h.0 e
Live-live pinging_nsqd consumers running t h e = same_one_of t running [] h.0 e
Live-live loading consumers running t h e = same_one_of t running [] h.0 e
Live-live listening consumers running t h e = same_one_of t running [] h.0 e
Live-live _ consumers running t h e = same_one_of t running [] h e

pub live-IsUp :
    (order : List Text) (stage : Stage) (consumers : List Text) (calls : List Call) (t : Text)
    → Stand order stage consumers calls
    → one_of t (live stage consumers) ≡ true
    → IsUp calls × (any (is_subscribed t) calls ≡ true)
live-IsUp order (making u us) consumers calls t h e =
    (h.0, one_of-Subscribed t consumers calls h.1 e)
live-IsUp order (connecting u us) consumers calls t h e =
    (h.0, one_of-Subscribed t consumers calls h.1 e)
live-IsUp order ready consumers calls t h e = (h.0, one_of-Subscribed t consumers calls h.1 e)
live-IsUp order stopping consumers calls t h e = (h.0, one_of-Subscribed t consumers calls h.1 e)
live-IsUp order (draining u us) consumers calls t h e =
    (h.0, one_of-Subscribed t (u ∷ us) calls h.1 e)
live-IsUp order pinging_db consumers calls t h e = absurd (cc e)
live-IsUp order _ consumers calls t h e = absurd (cc e)

pub next_topic-Stand :
    (order ts consumers : List Text) (calls : List Call)
    → IsUp calls
    → Subscribed consumers calls
    → consumers ++ ts ≡ order
    → Stand order (next_topic ts) consumers calls
next_topic-Stand order [] consumers calls up subs e = (up, subs, sym (append-nil consumers) ∙ e)
next_topic-Stand order (t ∷ ts) consumers calls up subs e = (up, subs, e)

pub next_drain-Stand :
    (order ts consumers : List Text) (calls : List Call)
    → IsUp calls
    → Subscribed ts calls
    → Stand order (next_drain ts) consumers calls
next_drain-Stand order [] consumers calls up subs = tt
next_drain-Stand order (t ∷ ts) consumers calls up subs = (up, subs)

pub subscribed-Subscribed :
    (ts consumers : List Text) (calls : List Call) (t : Text)
    → Subscribed consumers calls
    → Subscribed (consumers ++ t ∷ []) (subscribed t ∷ calls)
subscribed-Subscribed ts [] calls t h = (rw (text_eq_refl t) refl, tt)
subscribed-Subscribed ts (u ∷ us) calls t h =
    (ground (arith, h.0), subscribed-Subscribed ts us calls t h.1)
