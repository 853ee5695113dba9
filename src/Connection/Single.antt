-- ===== src/Connection/Single.antt =====
-- A client has one connection attempt at a time.
use lierc.Base.{
  ℕ, zero, suc, ◌+◌, ◌≤◌, ◌<◌, List, [], ◌∷◌, ◌++◌, Option, some, true, Text, ◌≡◌, refl, arith, inl,
  inr, length, length-append, ◌||◌, Option-cases, Bool-cases, not, is_nil, sym, ap, ◌∙◌, All,
  All-append,
}
use mathlib.Core.Path.{subst}
use mathlib.Core.Option.{some-injective}
use lierc.Client.{Conn}
use lierc.Config.{IrcConfig}
use lierc.Connection.{
  Attempts, Ending, reporting, deciding, closing, connect, on_connected, finish_setup, set_status,
  send_status, start, new_irc_client, is_conn, begin_attempt,
}
use lierc.Connection.Endings.{advance, decide, destroy, destroy_timeout, destroy_end, stop_timer}
use lierc.Events.Nick.{give_up, stop}
use lierc.Connection.Steps.{
  Op, expires, connects, connected, registers, ends, advances, welcomes, gives_up, stops, destroys,
  times_out, destroyed, take_out, expire, resume, advance_call, step, run, may_connect,
}
use lierc.Connection.Phase.{
  has_conn, planned, IsOpen, Phase, Inv, length-take_out, All-take_out, fresh-open, still_begun,
  length-stop_timer-le, All-stop_timer, PhaseOf, too_many, end_attempt-Inv, none_planned,
}

-- A timer's function starts: what was planned is planned.
expire-Phase :
    (es : List Ending) (d : ℕ) (rest : List ℕ) (i : ℕ) (a : Attempts)
    → take_out i a.timers ≡ some (d, rest)
    → PhaseOf es a
    → Phase es a.client.conn a.client.attempt_done rest (a.waiting ++ some d ∷ []) a.begun a.closed
expire-Phase [] d rest i a out h =
    let one = length-take_out i a.timers rest d out in
    (omega (arith, one, h.0, length-append a.waiting (some d ∷ [])), h.1)
expire-Phase (reporting sock d' msg ∷ []) d rest i a out h =
    let one = length-take_out i a.timers rest d out in absurd (omega (arith, one, h.0))
expire-Phase (deciding d' ∷ []) d rest i a out h =
    let one = length-take_out i a.timers rest d out in absurd (omega (arith, one, h.0))
expire-Phase (closing d' ∷ []) d rest i a out h =
    let one = length-take_out i a.timers rest d out in
    let parts = All-take_out (λ (t : ℕ). t ≡ d') i a.timers rest d out h.2.0 in
    (
      h.0,
      omega (arith, one, h.1, length-append a.waiting (some d ∷ [])),
      (parts.1, All-append _ a.waiting (some d ∷ []) h.2.1 (ap (λ n. some n) parts.0, tt)),
      h.3,
    )
expire-Phase (e ∷ f ∷ es) d rest i a out h = absurd (cc (too_many e f es a h))

expire-Inv : (i : ℕ) (a : Attempts) → Inv a → Inv (expire (take_out i a.timers) a)
unfolding expire
expire-Inv i a inv = elim (Option-cases (take_out i a.timers)) [
  | inl e ↦ rw e inv
  | inr ((d, rest), e) ↦ rw e (expire-Phase a.endings d rest i a e inv.0, inv.1)
]

-- The function of a timer or of Start that goes on to connect.
begun-Inv :
    (es : List Ending) (conn : Conn) (w : Option ℕ) (rest : List (Option ℕ)) (i : ℕ) (a : Attempts)
    → take_out i a.waiting ≡ some (w, rest)
    → may_connect w a.closed ≡ true
    → a.endings ≡ es
    → Inv a
    → Inv (connect conn (record a { waiting = rest }))
unfolding connect begin_attempt may_connect
begun-Inv [] conn w rest i a out may at inv =
    let one = length-take_out i a.waiting rest w out in
    let q = rw at at inv.0 in
    elim (Bool-cases a.client.quitting) [
      | inl e ↦ rw (e, at) ((omega (arith, one, q.0), q.1), inv.1)
      | inr e ↦
          rw (e, at)
            (
              (
                omega (arith, one, q.0),
                λ d _ is.
                    subst (λ n. IsOpen n (a.begun + 1) a.closed) (some-injective _ _ is)
                      (omega arith, fresh-open a.begun a.closed inv.1),
              ),
              still_begun a.begun a.closed inv.1,
            )
    ]
begun-Inv (reporting sock d msg ∷ []) conn w rest i a out may at inv =
    let one = length-take_out i a.waiting rest w out in
    let q = rw at at inv.0 in absurd (omega (arith, one, q.0))
begun-Inv (deciding d ∷ []) conn w rest i a out may at inv =
    let one = length-take_out i a.waiting rest w out in
    let q = rw at at inv.0 in absurd (omega (arith, one, q.0))
begun-Inv (closing d ∷ []) conn w rest i a out may at inv =
    let q = rw at at inv.0 in
    let parts = All-take_out (λ (v : Option ℕ). v ≡ some d) i a.waiting rest w out q.2.1 in
    absurd (cc (sym q.3.1 ∙ ap (λ v. may_connect v a.closed) (sym parts.0) ∙ may))
begun-Inv (e ∷ f ∷ es) conn w rest i a out may at inv =
    absurd (cc (too_many e f es a (rw at at inv.0)))

resume-Inv :
    (i : ℕ) (conn : Conn) (a : Attempts) → Inv a → Inv (resume conn (take_out i a.waiting) a)
unfolding resume
resume-Inv i conn a inv = elim (Option-cases (take_out i a.waiting)) [
  | inl e ↦ rw e inv
  | inr ((w, rest), e) ↦ elim (Bool-cases (may_connect w a.closed)) [
    | inl may ↦ rw (e, resume) (rw may (begun-Inv a.endings conn w rest i a e may refl inv))
    | inr may ↦ rw (e, resume) (rw may inv)
  ]
]

destroy-Phase :
    (es : List Ending) (a : Attempts)
    → PhaseOf es a
    → Phase es a.client.conn a.client.attempt_done
        (stop_timer a.timer a.timers)
        a.waiting
        a.begun
        a.closed
destroy-Phase [] a h = (omega (arith, h.0, length-stop_timer-le a.timer a.timers), h.1)
destroy-Phase (reporting sock d msg ∷ []) a h =
    (omega (arith, h.0, length-stop_timer-le a.timer a.timers), h.1)
destroy-Phase (deciding d ∷ []) a h =
    (omega (arith, h.0, length-stop_timer-le a.timer a.timers), h.1)
destroy-Phase (closing d ∷ []) a h = (
  h.0,
  omega (arith, h.1, length-stop_timer-le a.timer a.timers),
  (All-stop_timer _ a.timer a.timers h.2.0, h.2.1),
  h.3,
)
destroy-Phase (e ∷ f ∷ es) a h = absurd (cc (too_many e f es a h))

on_connected-Inv : (n sock : ℕ) (a : Attempts) → Inv a → Inv (on_connected n sock a)
unfolding on_connected set_status send_status
on_connected-Inv n sock a inv =
    elim (Bool-cases (not (is_conn n a.client.conn) || a.client.quitting)) [
      | inl e ↦ rw e inv
      | inr e ↦ rw e inv
    ]

finish_setup-Inv : (n : ℕ) (a : Attempts) → Inv a → Inv (finish_setup n a)
unfolding finish_setup
finish_setup-Inv n a inv = elim (Bool-cases (is_conn n a.client.conn)) [
  | inl e ↦ rw e inv
  | inr e ↦ rw e inv
]

module _ (duration : ℕ → Text) where
  decide-Inv :
      (now d : ℕ) (a : Attempts)
      → a.endings ≡ []
      → has_conn a.client.conn + planned a ≡ 0
      → IsOpen d a.begun a.closed
      → All (λ (d : ℕ). d < a.begun) a.closed
      → Inv (decide duration now d a)
  unfolding decide set_status send_status
  decide-Inv now d a at free unclosed below =
      let none_yet =
        none_planned (λ t. t ≡ d) (λ w. w ≡ some d) a.timers a.waiting (omega (arith, free)) in
      elim (Bool-cases (a.client.quitting || not (is_nil a.client.stopped))) [
        | inl e ↦ rw (e, at) ((omega (arith, free), omega (arith, free), none_yet, unclosed), below)
        | inr e ↦
            rw (e, at)
              (
                (
                  omega (arith, free),
                  omega (arith, free, length-append a.timers (d ∷ [])),
                  (All-append _ a.timers (d ∷ []) none_yet.0 (refl, tt), none_yet.1),
                  unclosed,
                ),
                below,
              )
      ]

  advance-Inv :
      (now : ℕ) (e : Ending) (a : Attempts)
      → a.endings ≡ []
      → PhaseOf (e ∷ []) a
      → All (λ (d : ℕ). d < a.begun) a.closed
      → Inv (advance duration now e a)
  unfolding advance set_status send_status
  advance-Inv now (reporting sock d msg) a at h below = rw at (h, below)
  advance-Inv now (deciding d) a at h below = decide-Inv now d a at h.0 h.1 below
  advance-Inv now (closing d) a at h below = rw at (
    (omega (arith, h.0, h.1), λ d' has _. absurd (omega (arith, h.0, has))),
    All-append _ a.closed (d ∷ []) below (h.3.0, tt),
  )

  advance_call-Inv :
      (es : List Ending) (i now : ℕ) (a : Attempts)
      → a.endings ≡ es
      → Inv a
      → Inv (advance_call duration now (take_out i es) a)
  unfolding advance_call take_out
  advance_call-Inv [] i now a at inv = inv
  advance_call-Inv (e ∷ []) zero now a at inv =
      advance-Inv now e (record a { endings = [] }) refl (rw at at inv.0) inv.1
  advance_call-Inv (e ∷ []) (suc i) now a at inv = inv
  advance_call-Inv (e ∷ f ∷ es) i now a at inv = absurd (cc (too_many e f es a (rw at at inv.0)))

  step-Inv : (op : Op) (a : Attempts) → Inv a → Inv (step duration op a)
  unfolding step give_up stop destroy send_status destroy_timeout destroy_end
  step-Inv (expires i) a inv = expire-Inv i a inv
  step-Inv (connects i conn) a inv = resume-Inv i conn a inv
  step-Inv (connected n sock) a inv = on_connected-Inv n sock a inv
  step-Inv (registers n) a inv = finish_setup-Inv n a inv
  step-Inv (ends n msg) a inv = end_attempt-Inv n msg a inv
  step-Inv (advances i now) a inv = advance_call-Inv a.endings i now a refl inv
  step-Inv (welcomes now) a inv = inv
  step-Inv (gives_up reason) a inv = inv
  step-Inv (stops first rest) a inv = inv
  step-Inv destroys a inv = (destroy-Phase a.endings a inv.0, inv.1)
  step-Inv times_out a inv = inv
  step-Inv destroyed a inv = inv

  run-Inv : (ops : List Op) (a : Attempts) → Inv a → Inv (run duration ops a)
  unfolding run
  run-Inv [] a inv = inv
  run-Inv (op ∷ ops) a inv = run-Inv ops (step duration op a) (step-Inv op a inv)

-- One attempt at a time.
abbrev pub IsSingle : Attempts → Type 0
IsSingle a =
    (has_conn a.client.conn + length a.endings ≤ 1) × (has_conn a.client.conn + planned a ≤ 1)

Phase-IsSingle : (es : List Ending) (a : Attempts) → a.endings ≡ es → PhaseOf es a → IsSingle a
Phase-IsSingle [] a at h = rw at (omega (arith, h.0), h.0)
Phase-IsSingle (reporting sock d msg ∷ []) a at h = rw at (omega (arith, h.0), omega (arith, h.0))
Phase-IsSingle (deciding d ∷ []) a at h = rw at (omega (arith, h.0), omega (arith, h.0))
Phase-IsSingle (closing d ∷ []) a at h = rw at (omega (arith, h.0), omega (arith, h.0, h.1))
Phase-IsSingle (e ∷ f ∷ es) a at h = absurd (cc (too_many e f es a h))

module _ (duration : ℕ → Text) where
  -- In every history of a client that was started, the current connection and the calls of
  -- endAttempt that are not over are together at most one, and so are the current connection, the
  -- timers, and the goroutines that wait to connect: a next attempt that is planned while endAttempt
  -- is not over does not begin before it is.
  pub alive-run-start :
      (ops : List Op) (config : IrcConfig) (id hostname : Text)
      → IsSingle (run duration ops (start config id hostname))
  unfolding start new_irc_client
  alive-run-start ops config id hostname =
      let a = run duration ops (start config id hostname) in
      let first : Inv (start config id hostname) =
        ((omega arith, λ d has _. absurd (omega (arith, has))), tt) in
      Phase-IsSingle a.endings a refl (run-Inv duration ops (start config id hostname) first).0
