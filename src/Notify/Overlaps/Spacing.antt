-- ===== src/Notify/Overlaps/Spacing.antt =====
-- How long a user is left alone, where Sends overlap.
use lierc.Base.{
  ℕ, ◌+◌, ◌≤◌, ◌<◌, Bool, true, false, ◌||◌, List, [], ◌∷◌, Option, none, some, ◌≡◌, refl, ap, ◌∙◌,
  arith, Text, Map, lookup, insert, text_eq, ltb, lookup-insert, text_eq_refl, All, All-append,
  Bool-cases, inl, inr,
}
use lierc.Connection.Steps.{take_out}
use lierc.Notify.{NotifierConfig, limit_of, rate_limit, user_rate_limit}
use lierc.Notify.Sending.{Effect, send_now, email_effects}
use lierc.Notify.Limits.{Job, Sent, waits}
use lierc.Notify.Overlaps.{
  Begun, Sends, new_sends, begun_by, begin_if, settle, Op, begins, ends, finish, step, run,
}

All-weaken {ℓ} :
    {A : Type ℓ} (P Q : A → Type 0) (xs : List A) → ((a : A) → P a → Q a) → All P xs → All Q xs
All-weaken P Q [] f h = tt
All-weaken P Q (x ∷ xs) f h = (f x h.0, All-weaken P Q xs f h.1)

-- Two facts about each element make a third.
All-zip {ℓ} :
    {A : Type ℓ} (P Q R : A → Type 0) (xs : List A)
    → ((a : A) → P a → Q a → R a)
    → All P xs
    → All Q xs
    → All R xs
All-zip P Q R [] f h k = tt
All-zip P Q R (x ∷ xs) f h k = (f x h.0 k.0, All-zip P Q R xs f h.1 k.1)

-- The time noted for a user is not before the end of any Send to the user.
abbrev Noted : Map ℕ → Sent → Type 0
Noted last s = (ts : ℕ) × (lookup s.user last ≡ some ts) × (s.ended ≤ ts)

insert-Noted :
    (user : Text) (time clock : ℕ) (last : Map ℕ) (t : Sent)
    → clock ≤ time
    → Noted last t
    → t.ended ≤ clock
    → Noted (insert user time last) t
insert-Noted user time clock last t later n past = elim (Bool-cases (text_eq user t.user)) [
  | inl same ↦
      (time, lookup-insert user t.user time last ∙ rw same refl, omega (arith, later, past))
  | inr other ↦ (n.0, lookup-insert user t.user time last ∙ rw other n.1, n.2)
]

module _ (path_escape : Text → Text) (c : NotifierConfig) where
  -- A Send to the user that the user's limit let pass after `s` had ended was so once the limit was over.
  abbrev pub Apart : Sent → Begun → Type 0
  Apart s b = b.user ≡ s.user → s.ended < b.began → s.ended + limit_of c ≤ b.began

  record Inv (s : Sends) : Type 0 where
    noted : All (Noted s.last) s.done
    past : All (λ (t : Sent). t.ended ≤ s.clock) s.done
    begun_past : All (λ (b : Begun). b.began ≤ s.clock) s.begun
    apart : All (λ (t : Sent). All (Apart t) s.begun) s.done

  clears :
      (j : Job) (last : Map ℕ) (t : Sent)
      → user_rate_limit c last j.note.user j.trip.now ≡ false
      → Noted last t
      → Apart t (begun_by j)
  clears j last t h n = λ same early.
      let late =
        waits path_escape c last j.note.user j.trip.now n.0 h
          (ap (λ u. lookup u last) same ∙ n.1) in
      omega (arith, late, n.2)

  begin-Inv :
      (held : Bool) (j : Job) (s : Sends)
      → s.clock ≤ j.trip.now
      → rate_limit c s.last j.note.user j.trip.now j.trip.reserved ≡ held
      → Inv s
      → Inv (begin_if held j s)
  unfolding begin_if rate_limit
  begin-Inv true j s later h inv = record {
    noted = inv.noted;
    past = All-weaken _ _ s.done (λ (t : Sent) p. omega (arith, p, later)) inv.past;
    begun_past = All-weaken _ _ s.begun (λ (b : Begun) p. omega (arith, p, later)) inv.begun_past;
    apart = inv.apart;
  }
  begin-Inv false j s later h inv = record {
    noted = inv.noted;
    past = All-weaken _ _ s.done (λ (t : Sent) p. omega (arith, p, later)) inv.past;
    begun_past =
        All-append _ s.begun (begun_by j ∷ [])
          (All-weaken _ _ s.begun (λ (b : Begun) p. omega (arith, p, later)) inv.begun_past)
          (omega arith, tt);
    apart =
        All-zip _ _ _ s.done
          (λ (t : Sent) n a.
            All-append _ s.begun (begun_by j ∷ []) a (clears j s.last t (ground arith) n, tt))
          inv.noted inv.apart;
  }

  finish-Inv :
      (time : ℕ) (j : Job) (rest : List Job) (effects : Option (List Effect)) (s : Sends)
      → s.clock ≤ time
      → Inv s
      → Inv
          (settle time j rest (send_now (record (j.trip) { ended = time }) j.note effects s.last) s)
  unfolding settle send_now
  finish-Inv time j rest none s later inv = record {
    noted = inv.noted;
    past = All-weaken _ _ s.done (λ (t : Sent) p. omega (arith, p, later)) inv.past;
    begun_past = All-weaken _ _ s.begun (λ (b : Begun) p. omega (arith, p, later)) inv.begun_past;
    apart = inv.apart;
  }
  finish-Inv time j rest (some es) s later inv =
      let new : Sent = record { user = j.note.user; began = j.trip.now; ended = time } in
      record {
        noted =
            All-append _ s.done (new ∷ [])
              (All-zip _ _ _ s.done
                (λ (t : Sent) n p. insert-Noted j.note.user time s.clock s.last t later n p)
                inv.noted inv.past)
              (
                (
                  time,
                  lookup-insert j.note.user j.note.user time s.last
                      ∙ rw (text_eq_refl j.note.user) refl,
                  omega arith,
                ),
                tt,
              );
        past =
            All-append _ s.done (new ∷ [])
              (All-weaken _ _ s.done (λ (t : Sent) p. omega (arith, p, later)) inv.past)
              (omega arith, tt);
        begun_past =
            All-weaken _ _ s.begun (λ (b : Begun) p. omega (arith, p, later)) inv.begun_past;
        apart = All-append _ s.done (new ∷ []) inv.apart (
          All-weaken _ _ s.begun
              (λ (b : Begun) p. λ same early. absurd (omega (arith, p, later, early)))
              inv.begun_past,
          tt,
        );
      }

  end-Inv :
      (time : ℕ) (found : Option (Job × List Job)) (s : Sends)
      → s.clock ≤ time
      → Inv s
      → Inv (finish path_escape c time found s)
  unfolding finish
  end-Inv time none s later inv = inv
  end-Inv time (some (j, rest)) s later inv =
      finish-Inv time j rest (email_effects path_escape c j.trip j.note) s later inv

  step-Inv : (op : Op) (s : Sends) → Inv s → Inv (step path_escape c op s)
  unfolding step
  step-Inv (begins j) s inv = elim (Bool-cases (s.crashed || ltb j.trip.now s.clock)) [
    | inl e ↦ rw e inv
    | inr e ↦ rw e (begin-Inv _ j s (ground arith) refl inv)
  ]
  step-Inv (ends i time) s inv = elim (Bool-cases (s.crashed || ltb time s.clock)) [
    | inl e ↦ rw e inv
    | inr e ↦ rw e (end-Inv time (take_out i s.active) s (ground arith) inv)
  ]

  run-Inv : (ops : List Op) (s : Sends) → Inv s → Inv (run path_escape c ops s)
  unfolding run
  run-Inv [] s inv = inv
  run-Inv (op ∷ ops) s inv = run-Inv ops (step path_escape c op s) (step-Inv op s inv)

  new-Inv : Inv new_sends
  unfolding new_sends
  new-Inv = record { noted = tt; past = tt; begun_past = tt; apart = tt }

  -- In every history of Sends that may overlap, whatever the limiter and the mail server do, one
  -- that UserRateLimit looks at after the end of another one to the same user, and lets pass, is
  -- looked at no sooner than the user rate limit after that end; how long it then sleeps for the
  -- limiter and mails is left open.
  pub run-Apart :
      (ops : List Op)
      → let s = run path_escape c ops new_sends in All (λ (t : Sent). All (Apart t) s.begun) s.done
  run-Apart ops = (run-Inv ops new_sends new-Inv).apart
