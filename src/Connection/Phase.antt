-- ===== src/Connection/Phase.antt =====
-- What of a client's attempts there can be at a time, and the lemmas of it on lists.
use lierc.Base.{
  ℕ, zero, suc, ◌+◌, ◌≤◌, ◌<◌, List, [], ◌∷◌, ◌++◌, Option, none, some, Bool, true, false, Text,
  ◌≡◌, refl, arith, inl, inr, length, length-keep-le, ◌==◌, Option-cases, Bool-cases, not, contains,
  keep, All,
}
use mathlib.Core.Path.{subst}
use mathlib.Core.Option.{some-injective}
use lierc.Client.{Conn}
use lierc.Connection.{Attempts, Ending, reporting, deciding, closing, is_conn}
use lierc.Connection.Endings.{end_attempt, end_current, swapped, stop_timer}
use lierc.Connection.Steps.{take_out}

abbrev pub has_conn : Option Conn → ℕ
has_conn none = 0
has_conn (some conn) = 1

-- The next attempts that are planned: timers, and goroutines that wait to connect.
abbrev pub planned : Attempts → ℕ
planned a = length a.timers + length a.waiting

-- The attempts of a client: the current connection, those that have still to end, and those planned.
abbrev pub alive : Attempts → ℕ
alive a = has_conn a.client.conn + (length a.endings + planned a)

-- What is planned waits for attemptDone `done`.
abbrev pub Waits : ℕ → List ℕ → List (Option ℕ) → Type 0
Waits attempt timers waiting =
    All (λ (t : ℕ). t ≡ attempt) timers × All (λ (w : Option ℕ). w ≡ some attempt) waiting

-- attemptDone `done` was made, and is not closed.
abbrev pub IsOpen : ℕ → ℕ → List ℕ → Type 0
IsOpen attempt begun closed = (attempt < begun) × (contains attempt closed ≡ false)

-- Where a client is, by the calls of endAttempt that are not over. An attempt that ends has left
-- nothing else, but for the next one, planned before its attemptDone is closed.
abbrev pub Phase :
    List Ending → Option Conn → Option ℕ → List ℕ → List (Option ℕ) → ℕ → List ℕ → Type 0
Phase [] conn attempt timers waiting begun closed =
    (has_conn conn + (length timers + length waiting) ≤ 1)
    × ((d : ℕ) → has_conn conn ≡ 1 → attempt ≡ some d → IsOpen d begun closed)
Phase (reporting sock d msg ∷ []) conn attempt timers waiting begun closed =
    (has_conn conn + (length timers + length waiting) ≡ 0) × IsOpen d begun closed
Phase (deciding d ∷ []) conn attempt timers waiting begun closed =
    (has_conn conn + (length timers + length waiting) ≡ 0) × IsOpen d begun closed
Phase (closing d ∷ []) conn attempt timers waiting begun closed =
    (has_conn conn ≡ 0)
    × (length timers + length waiting ≤ 1)
    × Waits d timers waiting
    × IsOpen d begun closed
Phase _ conn attempt timers waiting begun closed = ◌≡◌ {A = Bool} true false

-- Closed channels are of attempts that have begun.
abbrev pub Inv : Attempts → Type 0
Inv a =
    Phase a.endings a.client.conn a.client.attempt_done a.timers a.waiting a.begun a.closed
    × All (λ (d : ℕ). d < a.begun) a.closed

pub length-take_out {ℓ} :
    {A : Type ℓ} (i : ℕ) (xs rest : List A) (x : A)
    → take_out i xs ≡ some (x, rest)
    → length xs ≡ suc (length rest)
unfolding take_out
length-take_out i [] rest x e = ground arith
length-take_out zero (y ∷ ys) rest x e = ground arith
length-take_out (suc i) (y ∷ ys) rest x e = elim (Option-cases (take_out i ys)) [
  | inl n ↦ ground arith
  | inr ((z, zs), s) ↦ ground (arith, length-take_out i ys zs z s)
]

pub All-take_out {ℓ} :
    {A : Type ℓ} (P : A → Type 0) (i : ℕ) (xs rest : List A) (x : A)
    → take_out i xs ≡ some (x, rest)
    → All P xs
    → P x × All P rest
unfolding take_out
All-take_out P i [] rest x e h = absurd (cc e)
All-take_out P zero (y ∷ ys) rest x e h = subst (λ r. P r.0 × All P r.1) (some-injective _ _ e) h
All-take_out P (suc i) (y ∷ ys) rest x e h = elim (Option-cases (take_out i ys)) [
  | inl n ↦ absurd (cc (rw n at e))
  | inr ((z, zs), s) ↦
      let deeper = All-take_out P i ys zs z s h.1 in
      subst (λ r. P r.0 × All P r.1) (some-injective _ _ (rw s at e)) (deeper.0, (h.0, deeper.1))
]

pub fresh-open :
    (n : ℕ) (closed : List ℕ) → All (λ (d : ℕ). d < n) closed → contains n closed ≡ false
unfolding contains
fresh-open n [] h = refl
fresh-open n (d ∷ ds) h = ground (arith, h.0, fresh-open n ds h.1)

pub still_begun :
    (n : ℕ) (closed : List ℕ) → All (λ (d : ℕ). d < n) closed → All (λ (d : ℕ). d < n + 1) closed
still_begun n [] h = tt
still_begun n (d ∷ ds) h = (omega (arith, h.0), still_begun n ds h.1)

pub is_conn-has_conn : (n : ℕ) (conn : Option Conn) → is_conn n conn ≡ true → has_conn conn ≡ 1
unfolding is_conn
is_conn-has_conn n none h = ground arith
is_conn-has_conn n (some conn) h = refl

pub length-stop_timer-le :
    (timer : Option ℕ) (timers : List ℕ) → length (stop_timer timer timers) ≤ length timers
unfolding stop_timer
length-stop_timer-le none timers = omega arith
length-stop_timer-le (some t) timers = length-keep-le (λ timer. not (timer == t)) timers

All-keep : (P : ℕ → Type 0) (f : ℕ → Bool) (xs : List ℕ) → All P xs → All P (keep f xs)
All-keep P f [] h = tt
All-keep P f (x ∷ xs) h = elim (Bool-cases (f x)) [
  | inl e ↦ rw e (h.0, All-keep P f xs h.1)
  | inr e ↦ rw e (All-keep P f xs h.1)
]

pub All-stop_timer :
    (P : ℕ → Type 0) (timer : Option ℕ) (timers : List ℕ)
    → All P timers
    → All P (stop_timer timer timers)
unfolding stop_timer
All-stop_timer P none timers h = h
All-stop_timer P (some t) timers h = All-keep P (λ timer. not (timer == t)) timers h

-- Two calls of endAttempt are not under way at once.
crowded :
    (e f : Ending) (es : List Ending) (conn : Option Conn) (attempt : Option ℕ) (timers : List ℕ)
    (waiting : List (Option ℕ)) (begun : ℕ) (closed : List ℕ)
    → Phase (e ∷ f ∷ es) conn attempt timers waiting begun closed
    → ◌≡◌ {A = Bool} true false
crowded (reporting sock d msg) f es conn attempt timers waiting begun closed h = h
crowded (deciding d) f es conn attempt timers waiting begun closed h = h
crowded (closing d) f es conn attempt timers waiting begun closed h = h

abbrev pub PhaseOf : List Ending → Attempts → Type 0
PhaseOf es a = Phase es a.client.conn a.client.attempt_done a.timers a.waiting a.begun a.closed

pub too_many :
    (e f : Ending) (es : List Ending) (a : Attempts)
    → PhaseOf (e ∷ f ∷ es) a
    → ◌≡◌ {A = Bool} true false
too_many e f es a h =
    crowded e f es a.client.conn a.client.attempt_done a.timers a.waiting a.begun a.closed h

end_current-Inv :
    (es : List Ending) (attempt : Option ℕ) (msg : Text) (a : Attempts)
    → a.endings ≡ es
    → a.client.attempt_done ≡ attempt
    → has_conn a.client.conn ≡ 1
    → Inv a
    → Inv (end_current attempt msg a)
unfolding end_current
end_current-Inv es none msg a at is h inv = inv
end_current-Inv [] (some d) msg a at is h inv =
    let q = rw at at inv.0 in rw at ((omega (arith, q.0, h), q.1 d h is), inv.1)
end_current-Inv (reporting sock d' msg' ∷ []) (some d) msg a at is h inv =
    let q = rw at at inv.0 in absurd (omega (arith, q.0, h))
end_current-Inv (deciding d' ∷ []) (some d) msg a at is h inv =
    let q = rw at at inv.0 in absurd (omega (arith, q.0, h))
end_current-Inv (closing d' ∷ []) (some d) msg a at is h inv =
    let q = rw at at inv.0 in absurd (omega (arith, q.0, h))
end_current-Inv (e ∷ f ∷ es) (some d) msg a at is h inv =
    absurd (cc (too_many e f es a (rw at at inv.0)))

pub end_attempt-Inv : (n : ℕ) (msg : Text) (a : Attempts) → Inv a → Inv (end_attempt n msg a)
unfolding end_attempt
end_attempt-Inv n msg a inv =
    let a' = record a {
      client = record (a.client) { sender = swapped n a.client.sender };
      stopped_senders = a.stopped_senders ++ n ∷ [];
    } in
    elim (Bool-cases (is_conn n a.client.conn)) [
      | inl e ↦ rw e (
          end_current-Inv a.endings a.client.attempt_done msg a' refl refl
            (is_conn-has_conn n a.client.conn e) inv)
      | inr e ↦ rw e inv
    ]

pub none_planned :
    (P : ℕ → Type 0) (Q : Option ℕ → Type 0) (timers : List ℕ) (waiting : List (Option ℕ))
    → length timers + length waiting ≡ 0
    → All P timers × All Q waiting
none_planned P Q [] [] h = (tt, tt)
none_planned P Q [] (w ∷ ws) h = absurd (omega (arith, h))
none_planned P Q (t ∷ ts) ws h = absurd (omega (arith, h))
