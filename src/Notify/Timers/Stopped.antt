-- ===== src/Notify/Timers/Stopped.antt =====
-- A notification that RemoveNotification takes before its timer has fired is never sent.
use lierc.Base.{
  ℕ, ◌<◌, Bool, true, false, List, [], ◌∷◌, Option, none, some, ◌≡◌, ◌≢◌, refl, sym, ap, ◌∙◌, inl,
  inr, arith, Text, lookup, get_elem?, set, length, contains, ◌==◌, ==_iff, text_eq, lookup-insert,
  Bool-cases, contains-append, get_elem?-set_self, get_elem?-set_ne, get_elem?-append, ltb,
}
use native.Mathlib.Decide.{ℕ_discrete}
use lierc.Notify.{LoggedMessage, Notification, NotificationPref}
use lierc.Notify.Timers.{
  Timers, new_timers, disarm, arm, append_at, remove_listed, remove_notification, add_listed,
  add_notification, with_message, take_one, fire, run_function, accumulate, Op, accumulates, fires,
  runs, step, run, Looked, pref_of,
}
use lierc.Notify.Timers.Arming.{contains-disarm, contains-arm}
use lierc.Notify.Timers.Waiting.{Inv, two_users, not_none, still_listed, remove-same, remove-armed}
use lierc.Notify.Timers.Steps.{run-new-Inv}

-- Notification n was made, and nothing will send it.
record Gone (n : ℕ) (s : Timers) : Type 0 where
  made : (o : Notification) × (get_elem? s.notes n ≡ some o)
  not_armed : contains n s.armed ≡ false
  not_fired : contains n s.fired ≡ false
  not_listed : (user : Text) → lookup user s.listed ≢ some n

get_elem?-length {ℓ} : {A : Type ℓ} (xs : List A) → get_elem? xs (length xs) ≡ none
get_elem?-length [] = refl
get_elem?-length (x ∷ xs) = get_elem?-length xs

not_true : {b : Bool} → (b ≡ true → ⊥) → b ≡ false
not_true {b} h = elim (Bool-cases b) [ inl e ↦ absurd (h e) | inr e ↦ e ]

still_gone : (n k : ℕ) (ks : List ℕ) → contains n ks ≡ false → contains n (disarm k ks) ≡ false
still_gone n k ks h = ground (arith, contains-disarm n k ks)

take_one_gone : (n k : ℕ) (ks : List ℕ) → contains n ks ≡ false → contains n (take_one k ks) ≡ false
unfolding contains take_one
take_one_gone n k [] h = refl
take_one_gone n k (j ∷ ks) h = ground (arith, take_one_gone n k ks)

fired_other : (n k : ℕ) (ks : List ℕ) → n ≢ k → contains n ks ≡ false → contains n (k ∷ ks) ≡ false
unfolding contains
fired_other n k ks ne h = ground (arith, ==_iff k n)

armed_other :
    (n k : ℕ) (ks : List ℕ) → n ≢ k → contains n ks ≡ false → contains n (arm k ks) ≡ false
armed_other n k ks ne h = ground (arith, contains-arm n k ks, ==_iff n k)

contains_one : (n k : ℕ) → contains n (k ∷ []) ≡ (k == n)
unfolding contains
contains_one n k = ground arith

remove-to_send :
    (user : Text) (found : Option ℕ) (s : Timers) → (remove_listed found user s).to_send ≡ s.to_send
unfolding remove_listed
remove-to_send user none s = refl
remove-to_send user (some k) s = refl

remove-Gone : (n : ℕ) (user : Text) (s : Timers) → Gone n s → Gone n (remove_notification user s)
unfolding remove_notification
remove-Gone n user s g =
    let found = lookup user s.listed in
    let same = remove-same user found s in
    record {
      made = (g.made.0, ap (λ notes. get_elem? notes n) same.0 ∙ g.made.1);
      not_armed =
          not_true (λ h. absurd (cc (sym g.not_armed, ((remove-armed user n found s).0 h).0)));
      not_fired = ap (contains n) same.1 ∙ g.not_fired;
      not_listed = λ other h. g.not_listed other (still_listed user other n s h).1;
    }

set_made :
    (n k : ℕ) (x : Notification) (o : Notification) (notes : List Notification)
    → get_elem? notes k ≡ some o
    → (y : Notification) × (get_elem? notes n ≡ some y)
    → (y : Notification) × (get_elem? (set notes k x) n ≡ some y)
set_made n k x o notes there (y, at) = elim (ℕ_discrete k n) [
  | yes e ↦ (x, ap (get_elem? (set notes k x)) (sym e) ∙ get_elem?-set_self notes k x o there)
  | no ne ↦ (y, get_elem?-set_ne notes k n x ne ∙ at)
]

append_made :
    (n k : ℕ) (m : LoggedMessage) (at : Option Notification) (notes : List Notification)
    → get_elem? notes k ≡ at
    → (y : Notification) × (get_elem? notes n ≡ some y)
    → (y : Notification) × (get_elem? (append_at k m at notes) n ≡ some y)
unfolding append_at
append_made n k m none notes there made = made
append_made n k m (some o) notes there made = set_made n k (with_message m o) o notes there made

add_listed-Gone :
    (n : ℕ) (found : Option ℕ) (user : Text) (p : NotificationPref) (m : LoggedMessage) (s : Timers)
    → lookup user s.listed ≡ found
    → Gone n s
    → Gone n (add_listed found user p m s) × ((add_listed found user p m s).to_send ≡ s.to_send)
unfolding add_listed
add_listed-Gone n (some k) user p m s h g = (
  record {
    made = append_made n k m (get_elem? s.notes k) s.notes refl g.made;
    not_armed = armed_other n k s.armed (λ e. g.not_listed user (h ∙ ap some (sym e))) g.not_armed;
    not_fired = g.not_fired;
    not_listed = g.not_listed;
  },
  refl,
)
add_listed-Gone n none user p m s h g =
    let fresh : Notification = record { messages = m ∷ []; user = user; pref = p } in
    let other : n ≢ length s.notes =
      λ e. not_none (sym (get_elem?-length s.notes) ∙ ap (get_elem? s.notes) (sym e) ∙ g.made.1) in
    (
      record {
        made = (g.made.0, get_elem?-append s.notes (fresh ∷ []) n g.made.0 g.made.1);
        not_armed = armed_other n (length s.notes) s.armed other g.not_armed;
        not_fired = g.not_fired;
        not_listed = λ u l.
            let now = lookup-insert user u (length s.notes) s.listed in
            elim (Bool-cases (text_eq user u)) [
              | inl e ↦
                  let is : some (length s.notes) ≡ some n = rw e at (sym now ∙ l) in other (cc is)
              | inr e ↦ g.not_listed u (rw e at (sym now ∙ l))
            ];
      },
      refl,
    )

run_function-Gone :
    (n k streams : ℕ) (at : Option Notification) (s : Timers)
    → n ≢ k
    → Gone n s
    → Gone n (run_function k streams at s)
      × (contains n (run_function k streams at s).to_send ≡ contains n s.to_send)
unfolding run_function
run_function-Gone n k streams none s ne g = (g, refl)
run_function-Gone n k streams (some o) s ne g =
    let taken : Timers = record s { fired = take_one k s.fired } in
    let left = remove-Gone n o.user taken (record {
      made = g.made;
      not_armed = g.not_armed;
      not_fired = take_one_gone n k s.fired g.not_fired;
      not_listed = g.not_listed;
    }) in
    let sends : (remove_notification o.user taken).to_send ≡ s.to_send =
      remove-to_send o.user (lookup o.user s.listed) taken in
    elim (Bool-cases (streams == 0)) [
      | inl e ↦ rw e (
        record {
          made = left.made;
          not_armed = left.not_armed;
          not_fired = left.not_fired;
          not_listed = left.not_listed;
        },
        contains-append n (remove_notification o.user taken).to_send (k ∷ [])
            ∙ ground (arith, contains_one n k, ==_iff n k, ap (contains n) sends),
      )
      | inr e ↦ rw e (left, ap (contains n) sends)
    ]

-- Every step keeps it so, and does not send it.
abbrev Kept : ℕ → Timers → Timers → Type 0
Kept n s s' = Gone n s' × (contains n s'.to_send ≡ contains n s.to_send)

fire-Gone : (n k : ℕ) (s : Timers) → Gone n s → Kept n s (fire k s)
unfolding fire
fire-Gone n k s g = elim (Bool-cases (contains k s.armed)) [
  | inr e ↦ rw e (g, refl)
  | inl e ↦ rw e (
    record {
      made = g.made;
      not_armed = still_gone n k s.armed g.not_armed;
      not_fired =
          fired_other n k s.fired
            (λ same. absurd (cc (sym g.not_armed, ap (λ j. contains j s.armed) same, e)))
            g.not_fired;
      not_listed = g.not_listed;
    },
    refl,
  )
]

accumulate-Gone :
    (n : ℕ) (l : Looked) (m : LoggedMessage) (s : Timers) → Gone n s → Kept n s (accumulate l m s)
unfolding accumulate add_notification remove_notification
accumulate-Gone n l m s g = elim (Bool-cases (ltb 0 l.streams)) [
  | inl e ↦
      rw e (
        remove-Gone n l.user s g,
        ap (contains n) (remove-to_send l.user (lookup l.user s.listed) s),
      )
  | inr e ↦
      let r = add_listed-Gone n (lookup l.user s.listed) l.user (pref_of l) m s refl g in
      rw e (r.0, ap (contains n) r.1)
]

step-Gone : (n : ℕ) (op : Op) (s : Timers) → Gone n s → Kept n s (step op s)
unfolding step
step-Gone n (accumulates l m) s g = accumulate-Gone n l m s g
step-Gone n (fires k) s g = fire-Gone n k s g
step-Gone n (runs k streams) s g = elim (Bool-cases (contains k s.fired)) [
  | inl e ↦ rw e (
      run_function-Gone n k streams (get_elem? s.notes k) s
        (λ same. absurd (cc (sym g.not_fired, ap (λ j. contains j s.fired) same, e))) g)
  | inr e ↦ rw e (g, refl)
]

run-Gone :
    (n : ℕ) (ops : List Op) (s : Timers)
    → Gone n s
    → contains n (run ops s).to_send ≡ contains n s.to_send
unfolding run
run-Gone n [] s g = refl
run-Gone n (op ∷ ops) s g = let r = step-Gone n op s g in run-Gone n ops (step op s) r.0 ∙ r.1

-- What RemoveNotification took, if its function was not to run.
removed-Gone :
    (user : Text) (n : ℕ) (s : Timers)
    → Inv s
    → lookup user s.listed ≡ some n
    → contains n s.fired ≡ false
    → Gone n (remove_notification user s)
unfolding remove_notification
removed-Gone user n s inv h f =
    let found = lookup user s.listed in
    let same = remove-same user found s in
    let (o, at, is) = inv.of_user user n h in
    record {
      made = (o, ap (λ notes. get_elem? notes n) same.0 ∙ at);
      not_armed = not_true (λ a. ((remove-armed user n found s).0 a).1 h);
      not_fired = ap (contains n) same.1 ∙ f;
      not_listed = λ other l.
          let was = still_listed user other n s l in
          two_users s.notes user other n n (o, at, is) (inv.of_user other n was.1) was.0 refl;
    }

-- If, in a history of a new notifier, a message is accumulated for a user with open streams, whose
-- listed notification's timer has not fired, then no later history passes this notification to
-- Send.
pub accumulate_unsent :
    (before after : List Op) (l : Looked) (m : LoggedMessage) (n : ℕ)
    → let s = run before new_timers in
      0 < l.streams
      → lookup l.user s.listed ≡ some n
      → contains n s.fired ≡ false
      → contains n (run after (accumulate l m s)).to_send ≡ contains n s.to_send
unfolding accumulate
accumulate_unsent before after l m n open_streams h f =
    let s = run before new_timers in
    let gone = removed-Gone l.user n s (run-new-Inv before) h f in
    let some_open : ltb 0 l.streams ≡ true = ground arith in
    rw some_open (
      run-Gone n after (remove_notification l.user s) gone
      ∙ ap (contains n) (remove-to_send l.user (lookup l.user s.listed) s))
