-- ===== src/Notify/Timers/Kept.antt =====
-- Every message that is accumulated is in one notification of its user, in order.
use lierc.Base.{
  ℕ, zero, suc, ◌≤◌, List, [], ◌∷◌, ◌++◌, append-nil, append_assoc, Option, none, some, ◌≡◌, ◌≢◌,
  refl, sym, ap, ◌∙◌, inl, inr, arith, if◌then◌else◌, Text, lookup, get_elem?, set, length,
  contains, text_eq, text_eq_iff, lookup-insert, Bool-cases, ltb, ◌==◌, get_elem?-set_self,
  get_elem?-set_ne, get_elem?-append_cases,
}
use mathlib.Core.Path.{subst}
use native.Mathlib.Decide.{ℕ_discrete}
use lierc.Notify.{LoggedMessage, Notification, NotificationPref}
use lierc.Notify.Timers.{
  Timers, new_timers, append_at, with_message, remove_notification, add_listed, add_notification,
  fire, run_function, accumulate, Op, accumulates, fires, runs, step, run, Looked, pref_of,
  take_one,
}
use lierc.Notify.Timers.Steps.{step-Inv, run-new-Inv}
use lierc.Notify.Timers.Waiting.{Inv, not_none, still_listed, remove-same}
use lierc.Notify.Timers.Messages.{
  messages_of, accumulated, IsLast, messages_of-append, messages_of-set, messages_of-other,
}

get_elem?-beyond {ℓ} : {A : Type ℓ} (xs : List A) (k : ℕ) → length xs ≤ k → get_elem? xs k ≡ none
get_elem?-beyond [] k h = refl
get_elem?-beyond (x ∷ xs) zero h = absurd (omega (arith, h))
get_elem?-beyond (x ∷ xs) (suc k) h = get_elem?-beyond xs k (omega (arith, h))

set-IsLast :
    (user : Text) (n j : ℕ) (x o : Notification) (notes : List Notification)
    → get_elem? notes n ≡ some o
    → x.user ≡ o.user
    → IsLast user j notes
    → IsLast user j (set notes n x)
set-IsLast user n j x o notes there same last = λ k y lt at. elim (ℕ_discrete n k) [
  | yes e ↦
      let is : x ≡ y =
        cc (sym (get_elem?-set_self notes n x o there), ap (get_elem? (set notes n x)) e, at) in
      λ q.
        last k o lt (ap (get_elem? notes) (sym e) ∙ there)
          (sym same ∙ ap (λ (z : Notification). z.user) is ∙ q)
  | no ne ↦ last k y lt (sym (get_elem?-set_ne notes n k x ne) ∙ at)
]

-- The listed notification of each user is the user's last one.
abbrev Last : Timers → Type 0
Last s = (user : Text) (n : ℕ) → lookup user s.listed ≡ some n → IsLast user n s.notes

-- What a step does: the order is kept, and the user's messages are those before and `more`.
abbrev Adds : Text → List LoggedMessage → Timers → Timers → Type 0
Adds user more s s' = Last s' × (messages_of user s'.notes ≡ messages_of user s.notes ++ more)

remove-Last : (user : Text) (s : Timers) → Last s → Last (remove_notification user s)
unfolding remove_notification
remove-Last user s last = λ other n h.
    let was = still_listed user other n s h in
    subst (IsLast other n) (sym (remove-same user (lookup user s.listed) s).0) (last other n was.1)

remove-Adds :
    (user other : Text) (s : Timers) → Last s → Adds user [] s (remove_notification other s)
unfolding remove_notification
remove-Adds user other s last = (
  remove-Last other s last,
  ap (messages_of user) (remove-same other (lookup other s.listed) s).0
      ∙ sym (append-nil (messages_of user s.notes)),
)

add_some-Adds :
    (user to : Text) (n : ℕ) (p : NotificationPref) (m : LoggedMessage) (s : Timers)
    → Inv s
    → Last s
    → lookup to s.listed ≡ some n
    → Adds user (if text_eq to user then m ∷ [] else []) s (add_listed (some n) to p m s)
unfolding add_listed append_at
add_some-Adds user to n p m s inv last h =
    let (o, there, is) = inv.of_user to n h in
    rw there (
      (λ other j l. set-IsLast other n j (with_message m o) o s.notes there refl (last other j l)),
      elim (Bool-cases (text_eq to user)) [
        | inl e ↦
            let same = (text_eq_iff to user).0 e in
            rw e (
              messages_of-set user n m o s.notes there (is ∙ same)
                (subst (λ u. IsLast u n s.notes) same (last to n h)))
        | inr e ↦ rw e (
            messages_of-other user n (with_message m o) o s.notes there
              (λ q. absurd (cc (sym e ∙ (text_eq_iff to user).1 (sym is ∙ q)))) refl
            ∙ sym (append-nil (messages_of user s.notes)))
      ],
    )

-- A notification is made, behind all others.
append-IsLast :
    (user : Text) (n : ℕ) (fresh : Notification) (notes : List Notification)
    → fresh.user ≢ user
    → IsLast user n notes
    → IsLast user n (notes ++ fresh ∷ [])
append-IsLast user n fresh notes ne last = λ k y lt at.
    elim (get_elem?-append_cases notes fresh k y at) [
      | inl old ↦ last k y lt old
      | inr (place, is) ↦ λ q. ne (ap (λ (z : Notification). z.user) is ∙ q)
    ]

fresh-IsLast :
    (user : Text) (fresh : Notification) (notes : List Notification)
    → IsLast user (length notes) (notes ++ fresh ∷ [])
fresh-IsLast user fresh notes = λ k y lt at. elim (get_elem?-append_cases notes fresh k y at) [
  | inl old ↦ not_none (sym (get_elem?-beyond notes k (omega (arith, lt))) ∙ old)
  | inr (place, is) ↦ absurd (omega (arith, lt, place))
]

add_none-Adds :
    (user to : Text) (p : NotificationPref) (m : LoggedMessage) (s : Timers)
    → Last s
    → Adds user (if text_eq to user then m ∷ [] else []) s (add_listed none to p m s)
unfolding add_listed
add_none-Adds user to p m s last =
    let fresh : Notification = record { messages = m ∷ []; user = to; pref = p } in
    (
      (λ other j l.
          let now = lookup-insert to other (length s.notes) s.listed in
          elim (Bool-cases (text_eq to other)) [
            | inl e ↦
                let place : length s.notes ≡ j = cc (rw e at (sym now ∙ l)) in
                subst (λ i. IsLast other i (s.notes ++ fresh ∷ [])) place
                  (fresh-IsLast other fresh s.notes)
            | inr e ↦
                append-IsLast other j fresh s.notes
                  (λ q. absurd (cc (sym e ∙ (text_eq_iff to other).1 q)))
                  (last other j (rw e at (sym now ∙ l)))
          ]),
      messages_of-append user s.notes (fresh ∷ []),
    )

add_listed-Adds :
    (found : Option ℕ) (user to : Text) (p : NotificationPref) (m : LoggedMessage) (s : Timers)
    → Inv s
    → Last s
    → lookup to s.listed ≡ found
    → Adds user (if text_eq to user then m ∷ [] else []) s (add_listed found to p m s)
add_listed-Adds none user to p m s inv last h = add_none-Adds user to p m s last
add_listed-Adds (some n) user to p m s inv last h = add_some-Adds user to n p m s inv last h

accumulate-Adds :
    (user : Text) (l : Looked) (m : LoggedMessage) (s : Timers)
    → Inv s
    → Last s
    → Adds user (accumulated user (accumulates l m ∷ [])) s (accumulate l m s)
unfolding accumulate add_notification
accumulate-Adds user l m s inv last = elim (Bool-cases (ltb 0 l.streams)) [
  | inl e ↦ rw e (remove-Adds user l.user s last)
  | inr e ↦
      rw e (add_listed-Adds (lookup l.user s.listed) user l.user (pref_of l) m s inv last refl)
]

run_function-Adds :
    (user : Text) (n streams : ℕ) (at : Option Notification) (s : Timers)
    → Last s
    → Adds user [] s (run_function n streams at s)
unfolding run_function
run_function-Adds user n streams none s last = (last, sym (append-nil (messages_of user s.notes)))
run_function-Adds user n streams (some o) s last =
    let r = remove-Adds user o.user (record s { fired = take_one n s.fired }) last in
    elim (Bool-cases (streams == 0)) [ inl e ↦ rw e (r.0, r.1) | inr e ↦ rw e r ]

step-Adds :
    (user : Text) (op : Op) (s : Timers)
    → Inv s
    → Last s
    → Adds user (accumulated user (op ∷ [])) s (step op s)
unfolding step fire
step-Adds user (accumulates l m) s inv last = accumulate-Adds user l m s inv last
step-Adds user (fires n) s inv last = elim (Bool-cases (contains n s.armed)) [
  | inl e ↦ rw e (last, sym (append-nil (messages_of user s.notes)))
  | inr e ↦ rw e (last, sym (append-nil (messages_of user s.notes)))
]
step-Adds user (runs n streams) s inv last = elim (Bool-cases (contains n s.fired)) [
  | inl e ↦ rw e (run_function-Adds user n streams (get_elem? s.notes n) s last)
  | inr e ↦ rw e (last, sym (append-nil (messages_of user s.notes)))
]

accumulated-cons :
    (user : Text) (op : Op) (ops : List Op)
    → accumulated user (op ∷ ops) ≡ accumulated user (op ∷ []) ++ accumulated user ops
accumulated-cons user (accumulates l m) ops = ground arith
accumulated-cons user (fires n) ops = refl
accumulated-cons user (runs n streams) ops = refl

run-Adds :
    (user : Text) (ops : List Op) (s : Timers)
    → Inv s
    → Last s
    → Adds user (accumulated user ops) s (run ops s)
unfolding run
run-Adds user [] s inv last = (last, sym (append-nil (messages_of user s.notes)))
run-Adds user (op ∷ ops) s inv last =
    let one = step-Adds user op s inv last in
    let rest = run-Adds user ops (step op s) (step-Inv op s inv) one.0 in
    (
      rest.0,
      rest.1
          ∙ ap (λ ms. ms ++ accumulated user ops) one.1
          ∙ append_assoc (messages_of user s.notes) (accumulated user (op ∷ []))
              (accumulated user ops)
          ∙ ap (λ ms. messages_of user s.notes ++ ms) (sym (accumulated-cons user op ops)),
    )

-- In every history of a new notifier, the messages of a user's notifications, one notification
-- after another, are those that were accumulated for the user without open streams, each once and
-- in order.
pub messages_of-run :
    (user : Text) (ops : List Op)
    → messages_of user (run ops new_timers).notes ≡ accumulated user ops
unfolding new_timers lookup contains run
messages_of-run user ops =
    (run-Adds user ops new_timers (run-new-Inv []) (λ other n h. not_none h)).1
