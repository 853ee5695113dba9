-- ===== src/Notify/Timers/Steps.antt =====
-- Every step of a timer or of Accumulate keeps the notifications that wait.
use lierc.Base.{
  ℕ, List, [], ◌∷◌, ◌++◌, Option, none, some, ◌≡◌, refl, sym, ap, ◌∙◌, inl, inr, arith, Text,
  lookup, get_elem?, set, length, contains, ◌==◌, text_eq, text_eq_iff, text_eq_refl, ne-text_eq,
  lookup-insert, Bool-cases, get_elem?-set_self, get_elem?-set_ne, get_elem?-append,
  get_elem?-append_last, ltb,
}
use native.Mathlib.Decide.{ℕ_discrete}
use lierc.Notify.{LoggedMessage, Notification, NotificationPref}
use lierc.Notify.Timers.{
  Timers, new_timers, arm, with_message, append_at, remove_notification, add_listed,
  add_notification, take_one, fire, run_function, accumulate, Op, accumulates, fires, runs, step,
  run, Looked, pref_of,
}
use lierc.Notify.Timers.Arming.{
  contains_first, contains_later, disarm_other, disarm_before, arm_this, arm_other, arm_cases,
  contains-take_one,
}
use lierc.Notify.Timers.Waiting.{IsOf, Inv, two_users, not_none, remove-Inv}

run_function-Inv :
    (n streams : ℕ) (at : Option Notification) (s : Timers)
    → get_elem? s.notes n ≡ at
    → Inv s
    → Inv (run_function n streams at s)
unfolding run_function
run_function-Inv n streams none s h inv = inv
run_function-Inv n streams (some o) s h inv =
    let left : Inv (remove_notification o.user (record s { fired = take_one n s.fired })) =
      remove-Inv o.user (record s { fired = take_one n s.fired })
        (record {
          of_user = inv.of_user;
          awaited = λ other k differ l. elim (inv.awaited other k l) [
            | inl a ↦ inl a
            | inr f ↦
                let ne =
                  two_users s.notes o.user other n k (o, h, refl) (inv.of_user other k l) differ in
                inr (contains-take_one k n s.fired (λ e. ne (sym e)) ∙ f)
          ];
          is_listed = inv.is_listed;
        }) in
    elim (Bool-cases (streams == 0)) [
      | inl e ↦
          rw e
            (record { of_user = left.of_user; awaited = left.awaited; is_listed = left.is_listed })
      | inr e ↦ rw e left
    ]

fire-Inv : (n : ℕ) (s : Timers) → Inv s → Inv (fire n s)
unfolding fire
fire-Inv n s inv = elim (Bool-cases (contains n s.armed)) [
  | inr e ↦ rw e inv
  | inl e ↦ rw e (record {
    of_user = inv.of_user;
    awaited = λ user k l. elim (ℕ_discrete k n) [
      | yes same ↦ inr (ap (λ j. contains j (n ∷ s.fired)) same ∙ contains_first n s.fired)
      | no ne ↦ elim (inv.awaited user k l) [
        | inl a ↦ inl (disarm_other k n s.armed ne a)
        | inr f ↦ inr (contains_later k n s.fired f)
      ]
    ];
    is_listed = λ k a. inv.is_listed k (disarm_before k n s.armed a);
  })
]

-- A notification gets a message.
append_at-IsOf :
    (n k : ℕ) (m : LoggedMessage) (user : Text) (o : Notification) (notes : List Notification)
    → get_elem? notes n ≡ some o
    → IsOf notes user k
    → IsOf (set notes n (with_message m o)) user k
unfolding with_message
append_at-IsOf n k m user o notes there (x, at, is) = elim (ℕ_discrete n k) [
  | yes e ↦
      let same : o ≡ x = cc (sym there ∙ ap (get_elem? notes) e ∙ at) in
      (
        record o { messages = o.messages ++ m ∷ [] },
        ap (get_elem? (set notes n (record o { messages = o.messages ++ m ∷ [] }))) (sym e)
            ∙ get_elem?-set_self notes n (record o { messages = o.messages ++ m ∷ [] }) o there,
        ap (λ (y : Notification). y.user) same ∙ is,
      )
  | no ne ↦
      (x, get_elem?-set_ne notes n k (record o { messages = o.messages ++ m ∷ [] }) ne ∙ at, is)
]

add_listed-Inv :
    (found : Option ℕ) (user : Text) (p : NotificationPref) (m : LoggedMessage) (s : Timers)
    → lookup user s.listed ≡ found
    → Inv s
    → Inv (add_listed found user p m s)
unfolding add_listed append_at
add_listed-Inv (some n) user p m s h inv =
    let (o, there, is) = inv.of_user user n h in
    rw there (record {
      of_user = λ other k l. append_at-IsOf n k m other o s.notes there (inv.of_user other k l);
      awaited = λ other k l. elim (inv.awaited other k l) [
        | inl a ↦ inl (arm_other k n s.armed a)
        | inr f ↦ inr f
      ];
      is_listed = λ k a. elim (arm_cases k n s.armed a) [
        | inl e ↦ (user, h ∙ ap some (sym e))
        | inr a' ↦ inv.is_listed k a'
      ];
    })
add_listed-Inv none user p m s h inv =
    let fresh : Notification = record { messages = m ∷ []; user = user; pref = p } in
    let now = λ (other : Text). lookup-insert user other (length s.notes) s.listed in
    record {
      of_user = λ other k l. elim (Bool-cases (text_eq user other)) [
        | inl e ↦
            let last : length s.notes ≡ k = cc (rw e at (sym (now other) ∙ l)) in
            (
              fresh,
              ap (get_elem? (s.notes ++ fresh ∷ [])) (sym last)
                  ∙ get_elem?-append_last s.notes fresh,
              (text_eq_iff user other).0 e,
            )
        | inr e ↦
            let (x, at, is) = inv.of_user other k (rw e at (sym (now other) ∙ l)) in
            (x, get_elem?-append s.notes (fresh ∷ []) k x at, is)
      ];
      awaited = λ other k l. elim (Bool-cases (text_eq user other)) [
        | inl e ↦
            let last : length s.notes ≡ k = cc (rw e at (sym (now other) ∙ l)) in
            inl (
              ap (λ j. contains j (arm (length s.notes) s.armed)) (sym last)
              ∙ arm_this (length s.notes) s.armed)
        | inr e ↦ elim (inv.awaited other k (rw e at (sym (now other) ∙ l))) [
          | inl a ↦ inl (arm_other k (length s.notes) s.armed a)
          | inr f ↦ inr f
        ]
      ];
      is_listed = λ k a. elim (arm_cases k (length s.notes) s.armed a) [
        | inl e ↦ (user, now user ∙ rw (text_eq_refl user) (ap some (sym e)))
        | inr a' ↦
            let (other, l) = inv.is_listed k a' in
            let differ =
              ne-text_eq user other (λ e. not_none (sym h ∙ ap (λ u. lookup u s.listed) e ∙ l)) in
            (other, now other ∙ rw differ l)
      ];
    }

accumulate-Inv : (l : Looked) (m : LoggedMessage) (s : Timers) → Inv s → Inv (accumulate l m s)
unfolding accumulate add_notification
accumulate-Inv l m s inv = elim (Bool-cases (ltb 0 l.streams)) [
  | inl e ↦ rw e (
      remove-Inv l.user s (record {
        of_user = inv.of_user;
        awaited = λ other k differ. inv.awaited other k;
        is_listed = inv.is_listed;
      }))
  | inr e ↦ rw e (add_listed-Inv (lookup l.user s.listed) l.user (pref_of l) m s refl inv)
]

pub step-Inv : (op : Op) (s : Timers) → Inv s → Inv (step op s)
unfolding step
step-Inv (accumulates l m) s inv = accumulate-Inv l m s inv
step-Inv (fires n) s inv = fire-Inv n s inv
step-Inv (runs n streams) s inv = elim (Bool-cases (contains n s.fired)) [
  | inl e ↦ rw e (run_function-Inv n streams (get_elem? s.notes n) s refl inv)
  | inr e ↦ rw e inv
]

run-Inv : (ops : List Op) (s : Timers) → Inv s → Inv (run ops s)
unfolding run
run-Inv [] s inv = inv
run-Inv (op ∷ ops) s inv = run-Inv ops (step op s) (step-Inv op s inv)

-- In every history of a new notifier, each notification listed under a user is that user's, and
-- its timer is armed or its function has fired and is to run, so that none waits forever; and
-- every armed timer is that of a listed notification.
pub run-new-Inv : (ops : List Op) → Inv (run ops new_timers)
unfolding new_timers lookup contains
run-new-Inv ops = run-Inv ops new_timers (record {
  of_user = λ user n h. not_none h;
  awaited = λ user n h. not_none h;
  is_listed = λ n h. absurd (ground arith);
})
