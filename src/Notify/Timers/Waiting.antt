-- ===== src/Notify/Timers/Waiting.antt =====
-- No notification waits forever: each one that is listed has a timer, or a function that runs. What
-- RemoveNotification keeps of that.
use lierc.Base.{
  ℕ, true, List, Option, none, some, ◌≡◌, ◌≢◌, refl, sym, ap, ◌∙◌, ◌⊎◌, inl, inr, arith,
  if◌then◌else◌, Text, lookup, get_elem?, contains, ==_iff, text_eq, text_eq_iff, ne-text_eq, ◌↔◌,
  lookup-delete, Bool-cases,
}
use mathlib.Core.Path.{subst}
use native.Mathlib.Decide.{ℕ_discrete}
use lierc.Notify.{Notification}
use lierc.Notify.Timers.{Timers, remove_listed, remove_notification}
use lierc.Notify.Timers.Arming.{contains-disarm}

-- Notification n is the user's.
abbrev pub IsOf : List Notification → Text → ℕ → Type 0
IsOf notes user n = (o : Notification) × (get_elem? notes n ≡ some o) × (o.user ≡ user)

abbrev pub Awaited : Timers → ℕ → Type 0
Awaited s n = (contains n s.armed ≡ true) ⊎ (contains n s.fired ≡ true)

-- Each user's listed notification is the user's, and its timer is armed or its function is to run; and
-- an armed timer is a listed notification's.
pub record Inv (s : Timers) : Type 0 where
  pub of_user : (user : Text) (n : ℕ) → lookup user s.listed ≡ some n → IsOf s.notes user n
  pub awaited : (user : Text) (n : ℕ) → lookup user s.listed ≡ some n → Awaited s n
  pub is_listed :
      (n : ℕ) → contains n s.armed ≡ true → (user : Text) × (lookup user s.listed ≡ some n)

-- Two users' notifications are two.
pub two_users :
    (notes : List Notification) (user other : Text) (n k : ℕ)
    → IsOf notes user n
    → IsOf notes other k
    → user ≢ other
    → n ≢ k
two_users notes user other n k (o, at, is) (x, at_k, is_k) differ e =
    let same : o ≡ x = cc (sym at ∙ ap (get_elem? notes) e ∙ at_k) in
    differ (cc (sym is, is_k, ap (λ (y : Notification). y.user) same))

-- What is left behind RemoveNotification: no user is listed anew.
pub remove-listed :
    (user other : Text) (found : Option ℕ) (s : Timers)
    → lookup user s.listed ≡ found
    → lookup other (remove_listed found user s).listed
      ≡ (if text_eq user other then none else lookup other s.listed)
unfolding remove_listed
remove-listed user other none s h = elim (Bool-cases (text_eq user other)) [
  | inl e ↦ rw e (ap (λ k. lookup k s.listed) (sym ((text_eq_iff user other).0 e)) ∙ h)
  | inr e ↦ rw e
]
remove-listed user other (some n) s h = lookup-delete user other s.listed

pub not_none {ℓ} : {A : Type ℓ} {x : A} {B : Type 0} → none ≡ some x → B
not_none e = absurd (cc e)

-- A listed notification behind RemoveNotification is another user's, and was listed before.
pub still_listed :
    (user other : Text) (n : ℕ) (s : Timers)
    → lookup other (remove_notification user s).listed ≡ some n
    → (user ≢ other) × (lookup other s.listed ≡ some n)
unfolding remove_notification
still_listed user other n s h =
    let q = remove-listed user other (lookup user s.listed) s refl in
    elim (Bool-cases (text_eq user other)) [
      | inl e ↦ not_none (rw e at (sym q ∙ h))
      | inr e ↦ (λ same. absurd (cc (sym e ∙ (text_eq_iff user other).1 same)), rw e at (sym q ∙ h))
    ]

pub remove-same :
    (user : Text) (found : Option ℕ) (s : Timers)
    → ((remove_listed found user s).notes ≡ s.notes)
      × ((remove_listed found user s).fired ≡ s.fired)
unfolding remove_listed
remove-same user none s = (refl, refl)
remove-same user (some n) s = (refl, refl)

-- Only the timer of the user's notification is stopped.
pub remove-armed :
    (user : Text) (m : ℕ) (found : Option ℕ) (s : Timers)
    → contains m (remove_listed found user s).armed ≡ true
      ↔ (contains m s.armed ≡ true) × (found ≢ some m)
unfolding remove_listed
remove-armed user m none s = (λ h. (h, λ e. not_none e), λ h. h.0)
remove-armed user m (some n) s = elim (ℕ_discrete m n) [
  | yes e ↦
      let gone = contains-disarm m n s.armed in
      (λ h. absurd (ground (arith, ==_iff m n)), λ h. absurd (h.1 (ap some (sym e))))
  | no ne ↦
      let kept = contains-disarm m n s.armed in
      (λ h. (ground (arith, ==_iff m n), λ e. ne (cc e)), λ h. ground (arith, ==_iff m n))
]

-- The invariant, except that the user's own notification may wait for nothing.
pub record Loose (user : Text) (s : Timers) : Type 0 where
  pub of_user : (other : Text) (n : ℕ) → lookup other s.listed ≡ some n → IsOf s.notes other n
  pub awaited : (other : Text) (n : ℕ) → user ≢ other → lookup other s.listed ≡ some n → Awaited s n
  pub is_listed :
      (n : ℕ) → contains n s.armed ≡ true → (other : Text) × (lookup other s.listed ≡ some n)

pub remove-Inv : (user : Text) (s : Timers) → Loose user s → Inv (remove_notification user s)
unfolding remove_notification
remove-Inv user s inv =
    let found = lookup user s.listed in
    let same = remove-same user found s in
    record {
      of_user = λ other n h.
          let was = still_listed user other n s h in
          subst (λ notes. IsOf notes other n) (sym same.0) (inv.of_user other n was.1);
      awaited = λ other n h.
          let was = still_listed user other n s h in
          elim (inv.awaited other n was.0 was.1) [
            | inl a ↦ inl (
                (remove-armed user n found s).1 (
                  a,
                  λ e.
                      two_users s.notes user other n n (inv.of_user user n e)
                        (inv.of_user other n was.1) was.0 refl,
                ))
            | inr f ↦ inr (ap (contains n) same.1 ∙ f)
          ];
      is_listed = λ n a.
          let before = (remove-armed user n found s).0 a in
          let (other, l) = inv.is_listed n before.0 in
          let differ = ne-text_eq user other (λ e. before.1 (ap (λ k. lookup k s.listed) e ∙ l)) in
          (other, remove-listed user other found s refl ∙ rw differ l);
    }
