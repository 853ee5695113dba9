-- ===== src/Notify/Limits.antt =====
-- How long a user is left alone, where one notification is sent at a time.
use lierc.Base.{
  ℕ, ◌+◌, ◌≤◌, false, ◌||◌, List, [], ◌∷◌, Option, none, some, ◌≡◌, refl, sym, ◌∙◌, arith, Text,
  Map, lookup, insert, text_eq, text_eq_iff, text_eq_refl, ◌⊎◌, lookup-insert, All, Bool-cases, inl,
  inr, ap,
}
use mathlib.Core.Path.{subst}
use lierc.Notify.{
  NotifierConfig, Notification, limit_of, rate_limit, user_rate_limit, too_soon, global_rate_limit,
}
use lierc.Notify.Sending.{
  Trip, Outcome, Effect, canceled, sent, panicked, send, send_now, email_effects,
}

pub record Job : Type 0 where
  pub trip : Trip
  pub note : Notification

-- A notification that went out.
pub record Sent : Type 0 where
  pub user : Text
  pub began : ℕ
  pub ended : ℕ

abbrev pub sent_by : Job → Sent
sent_by j = record { user = j.note.user; began = j.trip.now; ended = j.trip.ended }

module _ (path_escape : Text → Text) (c : NotifierConfig) where
  -- What a Send adds to what goes out.
  unfoldable pub next_sent : Outcome → Sent → List Sent → List Sent
  next_sent canceled s rest = rest
  next_sent (sent effects) s rest = s ∷ rest
  next_sent panicked s rest = []

  -- What goes out when the jobs are sent one after another; a panic ends the program.
  unfoldable pub send_all : List Job → Map ℕ → List Sent
  unfolding next_sent
  send_all [] last = []
  send_all (j ∷ js) last =
      let r = send path_escape c j.trip j.note last in next_sent r.1 (sent_by j) (send_all js r.0)

  -- The user of each one that went out gets no other until the limit has passed since its end.
  abbrev pub Spaced : List Sent → Type 0
  Spaced [] = Unit
  Spaced (s ∷ later) =
      All (λ (t : Sent). t.user ≡ s.user → s.ended + limit_of c ≤ t.began) later × Spaced later

  -- A Send is held back, goes out, or panics.
  abbrev Went : Job → Map ℕ → Map ℕ × Outcome → Type 0
  Went j last r =
      ((r.0 ≡ last) × (r.1 ≡ canceled))
      ⊎ (((user_rate_limit c last j.note.user j.trip.now ≡ false)
            × (r.0 ≡ insert j.note.user j.trip.ended last)
            × (es : List Effect) × (r.1 ≡ sent es))
          ⊎ (r.1 ≡ panicked))

  send_now-Went :
      (j : Job) (last : Map ℕ) (effects : Option (List Effect))
      → user_rate_limit c last j.note.user j.trip.now ≡ false
      → Went j last (send_now j.trip j.note effects last)
  unfolding send_now
  send_now-Went j last none h = inr (inr refl)
  send_now-Went j last (some es) h = inr (inl (h, refl, _, refl))

  send-Went : (j : Job) (last : Map ℕ) → Went j last (send path_escape c j.trip j.note last)
  unfolding send rate_limit
  send-Went j last =
      elim (Bool-cases
        (user_rate_limit c last j.note.user j.trip.now || global_rate_limit j.trip.reserved)) [
          | inl e ↦ rw e (inl (refl, refl))
          | inr e ↦
              rw e (send_now-Went j last (email_effects path_escape c j.trip j.note) (ground arith))
        ]

  -- A user who was notified at `ts` gets nothing until the limit has passed.
  pub waits :
      (last : Map ℕ) (user : Text) (now ts : ℕ)
      → user_rate_limit c last user now ≡ false
      → lookup user last ≡ some ts
      → ts + limit_of c ≤ now
  unfolding user_rate_limit too_soon
  waits last user now ts h e = ground (arith, (rw e at h))

  send_all-cases :
      (j : Job) (js : List Job) (last : Map ℕ)
      → (send_all (j ∷ js) last ≡ send_all js last)
        ⊎ (((user_rate_limit c last j.note.user j.trip.now ≡ false)
              × (send_all (j ∷ js) last
                  ≡ sent_by j ∷ send_all js (insert j.note.user j.trip.ended last)))
            ⊎ (send_all (j ∷ js) last ≡ []))
  unfolding send_all next_sent
  send_all-cases j js last = elim (send-Went j last) [
    | inl (q, k) ↦ inl (rw (k, next_sent) (ap (send_all js) q))
    | inr (inl (h, q, es, k)) ↦
        inr (inl (h, rw (k, next_sent) (ap (λ l. sent_by j ∷ send_all js l) q)))
    | inr (inr k) ↦ inr (inr (rw (k, next_sent)))
  ]

  send_all-after :
      (js : List Job) (last : Map ℕ) (user : Text) (ts noted : ℕ)
      → All (λ (j : Job). j.trip.now ≤ j.trip.ended) js
      → ts ≤ noted
      → lookup user last ≡ some noted
      → All (λ (t : Sent). t.user ≡ user → ts + limit_of c ≤ t.began) (send_all js last)
  unfolding send_all
  send_all-after [] last user ts noted timely before e = tt
  send_all-after (j ∷ js) last user ts noted timely before e =
      let After = All (λ (t : Sent). t.user ≡ user → ts + limit_of c ≤ t.began) in
      elim (send_all-cases j js last) [
        | inl k ↦ subst After (sym k) (send_all-after js last user ts noted timely.1 before e)
        | inr (inl (h, k)) ↦ subst After (sym k) (
          (λ same.
              let late =
                waits last user j.trip.now noted
                  (ap (λ v. user_rate_limit c last v j.trip.now) (sym same) ∙ h) e in
              omega (arith, late, before)),
          elim (Bool-cases (text_eq j.note.user user)) [
            | inl same ↦
                let is = (text_eq_iff j.note.user user).0 same in
                let late =
                  waits last user j.trip.now noted
                    (ap (λ v. user_rate_limit c last v j.trip.now) (sym is) ∙ h) e in
                send_all-after js (insert j.note.user j.trip.ended last) user ts j.trip.ended
                  timely.1 (omega (arith, late, before, timely.0))
                  (lookup-insert j.note.user user j.trip.ended last ∙ rw same refl)
            | inr other ↦
                send_all-after js (insert j.note.user j.trip.ended last) user ts noted timely.1
                  before (lookup-insert j.note.user user j.trip.ended last ∙ rw other e)
          ],
        )
        | inr (inr k) ↦ subst After (sym k) tt
      ]

  -- If no Send ends before its check, then of notifications that are sent one after another,
  -- whatever the limiter and the mail server do, one to a user is followed by no other to that user
  -- until the user rate limit has passed since the end of its Send.
  pub send_all-Spaced :
      (js : List Job) (last : Map ℕ)
      → All (λ (j : Job). j.trip.now ≤ j.trip.ended) js
      → Spaced (send_all js last)
  unfolding send_all
  send_all-Spaced [] last timely = tt
  send_all-Spaced (j ∷ js) last timely = elim (send_all-cases j js last) [
    | inl k ↦ subst Spaced (sym k) (send_all-Spaced js last timely.1)
    | inr (inl (h, k)) ↦
        let noted = insert j.note.user j.trip.ended last in
        subst Spaced (sym k) (
          send_all-after js noted j.note.user j.trip.ended j.trip.ended timely.1 (omega arith) (
              lookup-insert j.note.user j.note.user j.trip.ended last
              ∙ rw (text_eq_refl j.note.user) refl),
          send_all-Spaced js noted timely.1,
        )
    | inr (inr k) ↦ subst Spaced (sym k) tt
  ]
