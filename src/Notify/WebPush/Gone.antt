-- ===== src/Notify/WebPush/Gone.antt =====
-- Which subscriptions a notification deletes.
use lierc.Base.{
  ℕ, Bool, true, false, ◌&&◌, ◌||◌, List, [], ◌∷◌, ◌++◌, Option, none, some, ◌==◌, if◌then◌else◌,
  Text, keep, ◌≡◌, refl, ap, ◌∙◌, inl, inr, Option-cases,
}
use lierc.Notify.{NotifierConfig, LoggedMessage, WebPushConfig, web_push_gone}
use lierc.Notify.Sending.{Effect, mailed, pushed, removed_push, removals, push_all}
use lierc.Notify.WebPush.{WebPush, Push, payload, push_of, answered, send_web_push}

-- The subscriptions that are pushed to, and those that are deleted.
abbrev pub pushes_of : List Effect → List WebPushConfig
pushes_of [] = []
pushes_of (pushed c ms ∷ es) = c ∷ pushes_of es
pushes_of (mailed calls ∷ es) = pushes_of es
pushes_of (removed_push c ∷ es) = pushes_of es

abbrev pub removed_of : List Effect → List WebPushConfig
removed_of [] = []
removed_of (removed_push c ∷ es) = c ∷ removed_of es
removed_of (mailed calls ∷ es) = removed_of es
removed_of (pushed c ms ∷ es) = removed_of es

-- The service says that the subscription is gone.
abbrev pub says_gone : Option (ℕ × Bool) → Bool
says_gone none = false
says_gone (some (status, readable)) = readable && (status == 404 || status == 410)

pushes-if :
    (b : Bool) (c : WebPushConfig) (rest : List Effect)
    → pushes_of ((if b then removed_push c ∷ [] else []) ++ rest) ≡ pushes_of rest
pushes-if true c rest = refl
pushes-if false c rest = refl

removed-if :
    (b : Bool) (c : WebPushConfig) (rest : List Effect)
    → removed_of ((if b then removed_push c ∷ [] else []) ++ rest)
      ≡ (if b then c ∷ removed_of rest else removed_of rest)
removed-if true c rest = refl
removed-if false c rest = refl

module _ (encode : WebPush → Option Text) (service : Push → Option (ℕ × Bool))
    (conf : NotifierConfig) (m : List LoggedMessage) where
  -- The push can be encoded, and is answered so.
  abbrev pub is_gone : WebPushConfig → Bool
  is_gone c = elim (encode (payload m c)) [
    | none ↦ false
    | some body ↦ says_gone (service (push_of conf c body))
  ]

  abbrev pub answers : WebPushConfig → Option ℕ
  answers c = send_web_push encode service conf m c

  removals-answered :
      (c : WebPushConfig) (a : Option (ℕ × Bool))
      → removals c (answered a) ≡ (if says_gone a then removed_push c ∷ [] else [])
  unfolding removals answered web_push_gone
  removals-answered c none = refl
  removals-answered c (some (status, true)) = refl
  removals-answered c (some (status, false)) = refl

  removals-is_gone :
      (c : WebPushConfig) → removals c (answers c) ≡ (if is_gone c then removed_push c ∷ [] else [])
  unfolding send_web_push removals
  removals-is_gone c = elim (Option-cases (encode (payload m c))) [
    | inl e ↦ rw (e, send_web_push, is_gone) refl
    | inr (body, e) ↦
        rw (e, send_web_push, is_gone) (removals-answered c (service (push_of conf c body)))
  ]

  -- Of the subscriptions of a notification, each one is pushed to, in order, and those are deleted,
  -- in order, whose push could be encoded and was answered with 404 or 410 and a body that could be
  -- read.
  pub push_all-removed :
      (cs : List WebPushConfig)
      → (pushes_of (push_all answers m cs) ≡ cs)
        × (removed_of (push_all answers m cs) ≡ keep is_gone cs)
  unfolding push_all
  push_all-removed [] = (refl, refl)
  push_all-removed (c ∷ cs) =
      let (sends, deletes) = push_all-removed cs in
      let rest = push_all answers m cs in
      let first = removals-is_gone c in
      (
        ap (λ l. c ∷ l)
            (ap (λ r. pushes_of (r ++ rest)) first ∙ pushes-if (is_gone c) c rest ∙ sends),
        ap (λ r. removed_of (r ++ rest)) first
            ∙ removed-if (is_gone c) c rest
            ∙ ap (λ l. if is_gone c then c ∷ l else l) deletes,
      )
