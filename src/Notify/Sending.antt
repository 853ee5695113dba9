-- ===== src/Notify/Sending.antt =====
-- pkg/notify/notifier.go: Send, of one notification.
use lierc.Base.{ℕ, Bool, List, [], ◌∷◌, ◌++◌, Option, none, some, if◌then◌else◌, Text, Map, insert}
use lierc.Notify.{
  NotifierConfig, Notification, LoggedMessage, WebPushConfig, rate_limit, web_push_gone,
}
use lierc.Notify.Smtp.{Call}
use lierc.Notify.Email.{send_email}

-- What one Send meets: the time of its check, the delay that the limiter reserves (none where it is
-- not OK), which calls to the mail server succeed, the status that a push is answered with (none for
-- an error), and the time at its end.
pub record Trip : Type 0 where
  pub now : ℕ
  pub reserved : Option ℕ
  pub works : Call → Bool
  pub answer : WebPushConfig → Option ℕ
  pub ended : ℕ

pub data Effect : Type 0 where
  mailed : List Call → Effect
  pushed : WebPushConfig → List LoggedMessage → Effect
  removed_push : WebPushConfig → Effect

-- Canceled by a limit, or sent; a panic, which ends the program.
pub data Outcome : Type 0 where
  canceled : Outcome
  sent : List Effect → Outcome
  panicked : Outcome

-- DeleteWebPushConfig, where the subscription is gone.
unfoldable pub removals : WebPushConfig → Option ℕ → List Effect
unfolding web_push_gone
removals c none = []
removals c (some status) = if web_push_gone status then removed_push c ∷ [] else []

-- The loop over the web push configs.
unfoldable pub push_all :
    (WebPushConfig → Option ℕ) → List LoggedMessage → List WebPushConfig → List Effect
unfolding removals
push_all answer ms [] = []
push_all answer ms (c ∷ cs) = pushed c ms ∷ (removals c (answer c) ++ push_all answer ms cs)

-- Behind the limits and the mail.
unfoldable pub send_now : Trip → Notification → Option (List Effect) → Map ℕ → Map ℕ × Outcome
unfolding push_all
send_now t o none last = (last, panicked)
send_now t o (some effects) last = (
  insert o.user t.ended last,
  sent (effects ++ push_all t.answer o.messages o.pref.web_push_configs),
)

module _ (path_escape : Text → Text) where
  unfoldable pub email_effects : NotifierConfig → Trip → Notification → Option (List Effect)
  unfolding send_email
  email_effects c t o =
      if o.pref.email_enabled
      then elim (send_email path_escape c t.works o.messages o.pref.email_address) [
        | none ↦ none
        | some calls ↦ some (mailed calls ∷ [])
      ]
      else some []

  -- Send, over n.Last
  unfoldable pub send : NotifierConfig → Trip → Notification → Map ℕ → Map ℕ × Outcome
  unfolding rate_limit send_now email_effects
  send c t o last =
      if rate_limit c last o.user t.now t.reserved
      then (last, canceled)
      else send_now t o (email_effects c t o) last
