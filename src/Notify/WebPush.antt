-- ===== src/Notify/WebPush.antt =====
-- pkg/notify/webpush.go: the push of a notification. JSON and the push services are parameters: a push is
-- answered with a status, and its body can be read or not.
pub mod Endpoint
pub mod Gone
use lierc.Base.{ℕ, Bool, List, [], ◌∷◌, Option, none, some, if◌then◌else◌, Text, split}
use lierc.Notify.{NotifierConfig, LoggedMessage, WebPushConfig}

-- WebPush
pub record WebPush : Type 0 where
  pub to : Text
  pub messages : List LoggedMessage

-- What SendNotification gets: the body, the subscription's endpoint and keys, and the options.
pub record Push : Type 0 where
  pub body : Text
  pub endpoint : Text
  pub auth : Text
  pub p256dh : Text
  pub subscriber : Text
  pub ttl : ℕ
  pub vapid_private_key : Text
  pub vapid_public_key : Text

-- parts[len(parts)-1], of parts that are not empty.
unfoldable pub last_of : Text → List Text → Text
last_of w [] = w
last_of w (v ∷ vs) = last_of v vs

unfoldable pub last_part : List Text → Text
unfolding last_of
last_part [] = []
last_part (w ∷ ws) = last_of w ws

unfoldable pub endpoint_id : Text → Text
unfolding last_part
endpoint_id endpoint = last_part (split b'/' endpoint)

unfoldable pub payload : List LoggedMessage → WebPushConfig → WebPush
unfolding endpoint_id
payload m c = record { to = endpoint_id c.endpoint; messages = m }

unfoldable pub push_of : NotifierConfig → WebPushConfig → Text → Push
push_of conf c body = record {
  body = body;
  endpoint = c.endpoint;
  auth = c.auth;
  p256dh = c.key;
  subscriber = conf.api_url;
  ttl = 10;
  vapid_private_key = conf.vapid_private_key;
  vapid_public_key = conf.vapid_public_key;
}

-- What SendNotification returns: no response, or a status and whether its body can be read.
unfoldable pub answered : Option (ℕ × Bool) → Option ℕ
answered none = none
answered (some (status, readable)) = if readable then some status else none

-- SendWebPush: the status of the response, or none for an error.
unfoldable pub send_web_push :
    (WebPush → Option Text)
    → (Push → Option (ℕ × Bool))
    → NotifierConfig
    → List LoggedMessage
    → WebPushConfig
    → Option ℕ
unfolding payload push_of answered
send_web_push encode service conf m c = elim (encode (payload m c)) [
  | none ↦ none
  | some body ↦ answered (service (push_of conf c body))
]
