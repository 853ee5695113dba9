-- ===== src/Notify.antt =====
-- pkg/notify/notifier.go, message.go, notification.go, webpush.go: what the notifier keeps, its
-- configuration, and which limits hold a notification back. Times and durations are in nanoseconds.
pub mod Smtp
pub mod Email
pub mod Sending
pub mod WebPush
pub mod Limits
pub mod Overlaps
pub mod Timers
pub mod Rounds
pub mod Setup
mod Tests
use lierc.Base.{
  ℕ, ◌+◌, ◌*◌, Bool, true, false, ◌||◌, List, [], ◌∷◌, Option, none, some, ◌==◌, if◌then◌else◌,
  Text, text, text_eq, Map, lookup, insert, is_nil, ltb,
}
use lierc.Unicode.{Unicode, trim_space}
use lierc.Strconv.{ℤ, pos, negsuc}
use lierc.Irc.{IrcMessage}

pub record LoggedMessage : Type 0 where
  pub message : IrcMessage
  pub connection_id : Text
  pub message_id : ℕ
  pub self : Bool
  pub highlight : Bool
  pub direct : Bool

pub record WebPushConfig : Type 0 where
  pub endpoint : Text
  pub key : Text
  pub auth : Text
  pub user : Text

pub record NotificationPref : Type 0 where
  pub email_enabled : Bool
  pub email_address : Text
  pub web_push_configs : List WebPushConfig

-- A notification; its timer is in the state of the notifier's timers.
pub record Notification : Type 0 where
  pub messages : List LoggedMessage
  pub user : Text
  pub pref : NotificationPref

-- UserRateLimit has no negative value: SetUserRateLimit stores none.
pub record NotifierConfig : Type 0 where
  pub db_user : Text
  pub db_pass : Text
  pub db_host : Text
  pub db_name : Text
  pub api_stats : Text
  pub api_key : Text
  pub api_url : Text
  pub vapid_private_key : Text
  pub vapid_public_key : Text
  pub nsqd_host : Text
  pub smtp_host : Text
  pub smtp_port : ℤ
  pub smtp_ssl : Bool
  pub smtp_auth_user : Text
  pub smtp_auth_pass : Text
  pub delay : ℕ
  pub user_rate_limit : ℕ

abbrev pub default_user_rate_limit : ℕ
default_user_rate_limit = 10 * (60 * 1000000000)

pub data LimitError : Type 0 where
  bad_duration : Text → LimitError
  negative_limit : Text → LimitError

-- SetUserRateLimit, with what time.ParseDuration makes of a text, none for an error.
unfoldable pub parsed_limit : Text → Option ℤ → NotifierConfig → NotifierConfig × Option LimitError
parsed_limit limit none c = (c, some (bad_duration limit))
parsed_limit limit (some (negsuc n)) c = (c, some (negative_limit limit))
parsed_limit limit (some (pos d)) c = (record c { user_rate_limit = d }, none)

module _ ⦃u : Unicode⦄ (parse_duration : Text → Option ℤ) where
  unfoldable pub set_limit : Text → NotifierConfig → NotifierConfig × Option LimitError
  unfolding parsed_limit
  set_limit limit c =
      if is_nil limit
      then (record c { user_rate_limit = default_user_rate_limit }, none)
      else parsed_limit limit (parse_duration limit) c

  unfoldable pub set_user_rate_limit : Text → NotifierConfig → NotifierConfig × Option LimitError
  unfolding set_limit trim_space
  set_user_rate_limit limit c = set_limit (trim_space limit) c

-- The limit that UserRateLimit keeps.
abbrev pub limit_of : NotifierConfig → ℕ
limit_of c = if c.user_rate_limit == 0 then default_user_rate_limit else c.user_rate_limit

-- ts.Add(limit).After(now), where the user was notified before
unfoldable pub too_soon : ℕ → ℕ → Option ℕ → Bool
too_soon limit now none = false
too_soon limit now (some ts) = ltb now (ts + limit)

-- UserRateLimit, over n.Last
unfoldable pub user_rate_limit : NotifierConfig → Map ℕ → Text → ℕ → Bool
unfolding too_soon
user_rate_limit c last user now = too_soon (limit_of c) now (lookup user last)

-- GlobalRateLimit, by whether the limiter's reservation is OK; it then waits.
abbrev pub global_rate_limit : Option ℕ → Bool
global_rate_limit none = true
global_rate_limit (some delay) = false

unfoldable pub rate_limit : NotifierConfig → Map ℕ → Text → ℕ → Option ℕ → Bool
unfolding user_rate_limit
rate_limit c last user now reserved = user_rate_limit c last user now || global_rate_limit reserved

-- WebPushGone
unfoldable pub web_push_gone : ℕ → Bool
web_push_gone status = status == 404 || status == 410
