-- ===== src/Notify/Setup.antt =====
-- cmd/lierc-notify/main.go, and how the notifier starts to consume its topic. The environment's variables
-- are a function, time.ParseDuration a parameter.
use lierc.Base.{
  ℕ, ◌*◌, Bool, true, false, List, [], ◌∷◌, ◌++◌, Option, none, some, if◌then◌else◌, Text, text,
}
use lierc.Unicode.{Unicode}
use lierc.Strconv.{ℤ, pos}
use lierc.Notify.{NotifierConfig, set_user_rate_limit}
use lierc.Notify.Smtp.{set_smtp_opts}

abbrev pub delay : ℕ
delay = 15 * 1000000000

unfoldable pub conf_of : (Text → Text) → NotifierConfig
conf_of env = record {
  db_user = env (text "POSTGRES_USER");
  db_pass = env (text "POSTGRES_PASSWORD");
  db_host = env (text "POSTGRES_HOST");
  db_name = env (text "POSTGRES_DB");
  api_stats = env (text "API_STATS");
  api_key = env (text "API_KEY");
  api_url = env (text "API_URL");
  vapid_private_key = env (text "VAPID_PRIVATE");
  vapid_public_key = env (text "VAPID_PUBLIC");
  nsqd_host = env (text "NSQD_HOST");
  smtp_host = [];
  smtp_port = pos 0;
  smtp_ssl = false;
  smtp_auth_user = [];
  smtp_auth_pass = [];
  delay = delay;
  user_rate_limit = 0;
}

-- The configuration behind a setter, or a panic.
abbrev pub unless_error {ℓ} : {E : Type ℓ} → NotifierConfig × Option E → Option NotifierConfig
unless_error (c, none) = some c
unless_error (c, some e) = none

module _ ⦃u : Unicode⦄ (parse_duration : Text → Option ℤ) where
  unfoldable pub with_limit : Text → Option NotifierConfig → Option NotifierConfig
  unfolding set_user_rate_limit
  with_limit limit none = none
  with_limit limit (some c) = unless_error (set_user_rate_limit parse_duration limit c)

  -- main, up to the notifier.
  unfoldable pub configured : (Text → Text) → Option NotifierConfig
  unfolding conf_of set_smtp_opts with_limit
  configured env =
      with_limit (env (text "USER_RATE_LIMIT"))
        (unless_error (set_smtp_opts (env (text "SMTP_OPTS")) (conf_of env)))

unfoldable pub nsqd_addr : NotifierConfig → Text
nsqd_addr c = c.nsqd_host ++ text ":4150"

-- retry, by which calls of f work: whether it has returned.
unfoldable pub retry : List Bool → Bool
retry [] = false
retry (works ∷ later) = let rest = retry later in if works then true else rest

-- ListenNSQ: an error of NewConsumer, or whether it consumes the topic yet.
unfoldable pub listen_nsq : Bool → List Bool → Option Bool
unfolding retry
listen_nsq makes connects = if makes then some (retry connects) else none
