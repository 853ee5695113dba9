-- ===== src/Logger/Setup.antt =====
-- pkg/logger/logger.go, Config, and cmd/lierc-logger/main.go: the configuration, and how main ends. The
-- environment's variables are a function.
use lierc.Base.{ℕ, Bool, ◌++◌, if◌then◌else◌, Text, text}

-- Config
pub record Config : Type 0 where
  pub db_user : Text
  pub db_pass : Text
  pub db_host : Text
  pub db_name : Text
  pub nsqd_host : Text
  pub max_db_conns : ℕ

unfoldable pub dsn : Config → Text
dsn c =
    text "user="
    ++ (c.db_user
        ++ (text " password="
            ++ (c.db_pass
                ++ (text " dbname="
                    ++ (c.db_name ++ (text " host=" ++ (c.db_host ++ text " sslmode=disable")))))))

unfoldable pub nsqd : Config → Text
nsqd c = c.nsqd_host ++ text ":4150"

-- The configuration of main.
unfoldable pub conf_of : (Text → Text) → Config
conf_of env = record {
  db_user = env (text "POSTGRES_USER");
  db_pass = env (text "POSTGRES_PASSWORD");
  db_host = env (text "POSTGRES_HOST");
  db_name = env (text "POSTGRES_DB");
  nsqd_host = env (text "NSQD_HOST");
  max_db_conns = 0;
}

-- How main ends: log.Fatal where New fails, or Start does with the context not done; stopped while
-- starting; or stopped behind Start.
pub data End : Type 0 where
  fatal : End
  stopped_early : End
  stopped_after : End

-- By whether New and Start work, and whether the context is done behind Start.
unfoldable pub main_end : Bool → Bool → Bool → End
main_end makes starts interrupted =
    if makes
    then (if starts then stopped_after else if interrupted then stopped_early else fatal)
    else fatal
