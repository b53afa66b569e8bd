-- ===== src/Config.antt =====
-- internal/config: the configuration, its defaults, the overrides by the environment, and the
-- validation at the start. yaml.Unmarshal, the file and the environment are parameters.
pub mod Problems
pub mod Overrides
use matfix.Shared.{
  ℕ, zero, suc, String, Bool, true, false, ◌||◌, not, Option, none, some, List, [], ◌∷◌, ◌++◌, ◌==◌,
  if◌then◌else◌, ℤ, pos, ltb_ℤ, leb_ℤ, if_some,
}

pub record ServerConfig : Type 0 where
  pub bind_addr : String

pub record AccountConfig : Type 0 where
  pub id : String
  pub homeserver_url : String
  pub user_id : String
  pub access_token : String
  pub device_id : String
  pub recovery_key : String

pub record DatabaseConfig : Type 0 where
  pub driver : String
  pub path : String

pub record AdminConfig : Type 0 where
  pub socket_path : String

-- Durations are in nanoseconds.
pub record RetryPolicyConfig : Type 0 where
  pub max_retries : ℤ
  pub backoff_policy : String
  pub initial_interval : ℤ
  pub max_interval : ℤ
  pub dead_letter_threshold : ℤ

pub record QueueConfig : Type 0 where
  pub concurrency : ℤ
  pub depth_limit : ℤ

pub record CryptoConfig : Type 0 where
  pub trust_policy : String
  pub undecryptable_handling : String

pub record LoggingConfig : Type 0 where
  pub level : String
  pub format : String
  pub redact : Bool

pub record ObservabilityConfig : Type 0 where
  pub metrics_bind : String
  pub health_path : String

pub record Config : Type 0 where
  pub server : ServerConfig
  pub accounts : List AccountConfig
  pub database : DatabaseConfig
  pub admin : AdminConfig
  pub retry_policy : RetryPolicyConfig
  pub queue : QueueConfig
  pub crypto : CryptoConfig
  pub logging : LoggingConfig
  pub observability : ObservabilityConfig

abbrev pub defaults : Config
defaults = record {
  server = record { bind_addr = ":8080" };
  accounts = [];
  database = record { driver = "sqlite"; path = "matfix.db" };
  admin = record { socket_path = "/run/matfix/admin.sock" };
  retry_policy = record {
    max_retries = pos 5;
    backoff_policy = "exponential";
    initial_interval = pos 1000000000;
    max_interval = pos 300000000000;
    dead_letter_threshold = pos 5;
  };
  queue = record { concurrency = pos 4; depth_limit = pos 1000 };
  crypto = record { trust_policy = "tofu"; undecryptable_handling = "log" };
  logging = record { level = "info"; format = "json"; redact = true };
  observability = record { metrics_bind = ":9090"; health_path = "/health" };
}

-- The problems that Validate collects; the number is the index of the account. The texts of the
-- messages are not modelled.
pub data Problem : Type 0 where
  no_accounts : Problem
  no_id no_homeserver_url no_user_id no_access_token : ℕ → Problem
  no_bind_addr no_database_path no_socket_path : Problem
  negative_retries no_concurrency : Problem
  bad_trust_policy bad_log_format : Problem

-- if test { errs = append(errs, problem) }
unfoldable pub report_if : Bool → Problem → List Problem
report_if true problem = problem ∷ []
report_if false problem = []

unfoldable pub account_problems : ℕ → AccountConfig → List Problem
unfolding report_if
account_problems i a =
    report_if (a.id == "") (no_id i)
    ++ report_if (a.homeserver_url == "") (no_homeserver_url i)
    ++ report_if (a.user_id == "") (no_user_id i)
    ++ report_if (a.access_token == "") (no_access_token i)

-- The accounts from index i on.
unfoldable pub accounts_problems : ℕ → List AccountConfig → List Problem
unfolding account_problems
accounts_problems i [] = []
accounts_problems i (a ∷ accounts) = account_problems i a ++ accounts_problems (suc i) accounts

unfoldable pub is_empty : List AccountConfig → Bool
is_empty [] = true
is_empty (a ∷ accounts) = false

unfoldable pub is_one_of : String → String → String → Bool
is_one_of a b s = s == a || s == b

unfoldable pub check_accounts : Config → List Problem
unfolding report_if accounts_problems is_empty
check_accounts c = report_if (is_empty c.accounts) no_accounts ++ accounts_problems 0 c.accounts

unfoldable pub check_settings : Config → List Problem
unfolding report_if is_one_of
check_settings c =
    report_if (c.server.bind_addr == "") no_bind_addr
    ++ report_if (c.database.path == "") no_database_path
    ++ report_if (c.admin.socket_path == "") no_socket_path
    ++ report_if (ltb_ℤ c.retry_policy.max_retries (pos 0)) negative_retries
    ++ report_if (leb_ℤ c.queue.concurrency (pos 0)) no_concurrency
    ++ report_if (not (is_one_of "tofu" "allowlist" c.crypto.trust_policy)) bad_trust_policy
    ++ report_if (not (is_one_of "json" "text" c.logging.format)) bad_log_format

unfoldable pub validate_config : Config → List Problem
unfolding check_accounts check_settings
validate_config c = check_accounts c ++ check_settings c

-- The value of a variable, or the value so far.
unfoldable pub or_kept : Option String → String → String
or_kept none kept = kept
or_kept (some v) kept = v

module _ (lookup_env : String → Option String) where
  unfoldable pub apply_env_overrides : Config → Config
  unfolding or_kept
  apply_env_overrides c = record c {
    server = record {
      bind_addr = or_kept (lookup_env "MATFIX_SERVER_BIND_ADDR") c.server.bind_addr;
    };
    database = record {
      driver = or_kept (lookup_env "MATFIX_DATABASE_DRIVER") c.database.driver;
      path = or_kept (lookup_env "MATFIX_DATABASE_PATH") c.database.path;
    };
    admin = record {
      socket_path = or_kept (lookup_env "MATFIX_ADMIN_SOCKET_PATH") c.admin.socket_path;
    };
    logging = record {
      level = or_kept (lookup_env "MATFIX_LOGGING_LEVEL") c.logging.level;
      format = or_kept (lookup_env "MATFIX_LOGGING_FORMAT") c.logging.format;
      redact = c.logging.redact;
    };
    observability = record {
      metrics_bind =
          or_kept (lookup_env "MATFIX_OBSERVABILITY_METRICS_BIND") c.observability.metrics_bind;
      health_path =
          or_kept (lookup_env "MATFIX_OBSERVABILITY_HEALTH_PATH") c.observability.health_path;
    };
  }

  -- The file's contents, if it can be read; `unmarshal` writes what the document sets over the
  -- given configuration, or fails.
  unfoldable pub load : (String → Config → Option Config) → Option String → Option Config
  unfolding apply_env_overrides
  load unmarshal file =
      if_some file (λ text. if_some (unmarshal text defaults) (λ c. some (apply_env_overrides c)))
