-- ===== src/Scenarios/Configs.antt =====
-- The configuration at concrete inputs.
use matfix.Shared.{
  ◌≡◌, refl, ◌↔◌, String, Option, none, some, [], ◌∷◌, ◌==◌, if◌then◌else◌, IsIn, negsuc,
}
use matfix.Config.{AccountConfig, Config, Problem, defaults, validate_config, load}
use matfix.Config.Problems.{Holds}
use matfix.Config.Problems.Complete.{validate_config-Holds}
use matfix.Config.Overrides.{IsHarmless, load-IsHarmless}

abbrev bot : AccountConfig
bot = record {
  id = "bot";
  homeserver_url = "https://x";
  user_id = "@bot:x";
  access_token = "t";
  device_id = "";
  recovery_key = "";
}

abbrev two_accounts : Config
two_accounts = record defaults { accounts = bot ∷ record bot { access_token = "" } ∷ [] }

validate_config-Holds_example :
    IsIn (Problem.no_access_token 1) (validate_config two_accounts)
    ↔ Holds two_accounts (Problem.no_access_token 1)
validate_config-Holds_example = validate_config-Holds two_accounts (Problem.no_access_token 1)

-- All problems at once, in the order of the checks.
all_reported :
    validate_config
      (record two_accounts { queue = record { concurrency = negsuc 0; depth_limit = negsuc 0 } })
    ≡ Problem.no_access_token 1 ∷ Problem.no_concurrency ∷ []
unfolding validate_config
all_reported = refl

abbrev environment : String → Option String
environment name = if name == "MATFIX_LOGGING_FORMAT" then some "text" else none

abbrev with_bot : Config
with_bot = record defaults { accounts = bot ∷ [] }

with_bot-valid : validate_config with_bot ≡ []
unfolding validate_config
with_bot-valid = refl

load-IsHarmless_example :
    (c' : Config) × (load environment
        (λ text c. some (record c { accounts = bot ∷ [] }))
        (some "accounts: ...")
      ≡ some c')
    × ((validate_config c' ≡ []) ↔ IsHarmless environment)
load-IsHarmless_example =
    load-IsHarmless environment (λ text c. some (record c { accounts = bot ∷ [] })) "accounts: ..."
      with_bot refl with_bot-valid
