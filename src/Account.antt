-- ===== src/Account.antt =====
-- internal/account: which accounts run. engine.NewClient and crypto.New are parameters, which
-- succeed or fail for an account; a component that runs is named by the number of its start.
pub mod Started
pub mod Stopped
use matfix.Shared.{
  ℕ, suc, String, Bool, true, false, Option, none, some, List, [], ◌∷◌, ◌++◌, ◌==◌, if◌then◌else◌,
  eqb, any_where, delete_where, Result, ok, err, Error, all_accounts_failed, chain,
}
use matfix.Config.{AccountConfig}

pub data AccountStatus : Type 0 where
  initializing available failed : AccountStatus

-- The client is left out: nothing here calls it.
pub record AccountContext : Type 0 where
  pub account_id : String
  pub sync : Option ℕ
  pub crypto : Option ℕ
  pub status : AccountStatus
  pub err : Option Error

pub data Component : Type 0 where
  sync_loop : ℕ → Component
  crypto_machine : ℕ → Component

-- The map of the manager, the number of the next start, and what runs.
pub record AccountManager : Type 0 where
  pub accounts : List (String × AccountContext)
  pub next : ℕ
  pub live : List Component

abbrev pub new_account_manager : AccountManager
new_account_manager = record { accounts = []; next = 0; live = [] }

-- m.accounts[id] = actx
unfoldable pub set_account :
    String → AccountContext → List (String × AccountContext) → List (String × AccountContext)
set_account id actx [] = (id, actx) ∷ []
set_account id actx ((k, old) ∷ rest) =
    let others = set_account id actx rest in
    if k == id then (id, actx) ∷ rest else (k, old) ∷ others

-- Get; none is nil.
unfoldable pub get_account : String → List (String × AccountContext) → Option AccountContext
get_account id [] = none
get_account id ((k, actx) ∷ rest) =
    let others = get_account id rest in if k == id then some actx else others

abbrev status_available : AccountStatus → Bool
status_available available = true
status_available _ = false

abbrev pub is_available : AccountContext → Bool
is_available actx = status_available actx.status

-- Available.
unfoldable pub available_accounts : List (String × AccountContext) → List AccountContext
available_accounts [] = []
available_accounts ((id, actx) ∷ rest) =
    let others = available_accounts rest in if is_available actx then actx ∷ others else others

unfoldable pub some_available : List (String × AccountContext) → Bool
unfolding any_where
some_available = any_where (λ (id, actx). is_available actx)

unfoldable pub check_failures : List (String × AccountContext) → Result (Unit {0})
unfolding some_available
check_failures [] = ok tt
check_failures (a ∷ accounts) =
    if some_available (a ∷ accounts) then ok tt else err all_accounts_failed

module _ (new_client new_crypto : AccountConfig → Result (Unit {0})) where
  -- Both components are there.
  abbrev pub start_result : AccountConfig → Result (Unit {0})
  start_result acfg = chain (new_client acfg) (λ c. new_crypto acfg)

  abbrev failed_context : AccountConfig → Error → AccountContext
  failed_context acfg e = record {
    account_id = acfg.id;
    sync = none;
    crypto = none;
    status = failed;
    err = some e;
  }

  abbrev running_context : AccountConfig → ℕ → AccountContext
  running_context acfg n = record {
    account_id = acfg.id;
    sync = some n;
    crypto = some n;
    status = available;
    err = none;
  }

  -- startAccount, and what StartAll makes of its result.
  unfoldable pub record_start : AccountConfig → Result (Unit {0}) → AccountManager → AccountManager
  unfolding set_account
  record_start acfg (ok u) m = record {
    accounts = set_account acfg.id (running_context acfg m.next) m.accounts;
    next = suc m.next;
    live = m.live ++ (crypto_machine m.next ∷ sync_loop m.next ∷ []);
  }
  record_start acfg (err e) m = record m {
    accounts = set_account acfg.id (failed_context acfg e) m.accounts;
  }

  unfoldable pub start_each : List AccountConfig → AccountManager → AccountManager
  unfolding record_start
  start_each [] m = m
  start_each (acfg ∷ rest) m = start_each rest (record_start acfg (start_result acfg) m)

  unfoldable pub start_all :
      List AccountConfig → AccountManager → Result (Unit {0}) × AccountManager
  unfolding start_each check_failures
  start_all cfgs m = let m' = start_each cfgs m in (check_failures m'.accounts, m')

abbrev pub is_sync : ℕ → Component → Bool
is_sync n (sync_loop k) = eqb k n
is_sync n (crypto_machine k) = false

abbrev pub is_crypto : ℕ → Component → Bool
is_crypto n (sync_loop k) = false
is_crypto n (crypto_machine k) = eqb k n

abbrev stop_if : (ℕ → Component → Bool) → Option ℕ → List Component → List Component
stop_if is none live = live
stop_if is (some n) live = delete_where (is n) live

unfoldable pub stop_account : AccountContext → List Component → List Component
unfolding delete_where
stop_account actx live = stop_if is_crypto actx.crypto (stop_if is_sync actx.sync live)

unfoldable pub stop_each : List (String × AccountContext) → List Component → List Component
unfolding stop_account
stop_each [] live = live
stop_each ((id, actx) ∷ rest) live = stop_each rest (stop_account actx live)

unfoldable pub stop_all : AccountManager → AccountManager
unfolding stop_each
stop_all m = record m { live = stop_each m.accounts m.live }
