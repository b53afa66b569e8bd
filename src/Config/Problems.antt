-- ===== src/Config/Problems.antt =====
-- internal/config/validate.go: what each problem means.
pub mod Complete
use matfix.Shared.{
  ◌≡◌, ◌≢◌, refl, sym, ap, ◌∙◌, ◌↔◌, ◌⊎◌, inl, inr, ℕ, zero, suc, ◌+◌, ◌≤◌, ◌<◌, String, Bool, true,
  false, ◌||◌, not, Option, none, some, List, [], ◌∷◌, ◌++◌, ◌==◌, ℤ, pos, negsuc, ◌≤ℤ◌, ltb_ℤ,
  leb_ℤ, ltb, leb, IsIn, IsIn-left, IsIn-right, both_lists, arith, Bool-cases, eq_iff,
}
use matfix.Config.{
  AccountConfig, Config, Problem, no_accounts, no_id, no_homeserver_url, no_user_id,
  no_access_token, no_bind_addr, no_database_path, no_socket_path, negative_retries, no_concurrency,
  bad_trust_policy, bad_log_format, report_if, account_problems, accounts_problems, check_accounts,
  check_settings, is_empty, is_one_of, validate_config,
}

-- The account with the index.
abbrev pub account_at : ℕ → List AccountConfig → Option AccountConfig
account_at i [] = none
account_at zero (a ∷ accounts) = some a
account_at (suc i) (a ∷ accounts) = account_at i accounts

abbrev pub Lacks : (AccountConfig → String) → ℕ → Config → Type 0
Lacks field i c = (a : AccountConfig) × (account_at i c.accounts ≡ some a) × (field a ≡ "")

-- What each problem says of the configuration.
abbrev pub Holds : Config → Problem → Type 0
Holds c no_accounts = c.accounts ≡ []
Holds c (no_id i) = Lacks (λ a. a.id) i c
Holds c (no_homeserver_url i) = Lacks (λ a. a.homeserver_url) i c
Holds c (no_user_id i) = Lacks (λ a. a.user_id) i c
Holds c (no_access_token i) = Lacks (λ a. a.access_token) i c
Holds c no_bind_addr = c.server.bind_addr ≡ ""
Holds c no_database_path = c.database.path ≡ ""
Holds c no_socket_path = c.admin.socket_path ≡ ""
Holds c negative_retries = ¬ (pos 0 ≤ℤ c.retry_policy.max_retries)
Holds c no_concurrency = c.queue.concurrency ≤ℤ pos 0
Holds c bad_trust_policy = (c.crypto.trust_policy ≢ "tofu") × (c.crypto.trust_policy ≢ "allowlist")
Holds c bad_log_format = (c.logging.format ≢ "json") × (c.logging.format ≢ "text")

report_sound :
    (P : Problem → Type 0) (t : Bool) (q : Problem)
    → (t ≡ true → P q)
    → (p : Problem) → IsIn p (report_if t q)
    → P p
unfolding report_if
report_sound P true q f p (inl e) = rw e (f refl)
report_sound P true q f p (inr h) = absurd h
report_sound P false q f p h = absurd h

is_one_of-none : (a b s : String) → not (is_one_of a b s) ≡ true → (s ≢ a) × (s ≢ b)
unfolding is_one_of
is_one_of-none a b s h =
    ((λ q. ground (arith, (eq_iff s a).1 q)), (λ q. ground (arith, (eq_iff s b).1 q)))

negative : (z : ℤ) → ltb_ℤ z (pos 0) ≡ true → ¬ (pos 0 ≤ℤ z)
negative (pos n) h = ground arith
negative (negsuc n) h = λ le. omega arith

not_positive : (z : ℤ) → leb_ℤ z (pos 0) ≡ true → z ≤ℤ pos 0
not_positive z h = ground arith

module _ (c : Config) where
  account_sound :
      (i : ℕ) (a : AccountConfig)
      → account_at i c.accounts ≡ some a
      → (p : Problem) → IsIn p (account_problems i a)
      → Holds c p
  unfolding account_problems
  account_sound i a h =
      both_lists (Holds c) _ _
        (both_lists (Holds c) _ _
          (both_lists (Holds c) _ _
            (report_sound (Holds c) (a.id == "") (no_id i) (λ q. (a, h, (eq_iff a.id "").0 q)))
            (report_sound (Holds c) (a.homeserver_url == "") (no_homeserver_url i)
              (λ q. (a, h, (eq_iff a.homeserver_url "").0 q))))
          (report_sound (Holds c) (a.user_id == "") (no_user_id i)
            (λ q. (a, h, (eq_iff a.user_id "").0 q))))
        (report_sound (Holds c) (a.access_token == "") (no_access_token i)
          (λ q. (a, h, (eq_iff a.access_token "").0 q)))

  -- `rest` are the accounts from index i on.
  abbrev IsRest : ℕ → List AccountConfig → Type 0
  IsRest i rest =
      (j k : ℕ) (a : AccountConfig)
      → j ≡ k + i
      → account_at k rest ≡ some a
      → account_at j c.accounts ≡ some a

  accounts_sound :
      (i : ℕ) (rest : List AccountConfig)
      → IsRest i rest
      → (p : Problem) → IsIn p (accounts_problems i rest)
      → Holds c p
  unfolding accounts_problems
  accounts_sound i [] here p h = absurd h
  accounts_sound i (a ∷ rest) here p h =
      both_lists (Holds c) _ _ (account_sound i a (here i 0 a (omega arith) refl))
        (accounts_sound (suc i) rest (λ j k b q. here j (suc k) b (omega arith))) p h

  empty_sound : (accounts : List AccountConfig) → is_empty accounts ≡ true → accounts ≡ []
  unfolding is_empty
  empty_sound [] h = refl
  empty_sound (a ∷ accounts) h = absurd (cc)

  all-IsRest : IsRest 0 c.accounts
  all-IsRest j k a q h = let e : j ≡ k = omega (arith) in rw e h

  accounts-hold : (p : Problem) → IsIn p (check_accounts c) → Holds c p
  unfolding check_accounts
  accounts-hold =
      both_lists (Holds c) _ _ (report_sound (Holds c) _ no_accounts (empty_sound c.accounts))
        (accounts_sound 0 c.accounts all-IsRest)

  settings-hold : (p : Problem) → IsIn p (check_settings c) → Holds c p
  unfolding check_settings
  settings-hold =
      both_lists (Holds c) _ _
        (both_lists (Holds c) _ _
          (both_lists (Holds c) _ _
            (both_lists (Holds c) _ _
              (both_lists (Holds c) _ _
                (both_lists (Holds c) _ _
                  (report_sound (Holds c) _ no_bind_addr (eq_iff c.server.bind_addr "").0)
                  (report_sound (Holds c) _ no_database_path (eq_iff c.database.path "").0))
                (report_sound (Holds c) _ no_socket_path (eq_iff c.admin.socket_path "").0))
              (report_sound (Holds c) _ negative_retries (negative c.retry_policy.max_retries)))
            (report_sound (Holds c) _ no_concurrency (not_positive c.queue.concurrency)))
          (report_sound (Holds c) _ bad_trust_policy
            (is_one_of-none "tofu" "allowlist" c.crypto.trust_policy)))
        (report_sound (Holds c) _ bad_log_format (is_one_of-none "json" "text" c.logging.format))

  validate_sound : (p : Problem) → IsIn p (validate_config c) → Holds c p
  unfolding validate_config
  validate_sound =
      both_lists (Holds c) (check_accounts c) (check_settings c) accounts-hold settings-hold
