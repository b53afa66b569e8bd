-- ===== src/Config/Problems/Complete.antt =====
-- internal/config/validate.go: what Validate reports, against what the problems mean.
use matfix.Shared.{
  ◌≡◌, ◌≢◌, refl, ◌↔◌, ◌⊎◌, inl, inr, ℕ, zero, suc, ◌+◌, String, Bool, true, not, some, List, [],
  ◌∷◌, ◌++◌, ◌==◌, ℤ, pos, ◌≤ℤ◌, ltb_ℤ, leb_ℤ, IsIn, IsIn-left, IsIn-right, arith, eq_iff,
}
use matfix.Config.{
  AccountConfig, Config, Problem, no_accounts, no_id, no_homeserver_url, no_user_id,
  no_access_token, no_bind_addr, no_database_path, no_socket_path, negative_retries, no_concurrency,
  bad_trust_policy, bad_log_format, report_if, account_problems, accounts_problems, check_accounts,
  check_settings, is_empty, is_one_of, validate_config,
}
use matfix.Config.Problems.{account_at, Holds, validate_sound}

IsIn-lists4 :
    (p : Problem) (a b c d : List Problem)
    → IsIn p a ⊎ (IsIn p b ⊎ (IsIn p c ⊎ IsIn p d))
    → IsIn p (a ++ b ++ c ++ d)
IsIn-lists4 p a b c d (inl h) =
    IsIn-left p (a ++ b ++ c) d (IsIn-left p (a ++ b) c (IsIn-left p a b h))
IsIn-lists4 p a b c d (inr (inl h)) =
    IsIn-left p (a ++ b ++ c) d (IsIn-left p (a ++ b) c (IsIn-right p a b h))
IsIn-lists4 p a b c d (inr (inr (inl h))) = IsIn-left p (a ++ b ++ c) d (IsIn-right p (a ++ b) c h)
IsIn-lists4 p a b c d (inr (inr (inr h))) = IsIn-right p (a ++ b ++ c) d h

IsIn-lists7 :
    (p : Problem) (a b c d e f g : List Problem)
    → IsIn p a ⊎ (IsIn p b ⊎ (IsIn p c ⊎ (IsIn p d ⊎ (IsIn p e ⊎ (IsIn p f ⊎ IsIn p g)))))
    → IsIn p (a ++ b ++ c ++ d ++ e ++ f ++ g)
IsIn-lists7 p a b c d e f g (inl h) = IsIn-lists4 p _ e f g (inl (IsIn-lists4 p a b c d (inl h)))
IsIn-lists7 p a b c d e f g (inr (inl h)) =
    IsIn-lists4 p _ e f g (inl (IsIn-lists4 p a b c d (inr (inl h))))
IsIn-lists7 p a b c d e f g (inr (inr (inl h))) =
    IsIn-lists4 p _ e f g (inl (IsIn-lists4 p a b c d (inr (inr (inl h)))))
IsIn-lists7 p a b c d e f g (inr (inr (inr (inl h)))) =
    IsIn-lists4 p _ e f g (inl (IsIn-lists4 p a b c d (inr (inr (inr h)))))
IsIn-lists7 p a b c d e f g (inr (inr (inr (inr h)))) =
    IsIn-lists4 p (a ++ b ++ c ++ d) e f g (inr h)

report_complete : (t : Bool) (q : Problem) → t ≡ true → IsIn q (report_if t q)
unfolding report_if
report_complete t q h = rw h (inl refl)

none-is_one_of : (a b s : String) → s ≢ a → s ≢ b → not (is_one_of a b s) ≡ true
unfolding is_one_of
none-is_one_of a b s h k = ground (arith, eq_iff s a, eq_iff s b)

is-negative : (z : ℤ) → ¬ (pos 0 ≤ℤ z) → ltb_ℤ z (pos 0) ≡ true
is-negative z h = ground arith

is-not_positive : (z : ℤ) → z ≤ℤ pos 0 → leb_ℤ z (pos 0) ≡ true
is-not_positive z h = ground arith

module _ (c : Config) where
  account_complete :
      (i j k : ℕ) (rest : List AccountConfig) (a : AccountConfig) (p : Problem)
      → j ≡ k + i
      → account_at k rest ≡ some a
      → IsIn p (account_problems j a)
      → IsIn p (accounts_problems i rest)
  unfolding accounts_problems
  account_complete i j k [] a p q h here = absurd (cc)
  account_complete i j zero (b ∷ rest) a p q h here =
      IsIn-left p (account_problems i b) (accounts_problems (suc i) rest)
        (let e : j ≡ i = omega arith in let same : b ≡ a = cc in rw same (rw e at here))
  account_complete i j (suc k) (b ∷ rest) a p q h here =
      IsIn-right p _ _ (account_complete (suc i) j k rest a p (omega arith) h here)

  account_problems_complete :
      (j : ℕ) (a : AccountConfig) (p : Problem)
      → account_at j c.accounts ≡ some a
      → IsIn p (account_problems j a)
      → IsIn p (accounts_problems 0 c.accounts)
  account_problems_complete j a p h here =
      account_complete 0 j j c.accounts a p (omega arith) h here

  empty_complete : (accounts : List AccountConfig) → accounts ≡ [] → is_empty accounts ≡ true
  unfolding is_empty
  empty_complete accounts h = rw h refl

  account_checked :
      (i : ℕ) (a : AccountConfig) (p : Problem)
      → IsIn p (report_if (a.id == "") (no_id i))
        ⊎ (IsIn p (report_if (a.homeserver_url == "") (no_homeserver_url i))
            ⊎ (IsIn p (report_if (a.user_id == "") (no_user_id i))
                ⊎ IsIn p (report_if (a.access_token == "") (no_access_token i))))
      → IsIn p (account_problems i a)
  unfolding account_problems
  account_checked i a p h =
      IsIn-lists4 p (report_if (a.id == "") (no_id i))
        (report_if (a.homeserver_url == "") (no_homeserver_url i))
        (report_if (a.user_id == "") (no_user_id i))
        (report_if (a.access_token == "") (no_access_token i)) h

  setting_checked :
      (p : Problem)
      → IsIn p (report_if (c.server.bind_addr == "") no_bind_addr)
        ⊎ (IsIn p (report_if (c.database.path == "") no_database_path)
            ⊎ (IsIn p (report_if (c.admin.socket_path == "") no_socket_path)
                ⊎ (IsIn p (report_if (ltb_ℤ c.retry_policy.max_retries (pos 0)) negative_retries)
                    ⊎ (IsIn p (report_if (leb_ℤ c.queue.concurrency (pos 0)) no_concurrency)
                        ⊎ (IsIn p (
                              report_if
                                (not (is_one_of "tofu" "allowlist" c.crypto.trust_policy))
                                bad_trust_policy)
                            ⊎ IsIn p (
                                report_if
                                  (not (is_one_of "json" "text" c.logging.format))
                                  bad_log_format))))))
      → IsIn p (check_settings c)
  unfolding check_settings
  setting_checked p h =
      IsIn-lists7 p (report_if (c.server.bind_addr == "") no_bind_addr)
        (report_if (c.database.path == "") no_database_path)
        (report_if (c.admin.socket_path == "") no_socket_path)
        (report_if (ltb_ℤ c.retry_policy.max_retries (pos 0)) negative_retries)
        (report_if (leb_ℤ c.queue.concurrency (pos 0)) no_concurrency)
        (report_if (not (is_one_of "tofu" "allowlist" c.crypto.trust_policy)) bad_trust_policy)
        (report_if (not (is_one_of "json" "text" c.logging.format)) bad_log_format) h

  IsIn-accounts : (p : Problem) → IsIn p (check_accounts c) → IsIn p (validate_config c)
  unfolding validate_config
  IsIn-accounts p h = IsIn-left p (check_accounts c) (check_settings c) h

  IsIn-settings : (p : Problem) → IsIn p (check_settings c) → IsIn p (validate_config c)
  unfolding validate_config
  IsIn-settings p h = IsIn-right p (check_accounts c) (check_settings c) h

  reported : (p : Problem) → IsIn p (accounts_problems 0 c.accounts) → IsIn p (validate_config c)
  unfolding check_accounts
  reported p h = IsIn-accounts p (
      IsIn-right p (report_if (is_empty c.accounts) no_accounts) (accounts_problems 0 c.accounts) h)

  validate_complete : (p : Problem) → Holds c p → IsIn p (validate_config c)
  unfolding check_accounts
  validate_complete no_accounts h = IsIn-accounts no_accounts (
      IsIn-left no_accounts (report_if (is_empty c.accounts) no_accounts)
        (accounts_problems 0 c.accounts)
        (report_complete _ no_accounts (empty_complete c.accounts h)))
  validate_complete no_bind_addr h = IsIn-settings no_bind_addr (
      setting_checked no_bind_addr
        (inl (report_complete _ no_bind_addr ((eq_iff c.server.bind_addr "").1 h))))
  validate_complete no_database_path h = IsIn-settings no_database_path (
      setting_checked no_database_path
        (inr (inl (report_complete _ no_database_path ((eq_iff c.database.path "").1 h)))))
  validate_complete no_socket_path h = IsIn-settings no_socket_path (
      setting_checked no_socket_path
        (inr (inr (inl (report_complete _ no_socket_path ((eq_iff c.admin.socket_path "").1 h))))))
  validate_complete negative_retries h = IsIn-settings negative_retries (
      setting_checked negative_retries (
        inr (
          inr (
            inr (
              inl
                (report_complete _ negative_retries (is-negative c.retry_policy.max_retries h)))))))
  validate_complete no_concurrency h = IsIn-settings no_concurrency (
      setting_checked no_concurrency (
        inr (
          inr (
            inr (
              inr (
                inl (report_complete _ no_concurrency (is-not_positive c.queue.concurrency h))))))))
  validate_complete bad_trust_policy h = IsIn-settings bad_trust_policy (
      setting_checked bad_trust_policy (
        inr (
          inr (
            inr (
              inr (
                inr (
                  inl (
                    report_complete _ bad_trust_policy
                      (none-is_one_of "tofu" "allowlist" c.crypto.trust_policy h.0 h.1)))))))))
  validate_complete bad_log_format h = IsIn-settings bad_log_format (
      setting_checked bad_log_format (
        inr (
          inr (
            inr (
              inr (
                inr (
                  inr (
                    report_complete _ bad_log_format
                      (none-is_one_of "json" "text" c.logging.format h.0 h.1)))))))))
  validate_complete (no_id i) (a, h, q) = reported (no_id i) (
      account_problems_complete i a (no_id i) h
        (account_checked i a (no_id i) (inl (report_complete _ (no_id i) ((eq_iff a.id "").1 q)))))
  validate_complete (no_homeserver_url i) (a, h, q) = reported (no_homeserver_url i) (
      account_problems_complete i a (no_homeserver_url i) h (
        account_checked i a (no_homeserver_url i)
          (inr (inl (report_complete _ (no_homeserver_url i) ((eq_iff a.homeserver_url "").1 q))))))
  validate_complete (no_user_id i) (a, h, q) = reported (no_user_id i) (
      account_problems_complete i a (no_user_id i) h (
        account_checked i a (no_user_id i)
          (inr (inr (inl (report_complete _ (no_user_id i) ((eq_iff a.user_id "").1 q)))))))
  validate_complete (no_access_token i) (a, h, q) = reported (no_access_token i) (
      account_problems_complete i a (no_access_token i) h (
        account_checked i a (no_access_token i) (
          inr
            (inr (inr (report_complete _ (no_access_token i) ((eq_iff a.access_token "").1 q)))))))

-- Validate reports a problem exactly if the configuration has it, and no problem hides another. Of an
-- account these are a missing ID, homeserver, user or token, each with the index of the account;
-- the device ID is not looked at.
pub validate_config-Holds : (c : Config) (p : Problem) → IsIn p (validate_config c) ↔ Holds c p
validate_config-Holds c p = (validate_sound c p, validate_complete c p)
