-- ===== src/Config/Overrides.antt =====
-- internal/config/load.go against internal/config/validate.go: what the environment can break, and
-- what the defaults leave to the file.
use matfix.Shared.{
  ◌≡◌, ◌≢◌, refl, ap, ◌↔◌, ◌⊎◌, inl, inr, ℕ, String, Option, none, some, List, [], ◌∷◌, IsIn,
  Bool-cases, ◌==◌, eq_iff, arith,
}
use matfix.Config.{
  AccountConfig, Config, defaults, Problem, no_accounts, no_id, no_homeserver_url, no_user_id,
  no_access_token, no_bind_addr, no_database_path, no_socket_path, negative_retries, no_concurrency,
  bad_trust_policy, bad_log_format, validate_config, or_kept, apply_env_overrides, load,
}
use matfix.Config.Problems.{account_at, Holds}
use matfix.Config.Problems.Complete.{validate_config-Holds}

nil-empty : (xs : List Problem) → xs ≡ [] → (p : Problem) → ¬ IsIn p xs
nil-empty [] h p k = k
nil-empty (x ∷ xs) h p k = absurd (cc)

empty-nil : (xs : List Problem) → ((p : Problem) → ¬ IsIn p xs) → xs ≡ []
empty-nil [] h = refl
empty-nil (x ∷ xs) h = absurd (h x (inl refl))

valid-none : (c : Config) → validate_config c ≡ [] → (p : Problem) → ¬ Holds c p
valid-none c h p k = nil-empty (validate_config c) h p ((validate_config-Holds c p).1 k)

none-valid : (c : Config) → ((p : Problem) → ¬ Holds c p) → validate_config c ≡ []
none-valid c h = empty-nil (validate_config c) (λ p k. h p ((validate_config-Holds c p).0 k))

module _ (lookup_env : String → Option String) where
  -- A required setting that the environment sets is not emptied, and a format is one of the two.
  abbrev pub IsHarmless : Type 0
  IsHarmless =
      (lookup_env "MATFIX_SERVER_BIND_ADDR" ≢ some "")
      × (lookup_env "MATFIX_DATABASE_PATH" ≢ some "")
      × (lookup_env "MATFIX_ADMIN_SOCKET_PATH" ≢ some "")
      × ((v : String) → lookup_env "MATFIX_LOGGING_FORMAT" ≡ some v → ((v ≡ "json") ⊎ (v ≡ "text")))

  kept-set : (o : Option String) (s : String) → or_kept o s ≡ "" → s ≢ "" → o ≡ some ""
  unfolding or_kept
  kept-set none s h k = absurd (k h)
  kept-set (some v) s h k = ap (λ t. some t) h

  emptied : (o : Option String) (s : String) → o ≡ some "" → or_kept o s ≡ ""
  unfolding or_kept
  emptied o s h = rw h refl

  kept-format :
      (o : Option String) (s : String)
      → ((v : String) → o ≡ some v → ((v ≡ "json") ⊎ (v ≡ "text")))
      → (or_kept o s ≢ "json") × (or_kept o s ≢ "text")
      → (s ≢ "json") × (s ≢ "text")
  unfolding or_kept
  kept-format none s h k = k
  kept-format (some v) s h (k, l) = absurd (elim (h v refl) [ inl q ↦ k q | inr q ↦ l q ])

  harmless-valid :
      (c : Config)
      → ((p : Problem) → ¬ Holds c p)
      → IsHarmless
      → (p : Problem) → ¬ Holds (apply_env_overrides lookup_env c) p
  unfolding apply_env_overrides
  harmless-valid c h env no_accounts k = h no_accounts k
  harmless-valid c h env (no_id i) k = h (no_id i) k
  harmless-valid c h env (no_homeserver_url i) k = h (no_homeserver_url i) k
  harmless-valid c h env (no_user_id i) k = h (no_user_id i) k
  harmless-valid c h env (no_access_token i) k = h (no_access_token i) k
  harmless-valid c h env no_bind_addr k = env.0 (kept-set _ c.server.bind_addr k (h no_bind_addr))
  harmless-valid c h env no_database_path k =
      env.1 (kept-set _ c.database.path k (h no_database_path))
  harmless-valid c h env no_socket_path k =
      env.2 (kept-set _ c.admin.socket_path k (h no_socket_path))
  harmless-valid c h env negative_retries k = h negative_retries k
  harmless-valid c h env no_concurrency k = h no_concurrency k
  harmless-valid c h env bad_trust_policy k = h bad_trust_policy k
  harmless-valid c h env bad_log_format k =
      h bad_log_format (kept-format _ c.logging.format env.3 k)

  one_of_two : (a b v : String) → ¬ ((v ≢ a) × (v ≢ b)) → (v ≡ a) ⊎ (v ≡ b)
  one_of_two a b v h = elim (Bool-cases (v == a)) [
    | inl q ↦ inl ((eq_iff v a).0 q)
    | inr p ↦ elim (Bool-cases (v == b)) [
      | inl q ↦ inr ((eq_iff v b).0 q)
      | inr q ↦
          absurd
            (h ((λ e. ground (arith, (eq_iff v a).1 e)), (λ e. ground (arith, (eq_iff v b).1 e))))
    ]
  ]

  valid-harmless :
      (c : Config) → ((p : Problem) → ¬ Holds (apply_env_overrides lookup_env c) p) → IsHarmless
  unfolding apply_env_overrides or_kept
  valid-harmless c h = (
    λ q. h no_bind_addr (emptied _ c.server.bind_addr q),
    λ q. h no_database_path (emptied _ c.database.path q),
    λ q. h no_socket_path (emptied _ c.admin.socket_path q),
    λ v q. one_of_two "json" "text" v (λ k. h bad_log_format (rw q k)),
  )

  -- If the file gives a valid configuration, Load succeeds, and its result is valid exactly if no
  -- variable empties the listen address, the path of the database or the admin socket, and the log
  -- format, if it is set, is json or text.
  pub load-IsHarmless :
      (unmarshal : String → Config → Option Config) (text : String) (c : Config)
      → unmarshal text defaults ≡ some c
      → validate_config c ≡ []
      → (c' : Config) × (load lookup_env unmarshal (some text) ≡ some c')
        × ((validate_config c' ≡ []) ↔ IsHarmless)
  unfolding load
  load-IsHarmless unmarshal text c read valid =
      let c' = apply_env_overrides lookup_env c in
      (
        c',
        rw read refl,
        (
          (λ v. valid-harmless c (valid-none c' v)),
          (λ env. none-valid c' (harmless-valid c (valid-none c valid) env)),
        ),
      )

-- A file that sets nothing but accounts, at least one and each with an ID, a homeserver, a user and
-- a token, gives a valid configuration over the defaults.
defaults-valid :
    (accounts : List AccountConfig)
    → accounts ≢ []
    → ((i : ℕ) (a : AccountConfig)
        → account_at i accounts ≡ some a
        → (a.id ≢ "") × (a.homeserver_url ≢ "") × (a.user_id ≢ "") × (a.access_token ≢ ""))
    → validate_config (record defaults { accounts = accounts }) ≡ []
defaults-valid accounts some_account complete =
    none-valid (record defaults { accounts = accounts }) no_problem
  where
    no_problem : (p : Problem) → ¬ Holds (record defaults { accounts = accounts }) p
    no_problem no_accounts k = some_account k
    no_problem (no_id i) (a, h, q) = (complete i a h).0 q
    no_problem (no_homeserver_url i) (a, h, q) = (complete i a h).1 q
    no_problem (no_user_id i) (a, h, q) = (complete i a h).2 q
    no_problem (no_access_token i) (a, h, q) = (complete i a h).3 q
    no_problem no_bind_addr k = absurd (cc)
    no_problem no_database_path k = absurd (cc)
    no_problem no_socket_path k = absurd (cc)
    no_problem negative_retries k = k (omega arith)
    no_problem no_concurrency k = absurd (omega arith)
    no_problem bad_trust_policy (k, l) = k refl
    no_problem bad_log_format (k, l) = k refl
