-- ===== src/Account/Started.antt =====
-- internal/account/manager.go and failure.go: what StartAll leaves, and when it fails.
use matfix.Shared.{
  ◌≡◌, ◌≢◌, refl, sym, ap, ◌∙◌, ◌↔◌, ◌⊎◌, inl, inr, String, true, some, List, [], ◌∷◌, ◌==◌,
  if◌then◌else◌, IsIn, All, any_where, Result, ok, err, Bool-cases, eq_iff, eq_refl,
}
use matfix.Config.{AccountConfig}
use matfix.Account.{
  AccountContext, AccountManager, available, new_account_manager, set_account, get_account,
  is_available, some_available, check_failures, start_result, record_start, start_each, start_all,
}

-- No two accounts have one ID.
abbrev pub IsDistinct : List AccountConfig → Type 0
IsDistinct [] = Unit
IsDistinct (a ∷ rest) = All (λ b. b.id ≢ a.id) rest × IsDistinct rest

abbrev Accounts : Type 0
Accounts = List (String × AccountContext)

get-set_same :
    (id : String) (actx : AccountContext) (m : Accounts)
    → get_account id (set_account id actx m) ≡ some actx
unfolding get_account set_account
get-set_same id actx [] = rw (eq_refl id) refl
get-set_same id actx ((k, old) ∷ rest) = elim (Bool-cases (k == id)) [
  | inl same ↦ rw same (rw (eq_refl id) refl)
  | inr other ↦ rw other (rw other (get-set_same id actx rest))
]

get-set_other :
    (id other : String) (actx : AccountContext) (m : Accounts)
    → other ≢ id
    → get_account other (set_account id actx m) ≡ get_account other m
unfolding get_account set_account
get-set_other id other actx [] h = elim (Bool-cases (id == other)) [
  | inl same ↦ absurd (h (sym ((eq_iff id other).0 same)))
  | inr differs ↦ rw differs refl
]
get-set_other id other actx ((k, old) ∷ rest) h = elim (Bool-cases (k == id)) [
  | inl same ↦ elim (Bool-cases (id == other)) [
    | inl bad ↦ absurd (h (sym ((eq_iff id other).0 bad)))
    | inr differs ↦ (let e : k ≡ id = (eq_iff k id).0 same in rw same (rw e (rw differs refl)))
  ]
  | inr differs ↦
      rw differs (ap (λ r. if k == other then some old else r) (get-set_other id other actx rest h))
]

module _ (new_client new_crypto : AccountConfig → Result (Unit {0})) where
  abbrev record_one : AccountConfig → AccountManager → AccountManager
  record_one a m = record_start new_client new_crypto a (start_result new_client new_crypto a) m

  -- Both components of the account could be made.
  abbrev pub Starts : AccountConfig → Type 0
  Starts a = start_result new_client new_crypto a ≡ ok tt

  -- The context says whether the account was started, and why not.
  abbrev pub IsRecorded : AccountConfig → AccountContext → Type 0
  IsRecorded a actx = (actx.account_id ≡ a.id) × ((actx.status ≡ available) ↔ Starts a)

  recorded :
      (a : AccountConfig) (r : Result (Unit {0})) (m : AccountManager)
      → start_result new_client new_crypto a ≡ r
      → (actx : AccountContext) × (get_account a.id
            (record_start new_client new_crypto a r m).accounts
          ≡ some actx)
        × IsRecorded a actx
  unfolding record_start
  recorded a (ok u) m q = (_, get-set_same a.id _ m.accounts, (refl, ((λ s. q), (λ s. refl))))
  recorded a (err e) m q =
      (_, get-set_same a.id _ m.accounts, (refl, ((λ s. absurd (cc)), (λ s. absurd (cc)))))

  get-record_other :
      (a : AccountConfig) (r : Result (Unit {0})) (m : AccountManager) (id : String)
      → id ≢ a.id
      → get_account id (record_start new_client new_crypto a r m).accounts
        ≡ get_account id m.accounts
  unfolding record_start
  get-record_other a (ok u) m id h = get-set_other a.id id _ m.accounts h
  get-record_other a (err e) m id h = get-set_other a.id id _ m.accounts h

  get-start_each :
      (id : String) (cfgs : List AccountConfig) (m : AccountManager)
      → All (λ b. b.id ≢ id) cfgs
      → get_account id (start_each new_client new_crypto cfgs m).accounts
        ≡ get_account id m.accounts
  unfolding start_each
  get-start_each id [] m h = refl
  get-start_each id (a ∷ rest) m (h, hs) =
      get-start_each id rest (record_one a m) hs
      ∙ get-record_other a (start_result new_client new_crypto a) m id (λ q. h (sym q))

  start_each-IsRecorded :
      (cfgs : List AccountConfig) (m : AccountManager) (a : AccountConfig)
      → IsDistinct cfgs
      → IsIn a cfgs
      → (actx : AccountContext) × (get_account a.id
            (start_each new_client new_crypto cfgs m).accounts
          ≡ some actx)
        × IsRecorded a actx
  unfolding start_each
  start_each-IsRecorded [] m a d h = absurd h
  start_each-IsRecorded (b ∷ rest) m a (apart, d) (inr h) =
      start_each-IsRecorded rest (record_one b m) a d h
  start_each-IsRecorded (b ∷ rest) m a (apart, d) (inl q) =
      let (actx, g, r) = recorded b (start_result new_client new_crypto b) m refl in
      rw q (actx, get-start_each b.id rest (record_one b m) apart ∙ g, r)

  -- Each context that is available belongs to an account that starts.
  abbrev OnlyStarted : List AccountConfig → String × AccountContext → Type 0
  OnlyStarted all (id, actx) =
      is_available actx ≡ true → (a : AccountConfig) × IsIn a all × Starts a

  set-OnlyStarted :
      (all : List AccountConfig) (id : String) (actx : AccountContext) (m : Accounts)
      → OnlyStarted all (id, actx)
      → All (OnlyStarted all) m
      → All (OnlyStarted all) (set_account id actx m)
  unfolding set_account
  set-OnlyStarted all id actx [] h hs = (h, tt)
  set-OnlyStarted all id actx ((k, old) ∷ rest) h (o, os) = elim (Bool-cases (k == id)) [
    | inl same ↦ rw same (h, os)
    | inr differs ↦ rw differs (o, set-OnlyStarted all id actx rest h os)
  ]

  record-OnlyStarted :
      (all : List AccountConfig) (a : AccountConfig) (r : Result (Unit {0})) (m : AccountManager)
      → start_result new_client new_crypto a ≡ r
      → IsIn a all
      → All (OnlyStarted all) m.accounts
      → All (OnlyStarted all) (record_start new_client new_crypto a r m).accounts
  unfolding record_start
  record-OnlyStarted all a (ok u) m q here hs =
      set-OnlyStarted all a.id _ m.accounts (λ s. (a, here, q)) hs
  record-OnlyStarted all a (err e) m q here hs =
      set-OnlyStarted all a.id _ m.accounts (λ s. absurd (cc)) hs

  start_each-OnlyStarted :
      (all cfgs : List AccountConfig) (m : AccountManager)
      → ((a : AccountConfig) → IsIn a cfgs → IsIn a all)
      → All (OnlyStarted all) m.accounts
      → All (OnlyStarted all) (start_each new_client new_crypto cfgs m).accounts
  unfolding start_each
  start_each-OnlyStarted all [] m sub hs = hs
  start_each-OnlyStarted all (a ∷ rest) m sub hs =
      start_each-OnlyStarted all rest (record_one a m) (λ b h. sub b (inr h))
        (record-OnlyStarted all a (start_result new_client new_crypto a) m refl (sub a (inl refl))
          hs)

  some_available-started :
      (all : List AccountConfig) (m : Accounts)
      → All (OnlyStarted all) m
      → some_available m ≡ true
      → (a : AccountConfig) × IsIn a all × Starts a
  unfolding some_available any_where
  some_available-started all [] hs h = absurd (cc)
  some_available-started all ((id, actx) ∷ rest) (o, os) h = elim (Bool-cases (is_available actx)) [
    | inl up ↦ o up
    | inr down ↦ some_available-started all rest os (rw down at h)
  ]

  get-some_available :
      (id : String) (actx : AccountContext) (m : Accounts)
      → get_account id m ≡ some actx
      → is_available actx ≡ true
      → some_available m ≡ true
  unfolding get_account some_available any_where
  get-some_available id actx [] h up = absurd (cc)
  get-some_available id actx ((k, first) ∷ rest) h up = elim (Bool-cases (k == id)) [
    | inl same ↦ (let e : first ≡ actx = (let r = rw same at h in cc) in rw e (rw up refl))
    | inr differs ↦ elim (Bool-cases (is_available first)) [
      | inl yes_up ↦ rw yes_up refl
      | inr down ↦ rw down (get-some_available id actx rest (rw differs at h) up)
    ]
  ]

  check-ok : (m : Accounts) → check_failures m ≡ ok tt → (m ≡ []) ⊎ (some_available m ≡ true)
  unfolding check_failures
  check-ok [] h = inl refl
  check-ok (a ∷ m) h = elim (Bool-cases (some_available (a ∷ m))) [
    | inl up ↦ inr up
    | inr down ↦ absurd (let r = rw down at h in cc)
  ]

  ok-check : (m : Accounts) → some_available m ≡ true → check_failures m ≡ ok tt
  unfolding check_failures
  ok-check [] h = refl
  ok-check (a ∷ m) h = rw h refl

  abbrev map_of : List AccountConfig → Accounts
  map_of cfgs = (start_each new_client new_crypto cfgs new_account_manager).accounts

  none-started : (cfgs : List AccountConfig) → IsDistinct cfgs → map_of cfgs ≡ [] → cfgs ≡ []
  unfolding get_account
  none-started [] d h = refl
  none-started (a ∷ rest) d h =
      let (actx, g, r) = start_each-IsRecorded (a ∷ rest) new_account_manager a d (inl refl) in
      absurd (let impossible = rw h at g in cc)

  started-available :
      (cfgs : List AccountConfig) (a : AccountConfig)
      → IsDistinct cfgs
      → IsIn a cfgs
      → Starts a
      → some_available (map_of cfgs) ≡ true
  started-available cfgs a d here starts =
      let (actx, g, (id, status)) = start_each-IsRecorded cfgs new_account_manager a d here in
      get-some_available a.id actx (map_of cfgs) g (let up = status.1 starts in rw up refl)

  -- With distinct IDs, StartAll leaves a context for each account under its ID, which is available
  -- exactly if the account's client and crypto could be made, and it succeeds exactly if there is
  -- no account or one of them was started.
  pub start_all-IsRecorded :
      (cfgs : List AccountConfig)
      → IsDistinct cfgs
      → let (result, m) = start_all new_client new_crypto cfgs new_account_manager in
        ((a : AccountConfig)
          → IsIn a cfgs
          → (actx : AccountContext) × (get_account a.id m.accounts ≡ some actx) × IsRecorded a actx)
        × ((result ≡ ok tt) ↔ ((cfgs ≡ []) ⊎ ((a : AccountConfig) × IsIn a cfgs × Starts a)))
  unfolding start_all
  start_all-IsRecorded cfgs d = (
    λ a here. start_each-IsRecorded cfgs new_account_manager a d here,
    (
      λ h. elim (check-ok (map_of cfgs) h) [
        | inl nothing ↦ inl (none-started cfgs d nothing)
        | inr up ↦ inr (
            some_available-started cfgs (map_of cfgs)
              (start_each-OnlyStarted cfgs cfgs new_account_manager (λ a here. here) tt) up)
      ],
      λ h. started-ok cfgs d h,
    ),
  )
    where
      started-ok :
          (l : List AccountConfig)
          → IsDistinct l
          → (l ≡ []) ⊎ ((a : AccountConfig) × IsIn a l × Starts a)
          → check_failures (map_of l) ≡ ok tt
      started-ok l e (inr (a, here, starts)) =
          ok-check (map_of l) (started-available l a e here starts)
      started-ok [] e (inl q) = refl
      started-ok (a ∷ l) e (inl q) = absurd (cc)
