-- ===== src/Account/Stopped.antt =====
-- internal/account: what StopAll leaves running.
use matfix.Shared.{
  ◌≡◌, ◌≢◌, refl, sym, ap, ◌∙◌, ◌⊎◌, inl, inr, ℕ, String, Bool, true, false, Option, none, some,
  List, [], ◌∷◌, ◌==◌, eqb, IsIn, both_lists, All, delete_where, Result, ok, err, Bool-cases,
  eq_iff, arith,
}
use matfix.Config.{AccountConfig}
use matfix.Account.{
  AccountContext, AccountManager, Component, new_account_manager, set_account, start_result,
  record_start, start_each, start_all, is_sync, is_crypto, stop_if, stop_account, stop_each,
  stop_all, sync_loop, crypto_machine,
}
use matfix.Account.Started.{IsDistinct}

abbrev Accounts : Type 0
Accounts = List (String × AccountContext)

-- The context names the component.
abbrev Names : AccountContext → Component → Type 0
Names actx (sync_loop n) = actx.sync ≡ some n
Names actx (crypto_machine n) = actx.crypto ≡ some n

abbrev IsOwned : Accounts → Component → Type 0
IsOwned m c = (id : String) × (actx : AccountContext) × IsIn (id, actx) m × Names actx c

IsIn-delete_where :
    (p : Component → Bool) (c : Component) (live : List Component)
    → IsIn c (delete_where p live)
    → IsIn c live × (p c ≡ false)
unfolding delete_where
IsIn-delete_where p c [] h = absurd h
IsIn-delete_where p c (x ∷ live) h = elim (Bool-cases (p x)) [
  | inl gone ↦ (let (here, kept) = IsIn-delete_where p c live (rw gone at h) in (inr here, kept))
  | inr stays ↦ elim (rw stays at h) [
    | inl q ↦ (inl q, rw q stays)
    | inr k ↦ (let (here, kept) = IsIn-delete_where p c live k in (inr here, kept))
  ]
]

eqb_refl : (n : ℕ) → eqb n n ≡ true
eqb_refl n = ground arith

stop_if-IsIn :
    (test : ℕ → Component → Bool) (o : Option ℕ) (c : Component) (live : List Component)
    → IsIn c (stop_if test o live)
    → IsIn c live × ((n : ℕ) → o ≡ some n → test n c ≡ false)
unfolding delete_where
stop_if-IsIn test none c live h = (h, λ n q. absurd (cc))
stop_if-IsIn test (some k) c live h =
    let (here, kept) = IsIn-delete_where (test k) c live h in
    (here, λ n q. let e : k ≡ n = cc in rw (← e) kept)

-- What still runs after a stop did so before, and is not the account's.
stop_account-IsIn :
    (actx : AccountContext) (c : Component) (live : List Component)
    → IsIn c (stop_account actx live)
    → IsIn c live × ¬ Names actx c
unfolding stop_account
stop_account-IsIn actx c live h =
    let (mid, not_crypto) = stop_if-IsIn is_crypto actx.crypto c _ h in
    let (here, not_sync) = stop_if-IsIn is_sync actx.sync c live mid in
    (here, foreign c not_sync not_crypto)
  where
    foreign :
        (c : Component)
        → ((n : ℕ) → actx.sync ≡ some n → is_sync n c ≡ false)
        → ((n : ℕ) → actx.crypto ≡ some n → is_crypto n c ≡ false)
        → ¬ Names actx c
    foreign (sync_loop n) s k named = absurd (let r = s n named in let t = eqb_refl n in cc)
    foreign (crypto_machine n) s k named = absurd (let r = k n named in let t = eqb_refl n in cc)

stop_each-IsIn :
    (m : Accounts) (c : Component) (live : List Component)
    → IsIn c (stop_each m live)
    → IsIn c live × ¬ IsOwned m c
unfolding stop_each
stop_each-IsIn [] c live h = (h, λ (id, actx, here, named). here)
stop_each-IsIn ((id, actx) ∷ rest) c live h =
    let (mid, others) = stop_each-IsIn rest c (stop_account actx live) h in
    let (here, own) = stop_account-IsIn actx c live mid in
    (here, λ (k, a, place, named). apart own others k a place named)
  where
    apart :
        ¬ Names actx c
        → ¬ IsOwned rest c
        → (k : String) (a : AccountContext) → IsIn (k, a) ((id, actx) ∷ rest)
        → Names a c
        → ⊥
    apart own others k a (inl q) named = own (let e : a ≡ actx = ap (λ t. t.1) q in rw e at named)
    apart own others k a (inr place) named = others (k, a, place, named)

no_components : (live : List Component) → ((c : Component) → ¬ IsIn c live) → live ≡ []
no_components [] h = refl
no_components (c ∷ live) h = absurd (h c (inl refl))

set-here :
    (id : String) (actx : AccountContext) (m : Accounts) → IsIn (id, actx) (set_account id actx m)
unfolding set_account
set-here id actx [] = inl refl
set-here id actx ((k, old) ∷ rest) = elim (Bool-cases (k == id)) [
  | inl same ↦ rw same (inl refl)
  | inr differs ↦ rw differs (inr (set-here id actx rest))
]

set-keeps :
    (id k : String) (actx x : AccountContext) (m : Accounts)
    → id ≢ k
    → IsIn (k, x) m
    → IsIn (k, x) (set_account id actx m)
unfolding set_account
set-keeps id k actx x [] h here = absurd here
set-keeps id k actx x ((j, old) ∷ rest) h (inl q) = elim (Bool-cases (j == id)) [
  | inl same ↦ absurd (h (sym (ap (λ t. t.0) q ∙ (eq_iff j id).0 same)))
  | inr differs ↦ rw differs (inl q)
]
set-keeps id k actx x ((j, old) ∷ rest) h (inr here) = elim (Bool-cases (j == id)) [
  | inl same ↦ rw same (inr here)
  | inr differs ↦ rw differs (inr (set-keeps id k actx x rest h here))
]

set-from :
    (id k : String) (actx x : AccountContext) (m : Accounts)
    → IsIn (k, x) (set_account id actx m)
    → (k ≡ id) ⊎ IsIn (k, x) m
unfolding set_account
set-from id k actx x [] (inl q) = inl (ap (λ t. t.0) q)
set-from id k actx x [] (inr h) = absurd h
set-from id k actx x ((j, old) ∷ rest) h = elim (Bool-cases (j == id)) [
  | inl same ↦ elim (rw same at h) [ inl q ↦ inl (ap (λ t. t.0) q) | inr here ↦ inr (inr here) ]
  | inr differs ↦ elim (rw differs at h) [
    | inl q ↦ inr (inl q)
    | inr here ↦ elim (set-from id k actx x rest here) [
      | inl e ↦ inl e
      | inr there ↦ inr (inr there)
    ]
  ]
]

module _ (new_client new_crypto : AccountConfig → Result (Unit {0})) where
  abbrev AllOwned : AccountManager → Type 0
  AllOwned m = (c : Component) → IsIn c m.live → IsOwned m.accounts c

  -- No account of the map is still to be started.
  abbrev IsFresh : List AccountConfig → AccountManager → Type 0
  IsFresh cfgs m =
      (k : String) (x : AccountContext) → IsIn (k, x) m.accounts → All (λ b. b.id ≢ k) cfgs

  still-IsOwned :
      (id : String) (actx : AccountContext) (m : Accounts) (c : Component)
      → ((k : String) (x : AccountContext) → IsIn (k, x) m → id ≢ k)
      → IsOwned m c
      → IsOwned (set_account id actx m) c
  still-IsOwned id actx m c apart (k, x, here, named) =
      (k, x, set-keeps id k actx x m (apart k x here) here, named)

  record-AllOwned :
      (a : AccountConfig) (r : Result (Unit {0})) (m : AccountManager)
      → ((k : String) (x : AccountContext) → IsIn (k, x) m.accounts → a.id ≢ k)
      → AllOwned m
      → AllOwned (record_start new_client new_crypto a r m)
  unfolding record_start
  record-AllOwned a (err e) m apart owned c h = still-IsOwned a.id _ m.accounts c apart (owned c h)
  record-AllOwned a (ok u) m apart owned c h =
      both_lists (IsOwned (record_start new_client new_crypto a (ok u) m).accounts) m.live
        (crypto_machine m.next ∷ sync_loop m.next ∷ [])
        (λ c h. still-IsOwned a.id _ m.accounts c apart (owned c h)) new_ones c h
    where
      new_ones :
          (c : Component)
          → IsIn c (crypto_machine m.next ∷ sync_loop m.next ∷ [])
          → IsOwned (record_start new_client new_crypto a (ok u) m).accounts c
      new_ones c (inl q) = rw q (_, _, set-here a.id _ m.accounts, refl)
      new_ones c (inr (inl q)) = rw q (_, _, set-here a.id _ m.accounts, refl)
      new_ones c (inr (inr h)) = absurd h

  record-IsFresh :
      (a : AccountConfig) (r : Result (Unit {0})) (m : AccountManager) (rest : List AccountConfig)
      → All (λ b. b.id ≢ a.id) rest
      → IsFresh (a ∷ rest) m
      → IsFresh rest (record_start new_client new_crypto a r m)
  unfolding record_start
  record-IsFresh a (ok u) m rest apart fresh k x h = elim (set-from a.id k _ x m.accounts h) [
    | inl q ↦ rw q apart
    | inr here ↦ (fresh k x here).1
  ]
  record-IsFresh a (err e) m rest apart fresh k x h = elim (set-from a.id k _ x m.accounts h) [
    | inl q ↦ rw q apart
    | inr here ↦ (fresh k x here).1
  ]

  start_each-AllOwned :
      (cfgs : List AccountConfig) (m : AccountManager)
      → IsDistinct cfgs
      → IsFresh cfgs m
      → AllOwned m
      → AllOwned (start_each new_client new_crypto cfgs m)
  unfolding start_each
  start_each-AllOwned [] m d fresh owned = owned
  start_each-AllOwned (a ∷ rest) m (apart, d) fresh owned =
      let r = start_result new_client new_crypto a in
      start_each-AllOwned rest (record_start new_client new_crypto a r m) d
        (record-IsFresh a r m rest apart fresh)
        (record-AllOwned a r m (λ k x h. (fresh k x h).0) owned)

  -- If the IDs of the accounts are distinct, StopAll after StartAll stops every sync loop and every
  -- crypto machine that was started, whichever accounts failed.
  pub stop_all-start_all :
      (cfgs : List AccountConfig)
      → IsDistinct cfgs
      → (stop_all (start_all new_client new_crypto cfgs new_account_manager).1).live ≡ []
  unfolding stop_all start_all
  stop_all-start_all cfgs d =
      let m = start_each new_client new_crypto cfgs new_account_manager in
      no_components (stop_each m.accounts m.live) (λ c h.
        let (here, foreign) = stop_each-IsIn m.accounts c m.live h in
        foreign (
          start_each-AllOwned cfgs new_account_manager d (λ k x q. absurd q) (λ x q. absurd q) c
            here))
