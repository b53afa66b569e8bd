-- ===== src/Scenarios/Accounts.antt =====
-- Two accounts, one of which cannot be started.
use matfix.Shared.{
  ◌≡◌, ◌≢◌, refl, ◌↔◌, ◌⊎◌, String, some, List, [], ◌∷◌, ◌==◌, if◌then◌else◌, IsIn, Result, ok, err,
  homeserver, eq_iff,
}
use matfix.Config.{AccountConfig}
use matfix.Account.{
  AccountContext, new_account_manager, get_account, start_all, stop_all, sync_loop, crypto_machine,
}
use matfix.Account.Started.{IsDistinct, IsRecorded, Starts, start_all-IsRecorded}
use matfix.Account.Stopped.{stop_all-start_all}

abbrev account : String → AccountConfig
account id = record {
  id = id;
  homeserver_url = "https://x";
  user_id = "@bot:x";
  access_token = "t";
  device_id = "";
  recovery_key = "";
}

abbrev made : AccountConfig → Result (Unit {0})
made a = ok tt

abbrev made_but_b : AccountConfig → Result (Unit {0})
made_but_b a = if a.id == "b" then err homeserver else ok tt

abbrev two : List AccountConfig
two = account "a" ∷ account "b" ∷ []

b_is_not_a : (account "b").id ≢ (account "a").id
b_is_not_a q = absurd (let r = (eq_iff "b" "a").1 q in cc)

two-IsDistinct : IsDistinct two
two-IsDistinct = ((b_is_not_a, tt), (tt, tt))

start_all-IsRecorded_example :
    let (result, m) = start_all made made_but_b two new_account_manager in
    ((a : AccountConfig)
      → IsIn a two
      → (actx : AccountContext) × (get_account a.id m.accounts ≡ some actx)
        × IsRecorded made made_but_b a actx)
    × ((result ≡ ok tt)
        ↔ ((two ≡ []) ⊎ ((a : AccountConfig) × IsIn a two × Starts made made_but_b a)))
start_all-IsRecorded_example = start_all-IsRecorded made made_but_b two two-IsDistinct

stop_all-start_all_example :
    (stop_all (start_all made made_but_b two new_account_manager).1).live ≡ []
stop_all-start_all_example = stop_all-start_all made made_but_b two two-IsDistinct

-- Of two accounts under one ID the first is never stopped.
same_id_leaks :
    (stop_all (start_all made made (account "a" ∷ account "a" ∷ []) new_account_manager).1).live
    ≡ crypto_machine 0 ∷ sync_loop 0 ∷ []
unfolding start_all stop_all
same_id_leaks = refl
