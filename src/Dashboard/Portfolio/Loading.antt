-- ===== src/Dashboard/Portfolio/Loading.antt =====
-- The first effect of the dashboard.
use web3_lab_public.Prelude.{String, false, [], ◌∷◌, ◌++◌, Option, none, some, ◌≡◌, refl, arith}
use web3_lab_public.Prelude.Dict
use web3_lab_public.Browser.{Request, Reply, ok, thrown, World, Response, fetched, navigated}
use web3_lab_public.Dashboard.State.{Dashboard, UserInfo}
use web3_lab_public.Dashboard.Services.{Services}
use web3_lab_public.Dashboard.Identities.{session}
use web3_lab_public.Dashboard.Identities.Laws.{fetch_identities_lem}
use web3_lab_public.Dashboard.Portfolio.{
  wallet_request, fetch_wallet, userinfo_request, restore_wallet, fetch_data, on_mount,
}
use web3_lab_public.Dashboard.Portfolio.Fetching.{
  fetch_portfolio-addresses, fetch_portfolio-unloaded, unloaded,
}

-- The state without what the first effect writes.
abbrev pub unread : Dashboard → Dashboard
unread s = record s {
  token = none;
  user_info = none;
  wallet_address = none;
  smart_wallet_address = none;
  portfolio = [];
  linked_identities = [];
}

module _ (env : Services) where
  -- What a part of the loading leaves alone.
  record IsLoading {A : Type 0} (w : World Dashboard) (r : Reply A × World Dashboard) : Type 0 where
    storage_kept : r.1.storage ≡ w.storage
    state_kept : w.state.portfolio_loading ≡ false → unloaded r.1.state ≡ unloaded w.state

  fetch_wallet-IsLoading :
      (sub : String) (w : World Dashboard) → IsLoading w (fetch_wallet env sub w)
  unfolding fetch_wallet
  fetch_wallet-IsLoading String.[] w = record { storage_kept = refl; state_kept = λ _. refl }
  fetch_wallet-IsLoading (String.◌∷◌ c s) w = go (env.wallet_address w.trace request) refl
    where
      request : Request
      request = wallet_request env (String.◌∷◌ c s)

      Goal : Type 0
      Goal = IsLoading w (fetch_wallet env (String.◌∷◌ c s) w)

      found : String → World Dashboard
      found address = record w {
        state = record w.state { smart_wallet_address = some address };
        trace = w.trace ++ fetched request ∷ [];
      }

      read :
          (res : Response String) (j : Reply String)
          → env.wallet_address w.trace request ≡ ok res
          → res.json ≡ j
          → Goal
      read res (thrown m) e j = ground arith
      read res (ok address) e j = ground (
        arith,
        fetch_portfolio-addresses env address (found address),
        fetch_portfolio-unloaded env address (found address),
      )

      go : (r : Reply (Response String)) → env.wallet_address w.trace request ≡ r → Goal
      go (thrown m) e = ground arith
      go (ok res) e = read res res.json e refl

  fetch_data-IsLoading :
      (token : String) (w : World Dashboard)
      → ((fetch_data env token w).0 ≡ ok tt) × IsLoading w (fetch_data env token w)
  unfolding fetch_data restore_wallet
  fetch_data-IsLoading token w = go (env.userinfo w.trace (userinfo_request env token)) refl
    where
      Goal : Type 0
      Goal = ((fetch_data env token w).0 ≡ ok tt) × IsLoading w (fetch_data env token w)

      shown : UserInfo → World Dashboard
      shown info =
          (restore_wallet env (record w {
            state = record w.state { user_info = some info };
            trace = w.trace ++ fetched (userinfo_request env token) ∷ [];
          })).1

      read :
          (res : Response UserInfo) (j : Reply UserInfo)
          → env.userinfo w.trace (userinfo_request env token) ≡ ok res
          → res.json ≡ j
          → Goal
      read res (thrown m) e j = ground arith
      read res (ok info) e j = ground (arith, fetch_wallet-IsLoading info.sub (shown info))

      go :
          (r : Reply (Response UserInfo))
          → env.userinfo w.trace (userinfo_request env token) ≡ r
          → Goal
      go (thrown m) e = ground arith
      go (ok res) e = read res res.json e refl

  -- Loading the dashboard never fails and leaves the storage alone. Without a session the page is
  -- left for the root, and nothing is asked; with one the identities' mark of loading is off at the
  -- end.
  pub dashboard_on_mount_lem :
      (w : World Dashboard)
      → ((on_mount env w).0 ≡ ok tt)
        × ((on_mount env w).1.storage ≡ w.storage)
        × (session (Dict.lookup "access_token" w.storage) ≡ none
            → on_mount env w ≡ (ok tt, record w { trace = w.trace ++ navigated "/" ∷ [] }))
        × ((token : String)
            → session (Dict.lookup "access_token" w.storage) ≡ some token
            → (on_mount env w).1.state.identities_loading ≡ false)
  unfolding on_mount
  dashboard_on_mount_lem w = go (session (Dict.lookup "access_token" w.storage)) refl
    where
      go :
          (t : Option String)
          → session (Dict.lookup "access_token" w.storage) ≡ t
          → ((on_mount env w).0 ≡ ok tt)
            × ((on_mount env w).1.storage ≡ w.storage)
            × (session (Dict.lookup "access_token" w.storage) ≡ none
                → on_mount env w ≡ (ok tt, record w { trace = w.trace ++ navigated "/" ∷ [] }))
            × ((token : String)
                → session (Dict.lookup "access_token" w.storage) ≡ some token
                → (on_mount env w).1.state.identities_loading ≡ false)
      go none e = ground arith
      go (some token) e =
          let opened : World Dashboard = record w {
            state = record w.state { token = some token };
          } in
          ground (
            arith,
            fetch_data-IsLoading token opened,
            fetch_identities_lem env token (fetch_data env token opened).1,
          )

  -- The first effect writes what it reads of the account, the token and the list of identities, and
  -- nothing else of the page; with a session the token is the storage's.
  pub on_mount-unread :
      (w : World Dashboard)
      → w.state.portfolio_loading ≡ false
      → w.state.identities_loading ≡ false
      → (unread (on_mount env w).1.state ≡ unread w.state)
        × ((token : String)
            → session (Dict.lookup "access_token" w.storage) ≡ some token
            → (on_mount env w).1.state.token ≡ some token)
  unfolding on_mount
  on_mount-unread w p q = go (session (Dict.lookup "access_token" w.storage)) refl
    where
      go :
          (t : Option String)
          → session (Dict.lookup "access_token" w.storage) ≡ t
          → (unread (on_mount env w).1.state ≡ unread w.state)
            × ((token : String)
                → session (Dict.lookup "access_token" w.storage) ≡ some token
                → (on_mount env w).1.state.token ≡ some token)
      go none e = ground arith
      go (some token) e =
          let opened : World Dashboard = record w {
            state = record w.state { token = some token };
          } in
          ground (
            arith,
            fetch_data-IsLoading token opened,
            fetch_identities_lem env token (fetch_data env token opened).1,
          )
