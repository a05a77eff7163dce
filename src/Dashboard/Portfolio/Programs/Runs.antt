-- ===== src/Dashboard/Portfolio/Programs/Runs.antt =====
-- The programs of the portfolio, run alone, are the functions of DashboardPage.tsx.
use web3_lab_public.Prelude.{
  String, Bool, true, false, List, [], ◌∷◌, ◌++◌, Option, some, ◌≡◌, ◌∙◌, refl, arith, is_present,
  is_truthy,
}
use web3_lab_public.Prelude.Dict
use web3_lab_public.Browser.{
  Reply, ok, thrown, Response, World, Io, Request, resume, is_ok, fetched, await, set, ask, when,
  done, pure, ◌>>=◌, ◌>>◌,
}
use web3_lab_public.Program.{
  Program, settled, run, bind, recover, run-bind-as, run-ensure, run-recover-as, run-query-as,
  run-settled-as,
}
use web3_lab_public.Dashboard.State.{Dashboard, TokenBalance, UserInfo}
use web3_lab_public.Dashboard.Services.{Services, BalanceItem}
use web3_lab_public.Dashboard.Portfolio.{
  parse_balances, checked_type, owned_by, enrich, enrich_all, balances_request, fetch_portfolio,
  userinfo_request, wallet_request, fetch_wallet, restore_wallet, fetch_data,
}
use web3_lab_public.Dashboard.Portfolio.Programs.{
  type_program, owner_program, enrich_program, enrich_all_program, items_program, balances_program,
  listing_program, portfolio_program, address_program, answer_program, wallet_program,
  known_program, user_program, data_program,
}

module _ (env : Services) where
  run-type_program :
      (t : TokenBalance) (w : World Dashboard) → run (type_program env t) w ≡ checked_type env t w
  unfolding type_program checked_type run bind recover
  run-type_program t w = ground arith

  run-owner_program :
      (address : String) (t : TokenBalance) (w : World Dashboard)
      → run (owner_program env address t) w ≡ owned_by env address t w
  unfolding owner_program owned_by run bind recover
  run-owner_program address t w = ground arith

  run-enrich_program :
      (address : String) (t : TokenBalance) (w : World Dashboard)
      → run (enrich_program env address t) w ≡ enrich env address t w
  unfolding enrich_program enrich run
  run-enrich_program address t w =
      run-bind-as (type_program env t) _ (checked_type env t) _ w (run-type_program t w) (λ type v.
        run-bind-as (owner_program env address t)
          (λ is_owner. Program.give (record t { is_owner = is_owner; type = type }))
          (owned_by env address t)
          (λ is_owner. pure (record t { is_owner = is_owner; type = type })) v
          (run-owner_program address t v) (λ is_owner u. refl))

  run-enrich_all_program :
      (address : String) (ts : List TokenBalance) (w : World Dashboard)
      → run (enrich_all_program env address ts) w ≡ enrich_all env address ts w
  unfolding enrich_all_program enrich_all run
  run-enrich_all_program address [] w = refl
  run-enrich_all_program address (t ∷ ts) w =
      run-bind-as (enrich_program env address t) _ (enrich env address t) _ w
        (run-enrich_program address t w)
        (λ t' v.
          run-bind-as (enrich_all_program env address ts) (λ ts'. Program.give (t' ∷ ts'))
            (enrich_all env address ts) (λ ts'. pure (t' ∷ ts')) v
            (run-enrich_all_program address ts v) (λ ts' u. refl))

  -- What the effects do with the answers.
  abbrev items_read : String → List BalanceItem → Io Dashboard (Unit {0})
  items_read address items =
      enrich_all env address (parse_balances env.number_of items)
      >>= (λ enriched. set (λ s. record s { portfolio = enriched }))

  abbrev balances_read : String → Response (List BalanceItem) → Io Dashboard (Unit {0})
  balances_read address res = when (is_ok res) (await res.json >>= items_read address)

  run-items_program :
      (address : String) (items : List BalanceItem) (w : World Dashboard)
      → run (items_program env address items) w ≡ items_read address items w
  unfolding run
  run-items_program address items w =
      run-bind-as (enrich_all_program env address (parse_balances env.number_of items)) _
        (enrich_all env address (parse_balances env.number_of items))
        (λ enriched. set (λ s. record s { portfolio = enriched })) w
        (run-enrich_all_program address (parse_balances env.number_of items) w) (λ e v. refl)

  run-balances_program :
      (address : String) (res : Response (List BalanceItem)) (w : World Dashboard)
      → run (balances_program env address res) w ≡ balances_read address res w
  unfolding run bind
  run-balances_program address res w = go (is_ok res) refl
    where
      go :
          (b : Bool)
          → is_ok res ≡ b
          → run (balances_program env address res) w ≡ balances_read address res w
      go true e = rw e (
          run-settled-as res.json (items_program env address) (items_read address) w
            (run-items_program address))
      go false e = rw e refl

  pub run-portfolio_program :
      (address : String) (w : World Dashboard)
      → run (portfolio_program env address) w ≡ fetch_portfolio env address w
  unfolding portfolio_program fetch_portfolio run
  run-portfolio_program address w =
      let begun : World Dashboard = record w {
        state = record w.state { portfolio_loading = true };
      } in
      run-ensure (λ s. record s { portfolio_loading = false }) (listing_program env address) begun
      ∙ rw
          (run-recover-as
            (Program.query (fetched (balances_request env address))
              (λ t. env.token_balances t (balances_request env address))
              (λ reply. bind (settled reply) (balances_program env address)))
            (λ _. Program.give tt)
            (ask (fetched (balances_request env address))
                (λ t. env.token_balances t (balances_request env address))
              >>= balances_read address)
            (λ _. done) begun
            (run-query-as (fetched (balances_request env address))
              (λ t. env.token_balances t (balances_request env address))
              (balances_program env address) (balances_read address) begun
              (run-balances_program address))
            (λ e v. refl))
          refl

  abbrev address_read : String → Io Dashboard (Unit {0})
  address_read address =
      set (λ s. record s { smart_wallet_address = some address }) >> fetch_portfolio env address

  abbrev answer_read : Response String → Io Dashboard (Unit {0})
  answer_read res = when (is_ok res) (await res.json >>= address_read)

  run-answer_program :
      (res : Response String) (w : World Dashboard)
      → run (answer_program env res) w ≡ answer_read res w
  unfolding run bind
  run-answer_program res w = go (is_ok res) refl
    where
      go : (b : Bool) → is_ok res ≡ b → run (answer_program env res) w ≡ answer_read res w
      go true e = rw e (
          run-settled-as res.json (address_program env) address_read w (λ address v.
            run-portfolio_program address
              (record v { state = record v.state { smart_wallet_address = some address } })))
      go false e = rw e refl

  run-wallet_program :
      (sub : String) (w : World Dashboard) → run (wallet_program env sub) w ≡ fetch_wallet env sub w
  unfolding wallet_program fetch_wallet run
  run-wallet_program sub w = go (is_truthy sub) refl
    where
      go : (b : Bool) → is_truthy sub ≡ b → run (wallet_program env sub) w ≡ fetch_wallet env sub w
      go true e = rw e (
          run-query-as (fetched (wallet_request env sub))
            (λ t. env.wallet_address t (wallet_request env sub)) (answer_program env) answer_read w
            run-answer_program)
      go false e = rw e refl

  abbrev known_read : UserInfo → Io Dashboard (Unit {0})
  known_read info =
      set (λ s. record s { user_info = some info })
      >> restore_wallet env
      >> fetch_wallet env info.sub

  abbrev user_read : Response UserInfo → Io Dashboard (Unit {0})
  user_read res = when (is_ok res) (await res.json >>= known_read)

  run-known_program :
      (stored : Option String) (info : UserInfo) (w : World Dashboard)
      → Dict.lookup "siwe_wallet_address" w.storage ≡ stored
      → run (known_program env stored info) w ≡ known_read info w
  unfolding restore_wallet run bind
  run-known_program stored info w e = go (is_present stored) refl
    where
      go :
          (b : Bool)
          → is_present stored ≡ b
          → run (known_program env stored info) w ≡ known_read info w
      go true k = ground (
        arith,
        e,
        k,
        run-wallet_program info.sub (record w {
          state = record w.state { user_info = some info; wallet_address = stored };
        }),
      )
      go false k = ground (
        arith,
        e,
        k,
        run-wallet_program info.sub (record w { state = record w.state { user_info = some info } }),
      )

  run-user_program :
      (stored : Option String) (res : Response UserInfo) (w : World Dashboard)
      → Dict.lookup "siwe_wallet_address" w.storage ≡ stored
      → run (user_program env stored res) w ≡ user_read res w
  unfolding run bind
  run-user_program stored res w e = go (is_ok res) res.json refl refl
    where
      go :
          (b : Bool) (j : Reply UserInfo)
          → is_ok res ≡ b
          → res.json ≡ j
          → run (user_program env stored res) w ≡ user_read res w
      go false j k l = rw k refl
      go true (thrown m) k l = ground (arith, k, l)
      go true (ok info) k l = ground (arith, k, l, run-known_program stored info w e)

  -- The program of `fetchData`, with the address that the storage has, run with no other event in
  -- between, is `fetchData`.
  pub run-data_program :
      (token : String) (w : World Dashboard)
      → run (data_program env token (Dict.lookup "siwe_wallet_address" w.storage)) w
        ≡ fetch_data env token w
  unfolding data_program fetch_data run bind
  run-data_program token w =
      run-recover-as
        (Program.query (fetched request) (λ t. env.userinfo t request)
          (λ reply. bind (settled reply) (user_program env stored)))
        (λ _. Program.give tt) (ask (fetched request) (λ t. env.userinfo t request) >>= user_read)
        (λ _. done) w (go (env.userinfo w.trace request)) (λ e v. refl)
    where
      request : Request
      request = userinfo_request env token

      stored : Option String
      stored = Dict.lookup "siwe_wallet_address" w.storage

      asked : World Dashboard
      asked = record w { trace = w.trace ++ fetched request ∷ [] }

      go :
          (r : Reply (Response UserInfo))
          → run (bind (settled r) (user_program env stored)) asked ≡ resume (r, asked) user_read
      go (ok res) = run-user_program stored res asked refl
      go (thrown m) = refl
