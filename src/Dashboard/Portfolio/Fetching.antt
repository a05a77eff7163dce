-- ===== src/Dashboard/Portfolio/Fetching.antt =====
-- Reading the portfolio.
use web3_lab_public.Prelude.{
  none, String, true, false, List, [], ◌∷◌, ◌++◌, some, ◌<>◌, ◌≡◌, refl, arith, map, if◌then◌else◌,
}
use web3_lab_public.Browser.{Reply, ok, thrown, World, Request, Response, is_ok, fetched}
use web3_lab_public.Dashboard.State.{Number, TokenBalance, Dashboard}
use web3_lab_public.Dashboard.Services.{Services, BalanceItem}
use web3_lab_public.Dashboard.Portfolio.{
  parse_balances, parse_item, enrich, enrich_all, balances_request, fetch_portfolio,
}

abbrev pub address_of : TokenBalance → String
address_of t = t.address

-- The addresses of the entries that have a token, in their order.
abbrev pub token_address : BalanceItem → List String
token_address item = elim item.token [ none ↦ [] | some t ↦ t.address ∷ [] ]

unfoldable pub token_addresses : List BalanceItem → List String
token_addresses [] = []
token_addresses (item ∷ items) = token_address item ++ token_addresses items

parse_balances-addresses :
    (number_of : String → Number) (items : List BalanceItem)
    → map address_of (parse_balances number_of items) ≡ token_addresses items
unfolding parse_balances token_addresses parse_item
parse_balances-addresses number_of [] = refl
parse_balances-addresses number_of (item ∷ items) =
    ground (arith, parse_balances-addresses number_of items)

-- The state without what the loading of the page writes.
abbrev pub unloaded : Dashboard → Dashboard
unloaded s = record s {
  user_info = none;
  wallet_address = none;
  smart_wallet_address = none;
  portfolio = [];
}

module _ (env : Services) where
  -- The value of a reply, or another one if it is an error.
  abbrev value_or : {A : Type 0} → A → Reply A → A
  value_or d (ok a) = a
  value_or d (thrown e) = d

  record IsEnriched (t : TokenBalance) (w : World Dashboard)
      (r : Reply TokenBalance × World Dashboard) : Type 0 where
    found : TokenBalance
    result : r.0 ≡ ok found
    same_address : found.address ≡ t.address
    state_kept : r.1.state ≡ w.state
    storage_kept : r.1.storage ≡ w.storage

  enrich-IsEnriched :
      (address : String) (t : TokenBalance) (w : World Dashboard)
      → IsEnriched t w (enrich env address t w)
  unfolding enrich
  enrich-IsEnriched address t w = record {
    found = value_or t (enrich env address t w).0;
    result = ground arith;
    same_address = ground arith;
    state_kept = ground arith;
    storage_kept = ground arith;
  }

  -- What the answers of the contracts cannot change.
  record AreEnriched (ts : List TokenBalance) (w : World Dashboard)
      (r : Reply (List TokenBalance) × World Dashboard) : Type 0 where
    found : List TokenBalance
    result : r.0 ≡ ok found
    same_addresses : map address_of found ≡ map address_of ts
    state_kept : r.1.state ≡ w.state
    storage_kept : r.1.storage ≡ w.storage

  enrich_all-AreEnriched :
      (address : String) (ts : List TokenBalance) (w : World Dashboard)
      → AreEnriched ts w (enrich_all env address ts w)
  unfolding enrich_all
  enrich_all-AreEnriched address [] w = record {
    found = [];
    result = refl;
    same_addresses = refl;
    state_kept = refl;
    storage_kept = refl;
  }
  enrich_all-AreEnriched address (t ∷ ts) w =
      let first = enrich-IsEnriched address t w in
      let rest = enrich_all-AreEnriched address ts (enrich env address t w).1 in
      record {
        found = first.found ∷ rest.found;
        result = ground (arith, first.result, rest.result);
        same_addresses = cc (first.same_address, rest.same_addresses);
        state_kept = ground (arith, first.result, rest.result, first.state_kept, rest.state_kept);
        storage_kept =
            ground (arith, first.result, rest.result, first.storage_kept, rest.storage_kept);
      }

  -- The request for the tokens of an address.
  abbrev pub wire_balances : String → Request
  wire_balances address = record {
    method = "GET";
    url = env.urls.blockscout_api <> "/api/v2/addresses/" <> address <> "/token-balances";
    headers = [];
    body = [];
  }

  abbrev read_items : Reply (List BalanceItem) → List String → List String
  read_items (ok items) old = token_addresses items
  read_items (thrown _) old = old

  -- The addresses that an answer of Blockscout gives: those from before, if it cannot be read.
  abbrev pub answered_addresses : Reply (Response (List BalanceItem)) → List String → List String
  answered_addresses (thrown _) old = old
  answered_addresses (ok res) old = if is_ok res then read_items res.json old else old

  -- Reading the portfolio never fails, the mark of loading is off at the end and the storage is as
  -- it was. The portfolio's addresses are those of the entries with a token in Blockscout's answer,
  -- in their order, whatever the contracts answer; if there is no readable answer they are as they
  -- were.
  pub fetch_portfolio-addresses :
      (address : String) (w : World Dashboard)
      → ((fetch_portfolio env address w).0 ≡ ok tt)
        × ((fetch_portfolio env address w).1.state.portfolio_loading ≡ false)
        × ((fetch_portfolio env address w).1.storage ≡ w.storage)
        × (map address_of (fetch_portfolio env address w).1.state.portfolio
            ≡ answered_addresses
                (env.token_balances w.trace (wire_balances address))
                (map address_of w.state.portfolio))
  unfolding fetch_portfolio balances_request
  fetch_portfolio-addresses address w = go (env.token_balances w.trace (wire_balances address)) refl
    where
      Goal : Type 0
      Goal =
          ((fetch_portfolio env address w).0 ≡ ok tt)
          × ((fetch_portfolio env address w).1.state.portfolio_loading ≡ false)
          × ((fetch_portfolio env address w).1.storage ≡ w.storage)
          × (map address_of (fetch_portfolio env address w).1.state.portfolio
              ≡ answered_addresses (env.token_balances w.trace (wire_balances address))
                  (map address_of w.state.portfolio))

      asked : World Dashboard
      asked = record w {
        state = record w.state { portfolio_loading = true };
        trace = w.trace ++ fetched (wire_balances address) ∷ [];
      }

      read :
          (res : Response (List BalanceItem)) (j : Reply (List BalanceItem))
          → env.token_balances w.trace (wire_balances address) ≡ ok res
          → res.json ≡ j
          → Goal
      read res (thrown m) e j = ground arith
      read res (ok items) e j =
          let all = enrich_all-AreEnriched address (parse_balances env.number_of items) asked in
          ground (
            arith,
            parse_balances-addresses env.number_of items,
            all.result,
            all.same_addresses,
            all.state_kept,
            all.storage_kept,
          )

      go :
          (r : Reply (Response (List BalanceItem)))
          → env.token_balances w.trace (wire_balances address) ≡ r
          → Goal
      go (thrown m) e = ground arith
      go (ok res) e = read res res.json e refl

  -- Reading the portfolio changes the portfolio, and nothing else of the page.
  pub fetch_portfolio-unloaded :
      (address : String) (w : World Dashboard)
      → w.state.portfolio_loading ≡ false
      → unloaded (fetch_portfolio env address w).1.state ≡ unloaded w.state
  unfolding fetch_portfolio
  fetch_portfolio-unloaded address w off =
      go (env.token_balances w.trace (balances_request env address)) refl
    where
      asked : World Dashboard
      asked = record w {
        state = record w.state { portfolio_loading = true };
        trace = w.trace ++ fetched (balances_request env address) ∷ [];
      }

      Goal : Type 0
      Goal = unloaded (fetch_portfolio env address w).1.state ≡ unloaded w.state

      read :
          (res : Response (List BalanceItem)) (j : Reply (List BalanceItem))
          → env.token_balances w.trace (balances_request env address) ≡ ok res
          → res.json ≡ j
          → Goal
      read res (thrown m) e j = ground arith
      read res (ok items) e j =
          let all = enrich_all-AreEnriched address (parse_balances env.number_of items) asked in
          ground (arith, all.result, all.state_kept)

      go :
          (r : Reply (Response (List BalanceItem)))
          → env.token_balances w.trace (balances_request env address) ≡ r
          → Goal
      go (thrown m) e = ground arith
      go (ok res) e = read res res.json e refl
