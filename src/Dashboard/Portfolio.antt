-- ===== src/Dashboard/Portfolio.antt =====
-- The portfolio (DashboardPage.tsx): `fetchPortfolio`, `fetchData`, the effect of the first render
-- and the effect that selects an asset. `Promise.all` is modelled in the order of the list.
pub mod Selection
pub mod Fetching
pub mod StaleId
pub mod StaleWarning
pub mod Loading
pub mod Programs
use web3_lab_public.Prelude.{
  String, Bool, true, false, ◌&&◌, ◌||◌, List, [], ◌∷◌, Option, none, some, ◌<>◌, ◌==◌, is_present,
  is_truthy, option_or, if◌then◌else◌, head?, filter,
}
use web3_lab_public.Text.{to_lower_case, remove_first}
use web3_lab_public.Browser.{
  Request, is_ok, Io, pure, catch, finally, await, set, fetch, ask, called, navigated, emit,
  get_item, done, when, bearer, ◌>>=◌, ◌>>◌,
}
use web3_lab_public.Dashboard.State.{
  MenuSection, mint, transfer, TokenType, erc721, token_name, Number, nat, TokenBalance, Dashboard,
}
use web3_lab_public.Dashboard.Services.{Services, TokenInfo, BalanceItem}
use web3_lab_public.Dashboard.Transaction.{get_request}
use web3_lab_public.Dashboard.Identities.{fetch_identities, session}

-- `a || b || c` at texts that may be absent
abbrev pub first_present : Option String → Option String → Option String → Option String
first_present a b c = if is_present a then a else if is_present b then b else c

-- `item.token_id || item.token.id || item.id`
abbrev pub item_id : BalanceItem → TokenInfo → Option String
item_id item t = first_present item.token_id t.id item.id

-- The entries of Blockscout that have a token, as balances.
module _ (number_of : String → Number) where
  pub parse_item : BalanceItem → TokenInfo → TokenBalance
  parse_item item t = record {
    address = t.address;
    decimals = if is_present t.decimals then number_of (option_or t.decimals "") else nat 0;
    symbol = option_or t.symbol "???";
    name = option_or t.name "Unknown";
    balance_raw = item.value;
    type = t.type;
    id = item_id item t;
    is_owner = false;
  }

  unfoldable pub parse_balances : List BalanceItem → List TokenBalance
  unfolding parse_item
  parse_balances [] = []
  parse_balances (item ∷ items) =
      let rest = parse_balances items in
      elim item.token [ none ↦ rest | some t ↦ parse_item item t ∷ rest ]

abbrev pub erc1155_interface : String
erc1155_interface = "0xd9b67a26"

abbrev pub erc721_interface : String
erc721_interface = "0x80ac58cd"

abbrev pub is_nft_kind : String → Bool
is_nft_kind type = type == "ERC-721" || type == "ERC-1155"

module _ (env : Services) where
  abbrev supports : String → String → Io Dashboard Bool
  supports contract id =
      ask (called contract "supportsInterface" (id ∷ []))
        (λ t. env.supports_interface t contract id)

  -- Blockscout's type of a token that claims to be an NFT, checked against ERC-165.
  pub corrected_type : TokenBalance → Io Dashboard String
  corrected_type t =
      catch
        (do
          is1155 ← supports t.address erc1155_interface
          if is1155 then pure "ERC-1155" else (do
            is721 ← supports t.address erc721_interface
            pure (if is721 then "ERC-721" else t.type)))
        (λ _. pure t.type)

  pub checked_type : TokenBalance → Io Dashboard String
  unfolding corrected_type
  checked_type t = if is_nft_kind t.type then corrected_type t else pure t.type

  -- Whether the contract's owner is the wallet; false where the contract has no owner.
  pub owned_by : String → TokenBalance → Io Dashboard Bool
  owned_by address t =
      catch
        (do
          owner ← ask (called t.address "owner" []) (λ tr. env.owner tr t.address)
          pure (to_lower_case owner == to_lower_case address))
        (λ _. pure false)

  unfoldable pub enrich : String → TokenBalance → Io Dashboard TokenBalance
  unfolding checked_type owned_by
  enrich address t = do
    type ← checked_type t
    is_owner ← owned_by address t
    pure (record t { is_owner = is_owner; type = type })

  unfoldable pub enrich_all : String → List TokenBalance → Io Dashboard (List TokenBalance)
  enrich_all address [] = pure []
  enrich_all address (t ∷ ts) = do
    t' ← enrich address t
    ts' ← enrich_all address ts
    pure (t' ∷ ts')

  pub balances_request : String → Request
  balances_request address =
      get_request (env.urls.blockscout_api <> "/api/v2/addresses/" <> address <> "/token-balances")
        []

  unfoldable pub fetch_portfolio : String → Io Dashboard (Unit {0})
  fetch_portfolio address = do
    set (λ s. record s { portfolio_loading = true })
    finally
        (catch
          (do
            res ← fetch env.token_balances (balances_request address)
            when (is_ok res) (do
              items ← await res.json
              enriched ← enrich_all address (parse_balances env.number_of items)
              set (λ s. record s { portfolio = enriched })))
          (λ _. done))
        (set (λ s. record s { portfolio_loading = false }))

  pub userinfo_request : String → Request
  userinfo_request token = get_request (env.urls.gateway <> "/userinfo") (bearer token ∷ [])

  pub wallet_request : String → Request
  wallet_request sub = get_request (env.urls.gateway <> "/api/v1/wallet/address/" <> sub) []

  -- The smart wallet of the account, and what it holds.
  pub fetch_wallet : String → Io Dashboard (Unit {0})
  fetch_wallet sub = when (is_truthy sub) (do
    res ← fetch env.wallet_address (wallet_request sub)
    when (is_ok res) (do
      address ← await res.json
      set (λ s. record s { smart_wallet_address = some address })
      fetch_portfolio address))

  pub restore_wallet : Io Dashboard (Unit {0})
  restore_wallet = do
    stored ← get_item "siwe_wallet_address"
    when (is_present stored) (set (λ s. record s { wallet_address = stored }))

  unfoldable pub fetch_data : String → Io Dashboard (Unit {0})
  fetch_data stored_token =
      catch
        (do
          res ← fetch env.userinfo (userinfo_request stored_token)
          when (is_ok res) (do
            info ← await res.json
            set (λ s. record s { user_info = some info })
            restore_wallet
            fetch_wallet info.sub))
        (λ _. done)

  -- The effect of the first render: without a session the page is left. The two functions that it
  -- starts run one after the other here; they write different fields of the state.
  unfoldable pub on_mount : Io Dashboard (Unit {0})
  on_mount = do
    stored ← get_item "access_token"
    elim (session stored) [
      | none ↦ emit (navigated "/")
      | some token ↦ do
        set (λ s. record s { token = some token })
        fetch_data token
        fetch_identities env token
    ]

-- The assets of the chosen type; to mint, those that the wallet owns.
abbrev pub is_mint : MenuSection → Bool
is_mint mint = true
is_mint _ = false

abbrev pub is_listed : MenuSection → TokenType → TokenBalance → Bool
is_listed section token p =
    remove_first b'-' p.type == token_name token && (if is_mint section then p.is_owner else true)

unfoldable pub filtered_portfolio : Dashboard → List TokenBalance
filtered_portfolio s = filter (is_listed s.active_section s.active_token) s.portfolio

abbrev pub default_token_id : TokenType → String
default_token_id erc721 = ""
default_token_id _ = "0"

-- The effect on `[activeToken, activeSection, portfolio]`.
pub select_first : Option TokenBalance → Dashboard → Dashboard
select_first (some asset) s = record s {
  selected_asset = some asset;
  interact_token_address = asset.address;
  interact_amount = "";
  interact_token_id = if is_present asset.id then option_or asset.id "" else s.interact_token_id;
}
select_first none s = record s {
  selected_asset = none;
  interact_token_address = "";
  interact_amount = "";
  interact_token_id = default_token_id s.active_token;
}

select_in : MenuSection → Dashboard → Dashboard
unfolding select_first filtered_portfolio
select_in transfer s = select_first (head? (filtered_portfolio s)) s
select_in mint s = select_first (head? (filtered_portfolio s)) s
select_in _ s = s

unfoldable pub select_default : Dashboard → Dashboard
unfolding select_in
select_default s = select_in s.active_section s
