-- ===== src/Dashboard/Portfolio/Programs.antt =====
-- `fetchPortfolio` and `fetchData` as programs that stop at each of their awaits. Run alone they
-- are the effects. What `fetchData` finds in the storage is an argument.
pub mod Runs
use web3_lab_public.Prelude.{
  String, Bool, true, false, List, [], ◌∷◌, Option, none, some, ◌==◌, is_present, is_truthy,
  if◌then◌else◌,
}
use web3_lab_public.Text.{to_lower_case}
use web3_lab_public.Browser.{Response, is_ok, called, fetched}
use web3_lab_public.Program.{Program, settled, bind, recover, ensure}
use web3_lab_public.Dashboard.State.{Dashboard, TokenBalance, UserInfo}
use web3_lab_public.Dashboard.Services.{Services, BalanceItem}
use web3_lab_public.Dashboard.Portfolio.{
  erc721_interface, erc1155_interface, is_nft_kind, parse_balances, balances_request,
  userinfo_request, wallet_request,
}

module _ (env : Services) where
  abbrev pub supports_program :
      String → String → (Bool → Program Dashboard String) → Program Dashboard String
  supports_program contract id next =
      Program.query (called contract "supportsInterface" (id ∷ []))
        (λ t. env.supports_interface t contract id) (λ reply. bind (settled reply) next)

  abbrev pub erc721_program : TokenBalance → Bool → Program Dashboard String
  erc721_program t is721 = Program.give (if is721 then "ERC-721" else t.type)

  abbrev pub erc1155_program : TokenBalance → Bool → Program Dashboard String
  erc1155_program t is1155 =
      if is1155
      then Program.give "ERC-1155"
      else supports_program t.address erc721_interface (erc721_program t)

  unfoldable pub type_program : TokenBalance → Program Dashboard String
  type_program t =
      if is_nft_kind t.type
      then recover (supports_program t.address erc1155_interface (erc1155_program t))
          (λ _. Program.give t.type)
      else Program.give t.type

  unfoldable pub owner_program : String → TokenBalance → Program Dashboard Bool
  owner_program address t =
      recover
        (Program.query (called t.address "owner" []) (λ tr. env.owner tr t.address)
          (λ reply.
            bind (settled reply)
              (λ owner. Program.give (to_lower_case owner == to_lower_case address))))
        (λ _. Program.give false)

  unfoldable pub enrich_program : String → TokenBalance → Program Dashboard TokenBalance
  enrich_program address t = bind (type_program t) (λ type.
      bind (owner_program address t)
        (λ is_owner. Program.give (record t { is_owner = is_owner; type = type })))

  unfoldable pub enrich_all_program :
      String → List TokenBalance → Program Dashboard (List TokenBalance)
  enrich_all_program address [] = Program.give []
  enrich_all_program address (t ∷ ts) =
      let rest = enrich_all_program address ts in
      bind (enrich_program address t) (λ t'. bind rest (λ ts'. Program.give (t' ∷ ts')))

  abbrev pub items_program : String → List BalanceItem → Program Dashboard (Unit {0})
  items_program address items =
      bind (enrich_all_program address (parse_balances env.number_of items))
        (λ enriched. Program.update (λ s. record s { portfolio = enriched }) (Program.give tt))

  abbrev pub balances_program : String → Response (List BalanceItem) → Program Dashboard (Unit {0})
  balances_program address res =
      if is_ok res
      then bind (Program.pause (settled res.json)) (items_program address)
      else Program.give tt

  abbrev pub listing_program : String → Program Dashboard (Unit {0})
  listing_program address =
      recover
        (Program.query (fetched (balances_request env address))
          (λ t. env.token_balances t (balances_request env address))
          (λ reply. bind (settled reply) (balances_program address)))
        (λ _. Program.give tt)

  unfoldable pub portfolio_program : String → Program Dashboard (Unit {0})
  portfolio_program address =
      Program.update (λ s. record s { portfolio_loading = true })
        (ensure (λ s. record s { portfolio_loading = false }) (listing_program address))

  abbrev pub address_program : String → Program Dashboard (Unit {0})
  address_program address =
      Program.update (λ s. record s { smart_wallet_address = some address })
        (portfolio_program address)

  abbrev pub answer_program : Response String → Program Dashboard (Unit {0})
  answer_program res =
      if is_ok res then bind (Program.pause (settled res.json)) address_program else Program.give tt

  unfoldable pub wallet_program : String → Program Dashboard (Unit {0})
  wallet_program sub =
      if is_truthy sub
      then Program.query (fetched (wallet_request env sub))
          (λ t. env.wallet_address t (wallet_request env sub))
          (λ reply. bind (settled reply) answer_program)
      else Program.give tt

  -- The wallet's address of the storage, if there is one, then the smart wallet.
  abbrev pub known_program : Option String → UserInfo → Program Dashboard (Unit {0})
  known_program stored info =
      Program.update (λ s. record s { user_info = some info })
        (bind
          (if is_present stored
            then Program.update (λ s. record s { wallet_address = stored }) (Program.give tt)
            else Program.give tt)
          (λ _. wallet_program info.sub))

  abbrev pub user_program : Option String → Response UserInfo → Program Dashboard (Unit {0})
  user_program stored res =
      if is_ok res
      then bind (Program.pause (settled res.json)) (known_program stored)
      else Program.give tt

  unfoldable pub data_program : String → Option String → Program Dashboard (Unit {0})
  data_program token stored =
      recover
        (Program.query (fetched (userinfo_request env token))
          (λ t. env.userinfo t (userinfo_request env token))
          (λ reply. bind (settled reply) (user_program stored)))
        (λ _. Program.give tt)
