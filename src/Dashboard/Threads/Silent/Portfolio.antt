-- ===== src/Dashboard/Threads/Silent/Portfolio.antt =====
-- Loading the user's data and the portfolio leaves the marks alone.
use web3_lab_public.Prelude.{String, Bool, List, [], ◌∷◌, Option, refl, is_present, is_truthy}
use web3_lab_public.Browser.{Response, is_ok}
use web3_lab_public.Program.{Program, settled}
use web3_lab_public.Program.Silent.{
  IsSilent, settled-IsSilent, bind-IsSilent, recover-IsSilent, ensure-IsSilent, choice-IsSilent,
  reply-IsSilent,
}
use web3_lab_public.Dashboard.State.{TokenBalance, UserInfo}
use web3_lab_public.Dashboard.Services.{Services, BalanceItem}
use web3_lab_public.Dashboard.Portfolio.{parse_balances, is_nft_kind}
use web3_lab_public.Dashboard.Portfolio.Programs.{
  erc721_program, erc1155_program, type_program, owner_program, enrich_program, enrich_all_program,
  items_program, balances_program, listing_program, portfolio_program, address_program,
  answer_program, wallet_program, known_program, user_program, data_program,
}
use web3_lab_public.Dashboard.Threads.{marks}

module _ (env : Services) where
  erc1155_program-IsSilent :
      (t : TokenBalance) (b : Bool) → IsSilent marks (erc1155_program env t b)
  unfolding IsSilent
  erc1155_program-IsSilent t b =
      choice-IsSilent marks b _ _ tt (λ r. reply-IsSilent marks (erc721_program env t) r (λ _. tt))

  type_program-IsSilent : (t : TokenBalance) → IsSilent marks (type_program env t)
  unfolding type_program IsSilent
  type_program-IsSilent t =
      choice-IsSilent marks (is_nft_kind t.type) _ _
        (recover-IsSilent marks _ _
          (λ r. reply-IsSilent marks (erc1155_program env t) r (erc1155_program-IsSilent t))
          (λ _. tt))
        tt

  owner_program-IsSilent :
      (address : String) (t : TokenBalance) → IsSilent marks (owner_program env address t)
  unfolding owner_program IsSilent
  owner_program-IsSilent address t =
      recover-IsSilent marks _ _ (λ r. reply-IsSilent marks _ r (λ _. tt)) (λ _. tt)

  enrich_program-IsSilent :
      (address : String) (t : TokenBalance) → IsSilent marks (enrich_program env address t)
  unfolding enrich_program IsSilent
  enrich_program-IsSilent address t =
      bind-IsSilent marks (type_program env t) _ (type_program-IsSilent t) (λ type.
        bind-IsSilent marks (owner_program env address t) _ (owner_program-IsSilent address t)
          (λ _. tt))

  enrich_all_program-IsSilent :
      (address : String) (ts : List TokenBalance)
      → IsSilent marks (enrich_all_program env address ts)
  unfolding enrich_all_program IsSilent
  enrich_all_program-IsSilent address [] = tt
  enrich_all_program-IsSilent address (t ∷ ts) =
      bind-IsSilent marks (enrich_program env address t) _ (enrich_program-IsSilent address t)
        (λ t'.
          bind-IsSilent marks (enrich_all_program env address ts) _
            (enrich_all_program-IsSilent address ts) (λ _. tt))

  items_program-IsSilent :
      (address : String) (items : List BalanceItem)
      → IsSilent marks (items_program env address items)
  unfolding IsSilent
  items_program-IsSilent address items =
      bind-IsSilent marks (enrich_all_program env address (parse_balances env.number_of items)) _
        (enrich_all_program-IsSilent address (parse_balances env.number_of items))
        (λ e. ((λ s. refl), tt))

  balances_program-IsSilent :
      (address : String) (res : Response (List BalanceItem))
      → IsSilent marks (balances_program env address res)
  unfolding IsSilent
  balances_program-IsSilent address res =
      choice-IsSilent marks (is_ok res) _ _
        (bind-IsSilent marks (Program.pause (settled res.json)) _ (settled-IsSilent marks res.json)
          (items_program-IsSilent address))
        tt

  portfolio_program-IsSilent : (address : String) → IsSilent marks (portfolio_program env address)
  unfolding portfolio_program IsSilent
  portfolio_program-IsSilent address = (
    (λ s. refl),
    ensure-IsSilent marks _ (listing_program env address) (λ s. refl)
        (recover-IsSilent marks _ _
          (λ r.
            reply-IsSilent marks (balances_program env address) r
              (balances_program-IsSilent address))
          (λ _. tt)),
  )

  answer_program-IsSilent : (res : Response String) → IsSilent marks (answer_program env res)
  unfolding IsSilent
  answer_program-IsSilent res =
      choice-IsSilent marks (is_ok res) _ _
        (bind-IsSilent marks (Program.pause (settled res.json)) (address_program env)
          (settled-IsSilent marks res.json)
          (λ address. ((λ s. refl), portfolio_program-IsSilent address)))
        tt

  wallet_program-IsSilent : (sub : String) → IsSilent marks (wallet_program env sub)
  unfolding wallet_program IsSilent
  wallet_program-IsSilent sub =
      choice-IsSilent marks (is_truthy sub) _ _
        (λ r. reply-IsSilent marks (answer_program env) r answer_program-IsSilent) tt

  known_program-IsSilent :
      (stored : Option String) (info : UserInfo) → IsSilent marks (known_program env stored info)
  unfolding IsSilent
  known_program-IsSilent stored info = (
    (λ s. refl),
    bind-IsSilent marks _ _ (choice-IsSilent marks (is_present stored) _ _ ((λ s. refl), tt) tt)
        (λ _. wallet_program-IsSilent info.sub),
  )

  user_program-IsSilent :
      (stored : Option String) (res : Response UserInfo)
      → IsSilent marks (user_program env stored res)
  unfolding IsSilent
  user_program-IsSilent stored res =
      choice-IsSilent marks (is_ok res) _ _
        (bind-IsSilent marks (Program.pause (settled res.json)) _ (settled-IsSilent marks res.json)
          (known_program-IsSilent stored))
        tt

  pub data_program-IsSilent :
      (token : String) (stored : Option String) → IsSilent marks (data_program env token stored)
  unfolding data_program IsSilent
  data_program-IsSilent token stored =
      recover-IsSilent marks _ _
        (λ r. reply-IsSilent marks (user_program env stored) r (user_program-IsSilent stored))
        (λ _. tt)
