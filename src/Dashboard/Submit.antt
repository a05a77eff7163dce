-- ===== src/Dashboard/Submit.antt =====
-- `handleSubmitWithUpload` of DashboardPage.tsx, and the effect on `[txResult]`.
pub mod Laws
pub mod Deploying
pub mod Frame
pub mod Calm
pub mod Icon
pub mod Transfers
pub mod Sending
pub mod Enabled
pub mod Programs
use web3_lab_public.Prelude.{
  String, Bool, true, false, not, ◌&&◌, ◌||◌, List, [], ◌∷◌, Option, none, some, ◌<>◌, ◌==◌,
  is_present, is_truthy, option_or, if◌then◌else◌,
}
use web3_lab_public.Text.{slice_from}
use web3_lab_public.Browser.{
  Io, pure, throw, catch, await, set, ask, emit, awaited, fetched, Request, done, when, ◌>>=◌, ◌>>◌,
}
use web3_lab_public.Dashboard.State.{
  MenuSection, deploy, mint, TokenType, erc20, erc721, token_name, TxResult, UserInfo, Dashboard,
  token_eq,
}
use web3_lab_public.Dashboard.Services.{Services, Log}
use web3_lab_public.Dashboard.Transaction
use web3_lab_public.Dashboard.Transaction.{Action, Params, execute_transaction}
use web3_lab_public.Dashboard.Upload.{
  upload_image, generate_metadata, register_erc20_icon, clear_upload,
}
use web3_lab_public.Dashboard.TokenId.{get_next_token_id}

abbrev pub deploy_params : Dashboard → Params
deploy_params view = record {
  to = "";
  amount_or_id = "";
  token_addr = "";
  name = view.deploy_name;
  symbol = view.deploy_symbol;
  decimals = view.deploy_decimals;
  initial_supply = view.deploy_initial_supply;
}

-- `interactTo === 'custom' ? '' : interactTo`
abbrev pub recipient : Dashboard → String
recipient view = if view.interact_to == "custom" then "" else view.interact_to

abbrev pub interact_params : Dashboard → Params
interact_params view = record {
  to = recipient view;
  amount_or_id = view.interact_amount;
  token_addr = view.interact_token_address;
  name = "";
  symbol = "";
  decimals = "";
  initial_supply = "";
}

-- The action that `activeSection as 'mint' | 'transfer'` names; the submit button is not shown in
-- the profile, and in the deploy section another branch runs.
abbrev pub section_action : MenuSection → Action
section_action mint = Action.mint
section_action _ = Action.transfer

module _ (event_id : String → String) where
  -- The three events with which the factories announce a contract.
  pub is_created : String → Bool
  is_created topic =
      topic == event_id "ERC721Created(address,string,string,address)"
      || topic == event_id "ERC1155Created(address,string,string,string,address)"
      || topic == event_id "ERC20Created(address,string,string,address)"

  -- The padded address of the first such log; a log of that kind without a second topic throws.
  unfoldable pub created_topic : List Log → Option (Option String)
  unfolding is_created
  created_topic [] = none
  created_topic (log ∷ logs) =
      let rest = created_topic logs in
      elim log.topics [
        | [] ↦ rest
        | topic ∷ more ↦
            if is_created topic
            then some (elim more [ [] ↦ none | address ∷ _ ↦ some address ])
            else rest
      ]

module _ (env : Services) (view : Dashboard) where
  -- `ethers.getAddress('0x' + topics[1].substring(26))`
  abbrev padded_address : String → Io Dashboard (Option String)
  padded_address topic = do
    address ← await (env.get_address ("0x" <> slice_from 26 topic))
    pure (some address)

  pub contract_address : List Log → Io Dashboard (Option String)
  contract_address logs = elim (created_topic env.event_id logs) [
    | none ↦ pure none
    | some none ↦ throw "Cannot read properties of undefined (reading 'substring')"
    | some (some topic) ↦ padded_address topic
  ]

  abbrev pub sub_text : Option UserInfo → String
  sub_text none = ""
  sub_text (some u) = u.sub

  -- The request that nobody waits for: it sets the collection's URI, and its answer is not read.
  pub set_uri_request : String → Request
  set_uri_request contract =
      Transaction.post_request (Transaction.execute_url env view)
        (Transaction.token_text view.token)
        (("account_id", sub_text view.user_info)
          ∷ ("action", "set_uri")
          ∷ ("token_type", token_name view.active_token)
          ∷ ("to", "")
          ∷ ("amount", "")
          ∷ ("token_id", "")
          ∷ ("token_address", contract)
          ∷ ("name", "")
          ∷ ("symbol", "")
          ∷ ("decimals", "")
          ∷ ("initial_supply", "")
          ∷ [])

  -- The icon of a new ERC-20 token, if a file was chosen.
  pub upload_icon : String → String → Io Dashboard (Unit {0})
  upload_icon contract token_id = do
    icon_url ← upload_image env view (token_name erc20) contract token_id
    when (is_present icon_url) (register_erc20_icon env view contract (option_or icon_url ""))

  pub announce : TokenType → String → Io Dashboard (Unit {0})
  announce erc20 contract = elim view.upload_file [
    | none ↦ done
    | some _ ↦ upload_icon contract "0"
  ]
  announce _ contract = emit (fetched (set_uri_request contract))

  pub publish_contract : Option String → Io Dashboard (Unit {0})
  publish_contract none = done
  publish_contract (some contract) = when (is_truthy contract) (do
    set (λ s. record s { deployed_contract_address = some contract })
    announce view.active_token contract)

  -- The receipt of the deployment is awaited for 15 seconds, and searched for the contract.
  pub follow_deploy : String → Io Dashboard (Unit {0})
  follow_deploy hash =
      catch
        (do
          receipt ← ask (awaited hash) (λ t. env.wait_for_transaction t hash)
          elim receipt [
            | none ↦ done
            | some logs ↦ do contract ← contract_address logs; publish_contract contract
          ])
        (λ _. done)

  pub submit_deploy : Io Dashboard (Unit {0})
  submit_deploy = do
    result ←
        execute_transaction env view Action.deploy_contract view.active_token (deploy_params view)
    elim result [
      | none ↦ done
      | some res ↦
          when (is_present res.transaction_hash) (follow_deploy (option_or res.transaction_hash ""))
    ]

  pub submit_interact : Io Dashboard (Unit {0})
  submit_interact = do
    _ ←
        execute_transaction env view (section_action view.active_section) view.active_token
          (interact_params view)
    done

  -- The id that the new token will have; the user gives that of an ERC-1155 token.
  pub target_token_id : Io Dashboard String
  target_token_id = elim view.active_token [
    | erc721 ↦ get_next_token_id env view.interact_token_address
    | _ ↦ pure view.interact_token_id
  ]

  pub submit_artwork : Io Dashboard (Unit {0})
  unfolding target_token_id
  submit_artwork = do
    token_id ← target_token_id
    image_url ←
        upload_image env view (token_name view.active_token) view.interact_token_address token_id
    when (is_present image_url) (
        generate_metadata env view (token_name view.active_token) view.interact_token_address
          token_id (option_or image_url ""))
    _ ← execute_transaction env view Action.mint view.active_token (interact_params view)
    done

  unfoldable pub has_artwork : Bool
  has_artwork =
      not (token_eq view.active_token erc20)
      && elim view.upload_file [ none ↦ false | some _ ↦ true ]

  pub submit_in : MenuSection → Io Dashboard (Unit {0})
  submit_in deploy = submit_deploy
  submit_in mint = if has_artwork then submit_artwork else submit_interact
  submit_in _ = submit_interact

  unfoldable pub handle_submit : Io Dashboard (Unit {0})
  handle_submit = submit_in view.active_section

  -- `txResult.contract_address || txResult.data?.contract_address`
  abbrev pub result_contract : TxResult → Option String
  result_contract res =
      if is_present res.contract_address then res.contract_address else res.nested_contract_address

  abbrev pub is_erc20_deploy : MenuSection → TokenType → Bool
  is_erc20_deploy deploy erc20 = true
  is_erc20_deploy _ _ = false

  abbrev icon_of : Option String → Io Dashboard (Unit {0})
  icon_of contract =
      when (is_present contract) (do upload_icon (option_or contract "") ""; set clear_upload)

  -- The effect on `[txResult]`.
  unfoldable pub on_tx_result : Io Dashboard (Unit {0})
  unfolding upload_icon
  on_tx_result = elim view.tx_result [
    | none ↦ done
    | some res ↦ elim view.upload_file [
      | none ↦ done
      | some _ ↦
          when (is_erc20_deploy view.active_section view.active_token)
            (icon_of (result_contract res))
    ]
  ]
