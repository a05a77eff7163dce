-- ===== src/Dashboard/Transaction.antt =====
-- `executeTransaction` of DashboardPage.tsx: one sponsored transaction through the gateway. `view`
-- is the state of the render whose closure runs. An argument that a call leaves out is the empty
-- text, which the source's `|| ''` makes of it.
pub mod Outcome
pub mod Accepted
pub mod Programs
pub mod Frame
pub mod Requests
use web3_lab_public.Prelude.{
  String, Bool, true, false, ◌&&◌, List, [], ◌∷◌, Option, none, some, ◌<>◌, is_truthy, option_or,
  if◌then◌else◌,
}
use web3_lab_public.Browser.{
  Request, Response, is_ok, Io, pure, throw, catch, finally, await, set, fetch, bearer, json_type,
  ◌>>=◌, ◌>>◌,
}
use web3_lab_public.Dashboard.State.{
  TokenType, erc20, erc721, erc1155, token_name, Number, nat, TxResult, Dashboard, sub_of,
}
use web3_lab_public.Dashboard.Services.{Services, ExecuteBody}

pub data Action : Type 0 where
  mint transfer deploy_contract set_uri : Action

abbrev pub action_name : Action → String
action_name mint = "mint"
action_name transfer = "transfer"
action_name deploy_contract = "deploy_contract"
action_name set_uri = "set_uri"

pub record Params : Type 0 where
  pub to : String
  pub amount_or_id : String
  pub token_addr : String
  pub name : String
  pub symbol : String
  pub decimals : String
  pub initial_supply : String

-- `${token}` of a token that may be `null`
abbrev pub token_text : Option String → String
token_text none = "null"
token_text (some t) = t

abbrev pub get_request : String → List (String × String) → Request
get_request url headers = record { method = "GET"; url = url; headers = headers; body = [] }

abbrev pub post_request : String → String → List (String × String) → Request
post_request url token body = record {
  method = "POST";
  url = url;
  headers = json_type ∷ bearer token ∷ [];
  body = body;
}

-- The token types whose amounts are given in units.
abbrev pub is_fungible : TokenType → Bool
is_fungible erc20 = true
is_fungible erc721 = false
is_fungible erc1155 = true

abbrev pub default_decimals : TokenType → Number
default_decimals erc20 = nat 18
default_decimals _ = nat 0

abbrev pub is_deploy : Action → Bool
is_deploy deploy_contract = true
is_deploy _ = false

module _ (env : Services) (view : Dashboard) where
  -- The decimals that Blockscout knows of the token, or the default of its type.
  pub token_decimals : TokenType → Response (Option String) → Io Dashboard Number
  token_decimals type r =
      if is_ok r
      then (do
        known ← await r.json
        pure (elim known [ none ↦ default_decimals type | some d ↦ env.number_of d ]))
      else pure (default_decimals type)

  pub token_request : String → Request
  token_request token_addr =
      get_request (env.urls.blockscout_api <> "/api/v2/tokens/" <> token_addr) []

  pub looked_up_amount : TokenType → String → String → Io Dashboard String
  unfolding token_decimals token_request
  looked_up_amount type token_addr amount =
      catch
        (do
          r ← fetch env.token_info (token_request token_addr)
          decimals ← token_decimals type r
          await (env.parse_units amount decimals))
        (λ e. throw ("Failed to parse " <> token_name type <> " amount: " <> e))

  -- The amount in the token's smallest unit, where the amount is one of a fungible token.
  pub scaled_amount : TokenType → String → String → Io Dashboard String
  unfolding looked_up_amount
  scaled_amount type token_addr amount =
      if is_fungible type && is_truthy amount
      then elim view.selected_asset [
        | some asset ↦
            catch (await (env.parse_units amount asset.decimals))
              (λ e. throw ("Invalid decimals in " <> token_name type <> " amount string: " <> e))
        | none ↦
            if is_truthy token_addr then looked_up_amount type token_addr amount else pure amount
      ]
      else pure amount

  abbrev pub execute_url : String
  execute_url = env.urls.gateway <> "/api/v1/wallet/execute"

  unfoldable pub execute_request : String → Action → TokenType → Params → String → Request
  execute_request sub action type p amount = post_request execute_url (token_text view.token) (
      ("account_id", sub)
      ∷ ("action", action_name action)
      ∷ ("token_type", token_name type)
      ∷ ("to", p.to)
      ∷ ("amount", amount)
      ∷ ("token_id", view.interact_token_id)
      ∷ ("token_address", p.token_addr)
      ∷ ("name", p.name)
      ∷ ("symbol", p.symbol)
      ∷ ("decimals", p.decimals)
      ∷ ("initial_supply", p.initial_supply)
      ∷ [])

  -- The reply of the gateway: its body, or an error with its message.
  pub accept : Response ExecuteBody → Io Dashboard TxResult
  accept res = do
    body ← await res.json
    if is_ok res
        then pure body.result
        else throw (option_or body.error_message "Transaction failed")

  pub run_transaction : String → Action → TokenType → Params → Io Dashboard (Option TxResult)
  run_transaction sub action type p =
      catch
        (do
          amount ← scaled_amount type p.token_addr p.amount_or_id
          res ← fetch env.execute (execute_request sub action type p amount)
          body ← accept res
          set (λ s. record s { tx_result = some body })
          pure (some body))
        (λ e. do set (λ s. record s { error = some e }); pure none)

  unfoldable pub begin : Action → Dashboard → Dashboard
  begin action s = record s {
    tx_loading = true;
    tx_result = none;
    error = none;
    deployed_contract_address = if is_deploy action then none else s.deployed_contract_address;
  }

  unfoldable pub end : Dashboard → Dashboard
  end s = record s { tx_loading = false }

  unfoldable pub execute_transaction : Action → TokenType → Params → Io Dashboard (Option TxResult)
  execute_transaction action type p = elim (sub_of view.user_info) [
    | none ↦ pure none
    | some sub ↦ do set (begin action); finally (run_transaction sub action type p) (set end)
  ]
