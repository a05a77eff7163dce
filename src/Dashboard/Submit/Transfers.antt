-- ===== src/Dashboard/Submit/Transfers.antt =====
-- A transfer of the selected asset that the gateway accepts.
use web3_lab_public.Prelude.{String, true, false, [], ◌∷◌, ◌++◌, none, some, ◌≡◌, arith, is_truthy}
use web3_lab_public.Browser.{ok, World, Response, is_ok, fetched}
use web3_lab_public.Dashboard.State.{transfer, TokenBalance, Dashboard, sub_of}
use web3_lab_public.Dashboard.Services.{Services, ExecuteBody}
use web3_lab_public.Dashboard.Transaction
use web3_lab_public.Dashboard.Transaction.{Action, is_fungible, execute_request}
use web3_lab_public.Dashboard.Transaction.Accepted.{
  scaled_amount-selected, execute_transaction-IsShown,
}
use web3_lab_public.Dashboard.Submit.{submit_in, interact_params, submit_interact, handle_submit}

-- A page on which a transfer of the selected asset is filled in, with an amount that the ethers
-- library can scale.
pub record IsTransfer (env : Services) (view : Dashboard) (sub amount : String)
    (asset : TokenBalance) : Type 0 where
  pub section : view.active_section ≡ transfer
  pub fungible : is_fungible view.active_token ≡ true
  pub selected : view.selected_asset ≡ some asset
  pub given : is_truthy view.interact_amount ≡ true
  pub known : sub_of view.user_info ≡ some sub
  pub scaled : env.parse_units view.interact_amount asset.decimals ≡ ok amount

module _ (env : Services) (view : Dashboard) where
  -- A transfer of the selected asset whose amount can be scaled by the asset's decimals, and which
  -- the gateway accepts, sends one request, with the scaled amount, and ends with the gateway's
  -- result on the page, no error, and the mark of loading off.
  pub handle_submit-accepted :
      (sub amount : String) (asset : TokenBalance) (res : Response ExecuteBody) (body : ExecuteBody)
      (w : World Dashboard)
      → IsTransfer env view sub amount asset
      → let request =
          execute_request env view sub Action.transfer view.active_token
            (interact_params view)
            amount in
        env.execute w.trace request ≡ ok res
        → is_ok res ≡ true
        → res.json ≡ ok body
        → let r = handle_submit env view w in
          (r.1.trace ≡ w.trace ++ fetched request ∷ [])
          × (r.1.state.tx_result ≡ some body.result)
          × (r.1.state.error ≡ none)
          × (r.1.state.tx_loading ≡ false)
  unfolding handle_submit submit_in submit_interact
  handle_submit-accepted sub amount asset res body w t e a j =
      let p = interact_params view in
      let begun : World Dashboard = record w {
        state = Transaction.begin env view Action.transfer w.state;
      } in
      let sent =
        execute_transaction-IsShown env view Action.transfer view.active_token p sub amount res body
          w t.known
          (scaled_amount-selected env view view.active_token asset p.token_addr p.amount_or_id
            amount begun t.fungible t.given t.selected t.scaled)
          e a j in
      ground (arith, t.section, sent)
