-- ===== src/Examples/Transfer.antt =====
-- A transfer that is sent, the identities, and the forms.
use web3_lab_public.Prelude.{none, false, [], ◌∷◌, ◌++◌, ◌≡◌, ◌≢◌, refl, if◌then◌else◌, arith, List}
use web3_lab_public.Browser.{ok}
use web3_lab_public.Dashboard.State.{deploy, erc20}
use web3_lab_public.Dashboard.Transaction.{Action, execute_transaction}
use web3_lab_public.Dashboard.Transaction.Outcome.{IsSettled, execute_transaction-IsSettled}
use web3_lab_public.Dashboard.Transaction.Requests.{
  amount_lookups, due_amount, Sends, execute_transaction-Sends,
}
use web3_lab_public.Dashboard.Submit.{interact_params, handle_submit}
use web3_lab_public.Dashboard.Submit.Deploying.{deploying, handle_submit-deploy}
use web3_lab_public.Text.{split}
use web3_lab_public.Browser.{Response}
use web3_lab_public.Dashboard.State.{nat}
use web3_lab_public.Dashboard.Forms.Amounts.{
  decimal, Scales, IsTransferForm, Accepts, IsTransferred, unwarned-IsTransferred,
}
use web3_lab_public.Dashboard.Forms.{submit_disabled, change_amount}
use web3_lab_public.Dashboard.Submit.Sending.{
  typed_params, IsFilledIn, submitted, handle_submit-sends,
}
use web3_lab_public.Dashboard.Services.{Log}
use web3_lab_public.Dashboard.Identities.{unlink_identity, unlink_question}
use web3_lab_public.Dashboard.Identities.Linking.{IsLinked, link_wallet-IsLinked}
use web3_lab_public.Dashboard.Identities.{link_wallet}
use web3_lab_public.Dashboard.Identities.Unlinking.{confirmed, unlink_events, unlink_identity-trace}
use web3_lab_public.Examples.Data.{services, view, world, balance, result}
use web3_lab_public.Dashboard.Services.{ExecuteBody}

execute_transaction-IsSettled_example :
    let r =
      execute_transaction (services 3) view Action.transfer erc20 (interact_params view) world in
    IsSettled r.1.state r.0 × (r.1.state.tx_loading ≡ false) × (r.1.storage ≡ world.storage)
execute_transaction-IsSettled_example =
    execute_transaction-IsSettled (services 3) view Action.transfer erc20 (interact_params view)
      world "user-1" refl

handle_submit-deploy_example :
    let r = handle_submit (services 3) (deploying view) world in
    (r.0 ≡ ok tt)
    × (r.1.state.tx_loading ≡ false)
    × (r.1.state.tx_result ≡ none → r.1.state.error ≢ none)
handle_submit-deploy_example = handle_submit-deploy (services 3) view world "user-1" refl

-- A receipt whose second log announces a contract.
abbrev receipt : List Log
receipt =
    record { topics = "Transfer" ∷ "0x1" ∷ [] }
    ∷ record { topics = "ERC20Created(address,string,string,address)" ∷ "0x2" ∷ [] }
    ∷ []

unlink_identity-trace_example : (unlink_identity (services 3) view "id-2" world).1.trace ≡ (
    if (services 3).confirm world.trace unlink_question
    then (confirmed world).trace ++ unlink_events (services 3) "tok" "id-2" world
    else (confirmed world).trace)
unlink_identity-trace_example = unlink_identity-trace (services 3) view "tok" "id-2" world refl

view_is_ready : submit_disabled view ≡ false
unfolding submit_disabled
view_is_ready = refl

view_is_no_deploy : view.active_section ≢ deploy
view_is_no_deploy = ground arith

abbrev accepted : ExecuteBody
accepted = record { result = result; error_message = none }

view-IsTransferForm : IsTransferForm view "user-1" balance 6
view-IsTransferForm = record {
  section = refl;
  fungible = refl;
  selected = refl;
  known = refl;
  decimals = refl;
}

services-Scales : Scales (services 3)
services-Scales whole fraction d h k t l m n = record { amount = "2500000"; scaled = refl }

abbrev accepted_response : Response ExecuteBody
accepted_response = record { status = 200; json = ok accepted }

services-Accepts : Accepts (services 3) accepted_response accepted
services-Accepts = record { answers = λ t r. refl; succeeds = refl; settles = refl }

unwarned-IsTransferred_example :
    let view' = change_amount (decimal "2" "5") view in
    IsTransferred
      (services 3)
      view'
      "user-1"
      (nat 6)
      accepted
      world
      (handle_submit (services 3) view' world).1
unfolding change_amount split
unwarned-IsTransferred_example =
    unwarned-IsTransferred (services 3) services-Scales view "2" "5" "user-1" balance 6
      accepted_response accepted world view-IsTransferForm refl refl refl refl refl services-Accepts
      refl

execute_transaction-Sends_example :
    Sends
      (services 3)
      view
      "user-1"
      Action.transfer
      erc20
      (interact_params view)
      (world.trace ++ amount_lookups (services 3) view erc20 (interact_params view))
      (due_amount (services 3) view erc20 (interact_params view) world.trace)
      (execute_transaction (services 3) view Action.transfer erc20 (interact_params view) world)
execute_transaction-Sends_example =
    execute_transaction-Sends (services 3) view Action.transfer erc20 (interact_params view) world
      "user-1" refl

handle_submit-sends_example :
    IsFilledIn (typed_params view)
    × ((handle_submit (services 3) view world).1.trace
        ≡ submitted (services 3) view "user-1" Action.transfer world.trace)
handle_submit-sends_example =
    handle_submit-sends (services 3) view "user-1" Action.transfer world refl refl view_is_ready

link_wallet-IsLinked_example :
    IsLinked (services 3) "tok" world (link_wallet (services 3) view world)
link_wallet-IsLinked_example = link_wallet-IsLinked (services 3) view "tok" world refl refl
