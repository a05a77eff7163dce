-- ===== src/Dashboard/Submit/Deploying.antt =====
-- The deployment of a contract, and what follows it.
use web3_lab_public.Prelude.{
  Bool, find, ◌∷◌, [], String, false, List, Option, none, some, ◌≡◌, ◌≢◌, ◌++◌, refl, arith,
  option_or,
}
use web3_lab_public.Browser.{Reply, ok, thrown, World, awaited}
use web3_lab_public.Dashboard.State.{
  TokenType, deploy, erc20, token_name, TxResult, Dashboard, sub_of,
}
use web3_lab_public.Dashboard.Services.{Services, Log}
use web3_lab_public.Dashboard.Transaction.{Action, execute_transaction}
use web3_lab_public.Dashboard.Transaction.Outcome.{IsSettled, execute_transaction-IsSettled}
use web3_lab_public.Dashboard.Upload.{upload_image, register_erc20_icon}
use web3_lab_public.Dashboard.Submit.{
  is_created, created_topic, deploy_params, upload_icon, announce, publish_contract,
  contract_address, follow_deploy, submit_deploy, submit_in, handle_submit,
}

-- What stands behind the first topic of a log, and whether that topic announces a contract.
abbrev pub second_topic : Log → Option String
second_topic log = elim log.topics [
  | [] ↦ none
  | _ ∷ more ↦ elim more [ [] ↦ none | address ∷ _ ↦ some address ]
]

abbrev pub announces : (String → String) → Log → Bool
announces event_id log = elim log.topics [ [] ↦ false | topic ∷ _ ↦ is_created event_id topic ]

abbrev pub address_in : Option Log → Option (Option String)
address_in none = none
address_in (some log) = some (second_topic log)

-- The contract of a receipt is taken from the first of its logs that announces one.
pub created_topic-find :
    (event_id : String → String) (logs : List Log)
    → created_topic event_id logs ≡ address_in (find (announces event_id) logs)
unfolding created_topic find
created_topic-find event_id [] = refl
created_topic-find event_id (log ∷ logs) = go log.topics refl (created_topic-find event_id logs)
  where
    go :
        (ts : List String)
        → log.topics ≡ ts
        → created_topic event_id logs ≡ address_in (find (announces event_id) logs)
        → created_topic event_id (log ∷ logs) ≡ address_in (find (announces event_id) (log ∷ logs))
    go [] e rest = ground (arith, rest)
    go (topic ∷ []) e rest = ground (arith, rest)
    go (topic ∷ address ∷ more) e rest = ground (arith, rest)

-- The page where a contract is deployed.
abbrev pub deploying : Dashboard → Dashboard
deploying view = record view { active_section = deploy }

module _ (env : Services) where
  -- A part of the publication of a contract: it does not touch the transaction's marks.
  record IsPublishing {A : Type 0} (w : World Dashboard) (r : Reply A × World Dashboard)
      : Type 0 where
    loading_kept : r.1.state.tx_loading ≡ w.state.tx_loading
    result_kept : r.1.state.tx_result ≡ w.state.tx_result

  upload_image-IsPublishing :
      (view : Dashboard) (token_type contract token_id : String) (w : World Dashboard)
      → IsPublishing w (upload_image env view token_type contract token_id w)
  unfolding upload_image
  upload_image-IsPublishing view token_type contract token_id w = ground arith

  upload_icon-IsPublishing :
      (view : Dashboard) (contract token_id : String) (w : World Dashboard)
      → IsPublishing w (upload_icon env view contract token_id w)
  unfolding upload_icon register_erc20_icon
  upload_icon-IsPublishing view contract token_id w =
      ground (arith, upload_image-IsPublishing view (token_name erc20) contract token_id w)

  announce-IsPublishing :
      (view : Dashboard) (type : TokenType) (contract : String) (w : World Dashboard)
      → IsPublishing w (announce env view type contract w)
  unfolding announce
  announce-IsPublishing view type contract w =
      ground (arith, upload_icon-IsPublishing view contract "0" w)

  publish_contract-IsPublishing :
      (view : Dashboard) (contract : Option String) (w : World Dashboard)
      → IsPublishing w (publish_contract env view contract w)
  unfolding publish_contract
  publish_contract-IsPublishing view none w = record { loading_kept = refl; result_kept = refl }
  publish_contract-IsPublishing view (some contract) w = ground (
    arith,
    announce-IsPublishing view view.active_token contract
        (record w { state = record w.state { deployed_contract_address = some contract } }),
  )

  contract_address-IsPublishing :
      (view : Dashboard) (logs : List Log) (w : World Dashboard)
      → (contract_address env view logs w).1 ≡ w
  unfolding contract_address
  contract_address-IsPublishing view logs w = ground arith

  follow_deploy-IsPublishing :
      (view : Dashboard) (hash : String) (w : World Dashboard)
      → ((follow_deploy env view hash w).0 ≡ ok tt) × IsPublishing w (follow_deploy env view hash w)
  unfolding follow_deploy
  follow_deploy-IsPublishing view hash w = go (env.wait_for_transaction w.trace hash) refl
    where
      waited : World Dashboard
      waited = record w { trace = w.trace ++ awaited hash ∷ [] }

      Goal : Type 0
      Goal =
          ((follow_deploy env view hash w).0 ≡ ok tt)
          × IsPublishing w (follow_deploy env view hash w)

      named :
          (logs : List Log) (c : Reply (Option String))
          → env.wait_for_transaction w.trace hash ≡ ok (some logs)
          → (contract_address env view logs waited).0 ≡ c
          → Goal
      named logs (thrown m) e k = ground (arith, contract_address-IsPublishing view logs waited)
      named logs (ok c) e k = ground (
        arith,
        contract_address-IsPublishing view logs waited,
        publish_contract-IsPublishing view c waited,
      )

      go : (r : Reply (Option (List Log))) → env.wait_for_transaction w.trace hash ≡ r → Goal
      go (thrown m) e = ground arith
      go (ok none) e = ground arith
      go (ok (some logs)) e = named logs _ e refl

  -- For a known user the submission of a deployment never fails, whatever the gateway and the node
  -- answer: the mark of loading is off at the end, and the page shows a result or an error.
  pub handle_submit-deploy :
      (view : Dashboard) (w : World Dashboard) (sub : String)
      → sub_of view.user_info ≡ some sub
      → let r = handle_submit env (deploying view) w in
        (r.0 ≡ ok tt)
        × (r.1.state.tx_loading ≡ false)
        × (r.1.state.tx_result ≡ none → r.1.state.error ≢ none)
  unfolding handle_submit submit_in submit_deploy
  handle_submit-deploy view w sub known = go sent.0 refl
    where
      sent : Reply (Option TxResult) × World Dashboard
      sent =
          execute_transaction env (deploying view) Action.deploy_contract view.active_token
            (deploy_params (deploying view)) w

      settled :
          IsSettled sent.1.state sent.0
          × (sent.1.state.tx_loading ≡ false)
          × (sent.1.storage ≡ w.storage)
      settled =
          execute_transaction-IsSettled env (deploying view) Action.deploy_contract
            view.active_token (deploy_params (deploying view)) w sub known

      go :
          (r : Reply (Option TxResult))
          → sent.0 ≡ r
          → let r = handle_submit env (deploying view) w in
            (r.0 ≡ ok tt)
            × (r.1.state.tx_loading ≡ false)
            × (r.1.state.tx_result ≡ none → r.1.state.error ≢ none)
      go (thrown m) e = ground (arith, settled)
      go (ok none) e = ground (arith, settled)
      go (ok (some res)) e = ground (
        arith,
        settled,
        follow_deploy-IsPublishing (deploying view) (option_or res.transaction_hash "") sent.1,
      )
