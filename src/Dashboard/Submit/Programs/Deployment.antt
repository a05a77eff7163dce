-- ===== src/Dashboard/Submit/Programs/Deployment.antt =====
-- The submission of a deployment, and what follows it, as a program that stops at each of its
-- awaits. Run alone it is the effect.
use web3_lab_public.Prelude.{
  String, Bool, true, false, List, Option, none, some, ◌≡◌, refl, arith, is_present, is_truthy,
  option_or, [], ◌∷◌, ◌++◌, ◌<>◌, if◌then◌else◌,
}
use web3_lab_public.Text.{slice_from}
use web3_lab_public.Browser.{
  Reply, ok, thrown, World, Io, awaited, fetched, ask, resume, when, done, ◌>>=◌,
}
use web3_lab_public.Program.{Program, settled, run, bind, recover, run-bind-as, run-recover-as}
use web3_lab_public.Dashboard.State.{
  Dashboard, File, TokenType, erc20, erc721, erc1155, TxResult, token_name,
}
use web3_lab_public.Dashboard.Services.{Services, Log}
use web3_lab_public.Dashboard.Transaction.{Action, execute_transaction}
use web3_lab_public.Dashboard.Transaction.Programs.{execute_program, run-execute_program}
use web3_lab_public.Dashboard.Upload.{icon_request, register_erc20_icon, upload_image}
use web3_lab_public.Dashboard.Upload.Programs.{upload_program, run-upload_program}
use web3_lab_public.Dashboard.Submit.{
  created_topic, contract_address, deploy_params, set_uri_request, upload_icon, announce,
  publish_contract, follow_deploy, submit_deploy,
}

module _ (env : Services) (view : Dashboard) where
  abbrev pub register_program : String → String → Program Dashboard (Unit {0})
  register_program contract icon_url =
      let request = icon_request env view contract icon_url in
      Program.query (fetched request) (λ t. env.erc20_icon t request)
        (λ reply. bind (settled reply) (λ _. Program.give tt))

  abbrev pub registered_program : String → Option String → Program Dashboard (Unit {0})
  registered_program contract icon_url =
      if is_present icon_url
      then register_program contract (option_or icon_url "")
      else Program.give tt

  unfoldable pub icon_program : String → String → Program Dashboard (Unit {0})
  icon_program contract token_id =
      bind (upload_program env view (token_name erc20) contract token_id)
        (λ icon_url. registered_program contract icon_url)

  abbrev pub announce_icon : String → Option File → Program Dashboard (Unit {0})
  announce_icon contract none = Program.give tt
  announce_icon contract (some _) = icon_program contract "0"

  abbrev pub announce_program : TokenType → String → Program Dashboard (Unit {0})
  announce_program erc20 contract = announce_icon contract view.upload_file
  announce_program _ contract =
      Program.post (fetched (set_uri_request env view contract)) (Program.give tt)

  abbrev pub publish_program : Option String → Program Dashboard (Unit {0})
  publish_program none = Program.give tt
  publish_program (some contract) =
      if is_truthy contract
      then Program.update (λ s. record s { deployed_contract_address = some contract })
          (announce_program view.active_token contract)
      else Program.give tt

  abbrev pub address_program : Option (Option String) → Program Dashboard (Option String)
  address_program none = Program.give none
  address_program (some none) =
      Program.fail "Cannot read properties of undefined (reading 'substring')"
  address_program (some (some topic)) =
      bind (settled (env.get_address ("0x" <> slice_from 26 topic)))
        (λ address. Program.give (some address))

  abbrev pub receipt_program : Option (List Log) → Program Dashboard (Unit {0})
  receipt_program none = Program.give tt
  receipt_program (some logs) =
      bind (address_program (created_topic env.event_id logs)) publish_program

  unfoldable pub follow_program : String → Program Dashboard (Unit {0})
  follow_program hash =
      recover
        (Program.query (awaited hash) (λ t. env.wait_for_transaction t hash)
          (λ reply. bind (settled reply) receipt_program))
        (λ _. Program.give tt)

  abbrev pub followed_program : Option TxResult → Program Dashboard (Unit {0})
  followed_program none = Program.give tt
  followed_program (some res) =
      if is_present res.transaction_hash
      then follow_program (option_or res.transaction_hash "")
      else Program.give tt

  unfoldable pub deploy_program : Program Dashboard (Unit {0})
  deploy_program =
      bind (execute_program env view Action.deploy_contract view.active_token (deploy_params view))
        followed_program

  run-registered_program :
      (contract : String) (o : Option String) (w : World Dashboard)
      → run (registered_program contract o) w
        ≡ when (is_present o) (register_erc20_icon env view contract (option_or o "")) w
  unfolding register_erc20_icon run bind
  run-registered_program contract o w = ground arith

  pub run-icon_program :
      (contract token_id : String) (w : World Dashboard)
      → run (icon_program contract token_id) w ≡ upload_icon env view contract token_id w
  unfolding icon_program upload_icon
  run-icon_program contract token_id w =
      run-bind-as (upload_program env view (token_name erc20) contract token_id)
        (registered_program contract) (upload_image env view (token_name erc20) contract token_id) _
        w (run-upload_program env view (token_name erc20) contract token_id w)
        (λ o v. run-registered_program contract o v)

  -- What the effects do with a file, a receipt and a result.
  abbrev iconed : String → Option File → Io Dashboard (Unit {0})
  iconed contract none = done
  iconed contract (some _) = upload_icon env view contract "0"

  abbrev received : Option (List Log) → Io Dashboard (Unit {0})
  received none = done
  received (some logs) = contract_address env view logs >>= publish_contract env view

  abbrev followed : Option TxResult → Io Dashboard (Unit {0})
  followed none = done
  followed (some res) =
      when (is_present res.transaction_hash)
        (follow_deploy env view (option_or res.transaction_hash ""))

  run-announce_icon :
      (contract : String) (o : Option File) (w : World Dashboard)
      → run (announce_icon contract o) w ≡ iconed contract o w
  unfolding run
  run-announce_icon contract none w = refl
  run-announce_icon contract (some f) w = run-icon_program contract "0" w

  run-announce_program :
      (t : TokenType) (contract : String) (w : World Dashboard)
      → run (announce_program t contract) w ≡ announce env view t contract w
  unfolding announce run
  run-announce_program erc20 contract w = run-announce_icon contract view.upload_file w
  run-announce_program erc721 contract w = refl
  run-announce_program erc1155 contract w = refl

  run-publish_program :
      (o : Option String) (w : World Dashboard)
      → run (publish_program o) w ≡ publish_contract env view o w
  unfolding publish_contract run
  run-publish_program none w = refl
  run-publish_program (some contract) w = go (is_truthy contract) refl
    where
      shown : World Dashboard
      shown = record w { state = record w.state { deployed_contract_address = some contract } }

      go :
          (b : Bool)
          → is_truthy contract ≡ b
          → run (publish_program (some contract)) w ≡ publish_contract env view (some contract) w
      go true e = rw (e, run-announce_program view.active_token contract shown) refl
      go false e = rw e refl

  run-address_program :
      (logs : List Log) (w : World Dashboard)
      → run (address_program (created_topic env.event_id logs)) w ≡ contract_address env view logs w
  unfolding contract_address run bind
  run-address_program logs w = go (created_topic env.event_id logs) refl
    where
      go :
          (o : Option (Option String))
          → created_topic env.event_id logs ≡ o
          → run (address_program (created_topic env.event_id logs)) w
            ≡ contract_address env view logs w
      go none e = ground (arith, e)
      go (some none) e = ground (arith, e)
      go (some (some topic)) e = ground (arith, e)

  run-receipt_program :
      (o : Option (List Log)) (w : World Dashboard) → run (receipt_program o) w ≡ received o w
  unfolding run
  run-receipt_program none w = refl
  run-receipt_program (some logs) w =
      run-bind-as (address_program (created_topic env.event_id logs)) publish_program
        (contract_address env view logs) (publish_contract env view) w (run-address_program logs w)
        run-publish_program

  pub run-follow_program :
      (hash : String) (w : World Dashboard)
      → run (follow_program hash) w ≡ follow_deploy env view hash w
  unfolding follow_program follow_deploy run bind
  run-follow_program hash w =
      run-recover-as
        (Program.query (awaited hash) (λ t. env.wait_for_transaction t hash)
          (λ reply. bind (settled reply) receipt_program))
        (λ _. Program.give tt)
        (ask (awaited hash) (λ t. env.wait_for_transaction t hash) >>= received) (λ _. done) w
        (go (env.wait_for_transaction w.trace hash)) (λ _ v. refl)
    where
      asked : World Dashboard
      asked = record w { trace = w.trace ++ awaited hash ∷ [] }

      go :
          (r : Reply (Option (List Log)))
          → run (bind (settled r) receipt_program) asked ≡ resume (r, asked) received
      go (ok a) = run-receipt_program a asked
      go (thrown e) = refl

  run-followed_program :
      (o : Option TxResult) (w : World Dashboard) → run (followed_program o) w ≡ followed o w
  unfolding run
  run-followed_program none w = refl
  run-followed_program (some res) w = go (is_present res.transaction_hash) refl
    where
      go :
          (b : Bool)
          → is_present res.transaction_hash ≡ b
          → run (followed_program (some res)) w
            ≡ when
                (is_present res.transaction_hash)
                (follow_deploy env view (option_or res.transaction_hash ""))
                w
      go true e = rw e (run-follow_program (option_or res.transaction_hash "") w)
      go false e = rw e refl

  -- The program of a deployment's submission, run with no other event in between, is the
  -- submission.
  pub run-deploy_program : (w : World Dashboard) → run deploy_program w ≡ submit_deploy env view w
  unfolding deploy_program submit_deploy
  run-deploy_program w =
      run-bind-as
        (execute_program env view Action.deploy_contract view.active_token (deploy_params view))
        followed_program
        (execute_transaction env view Action.deploy_contract view.active_token (deploy_params view))
        _ w
        (run-execute_program env view Action.deploy_contract view.active_token (deploy_params view)
          w)
        run-followed_program
