-- ===== src/Dashboard/Submit/Frame.antt =====
-- What a submission leaves alone.
use web3_lab_public.Prelude.{
  String, List, Option, none, some, ◌≡◌, refl, arith, is_present, option_or, [], ◌∷◌, ◌++◌,
}
use web3_lab_public.Browser
use web3_lab_public.Browser.{
  Reply, ok, thrown, Io, World, awaited, ◌>>=◌, ◌>>◌, await, throw, pure, done,
}
use web3_lab_public.Dashboard.State.{
  Dashboard, MenuSection, TokenType, deploy, mint, transfer, profile, erc20, token_name, TxResult,
}
use web3_lab_public.Dashboard.Services.{Services, Log}
use web3_lab_public.Dashboard.Marks.{
  IsSubmission, IsPublication, IsPublication-IsSubmission, unpublished, unsubmitted, bind-IsKept,
}
use web3_lab_public.Dashboard.Transaction.{Action, execute_transaction}
use web3_lab_public.Dashboard.Transaction.Frame.{execute_transaction-IsSubmission}
use web3_lab_public.Dashboard.Upload.{upload_image, generate_metadata, register_erc20_icon}
use web3_lab_public.Dashboard.TokenId.Bounds.{get_next_token_id_total}
use web3_lab_public.Dashboard.Submit.{
  deploy_params, interact_params, section_action, contract_address, upload_icon, announce,
  publish_contract, follow_deploy, submit_deploy, submit_interact, target_token_id, submit_artwork,
  submit_in, handle_submit,
}

module _ (env : Services) (view : Dashboard) where
  pub upload_image-IsPublication :
      (token_type contract token_id : String) (w : World Dashboard)
      → IsPublication w (upload_image env view token_type contract token_id w)
  unfolding upload_image
  upload_image-IsPublication token_type contract token_id w = ground arith

  pub generate_metadata-IsPublication :
      (token_type contract token_id url : String) (w : World Dashboard)
      → IsPublication w (generate_metadata env view token_type contract token_id url w)
  unfolding generate_metadata
  generate_metadata-IsPublication token_type contract token_id url w = ground arith

  pub upload_icon-IsPublication :
      (contract token_id : String) (w : World Dashboard)
      → IsPublication w (upload_icon env view contract token_id w)
  unfolding upload_icon register_erc20_icon
  upload_icon-IsPublication contract token_id w =
      ground (arith, upload_image-IsPublication (token_name erc20) contract token_id w)

  announce-IsPublication :
      (type : TokenType) (contract : String) (w : World Dashboard)
      → IsPublication w (announce env view type contract w)
  unfolding announce
  announce-IsPublication type contract w = ground (arith, upload_icon-IsPublication contract "0" w)

  publish_contract-IsPublication :
      (contract : Option String) (w : World Dashboard)
      → IsPublication w (publish_contract env view contract w)
  unfolding publish_contract
  publish_contract-IsPublication none w = record { state_kept = refl; storage_kept = refl }
  publish_contract-IsPublication (some contract) w = ground (
    arith,
    announce-IsPublication view.active_token contract
        (record w { state = record w.state { deployed_contract_address = some contract } }),
  )

  contract_address-IsPublication :
      (logs : List Log) (w : World Dashboard) → IsPublication w (contract_address env view logs w)
  unfolding contract_address
  contract_address-IsPublication logs w = ground arith

  pub follow_deploy-IsPublication :
      (hash : String) (w : World Dashboard) → IsPublication w (follow_deploy env view hash w)
  unfolding follow_deploy
  follow_deploy-IsPublication hash w = go (env.wait_for_transaction w.trace hash) refl
    where
      waited : World Dashboard
      waited = record w { trace = w.trace ++ awaited hash ∷ [] }

      go :
          (r : Reply (Option (List Log)))
          → env.wait_for_transaction w.trace hash ≡ r
          → IsPublication w (follow_deploy env view hash w)
      go (thrown m) e = ground arith
      go (ok none) e = ground arith
      go (ok (some logs)) e = ground (
        arith,
        bind-IsKept unpublished (contract_address env view logs) (publish_contract env view) waited
            (contract_address-IsPublication logs waited)
            (λ c. publish_contract-IsPublication c (contract_address env view logs waited).1),
      )

  submit_deploy-IsSubmission : (w : World Dashboard) → IsSubmission w (submit_deploy env view w)
  unfolding submit_deploy
  submit_deploy-IsSubmission w = go sent.0 refl
    where
      sent : Reply (Option TxResult) × World Dashboard
      sent =
          execute_transaction env view Action.deploy_contract view.active_token (deploy_params view)
            w

      first : IsSubmission w sent
      first =
          execute_transaction-IsSubmission env view Action.deploy_contract view.active_token
            (deploy_params view) w

      go : (r : Reply (Option TxResult)) → sent.0 ≡ r → IsSubmission w (submit_deploy env view w)
      go (thrown m) e = ground (arith, first)
      go (ok none) e = ground (arith, first)
      go (ok (some res)) e = ground (
        arith,
        first,
        IsPublication-IsSubmission
            (follow_deploy-IsPublication (option_or res.transaction_hash "") sent.1),
      )

  submit_interact-IsSubmission : (w : World Dashboard) → IsSubmission w (submit_interact env view w)
  unfolding submit_interact
  submit_interact-IsSubmission w = ground (
    arith,
    execute_transaction-IsSubmission env view (section_action view.active_section) view.active_token
        (interact_params view) w,
  )

  pub target_token_id-IsPublication :
      (w : World Dashboard) → IsPublication w (target_token_id env view w)
  unfolding target_token_id
  target_token_id-IsPublication w =
      ground (arith, get_next_token_id_total env view.interact_token_address w)

  submit_artwork-IsSubmission : (w : World Dashboard) → IsSubmission w (submit_artwork env view w)
  unfolding submit_artwork
  submit_artwork-IsSubmission w =
      bind-IsKept unsubmitted (target_token_id env view) _ w
        (IsPublication-IsSubmission (target_token_id-IsPublication w))
        (λ token_id.
          bind-IsKept unsubmitted
            (upload_image env view (token_name view.active_token) view.interact_token_address
              token_id)
            _ _
            (IsPublication-IsSubmission (
              upload_image-IsPublication (token_name view.active_token) view.interact_token_address
                token_id _))
            (λ image_url. finished token_id image_url _))
    where
      described : String → Option String → Io Dashboard (Unit {0})
      described token_id image_url = Browser.when (is_present image_url) (
          generate_metadata env view (token_name view.active_token) view.interact_token_address
            token_id (option_or image_url ""))

      executed : Io Dashboard (Unit {0})
      executed =
          execute_transaction env view Action.mint view.active_token (interact_params view)
          >>= (λ _. done)

      finished :
          (token_id : String) (image_url : Option String) (v : World Dashboard)
          → IsSubmission v ((described token_id image_url >>= (λ _. executed)) v)
      finished token_id image_url v =
          bind-IsKept unsubmitted (described token_id image_url) (λ _. executed) v
            (ground (
              arith,
              generate_metadata-IsPublication (token_name view.active_token)
                  view.interact_token_address token_id (option_or image_url "") v,
            ))
            (λ _.
              bind-IsKept unsubmitted
                (execute_transaction env view Action.mint view.active_token (interact_params view))
                (λ _. done) (described token_id image_url v).1
                (execute_transaction-IsSubmission env view Action.mint view.active_token
                  (interact_params view) (described token_id image_url v).1)
                (λ _. record { state_kept = refl; storage_kept = refl }))

  submit_in-IsSubmission :
      (section : MenuSection) (w : World Dashboard) → IsSubmission w (submit_in env view section w)
  unfolding submit_in
  submit_in-IsSubmission deploy w = submit_deploy-IsSubmission w
  submit_in-IsSubmission mint w =
      ground (arith, submit_artwork-IsSubmission w, submit_interact-IsSubmission w)
  submit_in-IsSubmission transfer w = submit_interact-IsSubmission w
  submit_in-IsSubmission profile w = submit_interact-IsSubmission w

  -- A submission writes its marks, its outcome and the progress of an upload, and nothing else of
  -- the page; the storage is as it was.
  pub handle_submit-IsSubmission : (w : World Dashboard) → IsSubmission w (handle_submit env view w)
  unfolding handle_submit
  handle_submit-IsSubmission w = submit_in-IsSubmission view.active_section w
