-- ===== src/Dashboard/Submit/Calm.antt =====
-- A submission that is begun between two transactions ends between two transactions.
use web3_lab_public.Prelude.{String, Option, none, some, ◌≡◌, refl, arith, is_present, option_or}
use web3_lab_public.Browser
use web3_lab_public.Browser.{Reply, ok, thrown, Io, World, ◌>>=◌, done}
use web3_lab_public.Dashboard.State.{
  Dashboard, MenuSection, deploy, mint, transfer, profile, token_name, TxResult,
}
use web3_lab_public.Dashboard.Services.{Services}
use web3_lab_public.Dashboard.Marks.{IsCalm, IsPublication-IsCalm, bind-IsCalm}
use web3_lab_public.Dashboard.Transaction.{Action, execute_transaction}
use web3_lab_public.Dashboard.Transaction.Frame.{execute_transaction-IsCalm}
use web3_lab_public.Dashboard.Upload.{upload_image, generate_metadata}
use web3_lab_public.Dashboard.Submit.{
  deploy_params, interact_params, section_action, submit_deploy, submit_interact, target_token_id,
  submit_artwork, submit_in, handle_submit,
}
use web3_lab_public.Dashboard.Submit.Frame.{
  upload_image-IsPublication, generate_metadata-IsPublication, follow_deploy-IsPublication,
  target_token_id-IsPublication,
}

module _ (env : Services) (view : Dashboard) where
  submit_deploy-IsCalm :
      (w : World Dashboard) → IsCalm w.state → IsCalm (submit_deploy env view w).1.state
  unfolding submit_deploy
  submit_deploy-IsCalm w c = go sent.0 refl
    where
      sent : Reply (Option TxResult) × World Dashboard
      sent =
          execute_transaction env view Action.deploy_contract view.active_token (deploy_params view)
            w

      first : IsCalm sent.1.state
      first =
          execute_transaction-IsCalm env view Action.deploy_contract view.active_token
            (deploy_params view) w c

      go : (r : Reply (Option TxResult)) → sent.0 ≡ r → IsCalm (submit_deploy env view w).1.state
      go (thrown m) e = ground (arith, first)
      go (ok none) e = ground (arith, first)
      go (ok (some res)) e =
          let hash = option_or res.transaction_hash "" in
          ground (
            arith,
            first,
            IsPublication-IsCalm (follow_deploy-IsPublication env view hash sent.1) first,
          )

  submit_interact-IsCalm :
      (w : World Dashboard) → IsCalm w.state → IsCalm (submit_interact env view w).1.state
  unfolding submit_interact
  submit_interact-IsCalm w c =
      bind-IsCalm
        (execute_transaction env view (section_action view.active_section) view.active_token
          (interact_params view))
        (λ _. done) w
        (execute_transaction-IsCalm env view (section_action view.active_section) view.active_token
          (interact_params view) w c)
        (λ _ c'. c')

  submit_artwork-IsCalm :
      (w : World Dashboard) → IsCalm w.state → IsCalm (submit_artwork env view w).1.state
  unfolding submit_artwork
  submit_artwork-IsCalm w c =
      bind-IsCalm (target_token_id env view) _ w
        (IsPublication-IsCalm (target_token_id-IsPublication env view w) c)
        (λ token_id c'.
          bind-IsCalm (image token_id) _ _
            (IsPublication-IsCalm
              (upload_image-IsPublication env view (token_name view.active_token)
                view.interact_token_address token_id _)
              c')
            (λ image_url c''. finished token_id image_url _ c''))
    where
      image : String → Io Dashboard (Option String)
      image token_id =
          upload_image env view (token_name view.active_token) view.interact_token_address token_id

      described : String → Option String → Io Dashboard (Unit {0})
      described token_id image_url = Browser.when (is_present image_url) (
          generate_metadata env view (token_name view.active_token) view.interact_token_address
            token_id (option_or image_url ""))

      executed : Io Dashboard (Unit {0})
      executed =
          execute_transaction env view Action.mint view.active_token (interact_params view)
          >>= (λ _. done)

      executed_calm : (v : World Dashboard) → IsCalm v.state → IsCalm (executed v).1.state
      executed_calm v c =
          bind-IsCalm
            (execute_transaction env view Action.mint view.active_token (interact_params view))
            (λ _. done) v
            (execute_transaction-IsCalm env view Action.mint view.active_token
              (interact_params view) v c)
            (λ _ c'. c')

      described_calm :
          (token_id : String) (image_url : Option String) (v : World Dashboard)
          → IsCalm v.state
          → IsCalm (described token_id image_url v).1.state
      described_calm token_id image_url v c = ground (
        arith,
        c,
        IsPublication-IsCalm
            (generate_metadata-IsPublication env view (token_name view.active_token)
              view.interact_token_address token_id (option_or image_url "") v)
            c,
      )

      finished :
          (token_id : String) (image_url : Option String) (v : World Dashboard)
          → IsCalm v.state
          → IsCalm ((described token_id image_url >>= (λ _. executed)) v).1.state
      finished token_id image_url v c =
          bind-IsCalm (described token_id image_url) (λ _. executed) v
            (described_calm token_id image_url v c)
            (λ _ c'. executed_calm (described token_id image_url v).1 c')

  submit_in-IsCalm :
      (section : MenuSection) (w : World Dashboard)
      → IsCalm w.state
      → IsCalm (submit_in env view section w).1.state
  unfolding submit_in
  submit_in-IsCalm deploy w c = submit_deploy-IsCalm w c
  submit_in-IsCalm mint w c = ground (arith, submit_artwork-IsCalm w c, submit_interact-IsCalm w c)
  submit_in-IsCalm transfer w c = submit_interact-IsCalm w c
  submit_in-IsCalm profile w c = submit_interact-IsCalm w c

  pub handle_submit-IsCalm :
      (w : World Dashboard) → IsCalm w.state → IsCalm (handle_submit env view w).1.state
  unfolding handle_submit
  handle_submit-IsCalm w c = submit_in-IsCalm view.active_section w c
