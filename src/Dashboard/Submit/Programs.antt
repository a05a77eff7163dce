-- ===== src/Dashboard/Submit/Programs.antt =====
-- The submission of an artwork as a program that stops at each of its awaits. Run alone it is the
-- effect.
pub mod Deployment
pub mod Whole
use web3_lab_public.Prelude.{
  String, Bool, true, false, Option, ◌≡◌, ◌∙◌, refl, is_present, option_or, if◌then◌else◌,
}
use web3_lab_public.Browser.{World, when, done, ◌>>=◌}
use web3_lab_public.Program.{Program, run, bind, run-bind, run-bind-as}
use web3_lab_public.Dashboard.State.{Dashboard, TokenType, erc20, erc721, erc1155, token_name}
use web3_lab_public.Dashboard.Services.{Services}
use web3_lab_public.Dashboard.Transaction.{Action, execute_transaction}
use web3_lab_public.Dashboard.Transaction.Programs.{execute_program, run-execute_program}
use web3_lab_public.Dashboard.TokenId.Programs.{next_id_program, run-next_id_program}
use web3_lab_public.Dashboard.Upload.Programs.{
  upload_program, metadata_program, run-upload_program, run-metadata_program,
}
use web3_lab_public.Dashboard.Upload.{upload_image, generate_metadata}
use web3_lab_public.Dashboard.Submit.{interact_params, target_token_id, submit_artwork}

module _ (env : Services) (view : Dashboard) where
  abbrev pub target_program : TokenType → Program Dashboard String
  target_program erc721 = next_id_program env view.interact_token_address
  target_program _ = Program.give view.interact_token_id

  abbrev pub described_program : String → Option String → Program Dashboard (Unit {0})
  described_program token_id image_url =
      if is_present image_url
      then metadata_program env view (token_name view.active_token) view.interact_token_address
          token_id (option_or image_url "")
      else Program.give tt

  abbrev pub minted_program : Program Dashboard (Unit {0})
  minted_program =
      bind (execute_program env view Action.mint view.active_token (interact_params view))
        (λ _. Program.give tt)

  abbrev pub prepared_program : String → Program Dashboard (Unit {0})
  prepared_program token_id =
      bind
        (upload_program env view (token_name view.active_token) view.interact_token_address
          token_id)
        (λ image_url. bind (described_program token_id image_url) (λ _. minted_program))

  unfoldable pub artwork_program : Program Dashboard (Unit {0})
  artwork_program = bind (target_program view.active_token) prepared_program

  run-minted_program :
      (w : World Dashboard)
      → run minted_program w
        ≡ (execute_transaction env view Action.mint view.active_token (interact_params view)
              >>= (λ _. done))
            w
  unfolding run
  run-minted_program w =
      run-bind (execute_program env view Action.mint view.active_token (interact_params view))
        (λ _. Program.give tt) w
      ∙ rw (run-execute_program env view Action.mint view.active_token (interact_params view) w)
          refl

  run-target_program :
      (t : TokenType) (w : World Dashboard)
      → view.active_token ≡ t
      → run (target_program t) w ≡ target_token_id env view w
  unfolding target_token_id run
  run-target_program erc20 w e = rw e refl
  run-target_program erc721 w e = rw e (run-next_id_program env view.interact_token_address w)
  run-target_program erc1155 w e = rw e refl

  run-described_program :
      (token_id : String) (image_url : Option String) (w : World Dashboard)
      → run (described_program token_id image_url) w
        ≡ when
            (is_present image_url)
            (generate_metadata env view
              (token_name view.active_token)
              view.interact_token_address
              token_id
              (option_or image_url ""))
            w
  unfolding run
  run-described_program token_id image_url w = go (is_present image_url) refl
    where
      go :
          (b : Bool)
          → is_present image_url ≡ b
          → run (described_program token_id image_url) w
            ≡ when
                (is_present image_url)
                (generate_metadata env view
                  (token_name view.active_token)
                  view.interact_token_address
                  token_id
                  (option_or image_url ""))
                w
      go true e = rw e (
          run-metadata_program env view (token_name view.active_token) view.interact_token_address
            token_id (option_or image_url "") w)
      go false e = rw e refl

  -- The program of an artwork's submission, run with no other event in between, is the submission.
  pub run-artwork_program :
      (w : World Dashboard) → run artwork_program w ≡ submit_artwork env view w
  unfolding artwork_program submit_artwork
  run-artwork_program w =
      run-bind-as (target_program view.active_token) prepared_program (target_token_id env view) _ w
        (run-target_program view.active_token w refl)
        (λ token_id v.
          run-bind-as
            (upload_program env view (token_name view.active_token) view.interact_token_address
              token_id)
            _
            (upload_image env view (token_name view.active_token) view.interact_token_address
              token_id)
            _ v
            (run-upload_program env view (token_name view.active_token) view.interact_token_address
              token_id v)
            (λ image_url u.
              run-bind-as (described_program token_id image_url) (λ _. minted_program)
                (when (is_present image_url) (
                  generate_metadata env view (token_name view.active_token)
                    view.interact_token_address token_id (option_or image_url "")))
                _ u (run-described_program token_id image_url u) (λ _ x. run-minted_program x)))
