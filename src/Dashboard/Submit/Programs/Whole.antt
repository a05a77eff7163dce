-- ===== src/Dashboard/Submit/Programs/Whole.antt =====
-- `handleSubmitWithUpload` in every section, and the effect on `[txResult]`, as programs that stop
-- at each of their awaits. Run alone they are the effects.
use web3_lab_public.Prelude.{
  String, Bool, true, false, Option, none, some, ◌≡◌, refl, arith, is_present, option_or,
  if◌then◌else◌,
}
use web3_lab_public.Browser.{World, set, when, done, ◌>>◌}
use web3_lab_public.Program.{Program, run, bind, run-bind-as}
use web3_lab_public.Dashboard.State.{Dashboard, File, MenuSection, deploy, mint, TxResult}
use web3_lab_public.Dashboard.Services.{Services}
use web3_lab_public.Dashboard.Transaction.{execute_transaction}
use web3_lab_public.Dashboard.Transaction.Programs.{execute_program, run-execute_program}
use web3_lab_public.Dashboard.Upload.{clear_upload}
use web3_lab_public.Dashboard.Submit.{
  section_action, interact_params, has_artwork, result_contract, is_erc20_deploy, upload_icon,
  submit_interact, submit_in, handle_submit, on_tx_result,
}
use web3_lab_public.Dashboard.Submit.Programs.{artwork_program, run-artwork_program}
use web3_lab_public.Dashboard.Submit.Programs.Deployment.{
  icon_program, run-icon_program, deploy_program, run-deploy_program,
}

module _ (env : Services) (view : Dashboard) where
  unfoldable pub interact_program : Program Dashboard (Unit {0})
  interact_program =
      bind
        (execute_program env view (section_action view.active_section) view.active_token
          (interact_params view))
        (λ _. Program.give tt)

  abbrev pub mint_program : Bool → Program Dashboard (Unit {0})
  mint_program b = if b then artwork_program env view else interact_program

  abbrev pub section_program : MenuSection → Program Dashboard (Unit {0})
  section_program deploy = deploy_program env view
  section_program mint = mint_program (has_artwork env view)
  section_program _ = interact_program

  unfoldable pub submit_program : Program Dashboard (Unit {0})
  submit_program = section_program view.active_section

  abbrev pub icon_of_program : Option String → Program Dashboard (Unit {0})
  icon_of_program contract =
      if is_present contract
      then bind (icon_program env view (option_or contract "") "")
          (λ _. Program.update clear_upload (Program.give tt))
      else Program.give tt

  abbrev pub result_file_program : TxResult → Option File → Program Dashboard (Unit {0})
  result_file_program res none = Program.give tt
  result_file_program res (some _) =
      if is_erc20_deploy env view view.active_section view.active_token
      then icon_of_program (result_contract env view res)
      else Program.give tt

  abbrev pub shown_program : Option TxResult → Program Dashboard (Unit {0})
  shown_program none = Program.give tt
  shown_program (some res) = result_file_program res view.upload_file

  unfoldable pub result_program : Program Dashboard (Unit {0})
  result_program = shown_program view.tx_result

  run-interact_program : (w : World Dashboard) → run interact_program w ≡ submit_interact env view w
  unfolding interact_program submit_interact run
  run-interact_program w =
      run-bind-as
        (execute_program env view (section_action view.active_section) view.active_token
          (interact_params view))
        (λ _. Program.give tt)
        (execute_transaction env view (section_action view.active_section) view.active_token
          (interact_params view))
        (λ _. done) w
        (run-execute_program env view (section_action view.active_section) view.active_token
          (interact_params view) w)
        (λ _ v. refl)

  run-mint_program :
      (b : Bool) (w : World Dashboard)
      → has_artwork env view ≡ b
      → run (section_program mint) w ≡ submit_in env view mint w
  unfolding submit_in
  run-mint_program true w e = rw e (run-artwork_program env view w)
  run-mint_program false w e = rw e (run-interact_program w)

  run-section_program :
      (m : MenuSection) (w : World Dashboard) → run (section_program m) w ≡ submit_in env view m w
  unfolding submit_in
  run-section_program deploy w = run-deploy_program env view w
  run-section_program mint w = run-mint_program (has_artwork env view) w refl
  run-section_program _ w = run-interact_program w

  -- In every section the program of a submission, run with no other event in between, is the
  -- submission.
  pub run-submit_program : (w : World Dashboard) → run submit_program w ≡ handle_submit env view w
  unfolding submit_program handle_submit
  run-submit_program w = run-section_program view.active_section w

  run-icon_of_program :
      (o : Option String) (w : World Dashboard)
      → run (icon_of_program o) w
        ≡ when (is_present o) (upload_icon env view (option_or o "") "" >> set clear_upload) w
  unfolding run
  run-icon_of_program o w = go (is_present o) refl
    where
      go :
          (b : Bool)
          → is_present o ≡ b
          → run (icon_of_program o) w
            ≡ when (is_present o) (upload_icon env view (option_or o "") "" >> set clear_upload) w
      go true e = rw e (
          run-bind-as (icon_program env view (option_or o "") "")
            (λ _. Program.update clear_upload (Program.give tt))
            (upload_icon env view (option_or o "") "") (λ _. set clear_upload) w
            (run-icon_program env view (option_or o "") "" w) (λ _ v. refl))
      go false e = rw e refl

  -- The program of the effect on a result, run with no other event in between, is the effect.
  pub run-result_program : (w : World Dashboard) → run result_program w ≡ on_tx_result env view w
  unfolding result_program on_tx_result run
  run-result_program w =
      go view.tx_result view.upload_file
        (is_erc20_deploy env view view.active_section view.active_token) refl refl refl
    where
      go :
          (r : Option TxResult) (f : Option File) (b : Bool)
          → view.tx_result ≡ r
          → view.upload_file ≡ f
          → is_erc20_deploy env view view.active_section view.active_token ≡ b
          → run (shown_program view.tx_result) w ≡ on_tx_result env view w
      go none f b e k t = rw e refl
      go (some res) none b e k t = rw (e, k) refl
      go (some res) (some f) false e k t = rw (e, k, t) refl
      go (some res) (some f) true e k t =
          ground (arith, e, k, t, run-icon_of_program (result_contract env view res) w)
