-- ===== src/Dashboard/Threads/Holding.antt =====
-- How the submissions hold the mark of loading.
pub mod Linking
use web3_lab_public.Prelude.{
  if◌then◌else◌, String, Bool, true, false, not, Option, none, some, ◌≡◌, refl, arith, inl, inr,
}
use web3_lab_public.Program.{Program, bind, ensure, recover}
use web3_lab_public.Program.Silent.{
  IsSilent, project-IsSilent, bind-IsSilent, ensure-IsSilent, choice-IsSilent, recover-IsSilent,
}
use web3_lab_public.Program.Marks.{
  IsTidy, IsPrompt, bind-IsHolding, bind-IsTidy, ensure-IsHolding, silent-IsTidy, silent-IsPrompt,
  prompt-IsTidy,
}
use web3_lab_public.Dashboard.State.{
  MenuSection, deploy, mint, TokenType, token_name, TxResult, Dashboard, sub_of,
}
use web3_lab_public.Dashboard.Services.{Services}
use web3_lab_public.Dashboard.Transaction.{Action, Params, begin, end}
use web3_lab_public.Dashboard.Transaction.Programs.{
  program_of, execute_program, attempt_program, begin-loading, end-loading, begin-linking,
  end-linking,
}
use web3_lab_public.Dashboard.Identities.{session}
use web3_lab_public.Dashboard.Identities.Programs.{account_program, linking_program, link_program}
use web3_lab_public.Dashboard.Upload.Programs.{upload_program}
use web3_lab_public.Dashboard.Submit.{deploy_params, interact_params, section_action, has_artwork}
use web3_lab_public.Dashboard.Submit.Programs.{
  target_program, described_program, prepared_program, minted_program, artwork_program,
}
use web3_lab_public.Dashboard.Submit.Programs.Deployment.{followed_program, deploy_program}
use web3_lab_public.Dashboard.Submit.Programs.Whole.{
  interact_program, mint_program, section_program, submit_program,
}
use web3_lab_public.Dashboard.Threads.{marks, needs_no_artwork}
use web3_lab_public.Dashboard.Threads.Silent.Transaction.{attempt_program-IsSilent}
use web3_lab_public.Dashboard.Threads.Silent.Submit.{
  followed_program-IsSilent, target_program-IsSilent, prepared-IsSilent, described_program-IsSilent,
}
use web3_lab_public.Dashboard.Threads.Silent.Identities.{account_program-IsSilent}

abbrev pub loading : Dashboard → Bool
loading s = s.tx_loading

abbrev pub linking : Dashboard → Bool
linking s = s.linking_wallet

-- What leaves both marks alone leaves each alone.
pub loading-IsSilent :
    {A : Type 0} (p : Program Dashboard A) → IsSilent marks p → IsSilent loading p
loading-IsSilent p h = project-IsSilent marks (λ m. m.0) p h

pub linking-IsSilent :
    {A : Type 0} (p : Program Dashboard A) → IsSilent marks p → IsSilent linking p
linking-IsSilent p h = project-IsSilent marks (λ m. m.1) p h

module _ (env : Services) (view : Dashboard) where
  -- A transaction sets the mark of loading at its begin, and what may follow it leaves the mark
  -- alone.
  transacting-IsPrompt :
      {A : Type 0} (action : Action) (type : TokenType) (p : Params)
      (h : Option TxResult → Program Dashboard A)
      → ((o : Option TxResult) → IsSilent marks (h o))
      → IsPrompt loading (bind (execute_program env view action type p) h)
  unfolding execute_program IsPrompt bind
  transacting-IsPrompt {A} action type p h u = go (sub_of view.user_info)
    where
      go : (o : Option String) → IsPrompt loading (bind (program_of env view action type p o) h)
      go none = silent-IsPrompt loading (h none) (loading-IsSilent (h none) (u none))
      go (some sub) = inr (
        begin-loading env view action,
        bind-IsHolding loading (ensure (end env view) (attempt_program env view sub action type p))
            h
            (ensure-IsHolding loading (end env view) (attempt_program env view sub action type p)
              (end-loading env view)
              (loading-IsSilent (attempt_program env view sub action type p)
                (attempt_program-IsSilent env view sub action type p)))
            (λ o. loading-IsSilent (h o) (u o)),
      )

  -- It leaves the mark of a linking alone.
  transacting-IsSilent :
      {A : Type 0} (action : Action) (type : TokenType) (p : Params)
      (h : Option TxResult → Program Dashboard A)
      → ((o : Option TxResult) → IsSilent marks (h o))
      → IsSilent linking (bind (execute_program env view action type p) h)
  unfolding execute_program IsSilent bind
  transacting-IsSilent {A} action type p h u = go (sub_of view.user_info)
    where
      go : (o : Option String) → IsSilent linking (bind (program_of env view action type p o) h)
      go none = linking-IsSilent (h none) (u none)
      go (some sub) = (
        begin-linking env view action,
        bind-IsSilent linking (ensure (end env view) (attempt_program env view sub action type p)) h
            (ensure-IsSilent linking (end env view) (attempt_program env view sub action type p)
              (end-linking env view)
              (linking-IsSilent (attempt_program env view sub action type p)
                (attempt_program-IsSilent env view sub action type p)))
            (λ o. linking-IsSilent (h o) (u o)),
      )

  interact_program-IsPrompt : IsPrompt loading (interact_program env view)
  unfolding interact_program IsSilent
  interact_program-IsPrompt =
      transacting-IsPrompt (section_action view.active_section) view.active_token
        (interact_params view) _ (λ o. tt)

  deploy_program-IsPrompt : IsPrompt loading (deploy_program env view)
  unfolding deploy_program
  deploy_program-IsPrompt =
      transacting-IsPrompt Action.deploy_contract view.active_token (deploy_params view)
        (followed_program env view) (followed_program-IsSilent env view)

  -- A submission that prepares no artwork sets the mark of loading at once.
  pub submit_program-IsPrompt :
      needs_no_artwork env view.active_section view ≡ true
      → IsPrompt loading (submit_program env view)
  unfolding submit_program
  submit_program-IsPrompt h = go view.active_section h
    where
      go :
          (m : MenuSection)
          → needs_no_artwork env m view ≡ true
          → IsPrompt loading (section_program env view m)
      go deploy e = deploy_program-IsPrompt
      go mint e =
          let none_chosen : has_artwork env view ≡ false = ground (arith, e) in
          rw none_chosen interact_program-IsPrompt
      go _ e = interact_program-IsPrompt

  artwork_program-IsTidy : IsTidy loading (artwork_program env view)
  unfolding artwork_program IsSilent
  artwork_program-IsTidy =
      bind-IsTidy loading (target_program env view view.active_token) _
        (loading-IsSilent (target_program env view view.active_token)
          (target_program-IsSilent env view view.active_token))
        (λ id.
          bind-IsTidy loading
            (upload_program env view (token_name view.active_token) view.interact_token_address id)
            _
            (loading-IsSilent
              (upload_program env view (token_name view.active_token) view.interact_token_address
                id)
              (prepared-IsSilent env view id))
            (λ o.
              bind-IsTidy loading (described_program env view id o) _
                (loading-IsSilent (described_program env view id o)
                  (described_program-IsSilent env view id o))
                (λ _. prompt-IsTidy loading (minted_program env view) (
                  transacting-IsPrompt Action.mint view.active_token (interact_params view) _
                    (λ x. tt)))))

  pub submit_program-IsTidy : IsTidy loading (submit_program env view)
  unfolding submit_program
  submit_program-IsTidy = go view.active_section
    where
      minting : (b : Bool) → IsTidy loading (mint_program env view b)
      minting true = artwork_program-IsTidy
      minting false = prompt-IsTidy loading (interact_program env view) interact_program-IsPrompt

      go : (m : MenuSection) → IsTidy loading (section_program env view m)
      go deploy = prompt-IsTidy loading (deploy_program env view) deploy_program-IsPrompt
      go mint = minting (has_artwork env view)
      go _ = prompt-IsTidy loading (interact_program env view) interact_program-IsPrompt

  artwork_program-IsSilent : IsSilent linking (artwork_program env view)
  unfolding artwork_program IsSilent
  artwork_program-IsSilent =
      bind-IsSilent linking (target_program env view view.active_token) _
        (linking-IsSilent (target_program env view view.active_token)
          (target_program-IsSilent env view view.active_token))
        (λ id.
          bind-IsSilent linking
            (upload_program env view (token_name view.active_token) view.interact_token_address id)
            _
            (linking-IsSilent
              (upload_program env view (token_name view.active_token) view.interact_token_address
                id)
              (prepared-IsSilent env view id))
            (λ o.
              bind-IsSilent linking (described_program env view id o) _
                (linking-IsSilent (described_program env view id o)
                  (described_program-IsSilent env view id o))
                (λ _.
                  transacting-IsSilent Action.mint view.active_token (interact_params view) _
                    (λ x. tt))))

  pub submit_program-IsSilent : IsSilent linking (submit_program env view)
  unfolding submit_program deploy_program interact_program IsSilent
  submit_program-IsSilent = go view.active_section
    where
      interacting : IsSilent linking (interact_program env view)
      interacting =
          transacting-IsSilent (section_action view.active_section) view.active_token
            (interact_params view) _ (λ o. tt)

      go : (m : MenuSection) → IsSilent linking (section_program env view m)
      go deploy =
          transacting-IsSilent Action.deploy_contract view.active_token (deploy_params view)
            (followed_program env view) (followed_program-IsSilent env view)
      go mint =
          choice-IsSilent linking (has_artwork env view) (artwork_program env view) _
            artwork_program-IsSilent interacting
      go _ = interacting
