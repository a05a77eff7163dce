-- ===== src/Dashboard/Machine/Frames.antt =====
-- What the steps of the dashboard's machine leave alone.
use web3_lab_public.Prelude.{String, false, Option, none, ◌≡◌, refl, arith, ap, ◌∙◌, ◌⊎◌, inl, inr}
use web3_lab_public.Prelude.Dict
use web3_lab_public.Prelude.Dict.{Dict}
use web3_lab_public.Browser.{ok, World}
use web3_lab_public.Dashboard.State.{Dashboard, initial}
use web3_lab_public.Dashboard.Services.{Services}
use web3_lab_public.Dashboard.Account.{
  logout, switch_wallet, copy_address, copy_token, copy_scw, copy_tx, copy_contract, wallet_of,
}
use web3_lab_public.Dashboard.Identities.Laws.{unlisted, link_wallet_settles, link_wallet-unlisted}
use web3_lab_public.Dashboard.Identities.Unlinking.{unlink_identity-unlisted}
use web3_lab_public.Dashboard.Marks.{IsCalm, IsKept}
use web3_lab_public.Dashboard.Edits.Laws.{vital, apply-vital, apply-AgreesWithAsset}
use web3_lab_public.Dashboard.Forms.Choosing.{AgreesWithAsset}
use web3_lab_public.Dashboard.Portfolio.Selection.{
  select_default-AgreesWithAsset, select_default-formless,
}
use web3_lab_public.Dashboard.Submit.{handle_submit}
use web3_lab_public.Dashboard.Submit.Frame.{handle_submit-IsSubmission}
use web3_lab_public.Dashboard.Submit.Calm.{handle_submit-IsCalm}
use web3_lab_public.Dashboard.Submit.Icon.{on_tx_result-unuploaded}
use web3_lab_public.Dashboard.ContextMenu.{click_item, click_copy}
use web3_lab_public.Session
use web3_lab_public.Session.{Wallet, copy_present, copy_flagged}
use web3_lab_public.Session.Laws.{logout-storage, switch_wallet-storage}
use web3_lab_public.Dashboard.Machine.{Step}

-- The session's token that the storage holds.
abbrev pub stored : World Dashboard → Option String
stored w = Dict.lookup "access_token" w.storage

-- The part of the page that is bound at its opening or is reset by each handler that sets it.
abbrev pub bound : Dashboard → Dashboard
bound s = record initial {
  token = s.token;
  identities_loading = s.identities_loading;
  linking_wallet = s.linking_wallet;
  portfolio_loading = s.portfolio_loading;
}

-- No linking and no reading of the identities is running.
pub record IsQuiet (w : World Dashboard) : Type 0 where
  pub identities_off : w.state.identities_loading ≡ false
  pub linking_off : w.state.linking_wallet ≡ false

pub record IsFramed (w v : World Dashboard) : Type 0 where
  pub bound_kept : bound v.state ≡ bound w.state
  pub calm_kept : IsCalm w.state → IsCalm v.state
  pub asset_kept : AgreesWithAsset w.state → AgreesWithAsset v.state
  pub session_kept : (stored v ≡ none) ⊎ (stored v ≡ stored w)

-- A step that keeps the vital part of the page.
vital-IsFramed :
    (w v : World Dashboard)
    → vital v.state ≡ vital w.state
    → (AgreesWithAsset w.state → AgreesWithAsset v.state)
    → (stored v ≡ none) ⊎ (stored v ≡ stored w)
    → IsFramed w v
vital-IsFramed w v k c q = record {
  bound_kept = ap bound k;
  calm_kept = λ h. record {
    loading_off = ap (λ d. d.tx_loading) k ∙ h.loading_off;
    exclusive = ground (arith, h.exclusive, k);
  };
  asset_kept = c;
  session_kept = q;
}

-- A step that keeps the vital part, the form and the storage.
still-IsFramed :
    (w v : World Dashboard)
    → vital v.state ≡ vital w.state
    → v.state.selected_asset ≡ w.state.selected_asset
    → v.state.interact_token_address ≡ w.state.interact_token_address
    → v.storage ≡ w.storage
    → IsFramed w v
still-IsFramed w v k a b q =
    vital-IsFramed w v k (λ c. ground (arith, c, a, b)) (inr (ap (Dict.lookup "access_token") q))

-- The state without the marks of the copy buttons and the menu.
abbrev unmarked : Dashboard → Dashboard
unmarked s = record s {
  tx_copied = false;
  scw_copied = false;
  contract_addr_copied = false;
  token_copied = false;
  address_copied = false;
  context_menu = none;
}

copied-IsFramed : (w v : World Dashboard) → IsKept unmarked w (ok tt, v) → IsFramed w v
copied-IsFramed w v p =
    let k = p.state_kept in
    still-IsFramed w v (ap vital k) (ap (λ d. d.selected_asset) k)
      (ap (λ d. d.interact_token_address) k) p.storage_kept

module _ (env : Services) where
  submit-IsFramed : (w : World Dashboard) → IsFramed w (handle_submit env w.state w).1
  submit-IsFramed w =
      let p = handle_submit-IsSubmission env w.state w in
      record {
        bound_kept = ap bound p.state_kept;
        calm_kept = handle_submit-IsCalm env w.state w;
        asset_kept = λ c. ground (arith, c, p.state_kept);
        session_kept = inr (ap (Dict.lookup "access_token") p.storage_kept);
      }

  -- A step that changes only the list of identities and its error.
  unlisted-IsFramed :
      (w v : World Dashboard)
      → unlisted v.state ≡ unlisted w.state
      → v.storage ≡ w.storage
      → IsFramed w v
  unlisted-IsFramed w v k q =
      still-IsFramed w v (ap vital k) (ap (λ d. d.selected_asset) k)
        (ap (λ d. d.interact_token_address) k) q

  logout-IsFramed :
      (encode : String → String) (w : World Dashboard) → IsFramed w (logout env encode w.state w).1
  unfolding logout
  logout-IsFramed encode w =
      let all =
        logout-storage env.urls (wallet_of env encode) w.state.wallet_address w "access_token" in
      vital-IsFramed w _ (ap vital all.1) (λ c. ground (arith, c, all.1)) (inl all.2)

  set_status : Option String → Dashboard → Dashboard
  set_status status d = record d { switch_status = status }

  switch-state :
      (api : Wallet) (address : Option String) (w : World Dashboard)
      → set_status none (Session.switch_wallet env.urls api set_status address w).1.state
        ≡ set_status none w.state
  unfolding Session.switch_wallet set_status
  switch-state api address w = ground arith

  switch-IsFramed :
      (encode : String → String) (w : World Dashboard)
      → IsFramed w (switch_wallet env encode w.state w).1
  unfolding switch_wallet set_status
  switch-IsFramed encode w =
      let api = wallet_of env encode in
      let all =
        switch_wallet-storage env.urls api set_status w.state.wallet_address w "access_token" in
      let k = switch-state api w.state.wallet_address w in
      vital-IsFramed w _ (ap vital k) (λ c. ground (arith, c, k)) (ground (arith, all.1))

  -- What a step leaves alone while no linking and no reading is running.
  pub Step-IsFramed :
      (encode : String → String) (w v : World Dashboard)
      → Step env encode w v
      → IsQuiet w
      → IsFramed w v
  unfolding click_item click_copy copy_address copy_token copy_scw copy_tx copy_contract
      copy_present copy_flagged
  Step-IsFramed encode w v (Step.edit e) q =
      vital-IsFramed w v (apply-vital env.format_units e w.state)
        (apply-AgreesWithAsset env.format_units e w.state) (inr refl)
  Step-IsFramed encode w v Step.select_asset q =
      vital-IsFramed w v (ap vital (select_default-formless w.state))
        (select_default-AgreesWithAsset w.state) (inr refl)
  Step-IsFramed encode w v Step.show_result q =
      let p = on_tx_result-unuploaded env w.state w in
      let k = p.state_kept in
      still-IsFramed w v (ap vital k) (ap (λ d. d.selected_asset) k)
        (ap (λ d. d.interact_token_address) k) p.storage_kept
  Step-IsFramed encode w v (Step.submit _) q = submit-IsFramed w
  Step-IsFramed encode w v (Step.link _) q =
      unlisted-IsFramed w v (link_wallet-unlisted env w.state w q.linking_off q.identities_off)
        (link_wallet_settles env w.state w q.linking_off).2
  Step-IsFramed encode w v (Step.unlink id) q =
      let all = unlink_identity-unlisted env w.state id w q.identities_off in
      unlisted-IsFramed w v all.0 all.1
  Step-IsFramed encode w v (Step.click_menu_item m item _) q =
      still-IsFramed w v refl refl refl refl
  Step-IsFramed encode w v (Step.click_menu_copy m _) q = copied-IsFramed w v (ground arith)
  Step-IsFramed encode w v Step.copy q = copied-IsFramed w v (ground arith)
  Step-IsFramed encode w v Step.copy_session q = copied-IsFramed w v (ground arith)
  Step-IsFramed encode w v (Step.copy_wallet text) q = copied-IsFramed w v (ground arith)
  Step-IsFramed encode w v (Step.copy_hash text) q = copied-IsFramed w v (ground arith)
  Step-IsFramed encode w v (Step.copy_deployed text) q = copied-IsFramed w v (ground arith)
  Step-IsFramed encode w v Step.switch q = switch-IsFramed encode w
  Step-IsFramed encode w v Step.sign_out q = logout-IsFramed encode w
