-- ===== src/Dashboard/Machine.antt =====
-- DashboardPage.tsx as a machine: the page after its first effect, and the steps that the user, the
-- effects of React and the timers take. A handler runs whole in one step, from the state of the
-- last render.
pub mod Frames
pub mod Soundness
use web3_lab_public.Prelude.{String, Bool, false, [], Option, none, some, ◌≡◌}
use web3_lab_public.Prelude.Dict.{Dict}
use web3_lab_public.Browser.{World}
use web3_lab_public.Dashboard.State.{ContextMenu, Dashboard, initial}
use web3_lab_public.Dashboard.ContextMenu.{MenuItem, click_item, click_copy}
use web3_lab_public.Dashboard.Services.{Services}
use web3_lab_public.Dashboard.Portfolio.{on_mount, select_default}
use web3_lab_public.Dashboard.Identities.{link_wallet, unlink_identity}
use web3_lab_public.Dashboard.Submit.{handle_submit, on_tx_result}
use web3_lab_public.Dashboard.Forms.{submit_disabled}
use web3_lab_public.Dashboard.Edits.{Edit, apply}
use web3_lab_public.Dashboard.Account.{
  logout, switch_wallet, copy_address, copy_token, copy_scw, copy_tx, copy_contract,
}

-- The page on a storage, after the effect of its first render.
abbrev pub opened : Services → Dict → World Dashboard
opened env storage = (on_mount env (record { state = initial; storage = storage; trace = [] })).1

pub data Step (env : Services) (encode : String → String) (w : World Dashboard)
    : World Dashboard → Type 0 where
  edit : (e : Edit) → Step env encode w (record w { state = apply env.format_units e w.state })
  select_asset : Step env encode w (record w { state = select_default w.state })
  show_result : Step env encode w (on_tx_result env w.state w).1
  submit : submit_disabled w.state ≡ false → Step env encode w (handle_submit env w.state w).1
  link : w.state.linking_wallet ≡ false → Step env encode w (link_wallet env w.state w).1
  unlink : (identity_id : String) → Step env encode w (unlink_identity env w.state identity_id w).1
  click_menu_item :
      (m : ContextMenu) (item : MenuItem)
      → w.state.context_menu ≡ some m
      → Step env encode w (click_item env.urls.blockscout m item w).1
  click_menu_copy :
      (m : ContextMenu) → w.state.context_menu ≡ some m → Step env encode w (click_copy m w).1
  copy : Step env encode w (copy_address w.state none w).1
  copy_session : Step env encode w (copy_token w.state w).1
  copy_wallet : (address : String) → Step env encode w (copy_scw address w).1
  copy_hash : (hash : String) → Step env encode w (copy_tx hash w).1
  copy_deployed : (address : String) → Step env encode w (copy_contract address w).1
  switch : Step env encode w (switch_wallet env encode w.state w).1
  sign_out : Step env encode w (logout env encode w.state w).1

pub data Reach (env : Services) (encode : String → String) (storage : Dict)
    : World Dashboard → Type 0 where
  start : Reach env encode storage (opened env storage)
  later :
      {v w : World Dashboard}
      → Reach env encode storage v
      → Step env encode v w
      → Reach env encode storage w
