-- ===== src/Dashboard/Edits/Laws.antt =====
-- What the events of the inputs leave alone.
use web3_lab_public.Prelude.{String, ◌≡◌, ap, arith}
use web3_lab_public.Dashboard.State.{Number, Dashboard, initial}
use web3_lab_public.Dashboard.Edits.{Edit, apply, choose_asset}
use web3_lab_public.Dashboard.Forms.{change_token_address, change_recipient, change_amount, set_max}
use web3_lab_public.Dashboard.Forms.Choosing.{
  AgreesWithAsset, change_asset-AgreesWithAsset, change_asset-formless,
}
use web3_lab_public.Dashboard.Upload.{handle_file_select, set_preview, clear_upload}
use web3_lab_public.Dashboard.ContextMenu.{handle_field_context_menu, on_mouse_down}
use web3_lab_public.Dashboard.Account.{fire}

-- What decides whether the page may send, and what it is bound to.
abbrev pub vital : Dashboard → Dashboard
vital s = record initial {
  token = s.token;
  tx_loading = s.tx_loading;
  tx_result = s.tx_result;
  error = s.error;
  identities_loading = s.identities_loading;
  linking_wallet = s.linking_wallet;
  portfolio_loading = s.portfolio_loading;
}

module _ (format_units : String → Number → String) where
  pub apply-vital : (e : Edit) (s : Dashboard) → vital (apply format_units e s) ≡ vital s
  unfolding apply change_token_address change_recipient change_amount set_max handle_file_select
      set_preview clear_upload handle_field_context_menu on_mouse_down fire
  apply-vital (choose_asset value) s = ap vital (change_asset-formless value s)
  apply-vital _ s = ground arith

  pub apply-AgreesWithAsset :
      (e : Edit) (s : Dashboard) → AgreesWithAsset s → AgreesWithAsset (apply format_units e s)
  unfolding apply change_token_address change_recipient change_amount set_max handle_file_select
      set_preview clear_upload handle_field_context_menu on_mouse_down fire
  apply-AgreesWithAsset (choose_asset value) s c = change_asset-AgreesWithAsset value s c
  apply-AgreesWithAsset _ s c = ground arith
