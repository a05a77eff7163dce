-- ===== src/Dashboard/Edits.antt =====
-- The events of DashboardPage.tsx that only change the page's state: the `onChange` and `onClick`
-- of the inputs and selects, the reader of a chosen file, the menu, and the timers.
pub mod Laws
use web3_lab_public.Prelude.{ℕ, String, Bool, not, Option, none}
use web3_lab_public.Browser.{Later}
use web3_lab_public.Dashboard.State.{MenuSection, TokenType, Number, File, Dashboard}
use web3_lab_public.Dashboard.Upload.{handle_file_select, set_preview, clear_upload}
use web3_lab_public.Dashboard.Forms.{
  change_asset, change_token_address, change_recipient, change_amount, set_max,
}
use web3_lab_public.Dashboard.ContextMenu.{handle_field_context_menu, on_mouse_down}
use web3_lab_public.Dashboard.Account.{fire}

pub data Edit : Type 0 where
  open_section : MenuSection → Edit
  pick_token : TokenType → Edit
  name_contract name_symbol type_supply type_decimals : String → Edit
  choose_file : File → Edit
  read_file : Option String → Edit
  drop_file : Edit
  choose_asset type_address choose_recipient type_recipient type_amount : String → Edit
  take_max : Edit
  type_token_id name_nft describe_nft : String → Edit
  toggle_token dismiss_link_error : Edit
  open_menu : (x y : ℕ) → String → Edit
  press_mouse : (inside : Bool) → Edit
  timer : Later → Edit

unfoldable pub apply : (String → Number → String) → Edit → Dashboard → Dashboard
apply format_units (open_section section) s = record s { active_section = section }
apply format_units (pick_token type) s = record s { active_token = type }
apply format_units (name_contract name) s = record s { deploy_name = name }
apply format_units (name_symbol symbol) s = record s { deploy_symbol = symbol }
apply format_units (type_supply supply) s = record s { deploy_initial_supply = supply }
apply format_units (type_decimals decimals) s = record s { deploy_decimals = decimals }
apply format_units (choose_file file) s = handle_file_select file s
apply format_units (read_file url) s = set_preview url s
apply format_units drop_file s = clear_upload s
apply format_units (choose_asset value) s = change_asset value s
apply format_units (type_address value) s = change_token_address value s
apply format_units (choose_recipient value) s = change_recipient value s
apply format_units (type_recipient value) s = record s { interact_to = value }
apply format_units (type_amount value) s = change_amount value s
apply format_units take_max s = set_max format_units s
apply format_units (type_token_id id) s = record s { interact_token_id = id }
apply format_units (name_nft name) s = record s { nft_name = name }
apply format_units (describe_nft text) s = record s { nft_description = text }
apply format_units toggle_token s = record s { show_token = not s.show_token }
apply format_units dismiss_link_error s = record s { link_error = none }
apply format_units (open_menu x y value) s = handle_field_context_menu x y value s
apply format_units (press_mouse inside) s = on_mouse_down inside s
apply format_units (timer later) s = fire later s
