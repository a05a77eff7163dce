-- ===== src/Dashboard/Widgets.antt =====
-- The elements that the views of DashboardPage.tsx draw, with the styles left out: texts, copyable
-- fields, inputs, selects, the hidden inputs for a file, which have no `disabled`, and buttons with
-- the handler that a click runs. The drop zone is drawn as a button; it is never disabled.
use web3_lab_public.Prelude.{String, Bool, List}
use web3_lab_public.Dashboard.State.{MenuSection, TokenType}

pub data Handler : Type 0 where
  do_logout do_copy_address do_switch_wallet do_link_wallet do_dismiss_link_error : Handler
  do_toggle_token do_copy_token do_copy_scw do_copy_tx do_copy_contract : Handler
  do_submit do_max do_clear_upload do_choose_file : Handler
  do_unlink do_navigate : String → Handler
  do_section : MenuSection → Handler
  do_token : TokenType → Handler

pub data Widget : Type 0 where
  text : String → Widget
  image : String → Widget
  spinner : Widget
  field : (label value : String) → Widget
  button : (label : String) (disabled : Bool) → Handler → Widget
  input : (label value : String) (disabled : Bool) → Widget
  file_input : Widget
  select : (label value : String) (options : List (String × String)) (disabled : Bool) → Widget
