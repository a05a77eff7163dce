-- ===== src/Examples/Assets.antt =====
-- The portfolio and the menu of a field.
use web3_lab_public.Prelude.{
  false, true, none, some, ◌≡◌, ◌≢◌, ◌↔◌, refl, map, find, filter, head?, All, arith, eq_iff,
}
use web3_lab_public.Text.{is_hex_number, remove_first, split, print}
use web3_lab_public.Browser.{ok}
use web3_lab_public.Dashboard.State.{Dashboard, erc1155, erc721, tx, address}
use web3_lab_public.Dashboard.Portfolio.{fetch_portfolio, filtered_portfolio, select_default}
use web3_lab_public.Dashboard.Portfolio.Fetching.{
  address_of, answered_addresses, wire_balances, fetch_portfolio-addresses,
}
use web3_lab_public.Dashboard.Portfolio.StaleWarning.{due_warning, EndsWith, pick_token-warning}
use web3_lab_public.Dashboard.View.Interact.{amount_part}
use web3_lab_public.Dashboard.Edits.{Edit, apply}
use web3_lab_public.Dashboard.Forms.{change_amount}
use web3_lab_public.Dashboard.Portfolio.StaleId.{HasNoId, stale_id-custom}
use web3_lab_public.Dashboard.Forms.{asset_select_value, asset_option_value, change_asset, id_or}
use web3_lab_public.Dashboard.Forms.Assets.{is_same, change_asset-option}
use web3_lab_public.Dashboard.ContextMenu.{detect_context_type}
use web3_lab_public.Dashboard.ContextMenu.Laws.{detect_context_type_iff}
use web3_lab_public.Examples.Data.{services, view, world, balance}

fetch_portfolio-addresses_example :
    ((fetch_portfolio (services 3) "0xscw" world).0 ≡ ok tt)
    × ((fetch_portfolio (services 3) "0xscw" world).1.state.portfolio_loading ≡ false)
    × ((fetch_portfolio (services 3) "0xscw" world).1.storage ≡ world.storage)
    × (map address_of (fetch_portfolio (services 3) "0xscw" world).1.state.portfolio
        ≡ answered_addresses
            (services 3)
            ((services 3).token_balances world.trace (wire_balances (services 3) "0xscw"))
            (map address_of world.state.portfolio))
fetch_portfolio-addresses_example = fetch_portfolio-addresses (services 3) "0xscw" world

-- The id of an NFT is left in the form.
abbrev stale : Dashboard
stale = record view { interact_token_id = "7" }

stale-head : head? (filtered_portfolio stale) ≡ some balance
unfolding filtered_portfolio filter remove_first
stale-head = refl

stale-HasNoId : All HasNoId (filtered_portfolio stale)
unfolding filtered_portfolio filter remove_first
stale-HasNoId = (refl, tt)

stale_id-custom_example :
    ((select_default stale).selected_asset ≡ some balance)
    × ((select_default stale).interact_token_address ≡ "0xtoken")
    × (asset_select_value (select_default stale) ≡ "custom")
stale_id-custom_example =
    stale_id-custom stale balance tt stale-head stale-HasNoId (ground (arith, eq_iff "7" ""))
      (ground (arith, eq_iff "7" "0"))

view-head : head? (filtered_portfolio view) ≡ some balance
unfolding filtered_portfolio filter remove_first
view-head = refl

view-HasNoId : All HasNoId (filtered_portfolio view)
unfolding filtered_portfolio filter remove_first
view-HasNoId = (refl, tt)

balance-first : find (is_same balance) view.portfolio ≡ some balance
unfolding find
balance-first = refl

change_asset-option_example : change_asset (asset_option_value balance) view ≡ record view {
  selected_asset = some balance;
  interact_token_address = "0xtoken";
  interact_amount = "";
  amount_error = none;
  interact_token_id = id_or none "0";
}
change_asset-option_example = change_asset-option balance refl refl view balance-first

detect_context_type_iff_example :
    ((detect_context_type "0x12" ≡ tx) ↔ (is_hex_number 64 "0x12" ≡ true))
    × ((detect_context_type "0x12" ≡ address) ↔ (is_hex_number 40 "0x12" ≡ true))
detect_context_type_iff_example = detect_context_type_iff "0x12"

-- A form whose amount has too many places.
abbrev warned : Dashboard
warned = change_amount "1.2345678" view

other_type : erc1155 ≢ erc721
other_type = ground arith

pick_token-warning_example :
    let u = select_default (apply (λ v d. v) (Edit.pick_token erc1155) warned) in
    (u.interact_amount ≡ "")
    × (due_warning u ≡ none)
    × EndsWith (amount_part (λ v d. v) (λ v. v) u) "Warning: Only 6 decimal places allowed."
unfolding change_amount split print
pick_token-warning_example =
    pick_token-warning (λ v d. v) (λ v. v) view "1.2345678"
      "Warning: Only 6 decimal places allowed." erc1155 other_type refl
