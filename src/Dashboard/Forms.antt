-- ===== src/Dashboard/Forms.antt =====
-- The forms of DashboardPage.tsx: what the inputs and selects of the mint and transfer sections
-- show, and what their `onChange` and `onClick` do to the state.
pub mod Laws
pub mod Assets
pub mod Amounts
pub mod Choosing
use web3_lab_public.Prelude.{
  ℕ, String, Bool, true, false, not, ◌&&◌, ◌||◌, List, Option, none, some, ◌<>◌, ◌==◌, is_present,
  is_truthy, option_or, if◌then◌else◌, any, find, filter, head?, ltb,
}
use web3_lab_public.Text.{split, second?, length_of, print}
use web3_lab_public.Dashboard.State.{
  MenuSection, deploy, transfer, Number, nat, nan, TokenBalance, LinkedIdentity, Dashboard,
}
use web3_lab_public.Dashboard.Portfolio.{filtered_portfolio}

-- `x || ''`
abbrev pub or_empty : Option String → String
or_empty o = option_or o ""

abbrev pub has_id : Option String → Bool
has_id none = false
has_id (some _) = true

-- `p.id` is kept where it is not `undefined`, an empty one too.
abbrev pub id_or : Option String → String → String
id_or none other = other
id_or (some id) other = id

-- The asset that the select shows as chosen.
abbrev pub is_shown : Dashboard → TokenBalance → Bool
is_shown s p =
    p.address == s.interact_token_address
    && or_empty p.id
      == (if s.interact_token_id == "0" && not (is_present p.id) then "" else s.interact_token_id)

-- The `value` that the select of assets is given. Where it is no option's, a browser shows the first
-- enabled option, which is not modelled.
unfoldable pub asset_select_value : Dashboard → String
asset_select_value s =
    if any (is_shown s) (filtered_portfolio s)
    then s.interact_token_address <> "_" <> s.interact_token_id
    else "custom"

-- The `value` of an option of the select.
abbrev pub asset_option_value : TokenBalance → String
asset_option_value p = p.address <> "_" <> or_empty p.id

abbrev pub names_asset : List String → TokenBalance → Bool
names_asset parts p =
    (elim (head? parts) [ none ↦ false | some addr ↦ p.address == addr ])
    && or_empty p.id == or_empty (second? parts)

choose : Option TokenBalance → Dashboard → Dashboard
choose none s = s
choose (some asset) s = record s {
  selected_asset = some asset;
  interact_token_address = asset.address;
  interact_amount = "";
  amount_error = none;
  interact_token_id = id_or asset.id s.interact_token_id;
}

-- `onChange` of the select of assets.
unfoldable pub change_asset : String → Dashboard → Dashboard
unfolding choose
change_asset value s =
    if value == "custom"
    then record s {
      selected_asset = none;
      interact_token_address = "";
      interact_amount = "";
      amount_error = none;
    }
    else choose (find (names_asset (split b'_' value)) s.portfolio) s

-- The field for a token's address is shown for an address that is not of the listed assets.
unfoldable pub shows_address_field : Dashboard → Bool
shows_address_field s =
    not (is_truthy s.interact_token_address)
    || not (any (λ p. p.address == s.interact_token_address) (filtered_portfolio s))

unfoldable pub change_token_address : String → Dashboard → Dashboard
change_token_address value s = record s { interact_token_address = value; selected_asset = none }

abbrev pub is_scw : String → LinkedIdentity → Bool
is_scw to i = elim i.scw_address [ none ↦ false | some a ↦ a == to ]

-- `linkedIdentities.some(id => id.scw_address === interactTo)`
abbrev pub is_linked : Dashboard → Bool
is_linked s = any (is_scw s.interact_to) s.linked_identities

-- The `value` of the select of recipients.
unfoldable pub recipient_select_value : Dashboard → String
recipient_select_value s =
    if is_linked s then s.interact_to else if s.interact_to == "" then "self" else "custom"

unfoldable pub change_recipient : String → Dashboard → Dashboard
change_recipient value s =
    if value == "custom"
    then record s { interact_to = "custom" }
    else if value == "self"
    then record s { interact_to = "" }
    else record s { interact_to = value }

-- The linked wallets that are offered as recipients: not the page's own.
abbrev is_other_wallet : Option String → LinkedIdentity → Bool
is_other_wallet own i =
    is_present i.scw_address && not (elim own [ none ↦ false | some a ↦ is_scw a i ])

unfoldable pub recipient_options : Dashboard → List LinkedIdentity
recipient_options s = filter (is_other_wallet s.smart_wallet_address) s.linked_identities

unfoldable pub shows_recipient_field : Dashboard → Bool
shows_recipient_field s = not (is_linked s) && not (s.interact_to == "")

-- `parts[1].length > decimals`, false for NaN
abbrev pub exceeds : ℕ → Number → Bool
exceeds n (nat d) = ltb d n
exceeds n nan = false

abbrev pub number_text : Number → String
number_text (nat d) = print d
number_text nan = "NaN"

abbrev too_precise : String → Number → Bool
too_precise value decimals = elim (second? (split b'.' value)) [
  | none ↦ false
  | some fraction ↦ exceeds (length_of fraction) decimals
]

-- The warning for an amount with more places than the selected asset has.
unfoldable pub amount_warning : MenuSection → Option TokenBalance → String → Option String
amount_warning transfer (some asset) value =
    if is_truthy value && too_precise value asset.decimals
    then some ("Warning: Only " <> number_text asset.decimals <> " decimal places allowed.")
    else none
amount_warning _ _ _ = none

-- `onChange` of the amount.
unfoldable pub change_amount : String → Dashboard → Dashboard
unfolding amount_warning
change_amount value s = record s {
  interact_amount = value;
  amount_error = amount_warning s.active_section s.selected_asset value;
}

-- `onClick` of MAX, which is shown while an asset is selected for a transfer.
unfoldable pub set_max : (String → Number → String) → Dashboard → Dashboard
set_max format_units s = elim s.selected_asset [
  | none ↦ s
  | some asset ↦ record s {
    interact_amount = format_units asset.balance_raw asset.decimals;
    amount_error = none;
  }
]

abbrev pub is_missing : String → Bool
is_missing s = not (is_truthy s)

-- The fields that a section wants before it can be submitted.
abbrev pub lacks_input : MenuSection → Dashboard → Bool
lacks_input deploy s = is_missing s.deploy_name || is_missing s.deploy_symbol
lacks_input _ s =
    is_missing s.interact_token_address
    || s.interact_token_address == "custom"
    || s.interact_to == "custom"

-- `disabled` of the submit button.
unfoldable pub submit_disabled : Dashboard → Bool
submit_disabled s =
    not (is_present s.smart_wallet_address) || s.tx_loading || lacks_input s.active_section s
