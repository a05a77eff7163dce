-- ===== src/Dashboard/View/Interact.antt =====
-- The forms of the toolchain sections of DashboardPage.tsx: deploy, and mint or transfer.
use web3_lab_public.Prelude.{
  String, Bool, true, false, not, ◌&&◌, ◌||◌, List, [], ◌∷◌, ◌++◌, Option, none, some, ◌<>◌, ◌==◌,
  is_present, if◌then◌else◌, map,
}
use web3_lab_public.Text.{slice_to, slice_last}
use web3_lab_public.Dashboard.State.{
  MenuSection, deploy, mint, transfer, TokenType, erc20, erc721, token_name, Number, TokenBalance,
  LinkedIdentity, File, UploadProgress, idle, uploading, done, error, Dashboard,
}
use web3_lab_public.Dashboard.Portfolio.{filtered_portfolio}
use web3_lab_public.Dashboard.Forms.{
  or_empty, number_text, asset_select_value, asset_option_value, shows_address_field,
  recipient_select_value, recipient_options, shows_recipient_field, submit_disabled,
}
use web3_lab_public.Dashboard.View.Profile.{shown, shown_text, provider_title}
use web3_lab_public.Dashboard.Widgets.{
  Widget, text, image, spinner, button, input, file_input, select, do_submit, do_max,
  do_clear_upload, do_choose_file,
}

abbrev pub is_transfer : MenuSection → Bool
is_transfer transfer = true
is_transfer _ = false

abbrev pub is_minting : MenuSection → Bool
is_minting mint = true
is_minting _ = false

abbrev pub is_erc20 : TokenType → Bool
is_erc20 erc20 = true
is_erc20 _ = false

abbrev pub is_erc721 : TokenType → Bool
is_erc721 erc721 = true
is_erc721 _ = false

-- The texts beside the preview of the chosen file; the uploading, done and failed marks differ in
-- the two forms.
abbrev progress_marks : (busy finished failed : List Widget) → UploadProgress → List Widget
progress_marks busy finished failed idle = []
progress_marks busy finished failed uploading = busy
progress_marks busy finished failed done = finished
progress_marks busy finished failed error = failed

abbrev file_name : Option File → String
file_name none = ""
file_name (some f) = f.name

-- The drop zone, or the preview with the button that clears it. The size in KB is left out.
abbrev upload_zone : List Widget → (busy finished failed : List Widget) → Dashboard → List Widget
upload_zone prompt busy finished failed s =
    if is_present s.upload_preview
    then image (or_empty s.upload_preview)
        ∷ text (file_name s.upload_file)
        ∷ progress_marks busy finished failed s.upload_progress
      ++ button "✕" s.tx_loading do_clear_upload ∷ []
    else prompt

unfoldable pub icon_zone : Dashboard → List Widget
icon_zone s =
    text "Token Icon"
    ∷ file_input
    ∷ upload_zone (button "Click or drag token icon here" false do_choose_file ∷ []) (spinner ∷ [])
        (text "✓" ∷ []) (text "✗" ∷ []) s

-- The supply and the decimals are asked for an ERC-20 token only, and so is an icon.
unfoldable pub deploy_form : Dashboard → List Widget
unfolding icon_zone
deploy_form s =
    input "Token Name" s.deploy_name s.tx_loading
    ∷ input "Token Symbol" s.deploy_symbol s.tx_loading
    ∷ shown (is_erc20 s.active_token) (
        input "Mint Amount (Initial Supply)" s.deploy_initial_supply s.tx_loading
        ∷ input "Decimals (Precision)" s.deploy_decimals s.tx_loading
        ∷ icon_zone s)

module _ (format_units : String → Number → String) (display : String → String) where
  -- `id ? `| ID: ${id} ` : ''`
  abbrev id_label : Option String → String
  id_label id = if is_present id then "| ID: " <> or_empty id <> " " else ""

  abbrev owned_label : MenuSection → TokenBalance → String
  owned_label section p = if is_minting section && p.is_owner then "⭐ Owned" else ""

  -- An option of the select of assets: its value and its text. `display` shortens a long balance.
  pub asset_option : MenuSection → TokenBalance → String × String
  asset_option section p = (
    asset_option_value p,
    p.name
        <> " ("
        <> p.symbol
        <> ") "
        <> id_label p.id
        <> "— Bal: "
        <> display (format_units p.balance_raw p.decimals)
        <> " "
        <> owned_label section p,
  )

  unfoldable pub asset_part : Dashboard → List Widget
  unfolding asset_option
  asset_part s =
      (if s.portfolio_loading
        then text "Loading portfolio from blockchain..."
        else select "Select Asset (Portfolio)" (asset_select_value s)
            (map (asset_option s.active_section) (filtered_portfolio s)
              ++ ("custom", "+(Enter Custom Contract Address)") ∷ [])
            s.tx_loading)
      ∷ shown (shows_address_field s)
          (input "Target Token Address (0x)" s.interact_token_address s.tx_loading ∷ [])

  abbrev recipient_option : LinkedIdentity → String × String
  recipient_option i = (
    or_empty i.scw_address,
    provider_title i.provider_id
        <> " ("
        <> i.provider_user_id
        <> ") - "
        <> slice_to 6 (or_empty i.scw_address)
        <> "..."
        <> slice_last 4 (or_empty i.scw_address),
  )

  unfoldable pub recipient_part : Dashboard → List Widget
  recipient_part s =
      select
        (if is_minting s.active_section then "Mint To Address (0x)" else "Recipient Address (0x)")
        (recipient_select_value s)
        (("self", "Self (Current SCW Address)") ∷ map recipient_option (recipient_options s)
          ++ ("custom", "+(Enter Custom Destination Address)") ∷ [])
        s.tx_loading
      ∷ shown (shows_recipient_field s) (
          input "Target Identity Address (0x)"
            (if s.interact_to == "custom" then "" else s.interact_to) s.tx_loading
          ∷ [])

  abbrev decimals_note : Bool → Option TokenBalance → List Widget
  decimals_note true (some asset) = text ("Decimals: " <> number_text asset.decimals) ∷ []
  decimals_note _ _ = []

  abbrev max_button : Bool → Option TokenBalance → Bool → List Widget
  max_button true (some asset) busy = button "MAX" busy do_max ∷ []
  max_button _ _ busy = []

  abbrev has_asset : Option TokenBalance → Bool
  has_asset none = false
  has_asset (some _) = true

  unfoldable pub amount_part : Dashboard → List Widget
  amount_part s = shown (not (is_erc721 s.active_token)) (
      decimals_note (is_transfer s.active_section) s.selected_asset
      ++ input "Amount (Tokens)" s.interact_amount
          (s.tx_loading || is_transfer s.active_section && not (has_asset s.selected_asset))
        ∷ max_button (is_transfer s.active_section) s.selected_asset s.tx_loading
      ++ shown_text s.amount_error)

  -- An ERC-721 token that is minted gets its id from the contract.
  unfoldable pub id_part : Dashboard → List Widget
  id_part s =
      let auto = is_minting s.active_section && is_erc721 s.active_token in
      shown (not (is_erc20 s.active_token)) (
        shown auto (text "AUTO-INCREMENT" ∷ [])
        ++ input "Token Identifier (ID)"
            (if auto then "Auto-assigned by Contract" else s.interact_token_id)
            (s.tx_loading || auto)
          ∷ [])

  unfoldable pub artwork_part : Dashboard → List Widget
  artwork_part s = shown (is_minting s.active_section && not (is_erc20 s.active_token)) (
      text "NFT Artwork"
        ∷ file_input
        ∷ upload_zone
            (button "Drop NFT artwork or click to browse" false do_choose_file
              ∷ text "PNG, JPG, WebP, GIF up to 50MB"
              ∷ [])
            (spinner ∷ text "Uploading..." ∷ []) (text "✓ Uploaded to MinIO" ∷ [])
            (text "✗ Upload failed" ∷ []) s
      ++ input "NFT Name" s.nft_name s.tx_loading
        ∷ input "Description" s.nft_description s.tx_loading
        ∷ [])

  unfoldable pub interact_form : Dashboard → List Widget
  unfolding asset_part recipient_part amount_part id_part artwork_part
  interact_form s = asset_part s ++ recipient_part s ++ amount_part s ++ id_part s ++ artwork_part s

abbrev submit_text : MenuSection → TokenType → String
submit_text deploy token = "Compile & Deploy " <> token_name token <> " Smart Contract"
submit_text mint token = "Execute Cryptographic Mint (100% Gasless)"
submit_text _ token = "Execute Secure Transfer (100% Gasless)"

unfoldable pub submit_button : Dashboard → Widget
submit_button s =
    button
      (if s.tx_loading
        then "Processing Transaction via Paymaster..."
        else submit_text s.active_section s.active_token)
      (submit_disabled s) do_submit
