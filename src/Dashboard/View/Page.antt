-- ===== src/Dashboard/View/Page.antt =====
-- The sidebar, the result of a transaction and the whole page of DashboardPage.tsx.
use web3_lab_public.Prelude.{
  String, Bool, true, false, List, [], ◌∷◌, ◌++◌, Option, none, some, ◌<>◌, is_present, option_or,
  if◌then◌else◌,
}
use web3_lab_public.Session.{truncate_address}
use web3_lab_public.Dashboard.State.{
  MenuSection, profile, deploy, mint, transfer, TokenType, erc20, erc721, erc1155, token_name,
  section_eq, Number, Dashboard,
}
use web3_lab_public.Dashboard.View.Profile.{shown, shown_text, profile_content}
use web3_lab_public.Dashboard.View.Interact.{deploy_form, interact_form, submit_button}
use web3_lab_public.Dashboard.Widgets.{
  Widget, text, spinner, button, do_logout, do_copy_scw, do_copy_tx, do_copy_contract, do_section,
  do_token,
}

abbrev token_kind : TokenType → String
token_kind erc20 = "FT"
token_kind erc721 = "NFT"
token_kind erc1155 = "MULTI"

abbrev token_item : TokenType → Widget
token_item t = button (token_name t <> " - " <> token_kind t) false (do_token t)

-- `renderSidebarItem`: a section's button, with the token types under the open one.
unfoldable pub sidebar_item : Dashboard → String → MenuSection → Bool → List Widget
sidebar_item s title section has_submenu =
    button title false (do_section section)
    ∷ shown (if has_submenu then section_eq s.active_section section else false)
        (token_item erc20 ∷ token_item erc721 ∷ token_item erc1155 ∷ [])

unfoldable pub scw_badge : Option String → List Widget
scw_badge address =
    text "ERC-4337 Wallet"
    ∷ (if is_present address
        then text (truncate_address (option_or address "")) ∷ button "copy" false do_copy_scw ∷ []
        else text "Deriving..." ∷ [])

unfoldable pub sidebar : Dashboard → List Widget
unfolding scw_badge sidebar_item
sidebar s =
    text "Developer Console" ∷ scw_badge s.smart_wallet_address
    ++ text "Toolchain" ∷ sidebar_item s "Deploy Contract" deploy true
    ++ sidebar_item s "Mint Asset" mint true
    ++ sidebar_item s "Transfer Asset" transfer true
    ++ text "Account" ∷ sidebar_item s "Profile" profile false
    ++ button "Sign Out" false do_logout ∷ []

abbrev deployed_part : Option String → List Widget
deployed_part address = shown (is_present address) (
    text "Deployed Contract Address"
    ∷ text (option_or address "")
    ∷ button "copy" false do_copy_contract
    ∷ [])

-- The box under the form, once a transaction has succeeded.
unfoldable pub result_box : Dashboard → List Widget
result_box s = elim s.tx_result [
  | none ↦ []
  | some res ↦
      text (option_or res.message "TRANSACTION SUCCESSFUL")
      ∷ text "Bundled via 4337"
      ∷ text "Blockchain TX Hash"
      ∷ text (option_or res.transaction_hash "")
      ∷ button "copy" false do_copy_tx
      ∷ deployed_part s.deployed_contract_address
]

abbrev section_title : MenuSection → String
section_title deploy = "Deploy Smart Contract"
section_title mint = "Mint / Originate Asset"
section_title _ = "Transfer Portfolio"

abbrev section_hint : MenuSection → String
section_hint deploy =
    "Construct a new ERC factory and deploy a programmable token onto the blockchain securely via Web3Lab primitives."
section_hint mint =
    "Generate new tokens and assign cryptography ownership to your Abstract Smart Contract Wallet seamlessly."
section_hint _ =
    "Transfer existing tokens to any Web3 wallet natively using Gasless Paymaster Sponsorship."

module _ (format_units : String → Number → String) (display : String → String) where
  abbrev pub form_of : MenuSection → Dashboard → List Widget
  form_of deploy s = deploy_form s
  form_of _ s = interact_form format_units display s

  unfoldable pub toolchain : Dashboard → List Widget
  unfolding result_box
  toolchain s =
      text (section_title s.active_section)
        ∷ text (token_name s.active_token)
        ∷ text (section_hint s.active_section)
        ∷ form_of s.active_section s
      ++ submit_button s ∷ result_box s

  abbrev main_of : MenuSection → Dashboard → List Widget
  main_of profile s = profile_content s
  main_of _ s = toolchain s

  -- The page, from the top bar to the content of the section. Without the user's data a spinner.
  unfoldable pub page : Dashboard → List Widget
  unfolding sidebar toolchain
  page s = elim s.user_info [
    | none ↦ spinner ∷ []
    | some _ ↦
        text "Console" ∷ button "Logout" false do_logout ∷ sidebar s
        ++ shown_text s.error
        ++ main_of s.active_section s
  ]
