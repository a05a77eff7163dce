-- ===== src/Dashboard/View/Profile.antt =====
-- `renderProfileContent` of DashboardPage.tsx.
pub mod Unlinking
use web3_lab_public.Prelude.{
  String, Bool, true, false, not, List, [], ◌∷◌, ◌++◌, Option, none, some, ◌<>◌, ◌==◌, ◌||◌,
  is_present, is_truthy, option_or, text_or, if◌then◌else◌, filter, map,
}
use web3_lab_public.Text.{to_upper_case, slice_to, slice_last}
use web3_lab_public.Session.{truncate_address, is_wallet_user}
use web3_lab_public.Dashboard.State.{UserInfo, LinkedIdentity, Dashboard}
use web3_lab_public.Dashboard.Identities.{provider_icon}
use web3_lab_public.Dashboard.Widgets.{
  Widget, text, image, spinner, field, button, do_logout, do_copy_address, do_switch_wallet,
  do_link_wallet, do_dismiss_link_error, do_toggle_token, do_copy_token, do_unlink,
}

abbrev pub email_of : Option UserInfo → Option String
email_of none = none
email_of (some u) = u.email

abbrev pub is_wallet : Dashboard → Bool
is_wallet s = is_wallet_user s.wallet_address (email_of s.user_info)

-- `if (b) [x]`
abbrev pub shown : Bool → List Widget → List Widget
shown b ws = if b then ws else []

abbrev pub shown_text : Option String → List Widget
shown_text o = shown (is_present o) (text (option_or o "") ∷ [])

abbrev pub bool_text : Bool → String
bool_text true = "true"
bool_text false = "false"

-- `email?.[0] || sub?.[0] || '?'`
abbrev initial_letter : Option UserInfo → String
initial_letter none = "?"
initial_letter (some u) =
    to_upper_case (text_or (slice_to 1 (option_or u.email "")) (text_or (slice_to 1 u.sub) "?"))

abbrev verified_text : Bool → String
verified_text true = "✓ Verified"
verified_text false = "⚠ Unverified"

abbrev verified_badge : Option Bool → List Widget
verified_badge none = []
verified_badge (some b) = text (verified_text b) ∷ []

abbrev picture_of : Option UserInfo → Option String
picture_of none = none
picture_of (some u) = u.picture

unfoldable pub avatar_of : Bool → Option UserInfo → Widget
avatar_of wallet_user info =
    if is_present (picture_of info)
    then image (option_or (picture_of info) "")
    else text (if wallet_user then "⟠" else initial_letter info)

abbrev pub account_summary : Option UserInfo → List Widget
account_summary none = []
account_summary (some u) =
    shown_text u.name ++ shown_text u.email ++ verified_badge u.email_verified

abbrev address_text : Option String → String
address_text o = option_or o ""

-- The card with the name, the address and the button to sign out.
unfoldable pub user_card : Dashboard → List Widget
user_card s =
    avatar_of (is_wallet s) s.user_info
      ∷ (if is_wallet s
          then text "Ethereum Wallet"
            ∷ text (truncate_address (address_text s.wallet_address))
            ∷ button (if s.address_copied then "✅ Copied" else "📋 Copy") false do_copy_address
            ∷ text "⟠ SIWE Connected"
            ∷ []
          else account_summary s.user_info)
    ++ button (if is_wallet s then "Disconnect & Sign Out" else "Sign Out") false do_logout ∷ []

-- `userInfo?.identity_id || userInfo?.sub || ''`
abbrev pub identity_text : Option UserInfo → String
identity_text none = ""
identity_text (some u) = option_or u.identity_id u.sub

abbrev scw_field : Dashboard → Widget
scw_field s = field "scw" (option_or s.smart_wallet_address "Deriving...")

unfoldable pub wallet_details : Dashboard → List Widget
wallet_details s = shown (is_wallet s) (
    text "Wallet Details"
    ∷ field "address" (address_text s.wallet_address)
    ∷ scw_field s
    ∷ field "auth" "SIWE (EIP-4361)"
    ∷ field "identity" (identity_text s.user_info)
    ∷ button "🔄 Switch Wallet" false do_switch_wallet
    ∷ shown_text s.switch_status)

abbrev pub entry : String → Option String → List (String × String)
entry key none = []
entry key (some value) = (key, value) ∷ []

abbrev pub flag_entry : Option Bool → List (String × String)
flag_entry none = []
flag_entry (some b) = ("email_verified", bool_text b) ∷ []

-- `Object.entries(userInfo)`, the known entries first.
unfoldable pub entries : UserInfo → List (String × String)
entries u =
    ("sub", u.sub) ∷ entry "email" u.email
    ++ entry "name" u.name
    ++ entry "picture" u.picture
    ++ flag_entry u.email_verified
    ++ entry "identity_id" u.identity_id
    ++ u.others

abbrev is_account_entry : String × String → Bool
is_account_entry e = not (e.0 == "picture" || e.0 == "identity_id" || e.0 == "sub")

abbrev entry_field : String × String → Widget
entry_field e = field e.0 e.1

unfoldable pub account_details : Dashboard → List Widget
unfolding entries
account_details s = elim s.user_info [
  | none ↦ []
  | some u ↦ shown (not (is_wallet s)) (
      text "Account Details" ∷ map entry_field (filter is_account_entry (entries u))
      ++ scw_field s ∷ field "identity" (identity_text (some u)) ∷ [])
]

abbrev pub provider_title : String → String
provider_title provider = if provider == "eoa" then "Ethereum Wallet" else provider

abbrev scw_line : Option String → List Widget
scw_line none = []
scw_line (some a) =
    shown (is_truthy a) (text ("SCW: " <> slice_to 10 a <> "..." <> slice_last 8 a) ∷ [])

-- One linked identity: only one that is not primary can be unlinked.
unfoldable pub identity_row : LinkedIdentity → List Widget
identity_row i =
    text (provider_icon i.provider_id)
      ∷ text (provider_title i.provider_id)
      ∷ shown i.is_primary (text "PRIMARY" ∷ [])
    ++ text i.provider_user_id ∷ scw_line i.scw_address
    ++ shown (not i.is_primary) (button "✕" false (do_unlink i.identity_id) ∷ [])

unfoldable pub identity_rows : List LinkedIdentity → List Widget
unfolding identity_row
identity_rows [] = []
identity_rows (i ∷ is) = identity_row i ++ identity_rows is

abbrev identity_list : Bool → List LinkedIdentity → List Widget
identity_list true is = spinner ∷ []
identity_list false [] = text "No linked identities found" ∷ []
identity_list false (i ∷ is) = identity_rows (i ∷ is)

abbrev dismissable : Option String → List Widget
dismissable e =
    shown (is_present e) (text (option_or e "") ∷ button "✕" false do_dismiss_link_error ∷ [])

unfoldable pub linked_section : Dashboard → List Widget
unfolding identity_rows
linked_section s =
    text "Linked Identities & Wallets"
      ∷ button (if s.linking_wallet then "⏳ Linking..." else "⟠ Link Wallet") s.linking_wallet
          do_link_wallet
      ∷ dismissable s.link_error
    ++ identity_list s.identities_loading s.linked_identities

unfoldable pub token_section : Dashboard → List Widget
token_section s =
    button "Access Token" false do_toggle_token
    ∷ button (if s.token_copied then "Copied!" else "Copy") false do_copy_token
    ∷ shown s.show_token (text (option_or s.token "") ∷ [])

unfoldable pub profile_content : Dashboard → List Widget
unfolding user_card wallet_details account_details linked_section token_section
profile_content s =
    text "Profile" ∷ shown (is_wallet s) (text "SIWE" ∷ [])
    ++ text (
        if is_wallet s
        then "Your Ethereum wallet identity and session details."
        else "Your account information and active session details.")
      ∷ user_card s
    ++ wallet_details s
    ++ account_details s
    ++ linked_section s
    ++ token_section s
