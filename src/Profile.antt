-- ===== src/Profile.antt =====
-- The profile page (frontend/app/src/pages/ProfilePage.tsx), which App.tsx does not route to any
-- more.
pub mod Laws
use web3_lab_public.Prelude.{
  ℕ, String, Bool, true, false, not, ◌&&◌, List, [], ◌∷◌, ◌++◌, Option, none, some, ◌<>◌, ◌==◌,
  is_present, is_truthy, option_or, text_or, if◌then◌else◌, filter, map,
}
use web3_lab_public.Text.{print}
use web3_lab_public.Browser.{
  Trace, Request, Response, Reply, Urls, clear_address_copied, clear_token_copied, is_ok, Io, throw,
  catch, finally, await, set, fetch, emit, navigated, get_item, done, when, bearer, ◌>>=◌, ◌>>◌,
}
use web3_lab_public.Session
use web3_lab_public.Session.{Wallet, is_wallet_user, truncate_address}
use web3_lab_public.Dashboard.State.{UserInfo}
use web3_lab_public.Dashboard.Identities.{session}
use web3_lab_public.Dashboard.Portfolio.{restore_wallet}
use web3_lab_public.Dashboard.Transaction.{get_request}
use web3_lab_public.Dashboard.View.Profile.{
  email_of, entries, identity_text, shown, shown_text, avatar_of, account_summary,
}
use web3_lab_public.Dashboard.Widgets.{
  Widget, text, spinner, field, button, do_logout, do_copy_address, do_switch_wallet, do_copy_token,
  do_navigate,
}

pub record Profile : Type 0 where
  pub token : Option String
  pub user_info : Option UserInfo
  pub wallet_address : Option String
  pub loading : Bool
  pub error : Option String
  pub switch_status : Option String
  pub token_copied : Bool
  pub address_copied : Bool

abbrev pub initial : Profile
initial = record {
  token = none;
  user_info = none;
  wallet_address = none;
  loading = true;
  error = none;
  switch_status = none;
  token_copied = false;
  address_copied = false;
}

pub record Services : Type 0 where
  pub urls : Urls
  pub wallet : Wallet
  pub userinfo : Trace → Request → Reply (Response UserInfo)

module _ (env : Services) where
  pub userinfo_request : String → Request
  userinfo_request token = get_request (env.urls.gateway <> "/userinfo") (bearer token ∷ [])

  pub load_user : String → Io Profile (Unit {0})
  unfolding userinfo_request
  load_user stored_token = do
    res ← fetch env.userinfo (userinfo_request stored_token)
    elim (is_ok res) [
      | true ↦ do
        info ← await res.json
        set (λ s. record s { user_info = some info })
        stored ← get_item "siwe_wallet_address"
        when (is_present stored) (set (λ s. record s { wallet_address = stored }))
      | false ↦ throw ("Failed to fetch user info (" <> print res.status <> ")")
    ]

  -- `fetchData`
  unfoldable pub fetch_data : String → Io Profile (Unit {0})
  unfolding load_user
  fetch_data stored_token =
      finally (catch (load_user stored_token) (λ e. set (λ s. record s { error = some e })))
        (set (λ s. record s { loading = false }))

  -- The effect on `[navigate, gatewayUrl]`.
  unfoldable pub on_mount : Io Profile (Unit {0})
  unfolding fetch_data
  on_mount = do
    stored ← get_item "access_token"
    elim (session stored) [
      | none ↦ emit (navigated "/")
      | some token ↦ do set (λ s. record s { token = some token }); fetch_data token
    ]

  unfoldable pub logout : Profile → Io Profile (Unit {0})
  logout view = Session.logout env.urls env.wallet view.wallet_address

  unfoldable pub switch_wallet : Profile → Io Profile (Unit {0})
  switch_wallet view =
      Session.switch_wallet env.urls env.wallet (λ status s. record s { switch_status = status })
        view.wallet_address

unfoldable pub copy_token : Profile → Io Profile (Unit {0})
copy_token view =
    Session.copy_present (λ s. record s { token_copied = true }) clear_token_copied view.token

unfoldable pub copy_address : Profile → Io Profile (Unit {0})
copy_address view =
    Session.copy_present (λ s. record s { address_copied = true }) clear_address_copied
      view.wallet_address

abbrev pub is_wallet : Profile → Bool
is_wallet s = is_wallet_user s.wallet_address (email_of s.user_info)

unfoldable pub header : Profile → List Widget
header s =
    text "Profile"
    ∷ button (if is_wallet s then "Disconnect & Sign Out" else "Sign Out") false do_logout
    ∷ []

unfoldable pub user_card : Profile → List Widget
user_card s =
    avatar_of (is_wallet s) s.user_info
    ∷ (if is_wallet s
        then text "Ethereum Wallet"
          ∷ text (truncate_address (option_or s.wallet_address ""))
          ∷ button (if s.address_copied then "✅ Copied" else "📋 Copy") false do_copy_address
          ∷ text "⟠ SIWE Connected"
          ∷ []
        else account_summary s.user_info)

unfoldable pub wallet_details : Profile → List Widget
wallet_details s = shown (is_wallet s) (
    text "Wallet Details"
    ∷ field "address" (option_or s.wallet_address "")
    ∷ field "auth_method" "SIWE (EIP-4361)"
    ∷ field "identity_id" (identity_text s.user_info)
    ∷ button "🔄 Switch Wallet" false do_switch_wallet
    ∷ shown_text s.switch_status)

abbrev is_shown_entry : String × String → Bool
is_shown_entry e = not (e.0 == "picture")

abbrev entry_field : String × String → Widget
entry_field e = field e.0 e.1

unfoldable pub account_details : Profile → List Widget
account_details s = elim s.user_info [
  | none ↦ []
  | some u ↦
      shown (not (is_wallet s))
        (text "Account Details" ∷ map entry_field (filter is_shown_entry (entries u)))
]

-- The box of an error. The account's details stand inside it in the source.
unfoldable pub error_box : Profile → List Widget
unfolding account_details
error_box s =
    shown (is_present s.error) (text "Error:" ∷ text (option_or s.error "") ∷ account_details s)

unfoldable pub token_section : Profile → List Widget
token_section s =
    text "Access Token"
    ∷ button (if s.token_copied then "Copied!" else "Copy") false do_copy_token
    ∷ text (option_or s.token "")
    ∷ []

unfoldable pub page : Profile → List Widget
unfolding header user_card wallet_details error_box token_section
page s =
    if s.loading
    then spinner ∷ text "Loading profile..." ∷ []
    else header s
      ++ user_card s
      ++ wallet_details s
      ++ error_box s
      ++ token_section s
      ++ button "Home" false (do_navigate "/")
        ∷ button "Dashboard" false (do_navigate "/dashboard")
        ∷ []
