-- ===== src/Session.antt =====
-- What the dashboard and the profile page share: signing out, switching the wallet and copying
-- (frontend/app/src/pages/DashboardPage.tsx and ProfilePage.tsx hold the same functions). The state
-- of the page is a parameter, with the setters that the functions call.
pub mod Laws
use web3_lab_public.Prelude.{
  ℕ, String, Bool, true, false, ◌&&◌, not, List, [], ◌∷◌, Option, none, some, ◌<>◌, ◌==◌,
  is_present, is_truthy, option_or, if◌then◌else◌,
}
use web3_lab_public.Text.{to_lower_case, slice_to, slice_last}
use web3_lab_public.Browser.{
  Trace, Reply, Urls, Later, clear_switch_status, Io, catch, set, ask, emit, wallet, assigned,
  copied, scheduled, get_item, remove_item, done, when, first_account, ◌>>=◌, ◌>>◌,
}

-- The wallet extension, and the encoding of a query's values by `URLSearchParams`.
pub record Wallet : Type 0 where
  pub has_ethereum : Bool
  pub request_accounts : Trace → Reply (Option (List String))
  pub revoke_permissions : Trace → Reply (Unit {0})
  pub encode : String → String

-- `accounts?.[0]?.toLowerCase()`, absent also when it is empty
abbrev pub lowered_account : Option (List String) → Option String
lowered_account accounts = elim (first_account accounts) [
  | none ↦ none
  | some a ↦ if is_truthy (to_lower_case a) then some (to_lower_case a) else none
]

-- `newAddress === walletAddress?.toLowerCase()`
abbrev pub is_current : String → Option String → Bool
is_current address none = false
is_current address (some w) = address == to_lower_case w

unfoldable pub truncate_address : String → String
truncate_address addr = slice_to 6 addr <> "..." <> slice_last 4 addr

-- `!!walletAddress && !userInfo?.email`
abbrev pub is_wallet_user : (wallet_address email : Option String) → Bool
is_wallet_user wallet_address email = is_present wallet_address && not (is_present email)

-- OIDC logout, with the hint of the session's token if there is one.
pub logout_url : Urls → Wallet → Option String → String
logout_url urls api id_token =
    if is_present id_token
    then urls.gateway
      <> "/oauth2/sessions/logout?id_token_hint="
      <> api.encode (option_or id_token "")
      <> "&post_logout_redirect_uri="
      <> api.encode (urls.origin <> "/logout")
    else urls.gateway <> "/oauth2/sessions/logout"

module _ {S : Type 0} (urls : Urls) (api : Wallet) where
  -- Some wallets do not support this.
  pub revoke : Option String → Io S (Unit {0})
  revoke wallet_address = when (is_present wallet_address && api.has_ethereum) (
      catch (ask (wallet "wallet_revokePermissions" ("eth_accounts" ∷ [])) api.revoke_permissions)
        (λ _. done))

  unfoldable pub logout : Option String → Io S (Unit {0})
  unfolding revoke logout_url
  logout wallet_address = do
    revoke wallet_address
    remove_item "access_token"
    id_token ← get_item "id_token"
    remove_item "id_token"
    remove_item "loginChallenge"
    remove_item "siwe_wallet_address"
    emit (assigned (logout_url urls api id_token))

  module _ (set_status : Option String → S → S) where
    -- The status is cleared after two seconds.
    abbrev pub brief : String → Io S (Unit {0})
    brief message = do set (set_status (some message)); emit (scheduled 2000 clear_switch_status)

    pub leave : Io S (Unit {0})
    leave = do
      remove_item "access_token"
      remove_item "loginChallenge"
      remove_item "siwe_wallet_address"
      emit (assigned "/")

    abbrev pub switch_to : Option String → Option String → Io S (Unit {0})
    switch_to wallet_address none = set (set_status (some "No wallet selected"))
    switch_to wallet_address (some address) = elim (is_current address wallet_address) [
      | true ↦ brief "Already connected to this wallet"
      | false ↦ leave
    ]

    unfoldable pub switch_wallet : Option String → Io S (Unit {0})
    unfolding leave
    switch_wallet wallet_address =
        if api.has_ethereum
        then catch
            (do
              set (set_status (some "Requesting wallet..."))
              accounts ← ask (wallet "eth_requestAccounts" []) api.request_accounts
              switch_to wallet_address (lowered_account accounts))
            (λ _. brief "Wallet request cancelled")
        else set (set_status (some "MetaMask not found"))

-- A copy to the clipboard sets a flag, which a timer clears after two seconds.
unfoldable pub copy_flagged : {S : Type 0} → (S → S) → Later → String → Io S (Unit {0})
copy_flagged flag later text = do emit (copied text); set flag; emit (scheduled 2000 later)

-- `copyToken` and `copyAddress`: nothing is done without a text.
unfoldable pub copy_present : {S : Type 0} → (S → S) → Later → Option String → Io S (Unit {0})
unfolding copy_flagged
copy_present flag later text = when (is_present text) (copy_flagged flag later (option_or text ""))
