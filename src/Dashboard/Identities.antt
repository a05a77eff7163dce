-- ===== src/Dashboard/Identities.antt =====
-- The linked identities of the account (DashboardPage.tsx): `fetchIdentities`, `linkWallet` and
-- `unlinkIdentity`.
pub mod Laws
pub mod Unlinking
pub mod Linking
pub mod Programs
use web3_lab_public.Prelude.{
  String, Bool, true, false, not, ◌||◌, List, [], ◌∷◌, Option, none, some, ◌<>◌, ◌==◌, is_truthy,
  option_or, text_or, if◌then◌else◌,
}
use Prim.Native.Char.{Char}
use web3_lab_public.Text.{to_lower_case}
use web3_lab_public.Browser.{
  Request, Response, ok, is_ok, Io, pure, catch, finally, await, set, fetch, ask, wallet, asked,
  done, when, bearer, json_type, first_account, ◌>>=◌, ◌>>◌,
}
use web3_lab_public.Dashboard.State.{Dashboard, LinkedIdentity}
use web3_lab_public.Dashboard.Services.{Services}
use web3_lab_public.Dashboard.Transaction.{get_request, post_request}

-- `data.identities || []`
abbrev pub listed : Option (List LinkedIdentity) → List LinkedIdentity
listed none = []
listed (some l) = l

-- `if (!token)`: absent or empty
abbrev pub session : Option String → Option String
session none = none
session (some t) = if is_truthy t then some t else none

-- `accounts?.[0]?.toLowerCase()`, absent also when it is empty
abbrev pub chosen_account : Option (List String) → Option String
chosen_account accounts = elim (first_account accounts) [
  | none ↦ none
  | some a ↦ if is_truthy (to_lower_case a) then some (to_lower_case a) else none
]

abbrev pub unlink_question : String
unlink_question = "Unlink this identity? The associated SCW assets will become inaccessible."

module _ (env : Services) where
  pub identities_request : String → Request
  identities_request token =
      get_request (env.urls.gateway <> "/api/v1/accounts/me/identities") (bearer token ∷ [])

  unfoldable pub fetch_identities : String → Io Dashboard (Unit {0})
  fetch_identities stored_token = do
    set (λ s. record s { identities_loading = true })
    finally
        (catch
          (do
            res ← fetch env.identities (identities_request stored_token)
            when (is_ok res)
                (do body ← await res.json; set (λ s. record s { linked_identities = listed body })))
          (λ _. done))
        (set (λ s. record s { identities_loading = false }))

  abbrev fail_link : String → Io Dashboard (Unit {0})
  fail_link e = set (λ s. record s { link_error = some e })

  pub nonce_request : String → Request
  nonce_request address =
      get_request (env.urls.gateway <> "/api/v1/siwe/nonce?address=" <> address <> "&protocol=siwe")
        []

  pub link_request : String → String → String → Request
  link_request token message signature =
      post_request (env.urls.gateway <> "/api/v1/auth/siwe/link") token
        (("message", message) ∷ ("signature", signature) ∷ ("protocol", "siwe") ∷ [])

  -- Step 4 and 5: send the signed message, and read the identities again.
  pub send_link : String → String → String → Io Dashboard (Unit {0})
  send_link token message signature = do
    link_res ← fetch env.link (link_request token message signature)
    if is_ok link_res
        then fetch_identities token
        else (do message' ← await link_res.json; fail_link (option_or message' "Linking failed"))

  -- Step 2 and 3: the nonce's message is signed by the account.
  pub sign_and_link : String → String → Io Dashboard (Unit {0})
  sign_and_link token address = do
    nonce_res ← fetch env.nonce (nonce_request address)
    if is_ok nonce_res
        then (do
          message ← await nonce_res.json
          signature ← ask (wallet "personal_sign" (message ∷ address ∷ [])) env.personal_sign
          send_link token message signature)
        else fail_link "Failed to get nonce"

  pub link_chosen : String → Option String → Io Dashboard (Unit {0})
  link_chosen token none = fail_link "No wallet selected"
  link_chosen token (some address) = sign_and_link token address

  -- Step 1: the account that the wallet offers first.
  pub link_account : String → Io Dashboard (Unit {0})
  link_account token = do
    accounts ← ask (wallet "eth_requestAccounts" []) env.request_accounts
    link_chosen token (chosen_account accounts)

  unfoldable pub link_wallet : Dashboard → Io Dashboard (Unit {0})
  link_wallet view =
      if env.has_ethereum
      then elim (session view.token) [
        | none ↦ done
        | some token ↦ do
          set (λ s. record s { linking_wallet = true; link_error = none })
          finally (catch (link_account token) (λ e. fail_link (text_or e "Linking cancelled")))
              (set (λ s. record s { linking_wallet = false }))
      ]
      else done

  pub unlink_request : String → String → Request
  unlink_request token identity_id = record {
    method = "DELETE";
    url = env.urls.gateway <> "/api/v1/accounts/me/identities/" <> identity_id;
    headers = bearer token ∷ [];
    body = [];
  }

  pub send_unlink : String → String → Io Dashboard (Unit {0})
  send_unlink token identity_id = do
    res ← fetch env.unlink (unlink_request token identity_id)
    if is_ok res
        then fetch_identities token
        else (do message ← await res.json; fail_link (option_or message "Unlink failed"))

  unfoldable pub unlink_identity : Dashboard → String → Io Dashboard (Unit {0})
  unlink_identity view identity_id = elim (session view.token) [
    | none ↦ done
    | some token ↦ do
      agreed ← ask (asked unlink_question) (λ t. ok (env.confirm t unlink_question))
      when agreed
          (catch (send_unlink token identity_id) (λ e. fail_link (text_or e "Unlink failed")))
  ]

-- U+FE0F, which asks for the coloured form of the envelope before it.
abbrev pub variation_selector : String
variation_selector = String.◌∷◌ (Char.char 65039 tt) ""

-- `getProviderIcon`
unfoldable pub provider_icon : String → String
provider_icon provider =
    if provider == "eoa"
    then "⟠"
    else if provider == "google"
    then "🔵"
    else if provider == "email"
    then "✉" <> variation_selector
    else "🔗"
