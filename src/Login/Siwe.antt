-- ===== src/Login/Siwe.antt =====
-- `handleSiweLogin` of LoginPage.tsx: signing in with an Ethereum wallet.
pub mod Laws
pub mod Attempts
pub mod Verified
use web3_lab_public.Prelude.{
  String, Bool, true, false, ◌||◌, List, [], ◌∷◌, Option, none, some, ◌<>◌, is_present, option_or,
  if◌then◌else◌,
}
use web3_lab_public.Text.{includes}
use web3_lab_public.Browser.{
  Request, Response, ok, is_ok, Io, pure, throw, catch, finally, await, set, fetch, ask, emit,
  wallet, assigned, scheduled, go_to, set_item, remove_item, json_type, done, ◌>>=◌, ◌>>◌,
}
use web3_lab_public.Login.State.{Login, Services, AuthBody, set_status, complete_hydra_login}

module _ (env : Services) (challenge : Option String) where
  pub nonce_request : String → Request
  nonce_request address = record {
    method = "GET";
    url = env.gateway <> "/api/v1/siwe/nonce?address=" <> address <> "&protocol=eip712";
    headers = [];
    body = [];
  }

  -- `null` stands for a challenge that is absent.
  abbrev challenge_text : String
  challenge_text = elim challenge [ none ↦ "null" | some c ↦ c ]

  pub authenticate_request : String → String → Request
  authenticate_request message signature = record {
    method = "POST";
    url = env.gateway <> "/api/v1/siwe/authenticate";
    headers = json_type ∷ [];
    body =
        ("message", message)
        ∷ ("signature", signature)
        ∷ ("protocol", "eip712")
        ∷ ("login_challenge", challenge_text)
        ∷ [];
  }

  -- `await authRes.json().catch(() => ({}))` and its message
  pub failure : Response AuthBody → Io Login String
  failure res =
      catch (do body ← await res.json; pure (option_or body.message "Verification failed"))
        (λ _. pure "Verification failed")

  abbrev follow : Option String → Io Login (Unit {0})
  follow redirect = elim (is_present redirect) [
    | true ↦ emit (assigned (option_or redirect ""))
    | false ↦ complete_hydra_login
  ]

  pub finish_login : String → Response AuthBody → Io Login (Unit {0})
  unfolding failure complete_hydra_login
  finish_login address res = elim (is_ok res) [
    | true ↦ do
      body ← await res.json
      set_item "siwe_wallet_address" address
      follow body.redirect_to
    | false ↦ do message ← failure res; throw message
  ]

  pub sign_and_authenticate : String → String → Io Login (Unit {0})
  unfolding authenticate_request finish_login
  sign_and_authenticate address message = do
    set_status "Please sign the message in your wallet..."
    signature ← ask (wallet "eth_signTypedData_v4" (address ∷ message ∷ [])) env.sign_typed_data
    set_status "Verifying signature & completing login..."
    res ← fetch env.authenticate (authenticate_request message signature)
    finish_login address res

  pub login_with_wallet : Io Login (Unit {0})
  unfolding nonce_request sign_and_authenticate
  login_with_wallet = do
    set_status "Connecting to wallet..."
    _ ← ask (wallet "eth_requestAccounts" []) env.request_accounts
    address ← ask (wallet "getAddress" []) env.signer_address
    set_status "Fetching SIWE challenge..."
    nonce_res ← fetch env.nonce (nonce_request address)
    elim (is_ok nonce_res) [
      | true ↦ do message ← await nonce_res.json; sign_and_authenticate address message
      | false ↦ throw "Failed to fetch nonce"
    ]

  abbrev pub is_stale : String → Bool
  is_stale message = includes message "expired" || includes message "unauthorized"

  -- A challenge that is used up is dropped, and a new flow starts after 1.5 seconds.
  pub handle_failure : String → Io Login (Unit {0})
  handle_failure message = elim (is_stale message) [
    | true ↦ do
      remove_item "loginChallenge"
      set_status "Login challenge expired, getting a fresh one..."
      emit (scheduled 1500 (go_to "/"))
    | false ↦ set_status ("SIWE Error: " <> message)
  ]

  abbrev attempt : Bool → Io Login (Unit {0})
  attempt true = login_with_wallet
  attempt false = throw "MetaMask or Web3 wallet not found"

  unfoldable pub handle_siwe_login : Login → Io Login (Unit {0})
  unfolding login_with_wallet handle_failure
  handle_siwe_login view = elim view.siwe_loading [
    | true ↦ done
    | false ↦ do
      set (λ s. record s { siwe_loading = true })
      finally (catch (attempt env.has_ethereum) handle_failure)
          (set (λ s. record s { siwe_loading = false }))
  ]
