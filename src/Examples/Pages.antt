-- ===== src/Examples/Pages.antt =====
-- Signing in and out, the callback, the routes and the profile page.
use web3_lab_public.Prelude.{
  true, false, String, Option, ◌⊎◌, [], ◌∷◌, none, some, ◌≡◌, refl, if◌then◌else◌, ◌&&◌, arith,
}
use web3_lab_public.Prelude.Dict
use web3_lab_public.Browser.{ok, thrown, World, Response}
use web3_lab_public.Session.{Wallet, logout, switch_wallet}
use web3_lab_public.Session.Laws.{
  is_session_key, is_switch_key, offers_other, logout-storage, switch_wallet-storage,
}
use web3_lab_public.Callback
use web3_lab_public.Callback.{TokenBody, Callback, token_request, on_code}
use web3_lab_public.Callback.Laws.{stored_after, granted, on_code-storage}
use web3_lab_public.Login.Siwe.{handle_siwe_login}
use web3_lab_public.Login.Siwe.Verified.{IsStored, handle_siwe_login-IsVerified}
use web3_lab_public.Login.State
use web3_lab_public.Login.State.{Login, Flow}
use web3_lab_public.Profile
use web3_lab_public.Profile.{is_wallet, page}
use web3_lab_public.Profile.Laws.{fields, loaded_page-fields}
use web3_lab_public.Dashboard.State.{Dashboard}
use web3_lab_public.Examples.Data.{respond, refuse, urls, user, world}

abbrev wallet : Wallet
wallet = record {
  has_ethereum = true;
  request_accounts = λ t. ok (some ("0xNEW" ∷ []));
  revoke_permissions = λ t. thrown "unsupported";
  encode = λ s. s;
}

abbrev note : Option String → Dashboard → Dashboard
note status s = record s { switch_status = status }

logout-storage_example :
    ((logout urls wallet (some "0xE0A") world).0 ≡ ok tt)
    × ((logout urls wallet (some "0xE0A") world).1.state ≡ world.state)
    × (Dict.lookup "id_token" (logout urls wallet (some "0xE0A") world).1.storage
        ≡ (if is_session_key "id_token" then none else Dict.lookup "id_token" world.storage))
logout-storage_example = logout-storage urls wallet (some "0xE0A") world "id_token"

switch_wallet-storage_example :
    let r = switch_wallet urls wallet note (some "0xE0A") world in
    (r.0 ≡ ok tt)
    × (Dict.lookup "access_token" r.1.storage ≡ (
        if wallet.has_ethereum
          && offers_other (some "0xE0A") (wallet.request_accounts world.trace)
          && is_switch_key "access_token"
        then none
        else Dict.lookup "access_token" world.storage))
switch_wallet-storage_example =
    switch_wallet-storage urls wallet note (some "0xE0A") world "access_token"

abbrev pub tokens : TokenBody
tokens = record { access_token = some "tok"; id_token = some "idt"; text = "{}" }

abbrev pub token_services : Callback.Services
token_services = record { urls = urls; token = λ t r. respond tokens }

abbrev pub callback_world : World Callback
callback_world = record {
  state = Callback.initial;
  storage = ("loginChallenge", "c") ∷ [];
  trace = [];
}

on_code-storage_example :
    ((on_code token_services (some "code") callback_world).0 ≡ ok tt)
    × (Dict.lookup "access_token" (on_code token_services (some "code") callback_world).1.storage
        ≡ stored_after
            (granted
              (token_services.token callback_world.trace (token_request token_services "code")))
            "access_token"
            (Dict.lookup "access_token" callback_world.storage))
on_code-storage_example = on_code-storage token_services "code" callback_world "access_token" refl

abbrev redirecting : Flow
redirecting = record {
  redirect_browser_to = some "/next";
  continue_with = [];
  ui = none;
  error_message = none;
}

abbrev pub login_services : State.Services
login_services = record {
  gateway = "https://gateway.lab";
  has_ethereum = true;
  whoami = λ t r. refuse 401;
  request_accounts = λ t. ok tt;
  signer_address = λ t. ok "0xE0A";
  sign_typed_data = λ t. ok "0xsignature";
  nonce = λ t r. respond "Sign this";
  authenticate = λ t r. refuse 401;
  login_flow = λ t r. respond redirecting;
  registration_flow = λ t r. refuse 400;
  submit_form = λ t r. respond redirecting;
}

abbrev pub form : Login
form = record State.initial { email = "ada@lab.test"; password = "secret" }

abbrev pub login_world : World Login
login_world = record { state = form; storage = ("loginChallenge", "c") ∷ []; trace = [] }

abbrev moved : Response Flow
moved = record { status = 422; json = ok redirecting }

abbrev profile_services : Profile.Services
profile_services = record { urls = urls; wallet = wallet; userinfo = λ t r. respond user }

abbrev profile_world : World Profile.Profile
profile_world = record {
  state = Profile.initial;
  storage = ("access_token", "tok") ∷ [];
  trace = [];
}

profile-user : (Profile.on_mount profile_services profile_world).1.state.user_info ≡ some user
unfolding Profile.on_mount Dict.lookup
profile-user = ground arith

profile-no_wallet : is_wallet (Profile.on_mount profile_services profile_world).1.state ≡ false
unfolding Profile.on_mount Dict.lookup
profile-no_wallet = ground arith

loaded_page-fields_example :
    ((Profile.on_mount profile_services profile_world).1.state.loading ≡ false)
    × (fields (page (Profile.on_mount profile_services profile_world).1.state) ≡ [])
loaded_page-fields_example =
    loaded_page-fields profile_services profile_world user refl profile-user profile-no_wallet

-- A gateway that accepts the signature.
abbrev accepting : State.Services
accepting = record login_services {
  authenticate = λ t r. respond (record { message = none; redirect_to = none });
}

handle_siwe_login-IsVerified_example :
    let d = (handle_siwe_login accepting none form login_world).1.storage in
    (Dict.lookup "siwe_wallet_address" d ≡ Dict.lookup "siwe_wallet_address" login_world.storage)
    ⊎ IsStored accepting none login_world.trace (Dict.lookup "siwe_wallet_address" d)
handle_siwe_login-IsVerified_example =
    handle_siwe_login-IsVerified accepting none form login_world refl
