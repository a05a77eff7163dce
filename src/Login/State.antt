-- ===== src/Login/State.antt =====
-- The React state of LoginPage.tsx, what it calls, its first effect and `completeHydraLogin`.
pub mod Laws
use web3_lab_public.Prelude.{
  String, Bool, true, false, not, ◌||◌, List, [], ◌∷◌, Option, ◌<>◌, is_present, option_or,
  if◌then◌else◌,
}
use web3_lab_public.Browser.{
  Trace, Request, Response, Reply, is_ok, Io, catch, set, fetch, emit, assigned, get_item, set_item,
  accept_json, pure, ◌>>=◌, ◌>>◌,
}

pub record Login : Type 0 where
  pub status : String
  pub email : String
  pub password : String
  pub siwe_loading : Bool

abbrev pub initial : Login
initial = record { status = "Initializing..."; email = ""; password = ""; siwe_loading = false }

-- A node of a Kratos form, and an entry of `continue_with`.
pub record Node : Type 0 where
  pub name : String
  pub value : Option String
  pub messages : List String

pub record Continuation : Type 0 where
  pub action : String
  pub redirect_browser_to : Option String

pub record Ui : Type 0 where
  pub action : Option String
  pub nodes : List Node
  pub messages : List String

-- What Kratos answers, with the fields that the page reads; a missing list is empty.
pub record Flow : Type 0 where
  pub redirect_browser_to : Option String
  pub continue_with : List Continuation
  pub ui : Option Ui
  pub error_message : Option String

-- `/siwe/authenticate`: the redirect on success, the message on failure.
pub record AuthBody : Type 0 where
  pub redirect_to : Option String
  pub message : Option String

pub record Services : Type 0 where
  pub gateway : String
  pub has_ethereum : Bool
  pub whoami : Trace → Request → Reply (Response (Unit {0}))
  pub request_accounts : Trace → Reply (Unit {0})
  pub signer_address : Trace → Reply String
  pub sign_typed_data : Trace → Reply String
  pub nonce : Trace → Request → Reply (Response String)
  pub authenticate : Trace → Request → Reply (Response AuthBody)
  pub login_flow : Trace → Request → Reply (Response Flow)
  pub registration_flow : Trace → Request → Reply (Response Flow)
  pub submit_form : Trace → Request → Reply (Response Flow)

abbrev pub set_status : String → Io Login (Unit {0})
set_status status = set (λ s. record s { status = status })

abbrev pub get_json : String → Request
get_json url = record { method = "GET"; url = url; headers = accept_json ∷ []; body = [] }

-- `searchParams.get('login_challenge') || localStorage.getItem('loginChallenge')`
abbrev pub challenge_of : Option String → Option String → Option String
challenge_of param stored = if is_present param then param else stored

pub login_challenge : Option String → Io Login (Option String)
login_challenge param = do stored ← get_item "loginChallenge"; pure (challenge_of param stored)

-- The effect on `[loginChallenge]`: a user who has a session already goes on at once.
unfoldable pub on_challenge : Services → Option String → Io Login (Unit {0})
on_challenge env challenge = elim (is_present challenge) [
  | true ↦ do
    set_item "loginChallenge" (option_or challenge "")
    catch
        (do
          res ← fetch env.whoami (get_json (env.gateway <> "/identity/sessions/whoami"))
          if is_ok res then emit (assigned "/") else set_status "Ready for login")
        (λ _. set_status "Ready for login")
  | false ↦ set_status "Waiting for login challenge..."
]

unfoldable pub complete_hydra_login : Io Login (Unit {0})
complete_hydra_login = do set_status "Completing login..."; emit (assigned "/")

-- The buttons of the page that are disabled: signing in wants a challenge.
unfoldable pub kratos_disabled : Option String → Bool
kratos_disabled challenge = not (is_present challenge)

unfoldable pub siwe_disabled : Option String → Login → Bool
siwe_disabled challenge s = not (is_present challenge) || s.siwe_loading
