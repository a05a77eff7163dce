-- ===== src/Login/Kratos.antt =====
-- The ways to sign in through Ory Kratos of LoginPage.tsx: `handleGoogleLogin`, `handleEmailSignIn`
-- and `handleEmailSignUp`.
pub mod Laws
pub mod Flows
pub mod Answers
pub mod Registering
use web3_lab_public.Prelude.{
  ℕ, String, Bool, true, false, not, ◌||◌, List, [], ◌∷◌, ◌++◌, Option, none, some, ◌<>◌, ◌==◌,
  is_present, is_truthy, option_or, text_or, if◌then◌else◌, find, nat_eq, head?,
}
use web3_lab_public.Text.{print}
use web3_lab_public.Browser.{
  Request, Response, is_ok, Io, pure, throw, catch, await, set, fetch, emit, assigned, submitted,
  accept_json, json_type, done, ◌>>=◌, ◌>>◌,
}
use web3_lab_public.Login.State.{
  Login, Services, Flow, Ui, Node, Continuation, set_status, get_json, complete_hydra_login,
}

abbrev is_csrf : Node → Bool
is_csrf n = n.name == "csrf_token"

-- `nodes.find(..)?.attributes.value`
unfoldable pub csrf_token : List Node → Option String
csrf_token nodes = elim (find is_csrf nodes) [ none ↦ none | some n ↦ n.value ]

abbrev is_redirect : Continuation → Bool
is_redirect c = c.action == "redirect_browser_to"

abbrev continued : List Continuation → Option String
continued cs = elim (find is_redirect cs) [ none ↦ none | some c ↦ c.redirect_browser_to ]

-- `redirect_browser_to || continue_with?.find(..)?.redirect_browser_to`
unfoldable pub redirect_of : Flow → Option String
redirect_of flow =
    if is_present flow.redirect_browser_to
    then flow.redirect_browser_to
    else continued flow.continue_with

-- `ui?.action`, absent also when it is empty
abbrev pub action_of : Option Ui → Option String
action_of none = none
action_of (some ui) = if is_present ui.action then ui.action else none

abbrev pub nodes_of : Option Ui → List Node
nodes_of none = []
nodes_of (some ui) = ui.nodes

abbrev pub messages_of : Option Ui → List String
messages_of none = []
messages_of (some ui) = ui.messages

-- `JSON.stringify` leaves out a token that is `undefined`.
abbrev pub csrf_entry : Option String → List (String × String)
csrf_entry none = []
csrf_entry (some token) = ("csrf_token", token) ∷ []

abbrev has_messages : Node → Bool
has_messages n = elim n.messages [ [] ↦ false | _ ∷ _ ↦ true ]

abbrev node_message : List Node → Option String
node_message nodes = elim (find has_messages nodes) [ none ↦ none | some n ↦ head? n.messages ]

abbrev pub sign_in_error : Flow → String
sign_in_error flow = option_or (head? (messages_of flow.ui)) "Invalid credentials"

abbrev pub sign_up_error : Flow → String
sign_up_error flow =
    option_or (head? (messages_of flow.ui))
      (option_or (node_message (nodes_of flow.ui)) "Registration failed")

abbrev pub form_request : String → List (String × String) → Request
form_request url body = record {
  method = "POST";
  url = url;
  headers = accept_json ∷ json_type ∷ [];
  body = body;
}

-- What follows the answer to the submitted form, in both flows: the redirect comes first, since
-- Kratos answers 422 with a redirect on success.
unfoldable pub conclude : (Flow → String) → Response Flow → Io Login (Unit {0})
unfolding complete_hydra_login
conclude error_text res = do
  flow ← await res.json
  elim (is_present (redirect_of flow)) [
    | true ↦ emit (assigned (option_or (redirect_of flow) ""))
    | false ↦ elim (is_ok res) [ true ↦ complete_hydra_login | false ↦ throw (error_text flow) ]
  ]

-- `if (!email || !password)`
abbrev pub lacks_credentials : Login → Bool
lacks_credentials view = not (is_truthy view.email) || not (is_truthy view.password)

module _ (env : Services) where
  pub login_flow_request : Option String → Request
  login_flow_request challenge = get_json (
      env.gateway
      <> "/identity/self-service/login/browser"
      <> (if is_present challenge then "?login_challenge=" <> option_or challenge "" else ""))

  abbrev google_form : String → String → Request
  google_form url token = record {
    method = "POST";
    url = url;
    headers = [];
    body = ("csrf_token", token) ∷ ("provider", "google") ∷ [];
  }

  -- The form is submitted by the browser, which leaves the page.
  pub google_submit : Ui → Io Login (Unit {0})
  google_submit ui = elim (is_present ui.action) [
    | true ↦ elim (is_present (csrf_token ui.nodes)) [
      | true ↦
          emit
            (submitted (google_form (option_or ui.action "") (option_or (csrf_token ui.nodes) "")))
      | false ↦ throw "Could not initialize OIDC flow from Kratos."
    ]
    | false ↦ throw "Could not initialize OIDC flow from Kratos."
  ]

  abbrev pub undefined_action : String
  undefined_action = "Cannot read properties of undefined (reading 'action')"

  unfoldable pub handle_google_login : Option String → Io Login (Unit {0})
  unfolding login_flow_request google_submit
  handle_google_login challenge = do
    set_status "Initiating Google Login..."
    catch
        (do
          res ← fetch env.login_flow (login_flow_request challenge)
          flow ← await res.json
          elim flow.ui [ none ↦ throw undefined_action | some ui ↦ google_submit ui ])
        (λ e. set_status ("Google Flow Error: " <> e))

  pub sign_in_form : Login → String → List Node → Request
  sign_in_form view url nodes = form_request url (
      ("method", "password")
      ∷ ("identifier", view.email)
      ∷ ("password", view.password)
      ∷ csrf_entry (csrf_token nodes))

  pub submit_sign_in : Login → String → List Node → Io Login (Unit {0})
  unfolding sign_in_form conclude
  submit_sign_in view url nodes = do
    set_status "Submitting credentials..."
    res ← fetch env.submit_form (sign_in_form view url nodes)
    conclude sign_in_error res

  -- A user who has a session is redirected, or has no form to fill in.
  pub sign_in_by : Login → Flow → Io Login (Unit {0})
  unfolding submit_sign_in complete_hydra_login
  sign_in_by view flow = elim (is_present (redirect_of flow)) [
    | true ↦ emit (assigned (option_or (redirect_of flow) ""))
    | false ↦ elim (action_of flow.ui) [
      | none ↦ complete_hydra_login
      | some url ↦ submit_sign_in view url (nodes_of flow.ui)
    ]
  ]

  unfoldable pub handle_email_sign_in : Option String → Login → Io Login (Unit {0})
  unfolding login_flow_request sign_in_by
  handle_email_sign_in challenge view = elim (lacks_credentials view) [
    | true ↦ set_status "Please enter email and password"
    | false ↦ do
      set_status "Initiating Email Sign In..."
      catch
          (do
            res ← fetch env.login_flow (login_flow_request challenge)
            flow ← await res.json
            sign_in_by view flow)
          (λ e. set_status ("Sign In Error: " <> e))
  ]

  abbrev registration_failed : ℕ → String
  registration_failed status = "Registration failed (" <> print status <> ")"

  -- `await res.json().catch(() => ({}))` and its error's message
  pub registration_error : Response Flow → Io Login String
  registration_error res =
      catch
        (do
          flow ← await res.json
          pure (option_or flow.error_message (registration_failed res.status)))
        (λ _. pure (registration_failed res.status))

  -- The entry `traits.email` is the field `email` of the nested object `traits`.
  pub sign_up_form : Login → String → List Node → Request
  sign_up_form view url nodes = form_request url (
      ("method", "password")
      ∷ ("traits.email", view.email)
      ∷ ("password", view.password)
      ∷ csrf_entry (csrf_token nodes))

  pub submit_sign_up : Login → Flow → Io Login (Unit {0})
  unfolding sign_up_form conclude
  submit_sign_up view flow = elim (action_of flow.ui) [
    | none ↦ throw "Invalid registration flow"
    | some url ↦ do
      set_status "Submitting registration..."
      res ← fetch env.submit_form (sign_up_form view url (nodes_of flow.ui))
      conclude sign_up_error res
  ]

  -- 400 typically means that the user has a session.
  pub refused : Response Flow → Io Login (Unit {0})
  unfolding registration_error complete_hydra_login
  refused res = elim (nat_eq res.status 400) [
    | true ↦ do
      set_status "You already have an active session. Completing login..."
      complete_hydra_login
    | false ↦ do message ← registration_error res; throw message
  ]

  pub register : Login → Io Login (Unit {0})
  unfolding submit_sign_up refused
  register view = do
    res ←
        fetch env.registration_flow
          (get_json (env.gateway <> "/identity/self-service/registration/browser"))
    elim (is_ok res) [
      | true ↦ do flow ← await res.json; submit_sign_up view flow
      | false ↦ refused res
    ]

  unfoldable pub handle_email_sign_up : Login → Io Login (Unit {0})
  unfolding register
  handle_email_sign_up view = elim (lacks_credentials view) [
    | true ↦ set_status "Please enter email and password"
    | false ↦ do
      set_status "Initiating Email Sign Up..."
      catch (register view) (λ e. set_status ("Sign Up Error: " <> e))
  ]
