-- ===== src/Login/Kratos/Flows.antt =====
-- What a flow of Ory Kratos asks of the login page, read off the answer.
use web3_lab_public.Prelude.{
  String, Bool, List, [], ◌∷◌, Option, none, some, ◌≡◌, ◌∙◌, sym, refl, arith, ◌==◌, is_truthy,
  is_present, option_or, find, if◌then◌else◌,
}
use web3_lab_public.Browser.{Request}
use web3_lab_public.Login.State.{Login, Services, Flow, Node, Continuation}
use web3_lab_public.Login.Kratos.{redirect_of, action_of, nodes_of, csrf_token, sign_in_form}

-- A text that is there and not empty.
abbrev pub given : Option String → Option String
given none = none
given (some s) = if is_truthy s then some s else none

abbrev continues : Continuation → Bool
continues c = c.action == "redirect_browser_to"

-- The redirect of a flow: its own, or that of its first continuation that is a redirect.
unfoldable pub redirect_in : Flow → Option String
redirect_in flow = elim (given flow.redirect_browser_to) [
  | some url ↦ some url
  | none ↦ elim (find continues flow.continue_with) [
    | none ↦ none
    | some c ↦ given c.redirect_browser_to
  ]
]

unfoldable pub action_in : Flow → Option String
action_in flow = elim flow.ui [ none ↦ none | some ui ↦ given ui.action ]

unfoldable pub nodes_in : Flow → List Node
nodes_in flow = elim flow.ui [ none ↦ [] | some ui ↦ ui.nodes ]

abbrev guards : Node → Bool
guards n = n.name == "csrf_token"

-- The token of the first node that guards the form, as an entry of the form.
abbrev pub guard_entry : List Node → List (String × String)
guard_entry nodes = elim (find guards nodes) [
  | none ↦ []
  | some n ↦ elim n.value [ none ↦ [] | some token ↦ ("csrf_token", token) ∷ [] ]
]

-- The form with the credentials, as Kratos gets it.
unfoldable pub wire_form : Login → String → List Node → Request
wire_form view url nodes = record {
  method = "POST";
  url = url;
  headers = ("Accept", "application/json") ∷ ("Content-Type", "application/json") ∷ [];
  body =
      ("method", "password")
      ∷ ("identifier", view.email)
      ∷ ("password", view.password)
      ∷ guard_entry nodes;
}

given-redirect_of : (flow : Flow) → given (redirect_of flow) ≡ redirect_in flow
unfolding redirect_of redirect_in
given-redirect_of flow = ground arith

given_lem : (o : Option String) → given o ≡ (if is_present o then some (option_or o "") else none)
given_lem none = refl
given_lem (some String.[]) = refl
given_lem (some (String.◌∷◌ c s)) = refl

pub redirect_of-in :
    (flow : Flow)
    → redirect_in flow
      ≡ (if is_present (redirect_of flow) then some (option_or (redirect_of flow) "") else none)
redirect_of-in flow = sym (given-redirect_of flow) ∙ given_lem (redirect_of flow)

pub action_of-in : (flow : Flow) → action_of flow.ui ≡ action_in flow
unfolding action_in
action_of-in flow = ground arith

pub nodes_of-in : (flow : Flow) → nodes_of flow.ui ≡ nodes_in flow
unfolding nodes_in
nodes_of-in flow = ground arith

pub sign_in_form-wire :
    (env : Services) (view : Login) (url : String) (nodes : List Node)
    → sign_in_form env view url nodes ≡ wire_form view url nodes
unfolding sign_in_form csrf_token wire_form
sign_in_form-wire env view url nodes = ground arith
