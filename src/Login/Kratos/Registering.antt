-- ===== src/Login/Kratos/Registering.antt =====
-- Signing up with an email address: every request, and where the page goes, by Kratos's answers.
use mathlib.Core.List.{append-nil}
use web3_lab_public.Prelude.{
  String, true, List, [], ◌∷◌, ◌++◌, Option, none, some, ◌<>◌, ◌≡◌, refl, arith, is_truthy, nat_eq,
  if◌then◌else◌,
}
use web3_lab_public.Browser.{Reply, ok, thrown, World, Trace, Request, Response, is_ok, fetched}
use web3_lab_public.Login.State.{Login, Services, Flow, Node}
use web3_lab_public.Login.Kratos.{
  sign_up_form, submit_sign_up, sign_up_error, refused, register, handle_email_sign_up, csrf_token,
}
use web3_lab_public.Login.Kratos.Flows.{action_in, nodes_in, guard_entry, action_of-in, nodes_of-in}
use web3_lab_public.Login.Kratos.Answers.{
  Follows, form_exit, exit_event, form_event, conclude-Follows,
}

-- The form of a registration, as Kratos gets it.
unfoldable pub wire_registration : Login → String → List Node → Request
wire_registration view url nodes = record {
  method = "POST";
  url = url;
  headers = ("Accept", "application/json") ∷ ("Content-Type", "application/json") ∷ [];
  body =
      ("method", "password")
      ∷ ("traits.email", view.email)
      ∷ ("password", view.password)
      ∷ guard_entry nodes;
}

abbrev pub wire_start : Services → Request
wire_start env = record {
  method = "GET";
  url = env.gateway <> "/identity/self-service/registration/browser";
  headers = ("Accept", "application/json") ∷ [];
  body = [];
}

sign_up_form-wire :
    (env : Services) (view : Login) (url : String) (nodes : List Node)
    → sign_up_form env view url nodes ≡ wire_registration view url nodes
unfolding sign_up_form csrf_token wire_registration
sign_up_form-wire env view url nodes = ground arith

module _ (env : Services) (view : Login) where
  -- The form that a flow calls for, if it has an action.
  unfoldable pub form_in : Flow → Option Request
  form_in flow = elim (action_in flow) [
    | none ↦ none
    | some url ↦ some (wire_registration view url (nodes_in flow))
  ]

  -- Where the answer to the form leads; without a form nowhere.
  unfoldable pub flow_exit : Flow → Trace → Option String
  flow_exit flow t = elim (form_in flow) [
    | none ↦ none
    | some request ↦ form_exit (env.submit_form t request)
  ]

  abbrev pub answer_form : Reply (Response Flow) → Option Request
  answer_form (thrown e) = none
  answer_form (ok res) =
      if is_ok res then elim res.json [ thrown e ↦ none | ok flow ↦ form_in flow ] else none

  -- A user who has a session, for whom Kratos answers 400, goes to the root.
  abbrev pub answer_exit : Reply (Response Flow) → Trace → Option String
  answer_exit (thrown e) t = none
  answer_exit (ok res) t =
      if is_ok res
      then elim res.json [ thrown e ↦ none | ok flow ↦ flow_exit flow t ]
      else if nat_eq res.status 400
      then some "/"
      else none

  submit_sign_up-Follows :
      (flow : Flow) (w : World Login)
      → Follows
          (flow_exit flow w.trace)
          (w.trace ++ form_event env view (form_in flow))
          (submit_sign_up env view flow w)
  unfolding submit_sign_up flow_exit form_in
  submit_sign_up-Follows flow w = by_action (action_in flow) refl
    where
      Goal : Type 0
      Goal =
          Follows (flow_exit flow w.trace) (w.trace ++ form_event env view (form_in flow))
            (submit_sign_up env view flow w)

      sent : Request → World Login
      sent request = record {
        state = record w.state { status = "Submitting registration..." };
        storage = w.storage;
        trace = w.trace ++ fetched request ∷ [];
      }

      go :
          (url : String) (r : Reply (Response Flow))
          → action_in flow ≡ some url
          → env.submit_form w.trace (wire_registration view url (nodes_in flow)) ≡ r
          → Goal
      go url (thrown m) a e =
          let request = wire_registration view url (nodes_in flow) in
          ground (
            arith,
            a,
            e,
            action_of-in flow,
            nodes_of-in flow,
            sign_up_form-wire env view url (nodes_in flow),
            append-nil (w.trace ++ fetched request ∷ []),
          )
      go url (ok res) a e =
          let request = wire_registration view url (nodes_in flow) in
          ground (
            arith,
            a,
            e,
            action_of-in flow,
            nodes_of-in flow,
            sign_up_form-wire env view url (nodes_in flow),
            conclude-Follows sign_up_error res (sent request),
          )

      by_action : (a : Option String) → action_in flow ≡ a → Goal
      by_action none a = ground (arith, a, action_of-in flow, append-nil w.trace)
      by_action (some url) a = go url _ a refl

  abbrev pub asked : World Login → Trace
  asked w = w.trace ++ fetched (wire_start env) ∷ []

  abbrev pub answer : World Login → Reply (Response Flow)
  answer w = env.registration_flow w.trace (wire_start env)

  abbrev pub exit_of : World Login → Option String
  exit_of w = answer_exit (answer w) (asked w)

  register-Follows :
      (w : World Login)
      → Follows
          (exit_of w)
          (asked w ++ form_event env view (answer_form (answer w)))
          (register env view w)
  unfolding register refused
  register-Follows w = go (answer w) refl
    where
      Goal : Type 0
      Goal =
          Follows (exit_of w) (asked w ++ form_event env view (answer_form (answer w)))
            (register env view w)

      sent : World Login
      sent = record w { trace = asked w }

      read : (res : Response Flow) (j : Reply Flow) → answer w ≡ ok res → res.json ≡ j → Goal
      read res (thrown m) e j = ground (arith, e, j, append-nil (asked w))
      read res (ok flow) e j =
          ground (arith, e, j, append-nil (asked w), submit_sign_up-Follows flow sent)

      go : (r : Reply (Response Flow)) → answer w ≡ r → Goal
      go (thrown m) e = ground (arith, e, append-nil (asked w))
      go (ok res) e = read res res.json e refl

  -- An error is shown.
  pub record IsRefused (v : World Login) : Type 0 where
    pub error : String
    pub shown : v.state.status ≡ "Sign Up Error: " <> error

  pub record IsRegistered (w v : World Login) : Type 0 where
    pub sent :
        v.trace ≡ asked w ++ form_event env view (answer_form (answer w)) ++ exit_event (exit_of w)
    pub refused : exit_of w ≡ none → IsRefused v

  -- With an email address and a password Kratos is asked for a registration, and each of its answers
  -- determines the events: the address, as the trait `email`, and the password are posted at most
  -- once, as JSON, to the action of the flow, with the value of its first node named `csrf_token`,
  -- and only if the flow is no refusal, can be read and has an action. The page is left at most once:
  -- for the redirect of the form's answer, even of a refusal; for the root, if that answer has no
  -- redirect and is no refusal; or for the root, if Kratos refuses the registration with 400. Where
  -- the page is not left its status is an error.
  pub handle_email_sign_up-IsRegistered :
      (w : World Login)
      → is_truthy view.email ≡ true
      → is_truthy view.password ≡ true
      → IsRegistered w (handle_email_sign_up env view w).1
  unfolding handle_email_sign_up
  handle_email_sign_up-IsRegistered w m p = go _ refl (register-Follows begun)
    where
      begun : World Login
      begun = record w { state = record w.state { status = "Initiating Email Sign Up..." } }

      go :
          (r : Reply (Unit {0}) × World Login)
          → register env view begun ≡ r
          → Follows (exit_of w) (asked w ++ form_event env view (answer_form (answer w))) r
          → IsRegistered w (handle_email_sign_up env view w).1
      go (ok tt, v) d f = record {
        sent = ground (arith, m, p, d, f);
        refused = λ n. ground (arith, f, n);
      }
      go (thrown x, v) d f = record {
        sent = ground (arith, m, p, d, f);
        refused = λ n. record { error = x; shown = ground (arith, m, p, d) };
      }
