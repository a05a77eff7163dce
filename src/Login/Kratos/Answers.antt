-- ===== src/Login/Kratos/Answers.antt =====
-- Signing in with an email address: every request, and where the page goes, by Kratos's answers.
use mathlib.Core.List.{append-nil}
use web3_lab_public.Prelude.{
  String, Bool, true, false, [], ◌∷◌, ◌++◌, Option, none, some, ◌<>◌, ◌≡◌, refl, arith, is_truthy,
  if◌then◌else◌,
}
use web3_lab_public.Browser.{
  Reply, ok, thrown, World, Trace, Request, Response, is_ok, fetched, assigned,
}
use web3_lab_public.Login.State.{Login, Services, Flow}
use web3_lab_public.Login.Kratos.{
  nodes_of, conclude, submit_sign_in, sign_in_by, sign_in_error, handle_email_sign_in,
  login_flow_request,
}
use web3_lab_public.Login.Kratos.Flows.{
  given, redirect_in, action_in, nodes_in, wire_form, redirect_of-in, action_of-in, nodes_of-in,
  sign_in_form-wire,
}

-- Where the answer to the form leads: to its redirect, or to the root if it has none and is no
-- refusal.
abbrev pub form_exit : Reply (Response Flow) → Option String
form_exit (thrown e) = none
form_exit (ok res) = elim res.json [
  | thrown e ↦ none
  | ok flow ↦ elim (redirect_in flow) [
    | some url ↦ some url
    | none ↦ if is_ok res then some "/" else none
  ]
]

abbrev pub exit_event : Option String → Trace
exit_event none = []
exit_event (some url) = assigned url ∷ []

abbrev pub leaves : Option String → Bool
leaves none = false
leaves (some url) = true

abbrev pub succeeds : Reply (Unit {0}) → Bool
succeeds (ok tt) = true
succeeds (thrown e) = false

-- The page is left for the exit at the end of the trace, or there is an error and it is not left.
abbrev pub Follows : Option String → Trace → Reply (Unit {0}) × World Login → Type 0
Follows exit t r = (r.1.trace ≡ t ++ exit_event exit) × (succeeds r.0 ≡ leaves exit)

pub conclude-Follows :
    (error_text : Flow → String) (res : Response Flow) (w : World Login)
    → Follows (form_exit (ok res)) w.trace (conclude error_text res w)
unfolding conclude
conclude-Follows error_text res w = go res.json refl
  where
    go :
        (j : Reply Flow)
        → res.json ≡ j
        → Follows (form_exit (ok res)) w.trace (conclude error_text res w)
    go (thrown m) j = ground (arith, j, append-nil w.trace)
    go (ok flow) j = ground (arith, j, redirect_of-in flow, append-nil w.trace)

-- The request for a flow, with the challenge of the sign-in if there is one.
abbrev pub wire_login : Services → Option String → Request
wire_login env challenge = record {
  method = "GET";
  url =
      env.gateway
      <> "/identity/self-service/login/browser"
      <> elim (given challenge) [ none ↦ "" | some c ↦ "?login_challenge=" <> c ];
  headers = ("Accept", "application/json") ∷ [];
  body = [];
}

login_flow_request-wire :
    (env : Services) (challenge : Option String)
    → login_flow_request env challenge ≡ wire_login env challenge
unfolding login_flow_request
login_flow_request-wire env none = refl
login_flow_request-wire env (some String.[]) = refl
login_flow_request-wire env (some (String.◌∷◌ c s)) = refl

-- The flow that Kratos answers with, if it can be read.
abbrev pub flow_of : Reply (Response Flow) → Option Flow
flow_of (thrown e) = none
flow_of (ok res) = elim res.json [ thrown e ↦ none | ok flow ↦ some flow ]

-- An error of the page.
abbrev error_of : Reply (Unit {0}) → String
error_of (ok tt) = ""
error_of (thrown e) = e

module _ (env : Services) (view : Login) where
  -- The form that a flow calls for: none if it redirects or has no action.
  unfoldable pub form_in : Flow → Option Request
  form_in flow = elim (redirect_in flow) [
    | some url ↦ none
    | none ↦ elim (action_in flow) [
      | none ↦ none
      | some url ↦ some (wire_form view url (nodes_in flow))
    ]
  ]

  -- Where a flow leads: to its redirect, to the answer of its form, or to the root.
  unfoldable pub flow_exit : Flow → Trace → Option String
  flow_exit flow t = elim (redirect_in flow) [
    | some url ↦ some url
    | none ↦ elim (action_in flow) [
      | none ↦ some "/"
      | some url ↦ form_exit (env.submit_form t (wire_form view url (nodes_in flow)))
    ]
  ]

  abbrev pub form_event : Option Request → Trace
  form_event none = []
  form_event (some r) = fetched r ∷ []

  submit_sign_in-Follows :
      (url : String) (flow : Flow) (w : World Login)
      → let r = wire_form view url (nodes_in flow) in
        Follows
          (form_exit (env.submit_form w.trace r))
          (w.trace ++ fetched r ∷ [])
          (submit_sign_in env view url (nodes_of flow.ui) w)
  unfolding submit_sign_in
  submit_sign_in-Follows url flow w = rw (nodes_of-in flow) (go _ refl)
    where
      request : Request
      request = wire_form view url (nodes_in flow)

      sent : World Login
      sent = record {
        state = record w.state { status = "Submitting credentials..." };
        storage = w.storage;
        trace = w.trace ++ fetched request ∷ [];
      }

      go :
          (r : Reply (Response Flow))
          → env.submit_form w.trace request ≡ r
          → Follows
              (form_exit (env.submit_form w.trace request))
              (w.trace ++ fetched request ∷ [])
              (submit_sign_in env view url (nodes_in flow) w)
      go (thrown m) e = ground (
        arith,
        e,
        append-nil (w.trace ++ fetched request ∷ []),
        sign_in_form-wire env view url (nodes_in flow),
      )
      go (ok res) e = ground (
        arith,
        e,
        conclude-Follows sign_in_error res sent,
        sign_in_form-wire env view url (nodes_in flow),
      )

  sign_in_by-Follows :
      (flow : Flow) (w : World Login)
      → Follows
          (flow_exit flow w.trace)
          (w.trace ++ form_event (form_in flow))
          (sign_in_by env view flow w)
  unfolding sign_in_by flow_exit form_in
  sign_in_by-Follows flow w = go (action_in flow) refl
    where
      go :
          (a : Option String)
          → action_in flow ≡ a
          → Follows
              (flow_exit flow w.trace)
              (w.trace ++ form_event (form_in flow))
              (sign_in_by env view flow w)
      go none a = ground (arith, a, action_of-in flow, redirect_of-in flow, append-nil w.trace)
      go (some url) a = ground (
        arith,
        a,
        action_of-in flow,
        redirect_of-in flow,
        append-nil w.trace,
        submit_sign_in-Follows url flow w,
      )

  abbrev pub answer_form : Option Flow → Option Request
  answer_form none = none
  answer_form (some flow) = form_in flow

  abbrev pub answer_exit : Option Flow → Trace → Option String
  answer_exit none t = none
  answer_exit (some flow) t = flow_exit flow t

  abbrev pub asked : Option String → World Login → Trace
  asked challenge w = w.trace ++ fetched (wire_login env challenge) ∷ []

  -- The flow of the answer, and where it leads.
  abbrev pub answered : Option String → World Login → Option Flow
  answered challenge w = flow_of (env.login_flow w.trace (wire_login env challenge))

  abbrev pub exit_of : Option String → World Login → Option String
  exit_of challenge w = answer_exit (answered challenge w) (asked challenge w)

  -- An error is shown.
  pub record IsRefused (v : World Login) : Type 0 where
    pub error : String
    pub shown : v.state.status ≡ "Sign In Error: " <> error

  pub record IsAnswered (challenge : Option String) (w v : World Login) : Type 0 where
    pub sent :
        v.trace
        ≡ asked challenge w
          ++ form_event (answer_form (answered challenge w))
          ++ exit_event (exit_of challenge w)
    pub refused : exit_of challenge w ≡ none → IsRefused v

  -- With an email address and a password Kratos is asked for a flow, and each of its answers
  -- determines the events: the credentials are posted at most once, as JSON, to the action of the
  -- flow, with the value of its first node named `csrf_token`, and not at all if the flow redirects,
  -- has no action or cannot be read. The page is left at most once: for the redirect of the flow; for
  -- the redirect of the form's answer, even of a refusal; or for the root, if the answer has no
  -- redirect and is no refusal, or the flow has no redirect and no action. Where the page is not left
  -- its status is an error.
  pub handle_email_sign_in-IsAnswered :
      (challenge : Option String) (w : World Login)
      → is_truthy view.email ≡ true
      → is_truthy view.password ≡ true
      → IsAnswered challenge w (handle_email_sign_in env challenge view w).1
  unfolding handle_email_sign_in
  handle_email_sign_in-IsAnswered challenge w m p = go (env.login_flow w.trace request) refl
    where
      request : Request
      request = wire_login env challenge

      sent : World Login
      sent = record {
        state = record w.state { status = "Initiating Email Sign In..." };
        storage = w.storage;
        trace = asked challenge w;
      }

      Goal : Type 0
      Goal = IsAnswered challenge w (handle_email_sign_in env challenge view w).1

      signed :
          (res : Response Flow) (flow : Flow) (r : Reply (Unit {0}) × World Login)
          → env.login_flow w.trace request ≡ ok res
          → res.json ≡ ok flow
          → sign_in_by env view flow sent ≡ r
          → Follows
              (flow_exit flow (asked challenge w))
              (asked challenge w ++ form_event (form_in flow))
              r
          → Goal
      signed res flow (ok tt, v) e j d f = record {
        sent = ground (arith, m, p, e, j, d, f, login_flow_request-wire env challenge);
        refused = λ n. ground (arith, e, j, f, n);
      }
      signed res flow (thrown x, v) e j d f = record {
        sent = ground (arith, m, p, e, j, d, f, login_flow_request-wire env challenge);
        refused = λ n. record {
          error = x;
          shown = ground (arith, m, p, e, j, d, login_flow_request-wire env challenge);
        };
      }

      unread :
          (x : String)
          → (handle_email_sign_in env challenge view w).1
            ≡ record sent { state = record w.state { status = "Sign In Error: " <> x } }
          → answered challenge w ≡ none
          → Goal
      unread x h a = record {
        sent = ground (arith, h, a, append-nil (asked challenge w));
        refused = λ n. record { error = x; shown = ground (arith, h) };
      }

      read :
          (res : Response Flow) (j : Reply Flow)
          → env.login_flow w.trace request ≡ ok res
          → res.json ≡ j
          → Goal
      read res (thrown x) e j =
          unread x (ground (arith, m, p, e, j, login_flow_request-wire env challenge))
            (ground (arith, e, j))
      read res (ok flow) e j = signed res flow _ e j refl (sign_in_by-Follows flow sent)

      go : (r : Reply (Response Flow)) → env.login_flow w.trace request ≡ r → Goal
      go (ok res) e = read res res.json e refl
      go (thrown x) e =
          unread x (ground (arith, m, p, e, login_flow_request-wire env challenge))
            (ground (arith, e))
