-- ===== src/Browser.antt =====
-- The browser as the pages see it (frontend/app/src): a page's React state, `localStorage`, and the
-- trace of what the page has asked of the world outside. The asynchronous functions are written in
-- a state and exception monad; an oracle answers each request from the trace so far, so that
-- nothing is assumed of two answers. A function runs with no other event at its awaits, and what it
-- read from the closure of a render is an argument of its model.
use web3_lab_public.Prelude.{
  ℕ, String, Bool, true, false, List, [], ◌∷◌, ◌++◌, Option, none, some, ◌<>◌, leb, ◌&&◌,
}
use web3_lab_public.Prelude.Dict
use web3_lab_public.Prelude.Dict.{Dict}

-- `fetch(url, { method, headers, body })`; the body is the object given to `JSON.stringify`, or the
-- form's pairs, in the order of the source.
pub record Request : Type 0 where
  pub method : String
  pub url : String
  pub headers : List (String × String)
  pub body : List (String × String)

-- What a `setTimeout` of the pages does when it fires.
pub data Later : Type 0 where
  clear_field_copied clear_tx_copied clear_scw_copied clear_contract_copied : Later
  clear_address_copied clear_token_copied clear_switch_status : Later
  go_to : String → Later

pub data Event : Type 0 where
  fetched : Request → Event
  wallet : (method : String) → (params : List String) → Event
  asked : (question : String) → Event
  called : (contract function : String) → (args : List String) → Event
  awaited : (transaction : String) → Event
  stored : (key value : String) → Event
  removed : (key : String) → Event
  navigated : (path : String) → Event
  assigned : (url : String) → Event
  opened : (url : String) → Event
  copied : (text : String) → Event
  submitted : Request → Event
  scheduled : ℕ → Later → Event
  written : (file : String) (content : List (String × String)) → Event

abbrev pub Trace : Type 0
Trace = List Event

-- A settled promise: its value, or the message of the error that it rejects with.
pub data Reply (A : Type 0) : Type 0 where
  ok : A → Reply A
  thrown : String → Reply A

-- A response to `fetch`: its status, and what its `json()` settles to.
pub record Response (B : Type 0) : Type 0 where
  pub status : ℕ
  pub json : Reply B

-- `res.ok`
abbrev pub is_ok : {B : Type 0} → Response B → Bool
is_ok r = leb 200 r.status && leb r.status 299

pub record World (S : Type 0) : Type 0 where
  pub state : S
  pub storage : Dict
  pub trace : Trace

abbrev pub Io : Type 0 → Type 0 → Type 0
Io S A = World S → Reply A × World S

module _ {S : Type 0} where
  abbrev pub pure : {A : Type 0} → A → Io S A
  pure a w = (ok a, w)

  abbrev pub throw : {A : Type 0} → String → Io S A
  throw e w = (thrown e, w)

  abbrev pub resume : {A B : Type 0} → Reply A × World S → (A → Io S B) → Reply B × World S
  resume (ok a, w) f = f a w
  resume (thrown e, w) f = (thrown e, w)

  infixl 5 ◌>>=◌ ◌>>◌
  abbrev pub ◌>>=◌ : {A B : Type 0} → Io S A → (A → Io S B) → Io S B
  ◌>>=◌ m f w = resume (m w) f

  abbrev pub ◌>>◌ : {A B : Type 0} → Io S A → Io S B → Io S B
  ◌>>◌ m k w = resume (m w) (λ _. k)

  abbrev pub recover : {A : Type 0} → Reply A × World S → (String → Io S A) → Reply A × World S
  recover (ok a, w) h = (ok a, w)
  recover (thrown e, w) h = h e w

  -- `try { m } catch (e) { h e }`
  abbrev pub catch : {A : Type 0} → Io S A → (String → Io S A) → Io S A
  catch m h w = recover (m w) h

  abbrev pub conclude : {A : Type 0} → Reply A × World S → Io S (Unit {0}) → Reply A × World S
  conclude (ok a, w) last = resume (last w) (λ _. pure a)
  conclude (thrown e, w) last = resume (last w) (λ _. throw e)

  -- `try { m } finally { last }`
  abbrev pub finally : {A : Type 0} → Io S A → Io S (Unit {0}) → Io S A
  finally m last w = conclude (m w) last

  -- A settled promise is awaited.
  abbrev pub await : {A : Type 0} → Reply A → Io S A
  await r w = (r, w)

  -- The setters of one `useState` hook or of several in a row.
  abbrev pub set : (S → S) → Io S (Unit {0})
  set f w = (ok tt, record w { state = f w.state })

  abbrev pub emit : Event → Io S (Unit {0})
  emit e w = (ok tt, record w { trace = w.trace ++ e ∷ [] })

  -- An event that the world outside answers, by what has happened before it.
  abbrev pub ask : {A : Type 0} → Event → (Trace → Reply A) → Io S A
  ask e answer w = (answer w.trace, record w { trace = w.trace ++ e ∷ [] })

  abbrev pub fetch :
      {B : Type 0} → (Trace → Request → Reply (Response B)) → Request → Io S (Response B)
  fetch answer r = ask (fetched r) (λ t. answer t r)

  -- `localStorage.getItem`, `setItem`, `removeItem`
  abbrev pub get_item : String → Io S (Option String)
  get_item k w = (ok (Dict.lookup k w.storage), w)

  abbrev pub set_item : String → String → Io S (Unit {0})
  set_item k v w =
      (ok tt, record w { storage = Dict.insert k v w.storage; trace = w.trace ++ stored k v ∷ [] })

  abbrev pub remove_item : String → Io S (Unit {0})
  remove_item k w =
      (ok tt, record w { storage = Dict.erase k w.storage; trace = w.trace ++ removed k ∷ [] })

  -- The return at an early exit.
  abbrev pub done : Io S (Unit {0})
  done = pure tt

  -- `if (b) m`
  abbrev pub when : Bool → Io S (Unit {0}) → Io S (Unit {0})
  when b m = elim b [ true ↦ m | false ↦ done ]

-- A request with the bearer token of the session.
abbrev pub bearer : String → String × String
bearer token = ("Authorization", "Bearer " <> token)

abbrev pub json_type : String × String
json_type = ("Content-Type", "application/json")

abbrev pub accept_json : String × String
accept_json = ("Accept", "application/json")

-- The endpoints of one deployment.
pub record Urls : Type 0 where
  pub gateway : String
  pub client_id : String
  pub auth_domain : String
  pub origin : String
  pub blockscout : String
  pub blockscout_api : String

-- The first account that the wallet offers: `accounts?.[0]`.
abbrev pub first_account : Option (List String) → Option String
first_account none = none
first_account (some []) = none
first_account (some (a ∷ _)) = some a
