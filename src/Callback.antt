-- ===== src/Callback.antt =====
-- The OAuth2 callback page (frontend/app/src/pages/CallbackPage.tsx).
pub mod Laws
use web3_lab_public.Prelude.{
  String, List, [], ◌∷◌, Option, none, some, ◌<>◌, is_present, option_or, true, false,
}
use web3_lab_public.Browser.{
  Trace, Request, Response, Reply, Urls, Io, catch, await, set, fetch, emit, navigated, set_item,
  remove_item, done, when, ◌>>=◌, ◌>>◌,
}

pub record Callback : Type 0 where
  pub status : String

abbrev pub initial : Callback
initial = record { status = "Exchanging authorization code..." }

-- The answer of `/oauth2/token`; `text` is the whole answer as `JSON.stringify` writes it.
pub record TokenBody : Type 0 where
  pub access_token : Option String
  pub id_token : Option String
  pub text : String

pub record Services : Type 0 where
  pub urls : Urls
  pub token : Trace → Request → Reply (Response TokenBody)

abbrev set_status : String → Io Callback (Unit {0})
set_status status = set (λ s. record s { status = status })

module _ (env : Services) where
  pub token_request : String → Request
  token_request code = record {
    method = "POST";
    url = env.urls.gateway <> "/oauth2/token";
    headers = ("Content-Type", "application/x-www-form-urlencoded") ∷ [];
    body =
        ("grant_type", "authorization_code")
        ∷ ("code", code)
        ∷ ("redirect_uri", "https://" <> env.urls.auth_domain <> "/callback")
        ∷ ("client_id", env.urls.client_id)
        ∷ [];
  }

  -- The session is stored, and the page left; the challenge of the login is used up.
  pub store_session : TokenBody → Io Callback (Unit {0})
  store_session body = elim (is_present body.access_token) [
    | true ↦ do
      set_item "access_token" (option_or body.access_token "")
      when (is_present body.id_token) (set_item "id_token" (option_or body.id_token ""))
      remove_item "loginChallenge"
      emit (navigated "/profile")
    | false ↦ set_status ("Failed to get access token: " <> body.text)
  ]

  pub exchange_code : String → Io Callback (Unit {0})
  exchange_code code =
      catch
        (do res ← fetch env.token (token_request code); body ← await res.json; store_session body)
        (λ e. set_status ("Error during token exchange: " <> e))

  -- The effect on `[code]`.
  unfoldable pub on_code : Option String → Io Callback (Unit {0})
  on_code code = elim (is_present code) [
    | true ↦ exchange_code (option_or code "")
    | false ↦ set_status "Error: No authorization code found in URL."
  ]
