-- ===== src/Home.antt =====
-- The home page (frontend/app/src/pages/HomePage.tsx), the routes of frontend/app/src/App.tsx and
-- the start in frontend/app/src/main.tsx.
pub mod Laws
use web3_lab_public.Prelude.{
  ℕ, String, Bool, true, false, not, List, [], ◌∷◌, Option, none, some, ◌<>◌, ◌==◌, if◌then◌else◌,
}
use web3_lab_public.Browser.{
  Trace, Request, Response, Reply, Urls, Io, World, catch, await, set, fetch, emit, assigned, done,
  when, pure, ◌>>=◌, ◌>>◌,
}

-- `searchParams.get('logout') === 'true'`
abbrev pub just_logged_out : Option String → Bool
just_logged_out none = false
just_logged_out (some v) = v == "true"

-- The address of the authorization endpoint; `encode` is `encodeURIComponent`, and `state` a UUID
-- with no dashes.
pub auth_url : Urls → (String → String) → String → String
auth_url urls encode state =
    urls.gateway
    <> "/oauth2/auth?client_id="
    <> urls.client_id
    <> "&response_type=code&redirect_uri="
    <> encode ("https://" <> urls.auth_domain <> "/callback")
    <> "&scope=openid offline_access&state="
    <> state

unfoldable pub handle_login : {S : Type 0} → Urls → (String → String) → String → Io S (Unit {0})
unfolding auth_url
handle_login urls encode state = emit (assigned (auth_url urls encode state))

-- The effect of the first render: the flow starts by itself, unless the user has just signed out.
unfoldable pub on_mount :
    {S : Type 0} → Urls → (String → String) → String → Option String → Io S (Unit {0})
unfolding handle_login
on_mount urls encode state logout =
    when (not (just_logged_out logout)) (handle_login urls encode state)

-- The texts of the page, and whether it has the button to sign in.
pub record HomeView : Type 0 where
  pub texts : List String
  pub has_sign_in : Bool

unfoldable pub view : Option String → HomeView
view logout =
    if just_logged_out logout
    then record {
      texts = "Web3 Test Portal" ∷ "You have been signed out successfully." ∷ [];
      has_sign_in = true;
    }
    else record { texts = "Web3 Test Portal" ∷ "Redirecting to login..." ∷ []; has_sign_in = false }

-- The pages of the router, and its redirects.
pub data Page : Type 0 where
  home login callback dashboard : Page

pub data Route : Type 0 where
  show : Page → Route
  redirect : (path query : String) → Route

-- `<Routes>`: the route of a path.
unfoldable pub route : String → Route
route path =
    if path == "/"
    then show home
    else if path == "/login"
    then show login
    else if path == "/callback"
    then show callback
    else if path == "/profile"
    then redirect "/dashboard" ""
    else if path == "/dashboard"
    then show dashboard
    else if path == "/logout"
    then redirect "/" "?logout=true"
    else redirect "/" ""

-- main.tsx: the configuration is loaded before the application is rendered.
pub data Start : Type 0 where
  loading failed : Start
  rendered : Urls → Start

unfoldable pub start : (Trace → Request → Reply (Response Urls)) → Io Start (Unit {0})
start config =
    catch
      (do
        res ←
            fetch config (record { method = "GET"; url = "/config.json"; headers = []; body = [] })
        urls ← await res.json
        set (λ _. rendered urls))
      (λ _. set (λ _. failed))
