-- ===== src/Home/Laws.antt =====
-- The start of the login flow and the routes.
use web3_lab_public.Prelude.{String, [], ◌∷◌, ◌++◌, Option, ◌≡◌, arith, ◌==◌, ◌||◌, if◌then◌else◌}
use web3_lab_public.Browser.{ok, World, Urls, assigned}
use web3_lab_public.Home.{
  just_logged_out, auth_url, on_mount, view, Page, home, login, callback, dashboard, Route, show,
  redirect, route,
}

-- The page that a path should lead to.
abbrev pub landing : String → Page
landing path =
    if path == "/"
    then home
    else if path == "/login"
    then login
    else if path == "/callback"
    then callback
    else if path == "/profile" || path == "/dashboard"
    then dashboard
    else home

abbrev pub Lands : Route → Page → Type 0
Lands (show p) q = p ≡ q
Lands (redirect target _) q = route target ≡ show q

-- Every path leads to its page, after one redirect at most; an unknown one leads home.
pub route-landing : (path : String) → Lands (route path) (landing path)
unfolding route
route-landing path = ground arith

-- The home page either shows the button to sign in or starts the login flow by itself: the button
-- right after signing out, the flow with one assignment of the location otherwise.
pub on_mount-view :
    {S : Type 0} (urls : Urls) (encode : String → String) (state : String) (logout : Option String)
    (w : World S)
    → ((view logout).has_sign_in ≡ just_logged_out logout)
      × (on_mount urls encode state logout w ≡ (
        ok tt,
        (if (view logout).has_sign_in
            then w
            else record w { trace = w.trace ++ assigned (auth_url urls encode state) ∷ [] }),
      ))
unfolding on_mount view
on_mount-view urls encode state logout w = ground arith
