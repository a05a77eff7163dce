-- ===== src/Site/Lifecycle.antt =====
-- The dashboard before and after a session.
use web3_lab_public.Prelude.{
  String, true, [], ◌∷◌, none, some, ◌≡◌, ◌∙◌, ap, sym, refl, option_or, is_truthy,
}
use web3_lab_public.Prelude.Dict
use web3_lab_public.Prelude.Dict.{Dict}
use web3_lab_public.Browser.{World, navigated}
use web3_lab_public.Callback.{Callback, TokenBody, token_request, on_code}
use web3_lab_public.Callback.Laws.{granted, stored_after, on_code-storage}
use web3_lab_public.Dashboard.State.{Dashboard, initial}
use web3_lab_public.Dashboard.Account.{wallet_of, logout}
use web3_lab_public.Dashboard.Machine.{opened}
use web3_lab_public.Dashboard.Machine.Soundness.{opened-session}
use web3_lab_public.Dashboard.Portfolio.Loading.{dashboard_on_mount_lem}
use web3_lab_public.Dashboard.Identities.{session}
use web3_lab_public.Session.Laws.{logout-storage}
use web3_lab_public.Site.Change.{entered-session}
use web3_lab_public.Site.{Site}

module _ (env : Site) where
  -- Signing out on any dashboard closes it: a dashboard that is loaded afterwards asks nothing of
  -- the gateway and goes to the root.
  pub logout-closes :
      (w : World Dashboard)
      → let d = (logout env.dashboard_env env.encode w.state w).1.storage in
        opened env.dashboard_env d
        ≡ record { state = initial; storage = d; trace = navigated "/" ∷ [] }
  unfolding logout
  logout-closes w =
      let api = wallet_of env.dashboard_env env.encode in
      let all = logout-storage env.dashboard_env.urls api w.state.wallet_address w "access_token" in
      let d = (logout env.dashboard_env env.encode w.state w).1.storage in
      let out : session (Dict.lookup "access_token" d) ≡ none = rw all.2 refl in
      ap (λ r. r.1)
        ((dashboard_on_mount_lem env.dashboard_env
            (record { state = initial; storage = d; trace = [] })).2
          out)

  -- A code, not empty, for which the gateway grants a token opens the dashboard with that token.
  pub on_code-opens :
      (code : String) (body : TokenBody) (w : World Callback)
      → is_truthy code ≡ true
      → granted (env.callback_env.token w.trace (token_request env.callback_env code)) ≡ some body
      → (opened env.dashboard_env (on_code env.callback_env (some code) w).1.storage).state.token
        ≡ some (option_or body.access_token "")
  on_code-opens code body w c g =
      let d = (on_code env.callback_env (some code) w).1.storage in
      let stored : Dict.lookup "access_token" d
          ≡ stored_after (some body) "access_token" (Dict.lookup "access_token" w.storage) =
        (on_code-storage env.callback_env code w "access_token" c).1
        ∙ ap (λ o. stored_after o "access_token" (Dict.lookup "access_token" w.storage)) g in
      sym (opened-session env.dashboard_env d)
      ∙ entered-session _ body (Dict.lookup "access_token" w.storage) _ g stored
