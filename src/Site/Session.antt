-- ===== src/Site/Session.antt =====
-- The session of the pages together refines a machine with one token: it is kept, entered with a
-- token that the gateway grants, or left.
use web3_lab_public.Prelude.{◌∙◌, ap, inl, inr, ◌⊎◌, String, [], Option, none, some, ◌≡◌, refl}
use web3_lab_public.Prelude.Dict
use web3_lab_public.Prelude.Dict.{Dict, lookup-insert, lookup-erase}
use web3_lab_public.Browser.{World}
use web3_lab_public.Dashboard.Identities.{session}
use web3_lab_public.Callback
use web3_lab_public.Callback.{Callback, TokenBody, token_request, on_code}
use web3_lab_public.Dashboard.State.{Dashboard, initial}
use web3_lab_public.Dashboard.Portfolio.Loading.{dashboard_on_mount_lem}
use web3_lab_public.Dashboard.Machine.Frames.{IsQuiet, Step-IsFramed}
use web3_lab_public.Dashboard.Machine.Soundness.{opened-session, opened-IsSound}
use web3_lab_public.Login.State
use web3_lab_public.Login.State.{Login, complete_hydra_login}
use web3_lab_public.Login.State.Laws.{on_challenge-others}
use web3_lab_public.Login.Siwe.Laws.{handle_siwe_login-others}
use web3_lab_public.Login.Kratos.Laws.{
  handle_google_login_settles, handle_email_sign_in_settles, handle_email_sign_up_settles,
}
use web3_lab_public.Home.{Page, home, login, callback, dashboard}
use web3_lab_public.Site.Change.{Change, IsGranted, access, on_code-Change}
use web3_lab_public.Site.{Site, Tab, at_dashboard, challenge, storage_of, load, Visit, Visited}

-- What holds of a tab between two visits: the dashboard is quiet, and its token was granted.
pub record IsServed (env : Site) (w : World Dashboard) : Type 0 where
  pub quiet : IsQuiet w
  pub served : (token : String) → w.state.token ≡ some token → IsGranted env.callback_env token

abbrev pub Holds : Site → Tab → Type 0
Holds env (at_dashboard w) = IsServed env w
Holds env _ = Unit

-- The session's token that a tab's storage holds.
abbrev pub account : Tab → Option String
account t = session (Dict.lookup "access_token" (storage_of t))

module _ (env : Site) where
  load-Change :
      (page : Page) (param : Option String) (d : Dict)
      → Change (IsGranted env.callback_env) (access d) (access (storage_of (load env page param d)))
  unfolding load storage_of
  load-Change home param d = Change.keep _
  load-Change login param d =
      let c = challenge param d in
      let w : World Login = record { state = State.initial; storage = d; trace = [] } in
      rw (on_challenge-others env.login_env c w "access_token" refl) (Change.keep _)
  load-Change callback param d =
      on_code-Change env.callback_env param
        (record { state = Callback.initial; storage = d; trace = [] })
  load-Change dashboard param d =
      let w : World Dashboard = record { state = initial; storage = d; trace = [] } in
      rw (dashboard_on_mount_lem env.dashboard_env w).1 (Change.keep _)

  lookup-Change :
      (old new : Option String)
      → (new ≡ none) ⊎ (new ≡ old)
      → Change (IsGranted env.callback_env) (session old) (session new)
  lookup-Change old new (inl e) = rw e (Change.leave _)
  lookup-Change old new (inr e) = rw e (Change.keep _)

  pub Visit-Change :
      (t u : Tab)
      → Holds env t
      → Visit env t u
      → Change (IsGranted env.callback_env) (account t) (account u)
  unfolding storage_of complete_hydra_login
  Visit-Change t u h (Visit.navigate _ page param) = load-Change page param (storage_of t)
  Visit-Change t u h (Visit.act {w} {v} s) =
      lookup-Change _ _ (Step-IsFramed env.dashboard_env env.encode w v s h.quiet).session_kept
  Visit-Change t u h (Visit.type_email param w email) = Change.keep _
  Visit-Change t u h (Visit.type_password param w password) = Change.keep _
  Visit-Change t u h (Visit.sign_with_wallet param w _) =
      rw
        (handle_siwe_login-others env.login_env (challenge param w.storage) w.state w "access_token"
          refl refl)
        (Change.keep _)
  Visit-Change t u h (Visit.sign_with_google param w _) =
      rw (handle_google_login_settles env.login_env (challenge param w.storage) w).1 (Change.keep _)
  Visit-Change t u h (Visit.sign_in param w _) =
      rw (handle_email_sign_in_settles env.login_env (challenge param w.storage) w.state w).1
        (Change.keep _)
  Visit-Change t u h (Visit.sign_up param w _) =
      rw (handle_email_sign_up_settles env.login_env w.state w).1 (Change.keep _)
  Visit-Change t u h (Visit.complete param w) = Change.keep _

  navigate-Holds :
      (page : Page) (param : Option String) (d : Dict)
      → ((token : String) → access d ≡ some token → IsGranted env.callback_env token)
      → Holds env (load env page param d)
  unfolding load
  navigate-Holds home param d g = tt
  navigate-Holds login param d g = tt
  navigate-Holds callback param d g = tt
  navigate-Holds dashboard param d g =
      let bound = opened-session env.dashboard_env d in
      record {
        quiet = (opened-IsSound env.dashboard_env d).quiet;
        served = λ token e. g token (bound ∙ e);
      }

  pub Visit-Holds :
      (t u : Tab)
      → Holds env t
      → ((token : String) → account t ≡ some token → IsGranted env.callback_env token)
      → Visit env t u
      → Holds env u
  Visit-Holds t u h g (Visit.navigate _ page param) = navigate-Holds page param (storage_of t) g
  Visit-Holds t u h g (Visit.act {w} {v} s) =
      let f = Step-IsFramed env.dashboard_env env.encode w v s h.quiet in
      record {
        quiet = record {
          identities_off = ap (λ d. d.identities_loading) f.bound_kept ∙ h.quiet.identities_off;
          linking_off = ap (λ d. d.linking_wallet) f.bound_kept ∙ h.quiet.linking_off;
        };
        served = λ token e.
            let kept : v.state.token ≡ w.state.token = ap (λ d. d.token) f.bound_kept in
            h.served token cc;
      }
  Visit-Holds t u h g (Visit.type_email param w email) = tt
  Visit-Holds t u h g (Visit.type_password param w password) = tt
  Visit-Holds t u h g (Visit.sign_with_wallet param w _) = tt
  Visit-Holds t u h g (Visit.sign_with_google param w _) = tt
  Visit-Holds t u h g (Visit.sign_in param w _) = tt
  Visit-Holds t u h g (Visit.sign_up param w _) = tt
  Visit-Holds t u h g (Visit.complete param w) = tt

  pub Change-granted :
      (old new : Option String)
      → Change (IsGranted env.callback_env) old new
      → ((token : String) → old ≡ some token → IsGranted env.callback_env token)
      → (token : String) → new ≡ some token
      → IsGranted env.callback_env token
  Change-granted old new (Change.keep _) g = g
  Change-granted old new (Change.enter _ t h) g = λ token e. let k : t ≡ token = cc in rw (← k) h
  Change-granted old new (Change.leave _) g = λ token e. cc

  record IsLawful (t : Tab) : Type 0 where
    holds : Holds env t
    granted_account : (token : String) → account t ≡ some token → IsGranted env.callback_env token

  Visited-IsLawful : (t : Tab) → Visited env t → IsLawful t
  unfolding storage_of Dict.lookup
  Visited-IsLawful t Visited.arrive = record { holds = tt; granted_account = λ token e. cc }
  Visited-IsLawful u (Visited.later {t} r v) =
      let l = Visited-IsLawful t r in
      record {
        holds = Visit-Holds t u l.holds l.granted_account v;
        granted_account = Change-granted _ _ (Visit-Change t u l.holds v) l.granted_account;
      }

  -- In every tab that a fresh browser comes to, each visit of a page and each step on a page
  -- changes the session as the machine with one token does: it is kept, or left, or entered with a
  -- token that the gateway granted for a code.
  pub Visited-Change :
      (t u : Tab)
      → Visited env t
      → Visit env t u
      → Change (IsGranted env.callback_env) (account t) (account u)
  Visited-Change t u r v = Visit-Change t u (Visited-IsLawful t r).holds v

  -- Whatever pages a fresh browser visits, and whatever the user does on them, the token with which
  -- the dashboard calls the gateway is one that the gateway granted for a code.
  pub dashboard_token-IsGranted :
      (w : World Dashboard) (token : String)
      → Visited env (at_dashboard w)
      → w.state.token ≡ some token
      → IsGranted env.callback_env token
  dashboard_token-IsGranted w token r e = (Visited-IsLawful (at_dashboard w) r).holds.served token e
