-- ===== src/Site.antt =====
-- The pages together: the tab of a browser that shows one of them, over the storage that they share
-- (frontend/app/src/App.tsx and pages/).
pub mod Change
pub mod Session
pub mod Lifecycle
pub mod Windows
use web3_lab_public.Prelude.{String, Option, none, some, [], false, ◌≡◌}
use web3_lab_public.Prelude.Dict
use web3_lab_public.Prelude.Dict.{Dict}
use web3_lab_public.Browser.{World}
use web3_lab_public.Login.State
use web3_lab_public.Login.State.{
  Login, challenge_of, on_challenge, complete_hydra_login, kratos_disabled, siwe_disabled,
}
use web3_lab_public.Login.Siwe.{handle_siwe_login}
use web3_lab_public.Login.Kratos.{handle_google_login, handle_email_sign_in, handle_email_sign_up}
use web3_lab_public.Callback
use web3_lab_public.Callback.{Callback, on_code}
use web3_lab_public.Dashboard.State.{Dashboard}
use web3_lab_public.Dashboard.Services.{Services}
use web3_lab_public.Dashboard.Machine.{Step, opened}
use web3_lab_public.Home.{Page, home, login, callback, dashboard}

-- What the pages call.
pub record Site : Type 0 where
  pub login_env : State.Services
  pub callback_env : Callback.Services
  pub dashboard_env : Services
  pub encode : String → String

-- A page with its state; the login page keeps the challenge of its address.
pub data Tab : Type 0 where
  at_home : Dict → Tab
  at_login : Option String → World Login → Tab
  at_callback : World Callback → Tab
  at_dashboard : World Dashboard → Tab

unfoldable pub storage_of : Tab → Dict
storage_of (at_home d) = d
storage_of (at_login _ w) = w.storage
storage_of (at_callback w) = w.storage
storage_of (at_dashboard w) = w.storage

-- The challenge of a render of the login page.
abbrev pub challenge : Option String → Dict → Option String
challenge param d = challenge_of param (Dict.lookup "loginChallenge" d)

module _ (env : Site) where
  -- A page that was loaded, after its first effects. The parameter is the challenge of the login
  -- page's address, or the code of the callback's.
  unfoldable pub load : Page → Option String → Dict → Tab
  load home param d = at_home d
  load login param d =
      at_login param
        (on_challenge env.login_env (challenge param d)
          (record { state = State.initial; storage = d; trace = [] })).1
  load callback param d =
      at_callback
        (on_code env.callback_env param
          (record { state = Callback.initial; storage = d; trace = [] })).1
  load dashboard param d = at_dashboard (opened env.dashboard_env d)

pub data Visit (env : Site) : Tab → Tab → Type 0 where
  navigate :
      (t : Tab) (page : Page) (param : Option String)
      → Visit env t (load env page param (storage_of t))
  act :
      {w v : World Dashboard}
      → Step env.dashboard_env env.encode w v
      → Visit env (at_dashboard w) (at_dashboard v)
  type_email :
      (param : Option String) (w : World Login) (email : String)
      → Visit env
          (at_login param w)
          (at_login param (record w { state = record w.state { email = email } }))
  type_password :
      (param : Option String) (w : World Login) (password : String)
      → Visit env
          (at_login param w)
          (at_login param (record w { state = record w.state { password = password } }))
  sign_with_wallet :
      (param : Option String) (w : World Login)
      → siwe_disabled (challenge param w.storage) w.state ≡ false
      → Visit env
          (at_login param w)
          (at_login param (handle_siwe_login env.login_env (challenge param w.storage) w.state w).1)
  sign_with_google :
      (param : Option String) (w : World Login)
      → kratos_disabled (challenge param w.storage) ≡ false
      → Visit env
          (at_login param w)
          (at_login param (handle_google_login env.login_env (challenge param w.storage) w).1)
  sign_in :
      (param : Option String) (w : World Login)
      → kratos_disabled (challenge param w.storage) ≡ false
      → Visit env (at_login param w) (
          at_login param
            (handle_email_sign_in env.login_env (challenge param w.storage) w.state w).1)
  sign_up :
      (param : Option String) (w : World Login)
      → kratos_disabled (challenge param w.storage) ≡ false
      → Visit env
          (at_login param w)
          (at_login param (handle_email_sign_up env.login_env w.state w).1)
  complete :
      (param : Option String) (w : World Login)
      → Visit env (at_login param w) (at_login param (complete_hydra_login w).1)

-- What a fresh browser comes to.
pub data Visited (env : Site) : Tab → Type 0 where
  arrive : Visited env (at_home [])
  later : {t u : Tab} → Visited env t → Visit env t u → Visited env u
