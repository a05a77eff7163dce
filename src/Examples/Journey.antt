-- ===== src/Examples/Journey.antt =====
-- A visit of the pages: signing in, using the dashboard and signing out.
use web3_lab_public.Prelude.{ap, [], ◌∷◌, ◌++◌, none, some, ◌≡◌, refl, option_or}
use web3_lab_public.Prelude.Dict.{Dict}
use web3_lab_public.Browser.{World, navigated}
use web3_lab_public.Callback
use web3_lab_public.Callback.{Callback, on_code}
use web3_lab_public.Dashboard.State.{Dashboard, transfer, initial}
use web3_lab_public.Dashboard.Edits.{Edit, apply}
use web3_lab_public.Dashboard.Portfolio.{select_default}
use web3_lab_public.Dashboard.Account.{logout}
use web3_lab_public.Dashboard.Machine.{Step, Reach, opened}
use web3_lab_public.Dashboard.Machine.Soundness.{IsSound, Reach-IsSound}
use web3_lab_public.Home
use web3_lab_public.Site.{Site, Tab, at_dashboard, at_home, load, storage_of, Visit}
use web3_lab_public.Site.Change.{Change, IsGranted, access}
use web3_lab_public.Site.Windows.{
  Windows, with_storage, Turn, Browsed, Browsed-Change, dashboards_token-IsGranted,
}
use web3_lab_public.Site.Lifecycle.{logout-closes, on_code-opens}
use web3_lab_public.Examples.Data.{services, world}
use web3_lab_public.Examples.Pages.{login_services, token_services, tokens, callback_world}

abbrev site : Site
site = record {
  login_env = login_services;
  callback_env = token_services;
  dashboard_env = services 3;
  encode = λ s. s;
}

abbrev storage : Dict
storage = ("access_token", "tok") ∷ []

abbrev shown : World Dashboard
shown = opened (services 3) storage

abbrev moving : World Dashboard
moving = record shown {
  state = apply (services 3).format_units (Edit.open_section transfer) shown.state;
}

abbrev chosen : World Dashboard
chosen = record moving { state = select_default moving.state }

abbrev left : World Dashboard
left = (logout (services 3) (λ s. s) chosen.state chosen).1

Reach-IsSound_example : IsSound left
Reach-IsSound_example =
    Reach-IsSound (services 3) (λ s. s) storage left
      (Reach.later
        (Reach.later (Reach.later Reach.start (Step.edit (Edit.open_section transfer)))
          Step.select_asset)
        Step.sign_out)

abbrev granted_tab : Tab
granted_tab = load site Home.callback (some "code") []

abbrev dashboard_tab : Tab
dashboard_tab = load site Home.dashboard none (storage_of granted_tab)

-- Two tabs: one that has exchanged the code, and one that is opened then and goes to the dashboard.
abbrev one : Windows
one = record { storage = storage_of granted_tab; tabs = granted_tab ∷ [] }

abbrev two : Windows
two = record { storage = storage_of granted_tab; tabs = at_home one.storage ∷ granted_tab ∷ [] }

abbrev both : Windows
both = record { storage = storage_of dashboard_tab; tabs = dashboard_tab ∷ granted_tab ∷ [] }

Browsed-two : Browsed site two
unfolding with_storage storage_of
Browsed-two =
    Browsed.later
      (Browsed.later (Browsed.later Browsed.start Turn.arise) (
        Turn.visit [] [] (at_home []) granted_tab refl
          (Visit.navigate (at_home []) Home.callback (some "code"))))
      Turn.arise

dashboard-Turn : Turn site two both
unfolding with_storage storage_of
dashboard-Turn =
    Turn.visit [] (granted_tab ∷ []) (at_home one.storage) dashboard_tab refl
      (Visit.navigate (at_home one.storage) Home.dashboard none)

Browsed-Change_example :
    Change (IsGranted token_services) (access two.storage) (access both.storage)
Browsed-Change_example = Browsed-Change site two both Browsed-two dashboard-Turn

logout-closes_example :
    opened (services 3) (logout (services 3) (λ s. s) world.state world).1.storage ≡ record {
      state = initial;
      storage = (logout (services 3) (λ s. s) world.state world).1.storage;
      trace = navigated "/" ∷ [];
    }
logout-closes_example = logout-closes site world

on_code-opens_example :
    (opened
      (services 3)
      (on_code token_services (some "code") callback_world).1.storage).state.token
    ≡ some (option_or tokens.access_token "")
on_code-opens_example = on_code-opens site "code" tokens callback_world refl refl

abbrev fresh_callback : World Callback
fresh_callback = record { state = Callback.initial; storage = []; trace = [] }

abbrev served : World Dashboard
served = opened (services 3) (on_code token_services (some "code") fresh_callback).1.storage

dashboard_tab-served : dashboard_tab ≡ at_dashboard served
unfolding storage_of load
dashboard_tab-served = refl

both-served : both.tabs ≡ [] ++ at_dashboard served ∷ granted_tab ∷ []
both-served = ap (λ t. t ∷ granted_tab ∷ []) dashboard_tab-served

dashboards_token-IsGranted_example : IsGranted token_services "tok"
dashboards_token-IsGranted_example =
    dashboards_token-IsGranted site both [] (granted_tab ∷ []) served "tok"
      (Browsed.later Browsed-two dashboard-Turn) both-served
      (on_code-opens site "code" tokens fresh_callback refl refl)
