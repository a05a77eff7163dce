-- ===== src/Examples/Signing.antt =====
-- Signing in and up with a password that Kratos refuses.
use web3_lab_public.Prelude.{[], ◌∷◌, none, some, refl}
use web3_lab_public.Browser.{ok}
use web3_lab_public.Login.State
use web3_lab_public.Login.State.{Login, Flow}
use web3_lab_public.Login.Kratos.Registering.{IsRegistered, handle_email_sign_up-IsRegistered}
use web3_lab_public.Login.Kratos.{handle_email_sign_up, handle_email_sign_in}
use web3_lab_public.Login.Kratos.Answers.{IsAnswered, handle_email_sign_in-IsAnswered}
use web3_lab_public.Examples.Data.{respond}
use web3_lab_public.Examples.Pages.{login_services, login_world, form}

abbrev asking : Flow
asking = record {
  redirect_browser_to = none;
  continue_with = [];
  ui = some (record {
    action = some "https://kratos.lab/submit";
    nodes = record { name = "csrf_token"; value = some "csrf"; messages = [] } ∷ [];
    messages = "The password is wrong." ∷ [];
  });
  error_message = none;
}

abbrev password_services : State.Services
password_services = record login_services {
  login_flow = λ t r. respond asking;
  registration_flow = λ t r. respond asking;
  submit_form = λ t r. ok (record { status = 400; json = ok asking });
}

handle_email_sign_in-IsAnswered_example :
    IsAnswered password_services form
      (some "c")
      login_world
      (handle_email_sign_in password_services (some "c") form login_world).1
handle_email_sign_in-IsAnswered_example =
    handle_email_sign_in-IsAnswered password_services form (some "c") login_world refl refl

handle_email_sign_up-IsRegistered_example :
    IsRegistered password_services form login_world
      (handle_email_sign_up password_services form login_world).1
handle_email_sign_up-IsRegistered_example =
    handle_email_sign_up-IsRegistered password_services form login_world refl refl
