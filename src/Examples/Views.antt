-- ===== src/Examples/Views.antt =====
-- The page with a linked identity, and while a transaction runs.
use web3_lab_public.Prelude.{true, ◌≡◌, refl}
use web3_lab_public.Dashboard.State.{Dashboard}
use web3_lab_public.Dashboard.View.Profile.{profile_content}
use web3_lab_public.Dashboard.View.Profile.Unlinking.{unlinks, offered, profile_content-unlinks}
use web3_lab_public.Dashboard.View.Page.{toolchain}
use web3_lab_public.Dashboard.View.Locking.{
  all_locked, has_file_input, takes_file, toolchain-locked,
}
use web3_lab_public.Examples.Data.{services, view}

profile_content-unlinks_example : unlinks (profile_content view) ≡ offered view
profile_content-unlinks_example = profile_content-unlinks view

abbrev busy : Dashboard
busy = record view { tx_loading = true }

toolchain-locked_example :
    (all_locked (toolchain (services 3).format_units (λ s. s) busy) ≡ true)
    × (has_file_input (toolchain (services 3).format_units (λ s. s) busy)
        ≡ takes_file busy.active_section busy.active_token)
toolchain-locked_example = toolchain-locked (services 3).format_units (λ s. s) busy refl
