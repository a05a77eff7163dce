-- ===== src/Dashboard/Threads/Holding/Linking.antt =====
-- How the linking of a wallet holds its mark.
use web3_lab_public.Prelude.{
  if◌then◌else◌, String, Bool, true, false, Option, none, some, refl, inr,
}
use web3_lab_public.Program.{Program}
use web3_lab_public.Program.Silent.{IsSilent, ensure-IsSilent, choice-IsSilent, recover-IsSilent}
use web3_lab_public.Program.Marks.{IsPrompt, ensure-IsHolding}
use web3_lab_public.Dashboard.State.{Dashboard}
use web3_lab_public.Dashboard.Services.{Services}
use web3_lab_public.Dashboard.Identities.{session}
use web3_lab_public.Dashboard.Identities.Programs.{account_program, linking_program, link_program}
use web3_lab_public.Dashboard.Threads.Silent.Identities.{account_program-IsSilent}
use web3_lab_public.Dashboard.Threads.Holding.{loading, linking, loading-IsSilent, linking-IsSilent}

module _ (env : Services) (view : Dashboard) where
  linking_program-IsPrompt : (o : Option String) → IsPrompt linking (linking_program env o)
  unfolding IsPrompt IsSilent
  linking_program-IsPrompt none = tt
  linking_program-IsPrompt (some token) = inr (
    (λ s. refl),
    ensure-IsHolding linking _ _ (λ s. refl)
        (recover-IsSilent linking (account_program env token) _
          (linking-IsSilent (account_program env token) (account_program-IsSilent env token))
          (λ e. ((λ s. refl), tt))),
  )

  linking_program-IsSilent : (o : Option String) → IsSilent loading (linking_program env o)
  unfolding IsSilent
  linking_program-IsSilent none = tt
  linking_program-IsSilent (some token) = (
    (λ s. refl),
    ensure-IsSilent loading _ _ (λ s. refl)
        (recover-IsSilent loading (account_program env token) _
          (loading-IsSilent (account_program env token) (account_program-IsSilent env token))
          (λ e. ((λ s. refl), tt))),
  )

  pub link_program-IsPrompt : IsPrompt linking (link_program env view)
  unfolding link_program IsPrompt
  link_program-IsPrompt = go env.has_ethereum
    where
      go :
          (b : Bool)
          → IsPrompt linking
              (if b then linking_program env (session view.token) else Program.give tt)
      go true = linking_program-IsPrompt (session view.token)
      go false = tt

  pub link_program-IsSilent : IsSilent loading (link_program env view)
  unfolding link_program IsSilent
  link_program-IsSilent =
      choice-IsSilent loading env.has_ethereum _ _ (linking_program-IsSilent (session view.token))
        tt
