-- ===== src/Dashboard/Threads/Silent/Identities.antt =====
-- Reading, linking and unlinking identities leaves the marks alone, but for the mark of a linking.
use web3_lab_public.Prelude.{String, List, Option, none, some, refl}
use web3_lab_public.Browser.{Response, is_ok}
use web3_lab_public.Program.{Program, settled}
use web3_lab_public.Program.Silent.{
  IsSilent, settled-IsSilent, bind-IsSilent, recover-IsSilent, ensure-IsSilent, choice-IsSilent,
  reply-IsSilent,
}
use web3_lab_public.Dashboard.State.{Dashboard, LinkedIdentity}
use web3_lab_public.Dashboard.Services.{Services}
use web3_lab_public.Dashboard.Identities.{session, chosen_account}
use web3_lab_public.Dashboard.Identities.Programs.{
  list_program, fetch_program, reread_program, send_link_program, sign_program, answered_program,
  nonce_program, chosen_program, account_program, send_unlink_program, unlinking_program,
  unlink_program, read_program,
}
use web3_lab_public.Dashboard.Threads.{marks}

module _ (env : Services) where
  list_program-IsSilent :
      (res : Response (Option (List LinkedIdentity))) → IsSilent marks (list_program env res)
  unfolding list_program IsSilent
  list_program-IsSilent res =
      choice-IsSilent marks (is_ok res) _ _
        (bind-IsSilent marks (Program.pause (settled res.json)) _ (settled-IsSilent marks res.json)
          (λ body. ((λ s. refl), tt)))
        tt

  pub fetch_program-IsSilent : (token : String) → IsSilent marks (fetch_program env token)
  unfolding fetch_program IsSilent
  fetch_program-IsSilent token = (
    (λ s. refl),
    ensure-IsSilent marks _ (read_program env token) (λ s. refl)
        (recover-IsSilent marks _ _
          (λ r. reply-IsSilent marks (list_program env) r list_program-IsSilent) (λ e. tt)),
  )

  reread_program-IsSilent :
      (token failure : String) (res : Response (Option String))
      → IsSilent marks (reread_program env token failure res)
  unfolding reread_program IsSilent
  reread_program-IsSilent token failure res =
      choice-IsSilent marks (is_ok res) _ _ (fetch_program-IsSilent token) (
        bind-IsSilent marks (Program.pause (settled res.json)) _ (settled-IsSilent marks res.json)
          (λ m. ((λ s. refl), tt)))

  send_link_program-IsSilent :
      (token message signature : String)
      → IsSilent marks (send_link_program env token message signature)
  unfolding send_link_program IsSilent
  send_link_program-IsSilent token message signature = λ r.
      reply-IsSilent marks (reread_program env token "Linking failed") r
        (reread_program-IsSilent token "Linking failed")

  sign_program-IsSilent :
      (token address message : String) → IsSilent marks (sign_program env token address message)
  unfolding sign_program IsSilent
  sign_program-IsSilent token address message = λ r.
      reply-IsSilent marks (send_link_program env token message) r
        (send_link_program-IsSilent token message)

  answered_program-IsSilent :
      (token address : String) (res : Response String)
      → IsSilent marks (answered_program env token address res)
  unfolding IsSilent
  answered_program-IsSilent token address res =
      choice-IsSilent marks (is_ok res) _ _
        (bind-IsSilent marks (Program.pause (settled res.json)) _ (settled-IsSilent marks res.json)
          (sign_program-IsSilent token address))
        ((λ s. refl), tt)

  chosen_program-IsSilent :
      (token : String) (o : Option String) → IsSilent marks (chosen_program env token o)
  unfolding nonce_program IsSilent
  chosen_program-IsSilent token none = ((λ s. refl), tt)
  chosen_program-IsSilent token (some address) = λ r.
      reply-IsSilent marks (answered_program env token address) r
        (answered_program-IsSilent token address)

  pub account_program-IsSilent : (token : String) → IsSilent marks (account_program env token)
  unfolding account_program IsSilent
  account_program-IsSilent token = λ r.
      reply-IsSilent marks (λ accounts. chosen_program env token (chosen_account accounts)) r
        (λ accounts. chosen_program-IsSilent token (chosen_account accounts))

  send_unlink_program-IsSilent :
      (token id : String) → IsSilent marks (send_unlink_program env token id)
  unfolding send_unlink_program IsSilent
  send_unlink_program-IsSilent token id = λ r.
      reply-IsSilent marks (reread_program env token "Unlink failed") r
        (reread_program-IsSilent token "Unlink failed")

  unlinking_program-IsSilent :
      (id : String) (o : Option String) → IsSilent marks (unlinking_program env id o)
  unfolding IsSilent
  unlinking_program-IsSilent id none = tt
  unlinking_program-IsSilent id (some token) = λ r. reply-IsSilent marks _ r (λ agreed.
      choice-IsSilent marks agreed _ _
        (recover-IsSilent marks (send_unlink_program env token id) _
          (send_unlink_program-IsSilent token id) (λ e. ((λ s. refl), tt)))
        tt)

  pub unlink_program-IsSilent :
      (view : Dashboard) (id : String) → IsSilent marks (unlink_program env view id)
  unfolding unlink_program
  unlink_program-IsSilent view id = unlinking_program-IsSilent id (session view.token)
