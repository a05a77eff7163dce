-- ===== src/Dashboard/Identities/Programs.antt =====
-- `fetchIdentities`, `linkWallet` and `unlinkIdentity` as programs that stop at each of their
-- awaits. Run alone they are the effects.
pub mod Runs
use web3_lab_public.Prelude.{
  String, Bool, true, false, List, [], ◌∷◌, ◌++◌, Option, none, some, ◌<>◌, ◌≡◌, ◌∙◌, refl, arith,
  is_truthy, option_or, text_or, if◌then◌else◌,
}
use web3_lab_public.Browser.{
  Reply, ok, thrown, Response, World, Io, is_ok, fetched, wallet, asked, ask, when, done, resume,
  await, set, catch, finally, ◌>>=◌, ◌>>◌,
}
use web3_lab_public.Program.{
  Program, settled, run, bind, recover, ensure, run-bind, run-recover, run-ensure, run-recover-as,
  run-settled-as, run-query-as, run-choice-as,
}
use web3_lab_public.Dashboard.State.{Dashboard, LinkedIdentity}
use web3_lab_public.Dashboard.Services.{Services}
use web3_lab_public.Dashboard.Identities.{
  listed, session, chosen_account, unlink_question, identities_request, fetch_identities,
  nonce_request, link_request, send_link, sign_and_link, link_chosen, link_account, link_wallet,
  unlink_request, send_unlink, unlink_identity,
}

module _ (env : Services) where
  unfoldable pub list_program :
      Response (Option (List LinkedIdentity)) → Program Dashboard (Unit {0})
  list_program res =
      if is_ok res
      then bind (Program.pause (settled res.json)) (λ body.
        Program.update (λ s. record s { linked_identities = listed body }) (Program.give tt))
      else Program.give tt

  abbrev pub read_program : String → Program Dashboard (Unit {0})
  read_program token =
      recover
        (Program.query (fetched (identities_request env token))
          (λ t. env.identities t (identities_request env token))
          (λ reply. bind (settled reply) list_program))
        (λ _. Program.give tt)

  unfoldable pub fetch_program : String → Program Dashboard (Unit {0})
  fetch_program token =
      Program.update (λ s. record s { identities_loading = true })
        (ensure (λ s. record s { identities_loading = false }) (read_program token))

  abbrev pub fail_program : String → Program Dashboard (Unit {0})
  fail_program e = Program.update (λ s. record s { link_error = some e }) (Program.give tt)

  -- The answer to a request after which the identities are read again.
  unfoldable pub reread_program :
      String → String → Response (Option String) → Program Dashboard (Unit {0})
  reread_program token failure res =
      if is_ok res
      then fetch_program token
      else bind (Program.pause (settled res.json)) (λ m. fail_program (option_or m failure))

  unfoldable pub send_link_program : String → String → String → Program Dashboard (Unit {0})
  send_link_program token message signature =
      let request = link_request env token message signature in
      Program.query (fetched request) (λ t. env.link t request)
        (λ reply. bind (settled reply) (reread_program token "Linking failed"))

  unfoldable pub sign_program : String → String → String → Program Dashboard (Unit {0})
  sign_program token address message =
      Program.query (wallet "personal_sign" (message ∷ address ∷ [])) env.personal_sign
        (λ reply. bind (settled reply) (λ signature. send_link_program token message signature))

  abbrev pub answered_program : String → String → Response String → Program Dashboard (Unit {0})
  answered_program token address res =
      if is_ok res
      then bind (Program.pause (settled res.json)) (sign_program token address)
      else fail_program "Failed to get nonce"

  unfoldable pub nonce_program : String → String → Program Dashboard (Unit {0})
  nonce_program token address =
      Program.query (fetched (nonce_request env address))
        (λ t. env.nonce t (nonce_request env address))
        (λ reply. bind (settled reply) (answered_program token address))

  abbrev pub chosen_program : String → Option String → Program Dashboard (Unit {0})
  chosen_program token none = fail_program "No wallet selected"
  chosen_program token (some address) = nonce_program token address

  unfoldable pub account_program : String → Program Dashboard (Unit {0})
  account_program token =
      Program.query (wallet "eth_requestAccounts" []) env.request_accounts
        (λ reply. bind (settled reply) (λ accounts. chosen_program token (chosen_account accounts)))

  abbrev pub linking_program : Option String → Program Dashboard (Unit {0})
  linking_program none = Program.give tt
  linking_program (some token) =
      Program.update (λ s. record s { linking_wallet = true; link_error = none })
        (ensure (λ s. record s { linking_wallet = false })
          (recover (account_program token) (λ e. fail_program (text_or e "Linking cancelled"))))

  unfoldable pub link_program : Dashboard → Program Dashboard (Unit {0})
  link_program view =
      if env.has_ethereum then linking_program (session view.token) else Program.give tt

  unfoldable pub send_unlink_program : String → String → Program Dashboard (Unit {0})
  send_unlink_program token identity_id =
      let request = unlink_request env token identity_id in
      Program.query (fetched request) (λ t. env.unlink t request)
        (λ reply. bind (settled reply) (reread_program token "Unlink failed"))

  -- `confirm` holds the page until it is answered; here an event may come in before the answer.
  abbrev pub unlinking_program : String → Option String → Program Dashboard (Unit {0})
  unlinking_program identity_id none = Program.give tt
  unlinking_program identity_id (some token) =
      Program.query (asked unlink_question) (λ t. ok (env.confirm t unlink_question))
        (λ reply. bind (settled reply) (λ agreed.
          if agreed
          then recover (send_unlink_program token identity_id)
              (λ e. fail_program (text_or e "Unlink failed"))
          else Program.give tt))

  unfoldable pub unlink_program : Dashboard → String → Program Dashboard (Unit {0})
  unlink_program view identity_id = unlinking_program identity_id (session view.token)
