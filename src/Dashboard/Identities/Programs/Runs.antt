-- ===== src/Dashboard/Identities/Programs/Runs.antt =====
-- The programs of the linked identities, run alone, are the functions of DashboardPage.tsx.
use web3_lab_public.Prelude.{
  String, Bool, true, false, [], ◌∷◌, ◌++◌, Option, none, some, ◌≡◌, ◌∙◌, refl, arith, text_or,
  if◌then◌else◌,
}
use web3_lab_public.Browser.{
  Response, World, Io, is_ok, fetched, wallet, asked, ask, done, await, set, catch, finally, ◌>>=◌,
  ◌>>◌,
}
use web3_lab_public.Program.{
  Program, run, bind, recover, ensure, run-ensure, run-recover-as, run-settled-as, run-query-as,
  run-choice-as,
}
use web3_lab_public.Dashboard.State.{Dashboard}
use web3_lab_public.Dashboard.Services.{Services}
use web3_lab_public.Dashboard.Identities.{
  session, chosen_account, unlink_question, identities_request, fetch_identities, nonce_request,
  link_request, send_link, sign_and_link, link_chosen, link_account, link_wallet, unlink_request,
  send_unlink, unlink_identity,
}
use web3_lab_public.Dashboard.Identities.Programs.{
  list_program, fetch_program, fail_program, reread_program, send_link_program, sign_program,
  answered_program, nonce_program, chosen_program, account_program, linking_program, link_program,
  send_unlink_program, unlink_program,
}

module _ (env : Services) where
  -- Each program, run with no other event in between, is its function: first the one that reads the
  -- identities.
  pub run-fetch_program :
      (token : String) (w : World Dashboard)
      → run (fetch_program env token) w ≡ fetch_identities env token w
  unfolding fetch_program fetch_identities list_program identities_request run bind recover ensure
  run-fetch_program token w = ground arith

  run-send_link_program :
      (token message signature : String) (w : World Dashboard)
      → run (send_link_program env token message signature) w
        ≡ send_link env token message signature w
  unfolding send_link_program reread_program send_link run bind
  run-send_link_program token message signature w =
      let asked : World Dashboard = record w {
        trace = w.trace ++ fetched (link_request env token message signature) ∷ [];
      } in
      ground (arith, run-fetch_program token asked)

  -- What the effect does with the nonce's answer.
  abbrev answered : String → String → Response String → Io Dashboard (Unit {0})
  answered token address res =
      if is_ok res
      then (await res.json >>= (λ message.
          ask (wallet "personal_sign" (message ∷ address ∷ [])) env.personal_sign
          >>= send_link env token message))
      else set (λ s. record s { link_error = some "Failed to get nonce" })

  run-sign_program :
      (token address message : String) (w : World Dashboard)
      → run (sign_program env token address message) w
        ≡ (ask (wallet "personal_sign" (message ∷ address ∷ [])) env.personal_sign
              >>= send_link env token message)
            w
  unfolding sign_program
  run-sign_program token address message w =
      run-query-as (wallet "personal_sign" (message ∷ address ∷ [])) env.personal_sign
        (send_link_program env token message) (send_link env token message) w
        (run-send_link_program token message)

  run-answered_program :
      (token address : String) (res : Response String) (w : World Dashboard)
      → run (answered_program env token address res) w ≡ answered token address res w
  unfolding run bind
  run-answered_program token address res w = go (is_ok res) refl
    where
      go :
          (b : Bool)
          → is_ok res ≡ b
          → run (answered_program env token address res) w ≡ answered token address res w
      go true e = rw e (
          run-settled-as res.json (sign_program env token address) _ w
            (run-sign_program token address))
      go false e = rw e refl

  run-nonce_program :
      (token address : String) (w : World Dashboard)
      → run (nonce_program env token address) w ≡ sign_and_link env token address w
  unfolding nonce_program sign_and_link
  run-nonce_program token address w =
      run-query-as (fetched (nonce_request env address))
        (λ t. env.nonce t (nonce_request env address)) (answered_program env token address)
        (answered token address) w (run-answered_program token address)

  run-chosen_program :
      (token : String) (o : Option String) (w : World Dashboard)
      → run (chosen_program env token o) w ≡ link_chosen env token o w
  unfolding link_chosen run
  run-chosen_program token none w = refl
  run-chosen_program token (some address) w = run-nonce_program token address w

  run-account_program :
      (token : String) (w : World Dashboard)
      → run (account_program env token) w ≡ link_account env token w
  unfolding account_program link_account
  run-account_program token w =
      run-query-as (wallet "eth_requestAccounts" []) env.request_accounts
        (λ accounts. chosen_program env token (chosen_account accounts))
        (λ accounts. link_chosen env token (chosen_account accounts)) w
        (λ accounts. run-chosen_program token (chosen_account accounts))

  run-send_unlink_program :
      (token identity_id : String) (w : World Dashboard)
      → run (send_unlink_program env token identity_id) w ≡ send_unlink env token identity_id w
  unfolding send_unlink_program reread_program send_unlink run bind
  run-send_unlink_program token identity_id w =
      let asked : World Dashboard = record w {
        trace = w.trace ++ fetched (unlink_request env token identity_id) ∷ [];
      } in
      ground (arith, run-fetch_program token asked)

  abbrev cancelled : String → Io Dashboard (Unit {0})
  cancelled e = set (λ s. record s { link_error = some (text_or e "Linking cancelled") })

  abbrev linking : Option String → Io Dashboard (Unit {0})
  linking none = done
  linking (some token) =
      set (λ s. record s { linking_wallet = true; link_error = none })
      >> finally (catch (link_account env token) cancelled)
          (set (λ s. record s { linking_wallet = false }))

  run-linking_program :
      (o : Option String) (w : World Dashboard) → run (linking_program env o) w ≡ linking o w
  unfolding run
  run-linking_program none w = refl
  run-linking_program (some token) w =
      let begun : World Dashboard = record w {
        state = record w.state { linking_wallet = true; link_error = none };
      } in
      let failed : String → Program Dashboard (Unit {0}) =
        λ e. fail_program env (text_or e "Linking cancelled") in
      run-ensure (λ s. record s { linking_wallet = false })
        (recover (account_program env token) failed) begun
      ∙ rw
          (run-recover-as (account_program env token) failed (link_account env token) cancelled
            begun (run-account_program token begun) (λ e v. refl))
          refl

  -- The wallet's linking.
  pub run-link_program :
      (view : Dashboard) (w : World Dashboard)
      → run (link_program env view) w ≡ link_wallet env view w
  unfolding link_program link_wallet run
  run-link_program view w = go (session view.token) refl
    where
      go :
          (o : Option String)
          → session view.token ≡ o
          → run (link_program env view) w ≡ link_wallet env view w
      go none e = rw e (run-choice-as env.has_ethereum _ _ done done w refl refl)
      go (some token) e = rw e (
          run-choice-as env.has_ethereum (linking_program env (some token)) (Program.give tt)
            (linking (some token)) done w (run-linking_program (some token) w) refl)

  -- An identity's unlinking.
  pub run-unlink_program :
      (view : Dashboard) (identity_id : String) (w : World Dashboard)
      → run (unlink_program env view identity_id) w ≡ unlink_identity env view identity_id w
  unfolding unlink_program unlink_identity run bind
  run-unlink_program view identity_id w = go (session view.token) refl
    where
      go :
          (o : Option String)
          → session view.token ≡ o
          → run (unlink_program env view identity_id) w ≡ unlink_identity env view identity_id w
      go none k = ground (arith, k)
      go (some token) k =
          let asked : World Dashboard = record w {
            trace = w.trace ++ asked unlink_question ∷ [];
          } in
          ground (
            arith,
            k,
            run-recover-as (send_unlink_program env token identity_id)
                (λ e. fail_program env (text_or e "Unlink failed"))
                (send_unlink env token identity_id) _ asked
                (run-send_unlink_program token identity_id asked) (λ e v. refl),
          )
