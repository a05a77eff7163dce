-- ===== src/Dashboard/Threads/Silent/Transaction.antt =====
-- What a transaction does between its begin and its end leaves the marks alone.
use web3_lab_public.Prelude.{
  String, Bool, true, false, Option, none, some, ◌≡◌, refl, is_truthy, option_or, ◌&&◌,
  if◌then◌else◌,
}
use web3_lab_public.Browser.{Response, Request, is_ok}
use web3_lab_public.Program.{Program, settled}
use web3_lab_public.Program.Silent.{IsSilent, settled-IsSilent, bind-IsSilent, recover-IsSilent}
use web3_lab_public.Dashboard.State.{TokenType, TokenBalance, TxResult, Dashboard}
use web3_lab_public.Dashboard.Services.{Services, ExecuteBody}
use web3_lab_public.Dashboard.Transaction.{Action, Params, is_fungible}
use web3_lab_public.Dashboard.Transaction.Programs.{
  decimals_program, looked_up_program, amount_program, accept_program, send_program,
  attempt_program,
}
use web3_lab_public.Dashboard.Threads.{marks}

module _ (env : Services) (view : Dashboard) where
  decimals_program-IsSilent :
      (type : TokenType) (r : Response (Option String))
      → IsSilent marks (decimals_program env view type r)
  unfolding decimals_program IsSilent
  decimals_program-IsSilent type r = go (is_ok r) refl
    where
      go : (b : Bool) → is_ok r ≡ b → IsSilent marks (decimals_program env view type r)
      go true e = rw e (
          bind-IsSilent marks (Program.pause (settled r.json)) _ (settled-IsSilent marks r.json)
            (λ _. tt))
      go false e = rw e tt

  looked_up_program-IsSilent :
      (type : TokenType) (token_addr amount : String)
      → IsSilent marks (looked_up_program env view type token_addr amount)
  unfolding looked_up_program IsSilent
  looked_up_program-IsSilent type token_addr amount =
      recover-IsSilent marks _ _
        (λ reply. bind-IsSilent marks (settled reply) _ (settled-IsSilent marks reply) (λ r.
          bind-IsSilent marks (decimals_program env view type r) _
            (decimals_program-IsSilent type r)
            (λ decimals. settled-IsSilent marks (env.parse_units amount decimals))))
        (λ e. tt)

  accept_program-IsSilent :
      (res : Response ExecuteBody) → IsSilent marks (accept_program env view res)
  unfolding accept_program IsSilent
  accept_program-IsSilent res =
      bind-IsSilent marks (Program.pause (settled res.json)) _ (settled-IsSilent marks res.json)
        (λ body. go body (is_ok res) refl)
    where
      go :
          (body : ExecuteBody) (b : Bool)
          → is_ok res ≡ b
          → IsSilent marks {A = TxResult} (
              if b
              then Program.give body.result
              else Program.fail (option_or body.error_message "Transaction failed"))
      go body true e = tt
      go body false e = tt

  send_program-IsSilent : (request : Request) → IsSilent marks (send_program env view request)
  unfolding send_program IsSilent
  send_program-IsSilent request = λ reply.
      bind-IsSilent marks (settled reply) _ (settled-IsSilent marks reply) (λ res.
        bind-IsSilent marks (accept_program env view res) _ (accept_program-IsSilent res)
          (λ body. ((λ s. refl), tt)))

  amount_program-IsSilent :
      (type : TokenType) (token_addr amount : String)
      → IsSilent marks (amount_program env view type token_addr amount)
  unfolding amount_program IsSilent
  amount_program-IsSilent type token_addr amount =
      go (is_fungible type && is_truthy amount) view.selected_asset (is_truthy token_addr) refl refl
        refl
    where
      go :
          (b : Bool) (o : Option TokenBalance) (c : Bool)
          → (is_fungible type && is_truthy amount) ≡ b
          → view.selected_asset ≡ o
          → is_truthy token_addr ≡ c
          → IsSilent marks (amount_program env view type token_addr amount)
      go false o c e k t = rw e tt
      go true (some asset) c e k t =
          rw (e, k)
            (recover-IsSilent marks (settled (env.parse_units amount asset.decimals)) _
              (settled-IsSilent marks (env.parse_units amount asset.decimals)) (λ x. tt))
      go true none true e k t = rw (e, k, t) (looked_up_program-IsSilent type token_addr amount)
      go true none false e k t = rw (e, k, t) tt

  pub attempt_program-IsSilent :
      (sub : String) (action : Action) (type : TokenType) (p : Params)
      → IsSilent marks (attempt_program env view sub action type p)
  unfolding attempt_program IsSilent
  attempt_program-IsSilent sub action type p =
      recover-IsSilent marks _ _
        (bind-IsSilent marks (amount_program env view type p.token_addr p.amount_or_id) _
          (amount_program-IsSilent type p.token_addr p.amount_or_id) (λ a. send_program-IsSilent _))
        (λ e. ((λ s. refl), tt))
