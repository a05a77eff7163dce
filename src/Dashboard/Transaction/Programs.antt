-- ===== src/Dashboard/Transaction/Programs.antt =====
-- `executeTransaction` as a program that stops at each of its awaits. Run alone it is the effect.
use web3_lab_public.Prelude.{
  String, true, false, ◌&&◌, Option, none, some, ◌<>◌, ◌≡◌, ◌∙◌, refl, arith, is_truthy, option_or,
  if◌then◌else◌,
}
use web3_lab_public.Browser.{Reply, ok, thrown, World, Response, Request, is_ok, fetched}
use web3_lab_public.Program.{
  Program, settled, run, bind, recover, ensure, run-bind, run-recover, run-ensure,
}
use web3_lab_public.Dashboard.State.{TokenType, token_name, Number, TxResult, Dashboard, sub_of}
use web3_lab_public.Dashboard.Services.{Services, ExecuteBody}
use web3_lab_public.Dashboard.Transaction
use web3_lab_public.Dashboard.Transaction.{
  Action, Params, is_fungible, default_decimals, token_request, execute_request, begin, end,
}

module _ (env : Services) (view : Dashboard) where
  unfoldable pub decimals_program : TokenType → Response (Option String) → Program Dashboard Number
  decimals_program type r =
      if is_ok r
      then bind (Program.pause (settled r.json)) (λ known.
        Program.give (elim known [ none ↦ default_decimals type | some d ↦ env.number_of d ]))
      else Program.give (default_decimals type)

  unfoldable pub looked_up_program : TokenType → String → String → Program Dashboard String
  looked_up_program type token_addr amount =
      let request = token_request env view token_addr in
      recover
        (Program.query (fetched request) (λ t. env.token_info t request)
          (λ reply. bind (settled reply) (λ r.
            bind (decimals_program type r)
              (λ decimals. settled (env.parse_units amount decimals)))))
        (λ e. Program.fail ("Failed to parse " <> token_name type <> " amount: " <> e))

  unfoldable pub amount_program : TokenType → String → String → Program Dashboard String
  amount_program type token_addr amount =
      if is_fungible type && is_truthy amount
      then elim view.selected_asset [
        | some asset ↦ recover (settled (env.parse_units amount asset.decimals)) (λ e.
            Program.fail ("Invalid decimals in " <> token_name type <> " amount string: " <> e))
        | none ↦
            if is_truthy token_addr
            then looked_up_program type token_addr amount
            else Program.give amount
      ]
      else Program.give amount

  unfoldable pub accept_program : Response ExecuteBody → Program Dashboard TxResult
  accept_program res = bind (Program.pause (settled res.json)) (λ body.
      if is_ok res
      then Program.give body.result
      else Program.fail (option_or body.error_message "Transaction failed"))

  unfoldable pub send_program : Request → Program Dashboard (Option TxResult)
  send_program request =
      Program.query (fetched request) (λ t. env.execute t request)
        (λ reply. bind (settled reply) (λ res. bind (accept_program res) (λ body.
          Program.update (λ s. record s { tx_result = some body }) (Program.give (some body)))))

  unfoldable pub attempt_program :
      String → Action → TokenType → Params → Program Dashboard (Option TxResult)
  attempt_program sub action type p =
      recover
        (bind (amount_program type p.token_addr p.amount_or_id)
          (λ amount. send_program (execute_request env view sub action type p amount)))
        (λ e. Program.update (λ s. record s { error = some e }) (Program.give none))

  -- The program for a user that is known, or not.
  abbrev pub program_of :
      Action → TokenType → Params → Option String → Program Dashboard (Option TxResult)
  program_of action type p none = Program.give none
  program_of action type p (some sub) =
      Program.update (begin env view action)
        (ensure (end env view) (attempt_program sub action type p))

  unfoldable pub execute_program : Action → TokenType → Params → Program Dashboard (Option TxResult)
  execute_program action type p = program_of action type p (sub_of view.user_info)

  run-amount_program :
      (type : TokenType) (token_addr amount : String) (w : World Dashboard)
      → run (amount_program type token_addr amount) w
        ≡ Transaction.scaled_amount env view type token_addr amount w
  unfolding amount_program looked_up_program decimals_program Transaction.scaled_amount run bind
      recover
  run-amount_program type token_addr amount w = ground arith

  run-attempt_program :
      (sub : String) (action : Action) (type : TokenType) (p : Params) (w : World Dashboard)
      → run (attempt_program sub action type p) w
        ≡ Transaction.run_transaction env view sub action type p w
  unfolding attempt_program send_program accept_program Transaction.run_transaction
      Transaction.accept run bind
  run-attempt_program sub action type p w = go _ refl
    where
      amount : Program Dashboard String
      amount = amount_program type p.token_addr p.amount_or_id

      send : String → Program Dashboard (Option TxResult)
      send a = send_program (execute_request env view sub action type p a)

      failed : String → Program Dashboard (Option TxResult)
      failed e = Program.update (λ s. record s { error = some e }) (Program.give none)

      Goal : Type 0
      Goal =
          run (attempt_program sub action type p) w
          ≡ Transaction.run_transaction env view sub action type p w

      go :
          (r : Reply String × World Dashboard)
          → Transaction.scaled_amount env view type p.token_addr p.amount_or_id w ≡ r
          → Goal
      go (thrown e, v) k =
          run-recover (bind amount send) failed w
          ∙ ground (
            arith,
            run-bind amount send w,
            run-amount_program type p.token_addr p.amount_or_id w,
            k,
          )
      go (ok a, v) k =
          run-recover (bind amount send) failed w
          ∙ ground (
            arith,
            run-bind amount send w,
            run-amount_program type p.token_addr p.amount_or_id w,
            k,
          )

  -- The program of a transaction, run with no other event in between, is the transaction.
  pub run-execute_program :
      (action : Action) (type : TokenType) (p : Params) (w : World Dashboard)
      → run (execute_program action type p) w
        ≡ Transaction.execute_transaction env view action type p w
  unfolding execute_program Transaction.execute_transaction run
  run-execute_program action type p w = go (sub_of view.user_info) refl
    where
      go :
          (k : Option String)
          → sub_of view.user_info ≡ k
          → run (execute_program action type p) w
            ≡ Transaction.execute_transaction env view action type p w
      go none e = ground (arith, e)
      go (some sub) e =
          let begun : World Dashboard = record w { state = begin env view action w.state } in
          ground (
            arith,
            e,
            run-ensure (end env view) (attempt_program sub action type p) begun,
            run-attempt_program sub action type p begun,
          )

  pub begin-linking :
      (action : Action) (s : Dashboard)
      → (begin env view action s).linking_wallet ≡ s.linking_wallet
  unfolding begin
  begin-linking action s = refl

  pub end-linking : (s : Dashboard) → (end env view s).linking_wallet ≡ s.linking_wallet
  unfolding end
  end-linking s = refl

  pub begin-loading :
      (action : Action) (s : Dashboard) → (begin env view action s).tx_loading ≡ true
  unfolding begin
  begin-loading action s = refl

  pub end-loading : (s : Dashboard) → (end env view s).tx_loading ≡ false
  unfolding end
  end-loading s = refl
