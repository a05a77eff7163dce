-- ===== src/Dashboard/Transaction/Frame.antt =====
-- What `executeTransaction` leaves alone.
use web3_lab_public.Prelude.{false, String, Option, none, some, ◌≡◌, refl, arith}
use web3_lab_public.Browser.{World, Reply, ok, thrown}
use web3_lab_public.Dashboard.State.{Dashboard, TokenType, TxResult, sub_of}
use web3_lab_public.Dashboard.Services.{Services}
use web3_lab_public.Dashboard.Marks.{IsSubmission, IsCalm}
use web3_lab_public.Dashboard.Transaction.Outcome.{IsSettled, execute_transaction-IsSettled}
use web3_lab_public.Dashboard.Transaction
use web3_lab_public.Dashboard.Transaction.{Action, Params, execute_transaction}

settled-IsCalm :
    (s : Dashboard) (r : Reply (Option TxResult)) {P : Type 0}
    → IsSettled s r × (s.tx_loading ≡ false) × P
    → IsCalm s
settled-IsCalm s (ok none) h = ground arith
settled-IsCalm s (ok (some res)) h = ground arith
settled-IsCalm s (thrown m) h = ground arith

module _ (env : Services) (view : Dashboard) where
  amount-IsSubmission :
      (type : TokenType) (token_addr amount : String) (w : World Dashboard)
      → IsSubmission w (Transaction.scaled_amount env view type token_addr amount w)
  unfolding Transaction.scaled_amount
  amount-IsSubmission type token_addr amount w = ground arith

  run-IsSubmission :
      (sub : String) (action : Action) (type : TokenType) (p : Params) (w : World Dashboard)
      → IsSubmission w (Transaction.run_transaction env view sub action type p w)
  unfolding Transaction.run_transaction Transaction.accept
  run-IsSubmission sub action type p w =
      ground (arith, amount-IsSubmission type p.token_addr p.amount_or_id w)

  pub execute_transaction-IsSubmission :
      (action : Action) (type : TokenType) (p : Params) (w : World Dashboard)
      → IsSubmission w (execute_transaction env view action type p w)
  unfolding execute_transaction Transaction.begin Transaction.end
  execute_transaction-IsSubmission action type p w = go (sub_of view.user_info) refl
    where
      begun : World Dashboard
      begun = record w { state = Transaction.begin env view action w.state }

      go :
          (u : Option String)
          → sub_of view.user_info ≡ u
          → IsSubmission w (execute_transaction env view action type p w)
      go none e = ground arith
      go (some sub) e = ground (arith, run-IsSubmission sub action type p begun)

  -- Between two transactions a transaction leaves the page calm again.
  pub execute_transaction-IsCalm :
      (action : Action) (type : TokenType) (p : Params) (w : World Dashboard)
      → IsCalm w.state
      → IsCalm (execute_transaction env view action type p w).1.state
  unfolding execute_transaction Transaction.begin Transaction.end
  execute_transaction-IsCalm action type p w c = go (sub_of view.user_info) refl
    where
      open c use {loading_off, exclusive}

      go :
          (u : Option String)
          → sub_of view.user_info ≡ u
          → IsCalm (execute_transaction env view action type p w).1.state
      go none e = ground arith
      go (some sub) e =
          settled-IsCalm _ _ (execute_transaction-IsSettled env view action type p w sub e)
