-- ===== src/Dashboard/Transaction/Outcome.antt =====
-- How `executeTransaction` ends, on every branch.
use web3_lab_public.Prelude.{String, false, Option, none, some, ◌≡◌, ◌≢◌, refl, arith}
use web3_lab_public.Browser.{Reply, ok, thrown, World}
use web3_lab_public.Dashboard.State.{TokenType, TxResult, Dashboard, sub_of}
use web3_lab_public.Dashboard.Services.{Services}
use web3_lab_public.Dashboard.Transaction

-- An effect that leaves the state and the storage alone.
pub record IsReading {A : Type 0} (w : World Dashboard) (r : Reply A × World Dashboard)
    : Type 0 where
  pub state_kept : r.1.state ≡ w.state
  pub storage_kept : r.1.storage ≡ w.storage

-- The two ways in which a transaction that was begun ends.
abbrev pub IsSettled : Dashboard → Reply (Option TxResult) → Type 0
IsSettled s (thrown e) = ⊥
IsSettled s (ok (some res)) = (s.tx_result ≡ some res) × (s.error ≡ none)
IsSettled s (ok none) = (s.tx_result ≡ none) × (s.error ≢ none)

module _ (env : Services) (view : Dashboard) where
  scaled_amount-IsReading :
      (type : TokenType) (token_addr amount : String) (w : World Dashboard)
      → IsReading w (Transaction.scaled_amount env view type token_addr amount w)
  unfolding Transaction.scaled_amount
  scaled_amount-IsReading type token_addr amount w = ground arith

  run_transaction-IsSettled :
      (sub : String) (action : Transaction.Action) (type : TokenType) (p : Transaction.Params)
      (w : World Dashboard)
      → w.state.tx_result ≡ none
      → w.state.error ≡ none
      → let r = Transaction.run_transaction env view sub action type p w in
        IsSettled r.1.state r.0 × (r.1.storage ≡ w.storage)
  unfolding Transaction.run_transaction Transaction.accept
  run_transaction-IsSettled sub action type p w fresh calm =
      ground (arith, scaled_amount-IsReading type p.token_addr p.amount_or_id w)

  -- A transaction of a known user always ends. Either it has a result, which the page shows with no
  -- error, or it has none and the page shows an error; in both cases the mark of loading is off and
  -- the storage is as it was.
  pub execute_transaction-IsSettled :
      (action : Transaction.Action) (type : TokenType) (p : Transaction.Params)
      (w : World Dashboard) (sub : String)
      → sub_of view.user_info ≡ some sub
      → let r = Transaction.execute_transaction env view action type p w in
        IsSettled r.1.state r.0 × (r.1.state.tx_loading ≡ false) × (r.1.storage ≡ w.storage)
  unfolding Transaction.execute_transaction Transaction.begin Transaction.end
  execute_transaction-IsSettled action type p w sub known = ground (
    arith,
    run_transaction-IsSettled sub action type p
        (record w { state = Transaction.begin env view action w.state }) refl refl,
  )
