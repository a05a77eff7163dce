-- ===== src/Dashboard/Transaction/Accepted.antt =====
-- A transaction that the gateway accepts.
use web3_lab_public.Prelude.{
  String, true, false, [], ◌∷◌, ◌++◌, Option, none, some, ◌≡◌, arith, is_truthy,
}
use web3_lab_public.Browser.{Reply, ok, Trace, World, Response, is_ok, fetched}
use web3_lab_public.Dashboard.State.{TokenType, TokenBalance, TxResult, Dashboard, sub_of}
use web3_lab_public.Dashboard.Services.{Services, ExecuteBody}
use web3_lab_public.Dashboard.Transaction
use web3_lab_public.Dashboard.Transaction.{Action, Params, is_fungible}

module _ (env : Services) (view : Dashboard) where
  -- The amount of a selected asset is scaled by the asset's decimals, and nothing is asked for it.
  pub scaled_amount-selected :
      (type : TokenType) (asset : TokenBalance) (token_addr typed amount : String)
      (w : World Dashboard)
      → is_fungible type ≡ true
      → is_truthy typed ≡ true
      → view.selected_asset ≡ some asset
      → env.parse_units typed asset.decimals ≡ ok amount
      → Transaction.scaled_amount env view type token_addr typed w ≡ (ok amount, w)
  unfolding Transaction.scaled_amount
  scaled_amount-selected type asset token_addr typed amount w f g s p = ground (arith, f, g, s, p)

  -- What the page shows after a result.
  pub record IsShown (trace : Trace) (result : TxResult)
      (r : Reply (Option TxResult) × World Dashboard) : Type 0 where
    pub value : r.0 ≡ ok (some result)
    pub sent : r.1.trace ≡ trace
    pub shown : r.1.state.tx_result ≡ some result
    pub no_error : r.1.state.error ≡ none
    pub settled : r.1.state.tx_loading ≡ false

  pub execute_transaction-IsShown :
      (action : Action) (type : TokenType) (p : Params) (sub amount : String)
      (res : Response ExecuteBody) (body : ExecuteBody) (w : World Dashboard)
      → sub_of view.user_info ≡ some sub
      → let request = Transaction.execute_request env view sub action type p amount in
        let begun : World Dashboard = record w {
          state = Transaction.begin env view action w.state;
        } in
        Transaction.scaled_amount env view type p.token_addr p.amount_or_id begun
          ≡ (ok amount, begun)
        → env.execute w.trace request ≡ ok res
        → is_ok res ≡ true
        → res.json ≡ ok body
        → IsShown
            (w.trace ++ fetched request ∷ [])
            body.result
            (Transaction.execute_transaction env view action type p w)
  unfolding Transaction.execute_transaction Transaction.run_transaction Transaction.begin
      Transaction.accept Transaction.end
  execute_transaction-IsShown action type p sub amount res body w k s e a j =
      ground (arith, k, s, e, a, j)
