-- ===== src/Dashboard/Transaction/Requests.antt =====
-- What `executeTransaction` sends.
use mathlib.Core.List.{append-nil}
use web3_lab_public.Prelude.{
  String, Bool, true, false, ◌&&◌, [], ◌∷◌, ◌++◌, Option, none, some, ◌<>◌, ◌≡◌, refl, arith,
  is_truthy, if◌then◌else◌,
}
use web3_lab_public.Browser.{Reply, ok, thrown, World, Request, Response, Trace, is_ok, fetched}
use web3_lab_public.Dashboard.State.{
  TokenType, erc20, erc721, erc1155, Number, nat, TokenBalance, TxResult, Dashboard, sub_of,
}
use web3_lab_public.Dashboard.Services.{Services}
use web3_lab_public.Dashboard.Transaction
use web3_lab_public.Dashboard.Transaction.{Action, Params}

abbrev pub action_word : Action → String
action_word Action.mint = "mint"
action_word Action.transfer = "transfer"
action_word Action.deploy_contract = "deploy_contract"
action_word Action.set_uri = "set_uri"

abbrev pub token_word : TokenType → String
token_word erc20 = "ERC20"
token_word erc721 = "ERC721"
token_word erc1155 = "ERC1155"

abbrev pub token_or_null : Option String → String
token_or_null none = "null"
token_or_null (some token) = token

abbrev usual_decimals : TokenType → Number
usual_decimals erc20 = nat 18
usual_decimals erc721 = nat 0
usual_decimals erc1155 = nat 0

abbrev has_units : TokenType → Bool
has_units erc20 = true
has_units erc721 = false
has_units erc1155 = true

-- An error for the amount of a token.
abbrev told : String → String → TokenType → Reply String → Reply String
told before after type (ok amount) = ok amount
told before after type (thrown e) = thrown (before <> token_word type <> after <> e)

module _ (env : Services) (view : Dashboard) where
  -- The request for a transaction with an amount, as the gateway gets it.
  abbrev pub wire_request : String → Action → TokenType → Params → String → Request
  wire_request sub action type p amount = record {
    method = "POST";
    url = env.urls.gateway <> "/api/v1/wallet/execute";
    headers =
        ("Content-Type", "application/json")
        ∷ ("Authorization", "Bearer " <> token_or_null view.token)
        ∷ [];
    body =
        ("account_id", sub)
        ∷ ("action", action_word action)
        ∷ ("token_type", token_word type)
        ∷ ("to", p.to)
        ∷ ("amount", amount)
        ∷ ("token_id", view.interact_token_id)
        ∷ ("token_address", p.token_addr)
        ∷ ("name", p.name)
        ∷ ("symbol", p.symbol)
        ∷ ("decimals", p.decimals)
        ∷ ("initial_supply", p.initial_supply)
        ∷ [];
  }

  pub execute_request-wire :
      (sub : String) (action : Action) (type : TokenType) (p : Params) (amount : String)
      → Transaction.execute_request env view sub action type p amount
        ≡ wire_request sub action type p amount
  unfolding Transaction.execute_request
  execute_request-wire sub action type p amount = go action type view.token refl
    where
      go :
          (a : Action) (t : TokenType) (o : Option String)
          → view.token ≡ o
          → Transaction.execute_request env view sub a t p amount ≡ wire_request sub a t p amount
      go a t o e = ground (arith, e)

  -- The request for what Blockscout knows of a token.
  abbrev pub wire_lookup : String → Request
  wire_lookup token_addr = record {
    method = "GET";
    url = env.urls.blockscout_api <> "/api/v2/tokens/" <> token_addr;
    headers = [];
    body = [];
  }

  -- The decimals that Blockscout's answer gives a token: those of its type, where it gives none.
  abbrev pub known_decimals : TokenType → Response (Option String) → Reply Number
  known_decimals type res =
      if is_ok res
      then elim res.json [
        | ok none ↦ ok (usual_decimals type)
        | ok (some d) ↦ ok (env.number_of d)
        | thrown e ↦ thrown e
      ]
      else ok (usual_decimals type)

  abbrev pub units_by : String → Reply Number → Reply String
  units_by amount (ok d) = env.parse_units amount d
  units_by amount (thrown e) = thrown e

  abbrev pub looked_up : TokenType → String → Reply (Response (Option String)) → Reply String
  looked_up type amount (ok res) = units_by amount (known_decimals type res)
  looked_up type amount (thrown e) = thrown e

  -- A typed amount is scaled where it is one of a fungible token and the token is known.
  abbrev pub scales_amount : TokenType → Params → Bool
  scales_amount type p = has_units type && is_truthy p.amount_or_id

  -- The requests that scaling an amount makes, and the amount of the transaction or the error, after
  -- the events `t`.
  abbrev pub amount_lookups : TokenType → Params → Trace
  amount_lookups type p =
      if scales_amount type p
      then elim view.selected_asset [
        | some asset ↦ []
        | none ↦ if is_truthy p.token_addr then fetched (wire_lookup p.token_addr) ∷ [] else []
      ]
      else []

  abbrev pub due_amount : TokenType → Params → Trace → Reply String
  due_amount type p t =
      if scales_amount type p
      then elim view.selected_asset [
        | some asset ↦
            told "Invalid decimals in " " amount string: " type
              (env.parse_units p.amount_or_id asset.decimals)
        | none ↦
            if is_truthy p.token_addr
            then told "Failed to parse " " amount: " type
                (looked_up type p.amount_or_id (env.token_info t (wire_lookup p.token_addr)))
            else ok p.amount_or_id
      ]
      else ok p.amount_or_id

  usual_decimals-default : (t : TokenType) → Transaction.default_decimals t ≡ usual_decimals t
  usual_decimals-default erc20 = refl
  usual_decimals-default erc721 = refl
  usual_decimals-default erc1155 = refl

  scaled_amount-due :
      (type : TokenType) (p : Params) (w : World Dashboard)
      → Transaction.scaled_amount env view type p.token_addr p.amount_or_id w
        ≡ (due_amount type p w.trace, record w { trace = w.trace ++ amount_lookups type p })
  unfolding Transaction.scaled_amount Transaction.looked_up_amount Transaction.token_decimals
      Transaction.token_request
  scaled_amount-due type p w = go type view.selected_asset refl
    where
      Goal : TokenType → Type 0
      Goal t =
          Transaction.scaled_amount env view t p.token_addr p.amount_or_id w
          ≡ (due_amount t p w.trace, record w { trace = w.trace ++ amount_lookups t p })

      answered :
          (t : TokenType) (r : Reply (Response (Option String)))
          → view.selected_asset ≡ none
          → env.token_info w.trace (wire_lookup p.token_addr) ≡ r
          → Goal t
      answered t (thrown e) s a = ground (arith, append-nil w.trace, s, a)
      answered t (ok res) s a = go res.json refl
        where
          go : (j : Reply (Option String)) → res.json ≡ j → Goal t
          go (thrown e) j = ground (arith, append-nil w.trace, s, a, j, usual_decimals-default t)
          go (ok none) j = ground (arith, append-nil w.trace, s, a, j, usual_decimals-default t)
          go (ok (some d)) j = ground (arith, append-nil w.trace, s, a, j, usual_decimals-default t)

      go : (t : TokenType) (o : Option TokenBalance) → view.selected_asset ≡ o → Goal t
      go t (some asset) s = ground (arith, append-nil w.trace, s)
      go t none s = answered t _ s refl

  -- The events of a transaction after the amount is known, and the error if it is not.
  abbrev pub Sends :
      String
      → Action
      → TokenType
      → Params
      → Trace
      → Reply String
      → Reply (Option TxResult) × World Dashboard
      → Type 0
  Sends sub action type p before (ok amount) r =
      r.1.trace ≡ before ++ fetched (wire_request sub action type p amount) ∷ []
  Sends sub action type p before (thrown e) r =
      (r.1.trace ≡ before) × (r.1.state.error ≡ some e) × (r.0 ≡ ok none)

  -- For a known user: Blockscout is asked for the token's decimals exactly if an amount of a
  -- fungible type and a token's address are given and no asset is selected. Once the amount of a
  -- fungible type is scaled, by the decimals of the selected asset or those that are found, one POST
  -- to `/wallet/execute` is sent, with the user's id, the action, that amount and the parameters
  -- (an amount of another type, an empty one, and one without asset and address are sent as they
  -- are); if it cannot be scaled no such request is sent, its error is shown and the result is
  -- `null`.
  pub execute_transaction-Sends :
      (action : Action) (type : TokenType) (p : Params) (w : World Dashboard) (sub : String)
      → sub_of view.user_info ≡ some sub
      → Sends sub action type p
          (w.trace ++ amount_lookups type p)
          (due_amount type p w.trace)
          (Transaction.execute_transaction env view action type p w)
  unfolding Transaction.execute_transaction Transaction.run_transaction Transaction.accept
      Transaction.end Transaction.begin
  execute_transaction-Sends action type p w sub known = go (due_amount type p w.trace) refl
    where
      begun : World Dashboard
      begun = record w { state = Transaction.begin env view action w.state }

      go :
          (a : Reply String)
          → due_amount type p w.trace ≡ a
          → Sends sub action type p
              (w.trace ++ amount_lookups type p)
              a
              (Transaction.execute_transaction env view action type p w)
      go (ok amount) a = ground (
        arith,
        known,
        a,
        scaled_amount-due type p begun,
        execute_request-wire sub action type p amount,
      )
      go (thrown e) a = ground (arith, known, a, scaled_amount-due type p begun)
