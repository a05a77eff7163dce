-- ===== src/Dashboard/Services.antt =====
-- What the dashboard calls and the repository's front end does not implement: the gateway, the
-- storage service, the wallet extension, the chain behind the RPC endpoint, and the pure functions
-- of the ethers library. Each answer may depend on all that happened before it.
use web3_lab_public.Prelude.{ℕ, String, Bool, List, Option}
use web3_lab_public.Browser.{Trace, Request, Response, Reply, Urls}
use web3_lab_public.Dashboard.State.{Number, LinkedIdentity, UserInfo, TxResult}

-- The token of an entry of Blockscout's `token-balances`.
pub record TokenInfo : Type 0 where
  pub address : String
  pub decimals : Option String
  pub symbol : Option String
  pub name : Option String
  pub type : String
  pub id : Option String

pub record BalanceItem : Type 0 where
  pub token : Option TokenInfo
  pub value : String
  pub token_id : Option String
  pub id : Option String

-- `/wallet/execute`: the body as a result, and `error?.message`.
pub record ExecuteBody : Type 0 where
  pub result : TxResult
  pub error_message : Option String

pub record Presigned : Type 0 where
  pub upload_url : String
  pub public_url : String

pub record Log : Type 0 where
  pub topics : List String

pub record Services : Type 0 where
  pub urls : Urls
  -- `window.ethereum` is there
  pub has_ethereum : Bool
  pub confirm : Trace → String → Bool
  pub userinfo : Trace → Request → Reply (Response UserInfo)
  pub wallet_address : Trace → Request → Reply (Response String)
  pub token_balances : Trace → Request → Reply (Response (List BalanceItem))
  pub identities : Trace → Request → Reply (Response (Option (List LinkedIdentity)))
  pub nonce : Trace → Request → Reply (Response String)
  pub link : Trace → Request → Reply (Response (Option String))
  pub unlink : Trace → Request → Reply (Response (Option String))
  pub token_info : Trace → Request → Reply (Response (Option String))
  pub execute : Trace → Request → Reply (Response ExecuteBody)
  pub presigned_url : Trace → Request → Reply (Response Presigned)
  pub put_file : Trace → Request → Reply (Response (Unit {0}))
  pub metadata : Trace → Request → Reply (Response (Unit {0}))
  pub erc20_icon : Trace → Request → Reply (Response (Unit {0}))
  pub request_accounts : Trace → Reply (Option (List String))
  pub personal_sign : Trace → Reply String
  pub revoke_permissions : Trace → Reply (Unit {0})
  -- The contracts' views at an address, through an RPC provider.
  pub supports_interface : Trace → String → String → Reply Bool
  pub owner : Trace → String → Reply String
  pub owner_of : Trace → String → ℕ → Reply String
  pub wait_for_transaction : Trace → String → Reply (Option (List Log))
  -- ethers: `parseUnits(..).toString()`, `formatUnits`, `id`, `getAddress`
  pub parse_units : String → Number → Reply String
  pub format_units : String → Number → String
  pub event_id : String → String
  pub get_address : String → Reply String
  -- JavaScript's `Number` of a text
  pub number_of : String → Number
