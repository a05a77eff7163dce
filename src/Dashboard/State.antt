-- ===== src/Dashboard/State.antt =====
-- The types of DashboardPage.tsx and the React state of the page: a field for each `useState`.
use web3_lab_public.Prelude.{ℕ, String, Bool, true, false, List, [], Option, none, some}

pub data MenuSection : Type 0 where
  profile deploy mint transfer : MenuSection

pub data TokenType : Type 0 where
  erc20 erc721 erc1155 : TokenType

abbrev pub token_name : TokenType → String
token_name erc20 = "ERC20"
token_name erc721 = "ERC721"
token_name erc1155 = "ERC1155"

abbrev pub section_eq : MenuSection → MenuSection → Bool
section_eq profile profile = true
section_eq deploy deploy = true
section_eq mint mint = true
section_eq transfer transfer = true
section_eq _ _ = false

abbrev pub token_eq : TokenType → TokenType → Bool
token_eq erc20 erc20 = true
token_eq erc721 erc721 = true
token_eq erc1155 erc1155 = true
token_eq _ _ = false

-- A JavaScript number as the page meets it: a count, or NaN.
pub data Number : Type 0 where
  nat : ℕ → Number
  nan : Number

pub record LinkedIdentity : Type 0 where
  pub identity_id : String
  pub provider_id : String
  pub provider_user_id : String
  pub display_name : Option String
  pub is_primary : Bool
  pub linked_at : String
  pub scw_address : Option String

pub record TokenBalance : Type 0 where
  pub address : String
  pub decimals : Number
  pub symbol : String
  pub name : String
  pub balance_raw : String
  pub type : String
  pub id : Option String
  pub is_owner : Bool

pub data ContextMenuType : Type 0 where
  address tx token generic : ContextMenuType

pub record ContextMenu : Type 0 where
  pub x : ℕ
  pub y : ℕ
  pub value : String
  pub type : ContextMenuType

-- What `/userinfo` answers; `others` are the entries that the page only lists.
pub record UserInfo : Type 0 where
  pub sub : String
  pub email : Option String
  pub name : Option String
  pub picture : Option String
  pub email_verified : Option Bool
  pub identity_id : Option String
  pub others : List (String × String)

-- What `/wallet/execute` answers on success.
pub record TxResult : Type 0 where
  pub transaction_hash : Option String
  pub message : Option String
  pub contract_address : Option String
  pub nested_contract_address : Option String

pub record File : Type 0 where
  pub name : String
  pub type : String
  pub size : ℕ

pub data UploadProgress : Type 0 where
  idle uploading done error : UploadProgress

pub record Dashboard : Type 0 where
  pub token : Option String
  pub user_info : Option UserInfo
  pub smart_wallet_address : Option String
  pub wallet_address : Option String
  pub tx_loading : Bool
  pub tx_result : Option TxResult
  pub error : Option String
  pub tx_copied : Bool
  pub scw_copied : Bool
  pub deployed_contract_address : Option String
  pub contract_addr_copied : Bool
  pub portfolio : List TokenBalance
  pub portfolio_loading : Bool
  pub selected_asset : Option TokenBalance
  pub amount_error : Option String
  pub active_section : MenuSection
  pub active_token : TokenType
  pub switch_status : Option String
  pub token_copied : Bool
  pub address_copied : Bool
  pub show_token : Bool
  pub linked_identities : List LinkedIdentity
  pub identities_loading : Bool
  pub linking_wallet : Bool
  pub link_error : Option String
  pub deploy_name : String
  pub deploy_symbol : String
  pub deploy_decimals : String
  pub deploy_initial_supply : String
  pub interact_token_address : String
  pub interact_to : String
  pub interact_amount : String
  pub interact_token_id : String
  pub upload_file : Option File
  pub upload_preview : Option String
  pub upload_progress : UploadProgress
  pub nft_name : String
  pub nft_description : String
  pub context_menu : Option ContextMenu

-- The state of the first render.
abbrev pub initial : Dashboard
initial = record {
  token = none;
  user_info = none;
  smart_wallet_address = none;
  wallet_address = none;
  tx_loading = false;
  tx_result = none;
  error = none;
  tx_copied = false;
  scw_copied = false;
  deployed_contract_address = none;
  contract_addr_copied = false;
  portfolio = [];
  portfolio_loading = false;
  selected_asset = none;
  amount_error = none;
  active_section = deploy;
  active_token = erc20;
  switch_status = none;
  token_copied = false;
  address_copied = false;
  show_token = false;
  linked_identities = [];
  identities_loading = false;
  linking_wallet = false;
  link_error = none;
  deploy_name = "My Web3Token";
  deploy_symbol = "MW3";
  deploy_decimals = "18";
  deploy_initial_supply = "1000";
  interact_token_address = "";
  interact_to = "";
  interact_amount = "10";
  interact_token_id = "0";
  upload_file = none;
  upload_preview = none;
  upload_progress = idle;
  nft_name = "";
  nft_description = "";
  context_menu = none;
}

-- `userInfo?.sub`, absent also when it is empty
abbrev pub sub_of : Option UserInfo → Option String
sub_of none = none
sub_of (some u) = elim u.sub [ String.[] ↦ none | String.◌∷◌ c s ↦ some (String.◌∷◌ c s) ]
