-- ===== src/Examples/Data.antt =====
-- A gateway, a wallet and a node that answer, a user with two identities, and a page in use.
use web3_lab_public.Prelude.{ℕ, String, true, false, [], ◌∷◌, none, some, ltb, if◌then◌else◌}
use web3_lab_public.Browser.{Reply, ok, thrown, Response, Urls, World}
use web3_lab_public.Dashboard.State.{
  nat, nan, TokenBalance, LinkedIdentity, UserInfo, TxResult, File, Dashboard, transfer, erc20,
  initial,
}
use web3_lab_public.Dashboard.Services.{Services}

abbrev pub respond : {B : Type 0} → B → Reply (Response B)
respond b = ok (record { status = 200; json = ok b })

abbrev pub refuse : {B : Type 0} → ℕ → Reply (Response B)
refuse status = ok (record { status = status; json = thrown "Unexpected end of JSON input" })

abbrev pub urls : Urls
urls = record {
  gateway = "https://gateway.lab";
  client_id = "app";
  auth_domain = "auth.lab";
  origin = "https://app.lab";
  blockscout = "https://explorer.lab";
  blockscout_api = "https://api.explorer.lab";
}

abbrev pub user : UserInfo
user = record {
  sub = "user-1";
  email = some "ada@lab.test";
  name = some "Ada";
  picture = none;
  email_verified = some true;
  identity_id = some "id-1";
  others = [];
}

abbrev pub result : TxResult
result = record {
  transaction_hash = some "0xabc";
  message = none;
  contract_address = none;
  nested_contract_address = none;
}

abbrev pub linked : LinkedIdentity
linked = record {
  identity_id = "id-2";
  provider_id = "eoa";
  provider_user_id = "0xE0A";
  display_name = none;
  is_primary = false;
  linked_at = "2025-01-01";
  scw_address = some "0xother";
}

abbrev pub image : File
image = record { name = "art.PNG"; type = "image/png"; size = 2048 }

-- The node: the ids of the collection are minted below `n`.
abbrev pub owner_below : ℕ → ℕ → Reply String
owner_below n i = if ltb i n then ok "0xholder" else thrown "ERC721NonexistentToken"

abbrev pub services : ℕ → Services
services n = record {
  urls = urls;
  has_ethereum = true;
  confirm = λ t q. true;
  userinfo = λ t r. respond user;
  wallet_address = λ t r. respond "0xscw";
  token_balances = λ t r. respond (
      record {
        token = some (record {
          address = "0xtoken";
          decimals = some "6";
          symbol = some "LAB";
          name = none;
          type = "ERC-20";
          id = none;
        });
        value = "2500000";
        token_id = none;
        id = none;
      }
      ∷ []);
  identities = λ t r. respond (some (linked ∷ []));
  nonce = λ t r. respond "Sign this";
  link = λ t r. respond none;
  unlink = λ t r. respond none;
  token_info = λ t r. respond (some "6");
  execute = λ t r. respond (record { result = result; error_message = none });
  presigned_url =
      λ t r. respond (record { upload_url = "https://put.lab"; public_url = "https://img.lab" });
  put_file = λ t r. respond tt;
  metadata = λ t r. refuse 500;
  erc20_icon = λ t r. respond tt;
  request_accounts = λ t. ok (some ("0xE0A" ∷ []));
  personal_sign = λ t. ok "0xsignature";
  revoke_permissions = λ t. thrown "unsupported";
  supports_interface = λ t c i. thrown "no such function";
  owner = λ t c. ok "0xSCW";
  owner_of = λ t c i. owner_below n i;
  wait_for_transaction = λ t h. ok none;
  parse_units = λ s d. ok "2500000";
  format_units = λ s d. "2.5";
  event_id = λ s. s;
  get_address = λ s. ok s;
  number_of = λ s. if ltb 0 n then nat 6 else nan;
}

abbrev pub balance : TokenBalance
balance = record {
  address = "0xtoken";
  decimals = nat 6;
  symbol = "LAB";
  name = "Lab Token";
  balance_raw = "2500000";
  type = "ERC-20";
  id = none;
  is_owner = true;
}

-- A page on which a transfer is filled in.
abbrev pub view : Dashboard
view = record initial {
  token = some "tok";
  user_info = some user;
  smart_wallet_address = some "0xscw";
  active_section = transfer;
  active_token = erc20;
  portfolio = balance ∷ [];
  selected_asset = some balance;
  linked_identities = linked ∷ [];
  interact_token_address = "0xtoken";
  interact_to = "0xother";
  interact_amount = "2.5";
}

abbrev pub world : World Dashboard
world = record {
  state = view;
  storage = ("access_token", "tok") ∷ ("id_token", "idt") ∷ ("theme", "dark") ∷ [];
  trace = [];
}
