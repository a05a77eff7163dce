-- ===== src/Scripts/Interact.antt =====
-- contracts/scripts/test-interact.js: two smart wallets are created, and each token standard is
-- tried with transfers that the first wallet executes. `none` for the file stands for a missing
-- one.
pub mod Laws
use web3_lab_public.Prelude.{
  ℕ, zero, suc, ◌+◌, String, Bool, true, false, List, [], ◌∷◌, ◌++◌, Option, none, some, ◌<>◌, ◌==◌,
  is_present, option_or, find,
}
use web3_lab_public.Text.{print}
use web3_lab_public.Browser.{Io, ok, pure, throw, ask, called, emit, written, ◌>>=◌, ◌>>◌}
use web3_lab_public.Scripts.Chain.{
  Chain, Process, EventLog, run_main, artifact, send, call_view, get_signer, deploy_contract,
}
use web3_lab_public.Scripts.Deploy.{Deployments}

-- A token that was deployed, for the icons in the explorer.
pub record Seed : Type 0 where
  pub index : Option ℕ
  pub address : String
  pub symbol : String

pub record Seeds : Type 0 where
  pub erc20 : List Seed
  pub erc721 : List Seed
  pub erc1155 : List Seed

abbrev named : String → EventLog → Bool
named name l = elim l.name [ none ↦ false | some n ↦ n == name ]

-- `logs.find(l => l.fragment && l.fragment.name === name)`, and its `args[0]`
abbrev pub created : String → List EventLog → Option EventLog
created name logs = find (named name) logs

abbrev first_arg : EventLog → String
first_arg l = elim l.args [ [] ↦ "undefined" | a ∷ _ ↦ a ]

abbrev pub created_address : Option EventLog → Io Process String
created_address none = throw "Cannot read properties of undefined (reading 'args')"
created_address (some l) = pure (first_arg l)

module _ (chain : Chain) (wallet_a wallet_b : String) where
  unfoldable pub random_suffix : Io Process String
  random_suffix = ask (called "Math" "random" []) (λ t. ok (chain.random_suffix t))

  -- The first wallet executes a call of a token's function.
  unfoldable pub execute : String → String → List String → Io Process (List EventLog)
  execute token function args =
      send chain wallet_a "execute" (token ∷ "0" ∷ chain.encode_call function args ∷ [])

  -- A factory's call that creates a token, and the address in the event that it emits.
  unfoldable pub create : String → String → List String → String → Io Process String
  create factory function args event = do
    logs ← send chain factory function args
    created_address (created event logs)

  unfoldable pub erc20_round : String → ℕ → Io Process Seed
  erc20_round factory i = do
    suffix ← random_suffix
    let symbol = "LAB-" <> print i <> "-" <> suffix
    token ←
        create factory "createToken"
          (("Lab Token " <> print i <> " " <> suffix) ∷ symbol ∷ "18" ∷ "0" ∷ []) "ERC20Created"
    _ ← send chain token "mint" (wallet_a ∷ chain.parse_units "100" 18 ∷ [])
    _ ← execute token "transfer" (wallet_b ∷ chain.parse_units "50" 18 ∷ [])
    _ ← call_view chain token "balanceOf" (wallet_b ∷ [])
    pure (record { index = some i; address = token; symbol = symbol })

  unfoldable pub erc1155_round : String → ℕ → Io Process Seed
  erc1155_round factory i = do
    suffix ← random_suffix
    let symbol = "ITM-" <> print i <> "-" <> suffix
    token ←
        create factory "createMultiToken"
          (("Lab Items " <> print i <> " " <> suffix)
            ∷ symbol
            ∷ "http://localhost:9000/web3lab-assets/erc1155/metadata/{id}.json"
            ∷ [])
          "ERC1155Created"
    _ ← send chain token "mint" (wallet_a ∷ print i ∷ "500" ∷ "0x" ∷ [])
    _ ← execute token "safeTransferFrom" (wallet_a ∷ wallet_b ∷ print i ∷ "200" ∷ "0x" ∷ [])
    _ ← call_view chain token "balanceOf" (wallet_b ∷ print i ∷ [])
    pure (record { index = some i; address = token; symbol = symbol })

  -- `for (let i = first; ..; i++)` with the rounds that are left
  unfoldable pub rounds : (ℕ → Io Process Seed) → ℕ → ℕ → Io Process (List Seed)
  rounds body zero i = pure []
  rounds body (suc left) i = do seed ← body i; seeds ← rounds body left (i + 1); pure (seed ∷ seeds)

  -- One NFT is minted to the first wallet, and goes to the second.
  unfoldable pub erc721_round : String → ℕ → Io Process (Unit {0})
  erc721_round token i = do
    _ ← send chain token "mint" (wallet_a ∷ [])
    _ ← execute token "transferFrom" (wallet_a ∷ wallet_b ∷ print i ∷ [])
    _ ← call_view chain token "balanceOf" (wallet_b ∷ [])
    _ ← call_view chain token "ownerOf" (print i ∷ [])
    pure tt

  unfoldable pub erc721_rounds : String → ℕ → ℕ → Io Process (Unit {0})
  erc721_rounds token zero i = pure tt
  erc721_rounds token (suc left) i = do erc721_round token i; erc721_rounds token left (i + 1)

  unfoldable pub erc721_part : String → Io Process Seed
  erc721_part factory = do
    artifact chain "Web3LabERC721Factory"
    artifact chain "Web3LabERC721"
    suffix ← random_suffix
    let symbol = "NFT-" <> suffix
    token ←
        create factory "createNFT"
          (("Lab Collection " <> suffix)
            ∷ symbol
            ∷ "http://localhost:9000/web3lab-assets/erc721/metadata/"
            ∷ [])
          "ERC721Created"
    erc721_rounds token 4 0
    pure (record { index = none; address = token; symbol = symbol })

  unfoldable pub try_tokens : Deployments → Io Process Seeds
  try_tokens d = do
    artifact chain "Web3LabERC20Factory"
    artifact chain "Web3LabERC20"
    erc20 ← rounds (erc20_round d.erc20_factory) 4 1
    erc721 ← erc721_part d.erc721_factory
    artifact chain "Web3LabERC1155Factory"
    artifact chain "Web3LabERC1155"
    erc1155 ← rounds (erc1155_round d.erc1155_factory) 4 1
    pure (record { erc20 = erc20; erc721 = erc721 ∷ []; erc1155 = erc1155 })

-- The entries of a seed in the file, under the name of its list.
abbrev index_entry : String → Option ℕ → List (String × String)
index_entry kind none = []
index_entry kind (some i) = (kind <> ".index", print i) ∷ []

abbrev seed_entries : String → Seed → List (String × String)
seed_entries kind s =
    index_entry kind s.index ++ (kind <> ".address", s.address) ∷ (kind <> ".symbol", s.symbol) ∷ []

abbrev list_entries : String → List Seed → List (String × String)
list_entries kind [] = []
list_entries kind (s ∷ ss) = seed_entries kind s ++ list_entries kind ss

abbrev pub seed_json : Seeds → List (String × String)
seed_json s =
    list_entries "erc20" s.erc20
    ++ list_entries "erc721" s.erc721
    ++ list_entries "erc1155" s.erc1155

module _ (chain : Chain) where
  abbrev salted : String → ℕ → List String
  salted owner salt = owner ∷ print salt ∷ []

  -- The wallets of the signer with salts 0 and 1; their addresses are known before they are
  -- deployed.
  unfoldable pub with_wallets : Deployments → String → Io Process (Unit {0})
  with_wallets d signer = do
    artifact chain "Web3LabAccountFactory"
    wallet_a ← call_view chain d.account_factory "getAddress" (salted signer 0)
    wallet_b ← call_view chain d.account_factory "getAddress" (salted signer 1)
    _ ← send chain d.account_factory "createAccount" (salted signer 0)
    _ ← send chain d.account_factory "createAccount" (salted signer 1)
    artifact chain "Web3LabAccount"
    seeds ← try_tokens chain wallet_a wallet_b d
    emit (written "seed-addresses.json" (seed_json seeds))

  -- The last argument is whether a key is given.
  abbrev pub with_key : Deployments → Option String → Bool → Io Process (Unit {0})
  with_key d key true = do signer ← get_signer chain key; with_wallets d signer
  with_key d key false = throw "Please provide your PRIVATE_KEY environment variable."

  unfoldable pub main : Option Deployments → Option String → Io Process (Unit {0})
  main deployments private_key = run_main (elim deployments [
    | none ↦ throw "deployments.json not found! Please run 'make deploy-contracts' first."
    | some d ↦ with_key d private_key (is_present private_key)
  ])
