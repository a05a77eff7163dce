-- ===== src/Scripts/Deploy.antt =====
-- contracts/scripts/deploy.js: the six contracts are deployed one after the other, and their
-- addresses written to deployments.json.
pub mod Laws
use web3_lab_public.Prelude.{ℕ, String, List, [], ◌∷◌, Option}
use web3_lab_public.Browser.{Io, pure, emit, written, ◌>>=◌, ◌>>◌}
use web3_lab_public.Scripts.Chain.{
  Chain, Process, run_main, artifact, send, call_view, get_signer, deploy_contract,
}

pub record Deployments : Type 0 where
  pub entry_point : String
  pub account_factory : String
  pub erc20_factory : String
  pub erc721_factory : String
  pub erc1155_factory : String
  pub paymaster : String

-- The object that is written, in the order of its keys.
abbrev pub to_json : Deployments → List (String × String)
to_json d =
    ("EntryPoint", d.entry_point)
    ∷ ("Web3LabAccountFactory", d.account_factory)
    ∷ ("Web3LabERC20Factory", d.erc20_factory)
    ∷ ("Web3LabERC721Factory", d.erc721_factory)
    ∷ ("Web3LabERC1155Factory", d.erc1155_factory)
    ∷ ("Web3LabPaymaster", d.paymaster)
    ∷ []

module _ (chain : Chain) (private_key : Option String) where
  unfoldable pub deploy_all : String → Io Process Deployments
  deploy_all deployer = do
    entry_point ← deploy_contract chain "Web3LabEntryPoint" []
    account_factory ← deploy_contract chain "Web3LabAccountFactory" (entry_point ∷ [])
    erc20_factory ← deploy_contract chain "Web3LabERC20Factory" []
    erc721_factory ← deploy_contract chain "Web3LabERC721Factory" []
    erc1155_factory ← deploy_contract chain "Web3LabERC1155Factory" []
    paymaster ← deploy_contract chain "Web3LabPaymaster" (entry_point ∷ deployer ∷ [])
    pure (record {
      entry_point = entry_point;
      account_factory = account_factory;
      erc20_factory = erc20_factory;
      erc721_factory = erc721_factory;
      erc1155_factory = erc1155_factory;
      paymaster = paymaster;
    })

  unfoldable pub deploy_main : Io Process (Unit {0})
  deploy_main = do
    deployer ← get_signer chain private_key
    deployments ← deploy_all deployer
    emit (written "deployments.json" (to_json deployments))

  unfoldable pub main : Io Process (Unit {0})
  main = run_main deploy_main
