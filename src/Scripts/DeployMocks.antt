-- ===== src/Scripts/DeployMocks.antt =====
-- contracts/scripts/deploy.ts: the entry point, the account factory, three sample tokens and the
-- paymaster are deployed one after the other; their addresses are only printed.
pub mod Laws
use web3_lab_public.Prelude.{String, [], ◌∷◌, none}
use web3_lab_public.Browser.{Io, pure, ask, called, ◌>>=◌, ◌>>◌}
use web3_lab_public.Scripts.Chain.{Chain, Process, run_main, deploy_contract}

module _ (chain : Chain) where
  -- `[deployer] = await ethers.getSigners()`: the node's first account.
  abbrev pub first_signer : Io Process String
  first_signer = ask (called "ethers" "getSigners" []) (λ t. chain.signer_address t none)

  -- The three sample tokens take no arguments.
  unfoldable pub deploy_mocks : Io Process (Unit {0})
  deploy_mocks = do
    _ ← deploy_contract chain "MockUSDC" []
    _ ← deploy_contract chain "MockMembership" []
    _ ← deploy_contract chain "MockLoyalty" []
    pure tt

  unfoldable pub deploy_samples : Io Process (Unit {0})
  deploy_samples = do
    deployer ← first_signer
    entry_point ← deploy_contract chain "EntryPoint" []
    _ ← deploy_contract chain "Web3LabAccountFactory" (entry_point ∷ [])
    deploy_mocks
    _ ← deploy_contract chain "Web3LabPaymaster" (entry_point ∷ deployer ∷ [])
    pure tt

  unfoldable pub main : Io Process (Unit {0})
  main = run_main deploy_samples
