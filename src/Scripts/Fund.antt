-- ===== src/Scripts/Fund.antt =====
-- contracts/scripts/fund_paymaster.ts: 100 ETH are deposited for the paymaster at the entry point.
use web3_lab_public.Prelude.{String, [], ◌∷◌, Option, none, some, option_or}
use web3_lab_public.Browser.{Io, pure, throw, ◌>>=◌, ◌>>◌}
use web3_lab_public.Scripts.Chain.{Chain, Process, run_main, artifact, send, get_signer}
use web3_lab_public.Scripts.Deploy.{Deployments}

-- The two addresses that the environment may override.
pub record Overrides : Type 0 where
  pub entry_point : Option String
  pub paymaster : Option String
  pub private_key : Option String

module _ (chain : Chain) where
  pub fund : Overrides → Deployments → Io Process (Unit {0})
  fund env d = do
    signer ← get_signer chain env.private_key
    artifact chain "Web3LabEntryPoint"
    _ ←
        send chain (option_or env.entry_point d.entry_point) "depositTo"
          (option_or env.paymaster d.paymaster ∷ chain.parse_units "100" 18 ∷ [])
    pure tt

  unfoldable pub main : Overrides → Option Deployments → Io Process (Unit {0})
  unfolding fund
  main env deployments = run_main (elim deployments [
    | none ↦ throw "deployments.json not found! Please run 'make deploy-contracts' first."
    | some d ↦ fund env d
  ])
