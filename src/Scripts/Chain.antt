-- ===== src/Scripts/Chain.antt =====
-- What the scripts call: hardhat's artifacts, the signer, and the contracts on the chain. A
-- contract is named by its address, an artifact by its name; each answer may depend on all that
-- happened before.
use web3_lab_public.Prelude.{ℕ, String, List, [], ◌∷◌, Option}
use web3_lab_public.Browser.{Trace, Reply, Io, pure, ask, called, set, catch, ◌>>=◌, ◌>>◌}

-- The process: its exit code.
pub record Process : Type 0 where
  pub exit_code : ℕ

-- An event in a receipt: its name, if the interface knows it, and its arguments.
pub record EventLog : Type 0 where
  pub name : Option String
  pub args : List String

pub record Chain : Type 0 where
  pub read_artifact : Trace → String → Reply (Unit {0})
  pub deploy : Trace → String → List String → Reply String
  pub wait_for_deployment : Trace → String → Reply (Unit {0})
  -- A transaction that is sent and waited for: the logs of its receipt.
  pub transact : Trace → String → String → List String → Reply (List EventLog)
  pub view : Trace → String → String → List String → Reply String
  pub signer_address : Trace → Option String → Reply String
  pub encode_call : String → List String → String
  pub parse_units : String → ℕ → String
  pub random_suffix : Trace → String

-- `main().catch(error => { process.exitCode = 1 })`
abbrev pub run_main : Io Process (Unit {0}) → Io Process (Unit {0})
run_main main = catch main (λ _. set (λ p. record p { exit_code = 1 }))

module _ (chain : Chain) where
  unfoldable pub artifact : String → Io Process (Unit {0})
  artifact name =
      ask (called "artifacts" "readArtifact" (name ∷ [])) (λ t. chain.read_artifact t name)

  -- A factory's `deploy`, `waitForDeployment` and `getAddress`.
  unfoldable pub deploy_contract : String → List String → Io Process String
  unfolding artifact
  deploy_contract name args = do
    artifact name
    address ← ask (called name "deploy" args) (λ t. chain.deploy t name args)
    ask (called address "waitForDeployment" []) (λ t. chain.wait_for_deployment t address)
    pure address

  unfoldable pub send : String → String → List String → Io Process (List EventLog)
  send contract function args =
      ask (called contract function args) (λ t. chain.transact t contract function args)

  unfoldable pub call_view : String → String → List String → Io Process String
  call_view contract function args =
      ask (called contract function args) (λ t. chain.view t contract function args)

  -- The signer: the wallet of the key, or the node's first account if none is given.
  unfoldable pub get_signer : Option String → Io Process String
  get_signer key = ask (called "provider" "getSigner" []) (λ t. chain.signer_address t key)
