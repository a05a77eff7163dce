-- ===== src/Examples/Chains.antt =====
-- The scripts on a chain that accepts every transaction and emits no event.
use web3_lab_public.Prelude.{[], none, some, ◌≡◌, refl, ◌==◌, if◌then◌else◌}
use web3_lab_public.Browser.{ok, thrown, World}
use web3_lab_public.Scripts.Chain.{Chain, Process}
use web3_lab_public.Scripts.Quiet.{IsReported}
use web3_lab_public.Scripts.Deploy
use web3_lab_public.Scripts.Deploy.{Deployments}
use web3_lab_public.Scripts.Deploy.Laws.{deploy_main-IsReported}
use web3_lab_public.Scripts.DeployMocks
use web3_lab_public.Scripts.DeployMocks.Laws.{deploy_samples-fails}
use web3_lab_public.Scripts.Interact
use web3_lab_public.Scripts.Interact.Laws.{interact_main-IsReported}

abbrev chain : Chain
chain = record {
  read_artifact = λ t n. ok tt;
  deploy = λ t n args. ok n;
  wait_for_deployment = λ t a. ok tt;
  transact = λ t c f args. ok [];
  view = λ t c f args. ok "0xview";
  signer_address = λ t k. ok "0xsigner";
  encode_call = λ f args. f;
  parse_units = λ s d. s;
  random_suffix = λ t. "A1B2";
}

abbrev process : World Process
process = record { state = record { exit_code = 0 }; storage = []; trace = [] }

abbrev deployments : Deployments
deployments = record {
  entry_point = "0x1";
  account_factory = "0x2";
  erc20_factory = "0x3";
  erc721_factory = "0x4";
  erc1155_factory = "0x5";
  paymaster = "0x6";
}

deploy_main-IsReported_example : IsReported process (Deploy.main chain none process)
deploy_main-IsReported_example = deploy_main-IsReported chain none process

interact_main-IsReported_example :
    IsReported process (Interact.main chain (some deployments) (some "0xkey") process)
interact_main-IsReported_example =
    interact_main-IsReported chain (some deployments) (some "0xkey") process

-- Hardhat has no artifact of the first sample token.
abbrev plain : Chain
plain = record chain {
  read_artifact = λ t n. if n == "MockUSDC" then thrown "HH700: Artifact not found" else ok tt;
}

deploy_samples-fails_example :
    ((DeployMocks.main plain process).0 ≡ ok tt)
    × ((DeployMocks.main plain process).1.state.exit_code ≡ 1)
deploy_samples-fails_example =
    deploy_samples-fails plain "HH700: Artifact not found" process (λ t. refl)
