-- ===== src/Scripts/Deploy/Laws.antt =====
-- What the deployment leaves behind.
use web3_lab_public.Prelude.{String, Option}
use web3_lab_public.Browser.{World}
use web3_lab_public.Scripts.Chain.{Chain, Process}
use web3_lab_public.Scripts.Quiet.{
  IsQuiet, pure-IsQuiet, bind-IsQuiet, deploy_contract-IsQuiet, get_signer-IsQuiet, IsReported,
  emit-IsWriting, quiet-IsWriting, run_main-IsReported,
}
use web3_lab_public.Scripts.Deploy.{deploy_all, deploy_main, main}

module _ (chain : Chain) where
  deploy_all-IsQuiet :
      (key : Option String) (deployer : String) → IsQuiet (deploy_all chain key deployer)
  unfolding deploy_all
  deploy_all-IsQuiet key deployer = bind-IsQuiet (deploy_contract-IsQuiet chain _ _) (λ a.
      bind-IsQuiet (deploy_contract-IsQuiet chain _ _) (λ b.
        bind-IsQuiet (deploy_contract-IsQuiet chain _ _) (λ c.
          bind-IsQuiet (deploy_contract-IsQuiet chain _ _) (λ d.
            bind-IsQuiet (deploy_contract-IsQuiet chain _ _)
              (λ e. bind-IsQuiet (deploy_contract-IsQuiet chain _ _) (λ f. pure-IsQuiet _))))))

  -- The deployment script never fails, whatever the chain answers. Either it writes its file once
  -- and leaves the exit code, or it writes nothing and the exit code is 1.
  pub deploy_main-IsReported :
      (key : Option String) (w : World Process) → IsReported w (main chain key w)
  unfolding main deploy_main
  deploy_main-IsReported key w = run_main-IsReported (deploy_main chain key) w (
      quiet-IsWriting (get_signer-IsQuiet chain key)
        (λ deployer. quiet-IsWriting (deploy_all-IsQuiet key deployer) (λ d. emit-IsWriting _ _)) w)
