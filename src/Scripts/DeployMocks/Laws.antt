-- ===== src/Scripts/DeployMocks/Laws.antt =====
-- A deployment whose artifact is missing.
use web3_lab_public.Prelude.{String, List, ap, [], ◌∷◌, ◌≡◌, ◌≢◌, refl, arith}
use web3_lab_public.Browser
use web3_lab_public.Browser.{Reply, ok, thrown, Trace, Io, pure, World, called, ◌>>=◌, ◌>>◌}
use web3_lab_public.Scripts.Chain.{Chain, Process, run_main, deploy_contract}
use web3_lab_public.Scripts.DeployMocks.{first_signer, deploy_mocks, deploy_samples, main}

-- An effect that throws in every world, and leaves the exit code to its caller.
abbrev IsFailing : {A : Type 0} → Io Process A → Type 0
IsFailing {A} m = (w : World Process) (a : A) → (m w).0 ≢ ok a

first-IsFailing :
    {A B : Type 0} (m : Io Process A) (k : A → Io Process B) → IsFailing m → IsFailing (m >>= k)
first-IsFailing {A} {B} m k f w b = go (m w) (f w)
  where
    go : (r : Reply A × World Process) → ((a : A) → r.0 ≢ ok a) → (Browser.resume r k).0 ≢ ok b
    go (ok a, v) h = λ _. h a refl
    go (thrown e, v) h = λ p. cc

later-IsFailing :
    {A B : Type 0} (m : Io Process A) (k : A → Io Process B)
    → ((a : A) → IsFailing (k a))
    → IsFailing (m >>= k)
later-IsFailing {A} {B} m k f w b = go (m w)
  where
    go : (r : Reply A × World Process) → (Browser.resume r k).0 ≢ ok b
    go (ok a, v) = f a v b
    go (thrown e, v) = λ p. cc

run_main-failing :
    (m : Io Process (Unit {0})) (w : World Process)
    → IsFailing m
    → ((run_main m w).0 ≡ ok tt) × ((run_main m w).1.state.exit_code ≡ 1)
run_main-failing m w f = go (m w) refl
  where
    go :
        (r : Reply (Unit {0}) × World Process)
        → m w ≡ r
        → ((run_main m w).0 ≡ ok tt) × ((run_main m w).1.state.exit_code ≡ 1)
    go (ok a, v) e = absurd (f w a (ap (λ r. r.0) e))
    go (thrown x, v) e = ground (arith, e)

module _ (chain : Chain) (message : String) where
  deploy_contract-IsFailing :
      (name : String) (args : List String)
      → ((t : Trace) → chain.read_artifact t name ≡ thrown message)
      → IsFailing (deploy_contract chain name args)
  unfolding deploy_contract
  deploy_contract-IsFailing name args h w a = ground (arith, h w.trace)

  deploy_mocks-IsFailing :
      ((t : Trace) → chain.read_artifact t "MockUSDC" ≡ thrown message)
      → IsFailing (deploy_mocks chain)
  unfolding deploy_mocks
  deploy_mocks-IsFailing h =
      first-IsFailing (deploy_contract chain "MockUSDC" [])
        (λ _. do
          _ ← deploy_contract chain "MockMembership" []
          _ ← deploy_contract chain "MockLoyalty" []
          pure tt)
        (deploy_contract-IsFailing "MockUSDC" [] h)

  abbrev paid : String → String → Io Process (Unit {0})
  paid deployer entry_point = do
    deploy_mocks chain
    _ ← deploy_contract chain "Web3LabPaymaster" (entry_point ∷ deployer ∷ [])
    pure tt

  abbrev opened : String → String → Io Process (Unit {0})
  opened deployer entry_point = do
    _ ← deploy_contract chain "Web3LabAccountFactory" (entry_point ∷ [])
    paid deployer entry_point

  deploy_samples-IsFailing :
      ((t : Trace) → chain.read_artifact t "MockUSDC" ≡ thrown message)
      → IsFailing (deploy_samples chain)
  unfolding deploy_samples
  deploy_samples-IsFailing h =
      later-IsFailing (first_signer chain)
        (λ deployer. do
          entry_point ← deploy_contract chain "EntryPoint" []
          opened deployer entry_point)
        (λ deployer.
          later-IsFailing (deploy_contract chain "EntryPoint" []) (opened deployer) (λ entry_point.
            later-IsFailing (deploy_contract chain "Web3LabAccountFactory" (entry_point ∷ []))
              (λ _. paid deployer entry_point)
              (λ _.
                first-IsFailing (deploy_mocks chain)
                  (λ _. do
                    _ ← deploy_contract chain "Web3LabPaymaster" (entry_point ∷ deployer ∷ [])
                    pure tt)
                  (deploy_mocks-IsFailing h))))

  -- While hardhat has no artifact of the first sample token, the script ends with exit code 1,
  -- whatever the chain answers.
  pub deploy_samples-fails :
      (w : World Process)
      → ((t : Trace) → chain.read_artifact t "MockUSDC" ≡ thrown message)
      → ((main chain w).0 ≡ ok tt) × ((main chain w).1.state.exit_code ≡ 1)
  unfolding main
  deploy_samples-fails w h = run_main-failing (deploy_samples chain) w (deploy_samples-IsFailing h)
