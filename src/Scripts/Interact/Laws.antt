-- ===== src/Scripts/Interact/Laws.antt =====
-- What the integration test leaves behind.
use web3_lab_public.Prelude.{
  ℕ, zero, suc, ◌+◌, String, Bool, true, false, List, Option, none, some, refl, is_present,
}
use web3_lab_public.Browser
use web3_lab_public.Browser.{World, Io, Reply, ok, thrown}
use web3_lab_public.Scripts.Chain.{Chain, Process}
use web3_lab_public.Scripts.Quiet.{
  IsQuiet, pure-IsQuiet, throw-IsQuiet, bind-IsQuiet, then-IsQuiet, ask-IsQuiet, artifact-IsQuiet,
  send-IsQuiet, call_view-IsQuiet, get_signer-IsQuiet, IsReported, IsWriting, emit-IsWriting,
  throw-IsWriting, quiet-IsWriting, run_main-IsReported, writes,
}
use web3_lab_public.Scripts.Deploy.{Deployments}
use web3_lab_public.Scripts.Interact.{
  Seed, EventLog, created, random_suffix, execute, create, created_address, erc20_round,
  erc1155_round, rounds, erc721_round, erc721_rounds, erc721_part, try_tokens, with_wallets,
  with_key, main,
}

created_address-IsQuiet : (o : Option EventLog) → IsQuiet (created_address o)
created_address-IsQuiet none = throw-IsQuiet _
created_address-IsQuiet (some l) = pure-IsQuiet _

module _ (chain : Chain) (a b : String) where
  execute-IsQuiet :
      (token function : String) (args : List String)
      → IsQuiet (execute chain a b token function args)
  unfolding execute
  execute-IsQuiet token function args = send-IsQuiet chain _ _ _

  random_suffix-IsQuiet : IsQuiet (random_suffix chain a b)
  unfolding random_suffix writes
  random_suffix-IsQuiet = ask-IsQuiet _ _ refl

  create-IsQuiet :
      (factory function : String) (args : List String) (event : String)
      → IsQuiet (create chain a b factory function args event)
  unfolding create
  create-IsQuiet factory function args event =
      bind-IsQuiet (send-IsQuiet chain _ _ _) (λ logs. created_address-IsQuiet (created event logs))

  erc20_round-IsQuiet : (factory : String) (i : ℕ) → IsQuiet (erc20_round chain a b factory i)
  unfolding erc20_round
  erc20_round-IsQuiet factory i = bind-IsQuiet random_suffix-IsQuiet (λ suffix.
      bind-IsQuiet (create-IsQuiet _ _ _ _) (λ token. bind-IsQuiet (send-IsQuiet chain _ _ _) (λ _.
        bind-IsQuiet (execute-IsQuiet _ _ _)
          (λ _. bind-IsQuiet (call_view-IsQuiet chain _ _ _) (λ _. pure-IsQuiet _)))))

  erc1155_round-IsQuiet : (factory : String) (i : ℕ) → IsQuiet (erc1155_round chain a b factory i)
  unfolding erc1155_round
  erc1155_round-IsQuiet factory i = bind-IsQuiet random_suffix-IsQuiet (λ suffix.
      bind-IsQuiet (create-IsQuiet _ _ _ _) (λ token. bind-IsQuiet (send-IsQuiet chain _ _ _) (λ _.
        bind-IsQuiet (execute-IsQuiet _ _ _)
          (λ _. bind-IsQuiet (call_view-IsQuiet chain _ _ _) (λ _. pure-IsQuiet _)))))

  rounds-IsQuiet :
      (body : ℕ → Io Process Seed)
      → ((i : ℕ) → IsQuiet (body i))
      → (left i : ℕ) → IsQuiet (rounds chain a b body left i)
  unfolding rounds
  rounds-IsQuiet body q zero i = pure-IsQuiet _
  rounds-IsQuiet body q (suc left) i =
      bind-IsQuiet (q i)
        (λ seed. bind-IsQuiet (rounds-IsQuiet body q left (i + 1)) (λ seeds. pure-IsQuiet _))

  erc721_round-IsQuiet : (token : String) (i : ℕ) → IsQuiet (erc721_round chain a b token i)
  unfolding erc721_round
  erc721_round-IsQuiet token i = bind-IsQuiet (send-IsQuiet chain _ _ _) (λ _.
      bind-IsQuiet (execute-IsQuiet _ _ _) (λ _.
        bind-IsQuiet (call_view-IsQuiet chain _ _ _)
          (λ _. bind-IsQuiet (call_view-IsQuiet chain _ _ _) (λ _. pure-IsQuiet _))))

  erc721_rounds-IsQuiet :
      (token : String) (left i : ℕ) → IsQuiet (erc721_rounds chain a b token left i)
  unfolding erc721_rounds
  erc721_rounds-IsQuiet token zero i = pure-IsQuiet _
  erc721_rounds-IsQuiet token (suc left) i =
      then-IsQuiet (erc721_round-IsQuiet token i) (erc721_rounds-IsQuiet token left (i + 1))

  erc721_part-IsQuiet : (factory : String) → IsQuiet (erc721_part chain a b factory)
  unfolding erc721_part
  erc721_part-IsQuiet factory = then-IsQuiet (artifact-IsQuiet chain "Web3LabERC721Factory") (
      then-IsQuiet (artifact-IsQuiet chain "Web3LabERC721") (
        bind-IsQuiet random_suffix-IsQuiet (λ suffix.
          bind-IsQuiet (create-IsQuiet _ _ _ _)
            (λ token. then-IsQuiet (erc721_rounds-IsQuiet token 4 0) (pure-IsQuiet _)))))

  try_tokens-IsQuiet : (d : Deployments) → IsQuiet (try_tokens chain a b d)
  unfolding try_tokens
  try_tokens-IsQuiet d = then-IsQuiet (artifact-IsQuiet chain "Web3LabERC20Factory") (
      then-IsQuiet (artifact-IsQuiet chain "Web3LabERC20") (
        bind-IsQuiet (rounds-IsQuiet _ (erc20_round-IsQuiet _) 4 1) (λ s.
          bind-IsQuiet (erc721_part-IsQuiet _) (λ t.
            then-IsQuiet (artifact-IsQuiet chain "Web3LabERC1155Factory") (
              then-IsQuiet (artifact-IsQuiet chain "Web3LabERC1155") (
                bind-IsQuiet (rounds-IsQuiet _ (erc1155_round-IsQuiet _) 4 1)
                  (λ u. pure-IsQuiet _)))))))

module _ (chain : Chain) where
  with_wallets-IsWriting :
      (d : Deployments) (signer : String) (w : World Process)
      → IsWriting w (with_wallets chain d signer w)
  unfolding with_wallets
  with_wallets-IsWriting d signer =
      quiet-IsWriting (artifact-IsQuiet chain "Web3LabAccountFactory") (λ _.
        quiet-IsWriting (call_view-IsQuiet chain _ _ _) (λ a.
          quiet-IsWriting (call_view-IsQuiet chain _ _ _) (λ b.
            quiet-IsWriting (send-IsQuiet chain _ _ _) (λ _.
              quiet-IsWriting (send-IsQuiet chain _ _ _) (λ _.
                quiet-IsWriting (artifact-IsQuiet chain "Web3LabAccount") (λ _.
                  quiet-IsWriting (try_tokens-IsQuiet chain a b d) (λ s. emit-IsWriting _ _)))))))

  with_key-IsWriting :
      (d : Deployments) (key : Option String) (given : Bool) (w : World Process)
      → IsWriting w (with_key chain d key given w)
  with_key-IsWriting d key true =
      quiet-IsWriting (get_signer-IsQuiet chain key) (with_wallets-IsWriting d)
  with_key-IsWriting d key false = throw-IsWriting _

  -- The integration test never fails, whatever the chain answers. Either it writes its file once
  -- and leaves the exit code, or it writes nothing and the exit code is 1.
  pub interact_main-IsReported :
      (deployments : Option Deployments) (key : Option String) (w : World Process)
      → IsReported w (main chain deployments key w)
  unfolding main
  interact_main-IsReported none key w =
      run_main-IsReported
        (Browser.throw "deployments.json not found! Please run 'make deploy-contracts' first.") w
        (throw-IsWriting _ w)
  interact_main-IsReported (some d) key w =
      run_main-IsReported (with_key chain d key (is_present key)) w
        (with_key-IsWriting d key (is_present key) w)
