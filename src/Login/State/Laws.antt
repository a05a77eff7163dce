-- ===== src/Login/State/Laws.antt =====
-- The first effect of the login page.
use web3_lab_public.Prelude.{String, false, Option, ◌≡◌, arith, ◌==◌, option_or}
use web3_lab_public.Prelude.Dict
use web3_lab_public.Prelude.Dict.{lookup-insert}
use web3_lab_public.Browser.{World}
use web3_lab_public.Login.State.{Login, Services, on_challenge}

module _ (env : Services) where
  -- The effect stores the challenge, and leaves the other keys of the storage alone.
  pub on_challenge-others :
      (challenge : Option String) (w : World Login) (k : String)
      → ("loginChallenge" == k) ≡ false
      → Dict.lookup k (on_challenge env challenge w).1.storage ≡ Dict.lookup k w.storage
  unfolding on_challenge
  on_challenge-others challenge w k a =
      ground (arith, lookup-insert "loginChallenge" k (option_or challenge "") w.storage, a)
