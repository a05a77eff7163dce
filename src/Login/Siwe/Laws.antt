-- ===== src/Login/Siwe/Laws.antt =====
-- Signing in with a wallet.
use web3_lab_public.Prelude.{String, Bool, false, Option, ◌≡◌, arith, ◌==◌}
use web3_lab_public.Prelude.Dict
use web3_lab_public.Prelude.Dict.{lookup-erase, lookup-insert}
use web3_lab_public.Browser.{Reply, ok, thrown, Trace, Request, Response, is_ok, World}
use web3_lab_public.Login.State.{Login, Services, AuthBody}
use web3_lab_public.Login.Siwe.{handle_siwe_login}

abbrev pub is_accepted : Reply (Response AuthBody) → Bool
is_accepted (thrown _) = false
is_accepted (ok res) = is_ok res

module _ (env : Services) (challenge : Option String) where
  -- Where no signing in is running, signing in never fails, and its mark of loading is off at the
  -- end, whatever the wallet and the gateway answer.
  pub handle_siwe_login_settles :
      (view : Login) (w : World Login)
      → view.siwe_loading ≡ false
      → ((handle_siwe_login env challenge view w).0 ≡ ok tt)
        × ((handle_siwe_login env challenge view w).1.state.siwe_loading ≡ false)
  unfolding handle_siwe_login
  handle_siwe_login_settles view w h = ground arith

  -- While the gateway refuses to authenticate, no wallet address is stored.
  pub handle_siwe_login-refused :
      (view : Login) (w : World Login)
      → ((t : Trace) (r : Request) → is_accepted (env.authenticate t r) ≡ false)
      → Dict.lookup "siwe_wallet_address" (handle_siwe_login env challenge view w).1.storage
        ≡ Dict.lookup "siwe_wallet_address" w.storage
  unfolding handle_siwe_login
  handle_siwe_login-refused view w h =
      grind (arith, lookup-erase "loginChallenge" "siwe_wallet_address" w.storage)

  -- Signing in leaves the keys of the storage alone that are not its own.
  pub handle_siwe_login-others :
      (view : Login) (w : World Login) (k : String)
      → ("siwe_wallet_address" == k) ≡ false
      → ("loginChallenge" == k) ≡ false
      → Dict.lookup k (handle_siwe_login env challenge view w).1.storage ≡ Dict.lookup k w.storage
  unfolding handle_siwe_login
  handle_siwe_login-others view w k a b =
      grind (arith, lookup-insert "siwe_wallet_address" k, lookup-erase "loginChallenge" k, a, b)
