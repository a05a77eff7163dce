-- ===== src/Session/Laws.antt =====
-- Signing out and switching the wallet.
use web3_lab_public.Prelude.{
  String, Bool, false, List, Option, none, some, ◌≡◌, arith, ◌==◌, if◌then◌else◌, ◌||◌, ◌&&◌, not,
}
use web3_lab_public.Prelude.Dict
use web3_lab_public.Prelude.Dict.{lookup-erase}
use web3_lab_public.Browser.{Reply, ok, thrown, World, Urls}
use web3_lab_public.Session.{Wallet, revoke, logout, lowered_account, is_current, switch_wallet}

abbrev pub is_session_key : String → Bool
is_session_key k =
    "access_token" == k || "id_token" == k || "loginChallenge" == k || "siwe_wallet_address" == k

abbrev pub is_switch_key : String → Bool
is_switch_key k = "access_token" == k || "loginChallenge" == k || "siwe_wallet_address" == k

-- The wallet offers an account that is not the connected one.
abbrev pub offers_other : Option String → Reply (Option (List String)) → Bool
offers_other address (thrown _) = false
offers_other address (ok accounts) = elim (lowered_account accounts) [
  | none ↦ false
  | some a ↦ not (is_current a address)
]

module _ {S : Type 0} (urls : Urls) (api : Wallet) where
  -- The wallet's answer changes nothing but the trace.
  revoke-keeps :
      (address : Option String) (w : World S)
      → revoke urls api address w
        ≡ (ok tt, record w { trace = (revoke urls api address w).1.trace })
  unfolding revoke
  revoke-keeps address w = ground arith

  -- Signing out never fails, and whatever the wallet answers it removes the four keys of the
  -- session from the storage and no other, and leaves the page's state as it is.
  pub logout-storage :
      (address : Option String) (w : World S) (k : String)
      → ((logout urls api address w).0 ≡ ok tt)
        × ((logout urls api address w).1.state ≡ w.state)
        × (Dict.lookup k (logout urls api address w).1.storage
            ≡ (if is_session_key k then none else Dict.lookup k w.storage))
  unfolding logout
  logout-storage address w k =
      let a = Dict.erase "access_token" w.storage in
      let b = Dict.erase "id_token" a in
      let c = Dict.erase "loginChallenge" b in
      rw (revoke-keeps address w) (
        ground (
          arith,
          lookup-erase "siwe_wallet_address" k c,
          lookup-erase "loginChallenge" k b,
          lookup-erase "id_token" k a,
          lookup-erase "access_token" k w.storage,
        ))

  module _ (set_status : Option String → S → S) where
    -- Switching the wallet never fails. It ends the session exactly if the extension is there and
    -- offers another account: then three keys are removed from the storage, and else none.
    pub switch_wallet-storage :
        (address : Option String) (w : World S) (k : String)
        → let r = switch_wallet urls api set_status address w in
          (r.0 ≡ ok tt)
          × (Dict.lookup k r.1.storage ≡ (
              if api.has_ethereum
                && offers_other address (api.request_accounts w.trace)
                && is_switch_key k
              then none
              else Dict.lookup k w.storage))
    unfolding switch_wallet
    switch_wallet-storage address w k =
        let a = Dict.erase "access_token" w.storage in
        let b = Dict.erase "loginChallenge" a in
        ground (
          arith,
          lookup-erase "siwe_wallet_address" k b,
          lookup-erase "loginChallenge" k a,
          lookup-erase "access_token" k w.storage,
        )
