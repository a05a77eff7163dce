-- ===== src/Login/Siwe/Verified.antt =====
-- When a wallet's address is stored.
use web3_lab_public.Prelude.{
  String, Bool, true, false, Option, some, ◌≡◌, refl, arith, ◌⊎◌, inl, inr, ◌∙◌, ap,
}
use web3_lab_public.Prelude.Dict
use web3_lab_public.Prelude.Dict.{Dict, lookup-erase, lookup-insert}
use web3_lab_public.Browser.{Reply, ok, thrown, Trace, Response, is_ok, World}
use web3_lab_public.Login.State.{Login, Services}
use web3_lab_public.Login.Siwe.{
  nonce_request, sign_and_authenticate, login_with_wallet, handle_siwe_login,
}
use web3_lab_public.Login.Siwe.Attempts
use web3_lab_public.Login.Siwe.Attempts.{
  accounts_asked, address_asked, nonce_asked, IsVerified, Attempted, sign-Attempted,
}

module _ (env : Services) (challenge : Option String) where
  -- A stored address that was verified.
  pub record IsStored (t : Trace) (value : Option String) : Type 0 where
    pub address : String
    pub verified : IsVerified env challenge t address
    pub is_value : value ≡ some address

  attempt-Attempted :
      (w : World Login)
      → Attempted env challenge
          (IsVerified env challenge w.trace)
          w
          (login_with_wallet env challenge w)
  unfolding login_with_wallet
  attempt-Attempted w = start (env.request_accounts w.trace) refl
    where
      Goal : Type 0
      Goal =
          Attempted env challenge (IsVerified env challenge w.trace) w
            (login_with_wallet env challenge w)

      asked : String → World Login
      asked address = record {
        state = record w.state { status = "Fetching SIWE challenge..." };
        storage = w.storage;
        trace = nonce_asked env challenge w.trace address;
      }

      read :
          (address : String) (nonce : Response String) (o : Bool) (j : Reply String)
          → env.request_accounts w.trace ≡ ok tt
          → env.signer_address (accounts_asked w.trace) ≡ ok address
          → env.nonce (address_asked w.trace) (nonce_request env challenge address) ≡ ok nonce
          → is_ok nonce ≡ o
          → nonce.json ≡ j
          → Goal
      read address nonce true (ok message) a b c d e =
          let same : login_with_wallet env challenge w
              ≡ sign_and_authenticate env challenge address message (asked address) =
            ground (arith, a, b, c, d, e) in
          elim (sign-Attempted env challenge address message (asked address)) [
            | Attempts.Attempted.refused k ↦
                Attempts.Attempted.refused (ap (λ r. r.1.storage) same ∙ k)
            | Attempts.Attempted.stored x by k l ↦
                Attempts.Attempted.stored address
                  (record {
                    message = message;
                    nonce = nonce;
                    given = b;
                    answered = c;
                    offered = e;
                    by = by.1;
                  })
                  (ap (λ r. r.0) same ∙ k)
                  (ap (λ r. r.1.storage) same
                    ∙ l
                    ∙ ap (λ y. Dict.insert "siwe_wallet_address" y w.storage) by.0)
          ]
      read address nonce true (thrown m) a b c d e =
          Attempts.Attempted.refused (ground (arith, a, b, c, d, e))
      read address nonce false j a b c d e =
          Attempts.Attempted.refused (ground (arith, a, b, c, d, e))

      fetch :
          (address : String) (r : Reply (Response String))
          → env.request_accounts w.trace ≡ ok tt
          → env.signer_address (accounts_asked w.trace) ≡ ok address
          → env.nonce (address_asked w.trace) (nonce_request env challenge address) ≡ r
          → Goal
      fetch address (ok nonce) a b c = read address nonce _ _ a b c refl refl
      fetch address (thrown m) a b c = Attempts.Attempted.refused (ground (arith, a, b, c))

      name :
          (r : Reply String)
          → env.request_accounts w.trace ≡ ok tt
          → env.signer_address (accounts_asked w.trace) ≡ r
          → Goal
      name (ok address) a b = fetch address _ a b refl
      name (thrown m) a b = Attempts.Attempted.refused (ground (arith, a, b))

      start : (r : Reply (Unit {0})) → env.request_accounts w.trace ≡ r → Goal
      start (ok _) a = name _ a refl
      start (thrown m) a = Attempts.Attempted.refused (ground (arith, a))

  -- Where no signing in is running, signing in leaves the stored wallet address as it was, or
  -- stores one that the wallet gave, which signed the gateway's message for it, and whose signature
  -- the gateway accepted.
  pub handle_siwe_login-IsVerified :
      (view : Login) (w : World Login)
      → view.siwe_loading ≡ false
      → let d = (handle_siwe_login env challenge view w).1.storage in
        (Dict.lookup "siwe_wallet_address" d ≡ Dict.lookup "siwe_wallet_address" w.storage)
        ⊎ IsStored w.trace (Dict.lookup "siwe_wallet_address" d)
  unfolding handle_siwe_login
  handle_siwe_login-IsVerified view w h = go env.has_ethereum (attempt-Attempted begun) refl
    where
      begun : World Login
      begun = record w { state = record w.state { siwe_loading = true } }

      Goal : Type 0
      Goal =
          let d = (handle_siwe_login env challenge view w).1.storage in
          (Dict.lookup "siwe_wallet_address" d ≡ Dict.lookup "siwe_wallet_address" w.storage)
          ⊎ IsStored w.trace (Dict.lookup "siwe_wallet_address" d)

      tried :
          (r : Reply (Unit {0}) × World Login)
          → login_with_wallet env challenge begun ≡ r
          → r.1.storage ≡ w.storage
          → env.has_ethereum ≡ true
          → Goal
      tried (ok x, v) e k b = inl (ground (arith, h, e, k, b))
      tried (thrown m, v) e k b = inl (
          ground (arith, h, e, k, b, lookup-erase "loginChallenge" "siwe_wallet_address" v.storage))

      go :
          (b : Bool)
          → Attempted env challenge
              (IsVerified env challenge w.trace)
              begun
              (login_with_wallet env challenge begun)
          → env.has_ethereum ≡ b
          → Goal
      go false a b =
          inl (ground (arith, h, b, lookup-erase "loginChallenge" "siwe_wallet_address" w.storage))
      go true (Attempts.Attempted.refused k) b = tried _ refl k b
      go true (Attempts.Attempted.stored address by k l) b = inr (record {
        address = address;
        verified = by;
        is_value = ground (
          arith,
          h,
          b,
          k,
          l,
          lookup-insert "siwe_wallet_address" "siwe_wallet_address" address w.storage,
        );
      })
