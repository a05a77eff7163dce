-- ===== src/Login/Siwe/Attempts.antt =====
-- The signature of a wallet, and the gateway's verdict on it.
use web3_lab_public.Prelude.{
  String, Bool, true, false, [], ◌∷◌, ◌++◌, Option, ◌≡◌, refl, arith, ◌⊎◌, inl, inr, ◌∙◌, ap,
}
use web3_lab_public.Prelude.Dict
use web3_lab_public.Prelude.Dict.{Dict, lookup-erase, lookup-insert}
use web3_lab_public.Browser.{Reply, ok, thrown, Trace, Response, is_ok, World, wallet, fetched}
use web3_lab_public.Login.State.{Login, Services, AuthBody, complete_hydra_login}
use web3_lab_public.Login.Siwe.{
  nonce_request, authenticate_request, finish_login, sign_and_authenticate,
}

-- What was asked before each of the questions of signing in.
abbrev pub accounts_asked : Trace → Trace
accounts_asked t = t ++ wallet "eth_requestAccounts" [] ∷ []

abbrev pub address_asked : Trace → Trace
address_asked t = accounts_asked t ++ wallet "getAddress" [] ∷ []

module _ (env : Services) (challenge : Option String) where
  abbrev pub nonce_asked : Trace → String → Trace
  nonce_asked t address = address_asked t ++ fetched (nonce_request env challenge address) ∷ []

  -- The wallet signed the message for the address, and the gateway accepted the signature.
  pub record IsSigned (t : Trace) (address message : String) : Type 0 where
    pub signature : String
    pub verdict : Response AuthBody
    pub signed : env.sign_typed_data t ≡ ok signature
    pub judged :
        env.authenticate
          (t ++ wallet "eth_signTypedData_v4" (address ∷ message ∷ []) ∷ [])
          (authenticate_request env challenge message signature)
        ≡ ok verdict
    pub accepted : is_ok verdict ≡ true

  -- The wallet gave the address, and signed the message that the gateway gave for it.
  pub record IsVerified (t : Trace) (address : String) : Type 0 where
    pub message : String
    pub nonce : Response String
    pub given : env.signer_address (accounts_asked t) ≡ ok address
    pub answered : env.nonce (address_asked t) (nonce_request env challenge address) ≡ ok nonce
    pub offered : nonce.json ≡ ok message
    pub by : IsSigned (nonce_asked t address) address message

  -- The storage is left alone, or an address of a kind is stored.
  pub data Attempted (P : String → Type 0) (w : World Login) (r : Reply (Unit {0}) × World Login)
      : Type 0 where
    refused : r.1.storage ≡ w.storage → Attempted P w r
    stored :
        (address : String)
        → P address
        → r.0 ≡ ok tt
        → r.1.storage ≡ Dict.insert "siwe_wallet_address" address w.storage
        → Attempted P w r

  finish-stored :
      (address : String) (res : Response AuthBody) (w : World Login)
      → ((finish_login env challenge address res w).1.storage ≡ w.storage)
        ⊎ ((is_ok res ≡ true)
            × ((finish_login env challenge address res w).0 ≡ ok tt)
            × ((finish_login env challenge address res w).1.storage
                ≡ Dict.insert "siwe_wallet_address" address w.storage))
  unfolding finish_login complete_hydra_login
  finish-stored address res w = go (is_ok res) res.json refl refl
    where
      go :
          (b : Bool) (j : Reply AuthBody)
          → is_ok res ≡ b
          → res.json ≡ j
          → ((finish_login env challenge address res w).1.storage ≡ w.storage)
            ⊎ ((is_ok res ≡ true)
                × ((finish_login env challenge address res w).0 ≡ ok tt)
                × ((finish_login env challenge address res w).1.storage
                    ≡ Dict.insert "siwe_wallet_address" address w.storage))
      go false j e k = inl (ground (arith, e, k))
      go true (thrown m) e k = inl (ground (arith, e, k))
      go true (ok body) e k = inr (e, ground (arith, e, k), ground (arith, e, k))

  pub sign-Attempted :
      (address message : String) (w : World Login)
      → Attempted
          (λ a. (a ≡ address) × IsSigned w.trace address message)
          w
          (sign_and_authenticate env challenge address message w)
  unfolding sign_and_authenticate
  sign-Attempted address message w = sign (env.sign_typed_data w.trace) refl
    where
      Goal : Type 0
      Goal =
          Attempted (λ a. (a ≡ address) × IsSigned w.trace address message) w
            (sign_and_authenticate env challenge address message w)

      asked : Trace
      asked = w.trace ++ wallet "eth_signTypedData_v4" (address ∷ message ∷ []) ∷ []

      judge :
          (signature : String) (r : Reply (Response AuthBody))
          → env.sign_typed_data w.trace ≡ ok signature
          → env.authenticate asked (authenticate_request env challenge message signature) ≡ r
          → Goal
      judge signature (thrown m) f g = Attempted.refused (ground (arith, f, g))
      judge signature (ok verdict) f g =
          let request = authenticate_request env challenge message signature in
          let judged : World Login = record {
            state = record w.state { status = "Verifying signature & completing login..." };
            storage = w.storage;
            trace = asked ++ fetched request ∷ [];
          } in
          let same : sign_and_authenticate env challenge address message w
              ≡ finish_login env challenge address verdict judged =
            ground (arith, f, g) in
          elim (finish-stored address verdict judged) [
            | inl k ↦ Attempted.refused (ap (λ r. r.1.storage) same ∙ k)
            | inr k ↦
                Attempted.stored address
                  (
                    refl,
                    record {
                      signature = signature;
                      verdict = verdict;
                      signed = f;
                      judged = g;
                      accepted = k.0;
                    },
                  )
                  (ap (λ r. r.0) same ∙ k.1) (ap (λ r. r.1.storage) same ∙ k.2)
          ]

      sign : (r : Reply String) → env.sign_typed_data w.trace ≡ r → Goal
      sign (ok signature) f = judge signature _ f refl
      sign (thrown m) f = Attempted.refused (ground (arith, f))
