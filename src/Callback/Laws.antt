-- ===== src/Callback/Laws.antt =====
-- The exchange of the authorization code.
use web3_lab_public.Prelude.{
  String, true, false, [], ◌∷◌, ◌++◌, Option, none, some, ◌≡◌, arith, ◌&&◌, ◌==◌, is_present,
  is_truthy, refl, option_or, if◌then◌else◌,
}
use web3_lab_public.Prelude.Dict
use web3_lab_public.Prelude.Dict.{lookup-insert, lookup-erase}
use web3_lab_public.Browser.{Reply, ok, thrown, World, Response, fetched}
use web3_lab_public.Callback.{
  Callback, Services, TokenBody, token_request, store_session, exchange_code, on_code,
}

abbrev pub usable : Reply TokenBody → Option TokenBody
usable (thrown _) = none
usable (ok body) = if is_present body.access_token then some body else none

-- The answer, if it grants an access token.
abbrev pub granted : Reply (Response TokenBody) → Option TokenBody
granted (thrown _) = none
granted (ok res) = usable res.json

-- What the storage holds under a key after the exchange.
abbrev pub stored_after : Option TokenBody → String → Option String → Option String
stored_after none k old = old
stored_after (some body) k old =
    if "loginChallenge" == k
    then none
    else if is_present body.id_token && "id_token" == k
    then some (option_or body.id_token "")
    else if "access_token" == k
    then some (option_or body.access_token "")
    else old

module _ (env : Services) where
  abbrev with_access : String → World Callback → Dict.Dict
  with_access access w = Dict.insert "access_token" access w.storage

  store_session-storage :
      (body : TokenBody) (w : World Callback) (k : String)
      → ((store_session env body w).0 ≡ ok tt)
        × (Dict.lookup k (store_session env body w).1.storage
            ≡ stored_after (usable (ok body)) k (Dict.lookup k w.storage))
  unfolding store_session
  store_session-storage body w k =
      let access = option_or body.access_token "" in
      let id = option_or body.id_token "" in
      let a = Dict.insert "access_token" access w.storage in
      let b = Dict.insert "id_token" id a in
      ground (
        arith,
        lookup-erase "loginChallenge" k b,
        lookup-erase "loginChallenge" k a,
        lookup-insert "id_token" k id a,
        lookup-insert "access_token" k access w.storage,
      )

  exchange_code-storage :
      (code : String) (w : World Callback) (k : String)
      → ((exchange_code env code w).0 ≡ ok tt)
        × (Dict.lookup k (exchange_code env code w).1.storage
            ≡ stored_after
                (granted (env.token w.trace (token_request env code)))
                k
                (Dict.lookup k w.storage))
  unfolding exchange_code
  exchange_code-storage code w k = go (env.token w.trace (token_request env code)) refl
    where
      sent : World Callback
      sent = record w { trace = w.trace ++ fetched (token_request env code) ∷ [] }

      Goal : Type 0
      Goal =
          ((exchange_code env code w).0 ≡ ok tt)
          × (Dict.lookup k (exchange_code env code w).1.storage
              ≡ stored_after (granted (env.token w.trace (token_request env code))) k
                  (Dict.lookup k w.storage))

      read :
          (res : Response TokenBody) (j : Reply TokenBody)
          → env.token w.trace (token_request env code) ≡ ok res
          → res.json ≡ j
          → Goal
      read res (thrown m) e j = ground arith
      read res (ok body) e j = ground (arith, store_session-storage body sent k)

      go : (r : Reply (Response TokenBody)) → env.token w.trace (token_request env code) ≡ r → Goal
      go (thrown m) e = ground arith
      go (ok res) e = read res res.json e refl

  -- The exchange of a code that is not empty never fails. It stores the tokens that the answer
  -- grants and drops the login challenge; if none is granted the storage is as it was.
  pub on_code-storage :
      (code : String) (w : World Callback) (k : String)
      → is_truthy code ≡ true
      → ((on_code env (some code) w).0 ≡ ok tt)
        × (Dict.lookup k (on_code env (some code) w).1.storage
            ≡ stored_after
                (granted (env.token w.trace (token_request env code)))
                k
                (Dict.lookup k w.storage))
  unfolding on_code
  on_code-storage String.[] w k given = cc
  on_code-storage (String.◌∷◌ c s) w k given = exchange_code-storage (String.◌∷◌ c s) w k

  pub on_code-without :
      (code : Option String) (w : World Callback)
      → is_present code ≡ false
      → (on_code env code w).1.storage ≡ w.storage
  unfolding on_code
  on_code-without code w h = ground (arith, h)
