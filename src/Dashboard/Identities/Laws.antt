-- ===== src/Dashboard/Identities/Laws.antt =====
-- Reading the identities and linking a wallet.
use web3_lab_public.Prelude.{
  String, true, false, List, [], ◌∷◌, ◌++◌, Option, none, some, ◌≡◌, refl, arith, if◌then◌else◌,
}
use web3_lab_public.Browser.{Reply, ok, thrown, World, Trace, Response, is_ok, fetched, wallet}
use web3_lab_public.Dashboard.State.{Dashboard, LinkedIdentity}
use web3_lab_public.Dashboard.Services.{Services}
use web3_lab_public.Dashboard.Identities.{
  listed, session, chosen_account, identities_request, fetch_identities, nonce_request,
  link_request, send_link, sign_and_link, link_chosen, link_account, link_wallet,
}

-- The identities that an answer gives: those from before, if it fails or cannot be read.
abbrev pub answered :
    Reply (Response (Option (List LinkedIdentity))) → List LinkedIdentity → List LinkedIdentity
answered (thrown _) old = old
answered (ok res) old = if is_ok res then read res.json else old
  where
    read : Reply (Option (List LinkedIdentity)) → List LinkedIdentity
    read (ok body) = listed body
    read (thrown _) = old

-- The state without the list of identities and the error of its changes.
abbrev pub unlisted : Dashboard → Dashboard
unlisted s = record s { linked_identities = []; link_error = none }

module _ (env : Services) where
  -- Reading the identities sends one request, and never fails: the list is the answer's or as it
  -- was, the mark of loading is off, and nothing else of the page changes.
  pub fetch_identities_lem :
      (token : String) (w : World Dashboard)
      → fetch_identities env token w ≡ (
        ok tt,
        record {
          state = record w.state {
            identities_loading = false;
            linked_identities =
                answered
                  (env.identities w.trace (identities_request env token))
                  w.state.linked_identities;
          };
          storage = w.storage;
          trace = w.trace ++ fetched (identities_request env token) ∷ [];
        },
      )
  unfolding fetch_identities
  fetch_identities_lem token w = ground arith

  -- The events before the message of the nonce is there, up to which nothing was signed.
  abbrev pub to_nonce : String → Trace → Trace
  to_nonce address t =
      (t ++ wallet "eth_requestAccounts" [] ∷ []) ++ fetched (nonce_request env address) ∷ []

  abbrev pub to_signature : String → String → Trace → Trace
  to_signature address message t =
      to_nonce address t ++ wallet "personal_sign" (message ∷ address ∷ []) ∷ []

  -- What a part of the linking leaves as it is.
  pub record IsLinking (w : World Dashboard) (r : Reply (Unit {0}) × World Dashboard) : Type 0 where
    pub linking_kept : r.1.state.linking_wallet ≡ w.state.linking_wallet
    pub storage_kept : r.1.storage ≡ w.storage
    pub token_kept : r.1.state.token ≡ w.state.token
    pub listing_kept : w.state.identities_loading ≡ false → unlisted r.1.state ≡ unlisted w.state

  send_link-IsLinking :
      (token message signature : String) (w : World Dashboard)
      → IsLinking w (send_link env token message signature w)
  unfolding send_link
  send_link-IsLinking token message signature w = ground (
    arith,
    fetch_identities_lem token
        (record w { trace = w.trace ++ fetched (link_request env token message signature) ∷ [] }),
  )

  after_signature : String → String → World Dashboard → World Dashboard
  after_signature address message w = record w {
    trace =
        (w.trace ++ fetched (nonce_request env address) ∷ [])
        ++ wallet "personal_sign" (message ∷ address ∷ []) ∷ [];
  }

  sign_and_link-IsLinking :
      (token address : String) (w : World Dashboard)
      → IsLinking w (sign_and_link env token address w)
  unfolding sign_and_link after_signature
  sign_and_link-IsLinking token address w = go (env.nonce w.trace (nonce_request env address)) refl
    where
      signed :
          (res : Response String) (message signature : String)
          → env.nonce w.trace (nonce_request env address) ≡ ok res
          → res.json ≡ ok message
          → env.personal_sign (w.trace ++ fetched (nonce_request env address) ∷ []) ≡ ok signature
          → IsLinking w (sign_and_link env token address w)
      signed res message signature e j s =
          ground
            (arith, send_link-IsLinking token message signature (after_signature address message w))

      asked_to_sign :
          (res : Response String) (message : String) (r : Reply String)
          → env.nonce w.trace (nonce_request env address) ≡ ok res
          → res.json ≡ ok message
          → env.personal_sign (w.trace ++ fetched (nonce_request env address) ∷ []) ≡ r
          → IsLinking w (sign_and_link env token address w)
      asked_to_sign res message (ok signature) e j s = signed res message signature e j s
      asked_to_sign res message (thrown m) e j s = ground arith

      read :
          (res : Response String) (j : Reply String)
          → env.nonce w.trace (nonce_request env address) ≡ ok res
          → res.json ≡ j
          → IsLinking w (sign_and_link env token address w)
      read res (ok message) e j = asked_to_sign res message _ e j refl
      read res (thrown m) e j = ground arith

      go :
          (r : Reply (Response String))
          → env.nonce w.trace (nonce_request env address) ≡ r
          → IsLinking w (sign_and_link env token address w)
      go (thrown m) e = ground arith
      go (ok res) e = read res res.json e refl

  link_chosen-IsLinking :
      (token : String) (c : Option String) (w : World Dashboard)
      → IsLinking w (link_chosen env token c w)
  unfolding link_chosen
  link_chosen-IsLinking token none w = ground arith
  link_chosen-IsLinking token (some address) w = sign_and_link-IsLinking token address w

  pub link_account-IsLinking :
      (token : String) (w : World Dashboard) → IsLinking w (link_account env token w)
  unfolding link_account
  link_account-IsLinking token w = go (env.request_accounts w.trace) refl
    where
      go :
          (r : Reply (Option (List String)))
          → env.request_accounts w.trace ≡ r
          → IsLinking w (link_account env token w)
      go (thrown m) e = ground arith
      go (ok accounts) e = ground (
        arith,
        link_chosen-IsLinking token (chosen_account accounts)
            (record w { trace = w.trace ++ wallet "eth_requestAccounts" [] ∷ [] }),
      )

  started : World Dashboard → World Dashboard
  started w = record w { state = record w.state { linking_wallet = true; link_error = none } }

  -- Where no linking is running, linking a wallet ends with the mark of linking off, never fails
  -- and leaves the storage and the session's token alone, whatever the wallet and the gateway
  -- answer.
  pub link_wallet_settles :
      (view : Dashboard) (w : World Dashboard)
      → w.state.linking_wallet ≡ false
      → ((link_wallet env view w).0 ≡ ok tt)
        × ((link_wallet env view w).1.state.linking_wallet ≡ false)
        × ((link_wallet env view w).1.storage ≡ w.storage)
        × ((link_wallet env view w).1.state.token ≡ w.state.token)
  unfolding link_wallet started
  link_wallet_settles view w h = go (session view.token) refl
    where
      go :
          (t : Option String)
          → session view.token ≡ t
          → ((link_wallet env view w).0 ≡ ok tt)
            × ((link_wallet env view w).1.state.linking_wallet ≡ false)
            × ((link_wallet env view w).1.storage ≡ w.storage)
            × ((link_wallet env view w).1.state.token ≡ w.state.token)
      go none e = ground arith
      go (some token) e = ground (arith, link_account-IsLinking token (started w))

  -- Linking a wallet changes the list of identities and its error, and nothing else of the page.
  pub link_wallet-unlisted :
      (view : Dashboard) (w : World Dashboard)
      → w.state.linking_wallet ≡ false
      → w.state.identities_loading ≡ false
      → unlisted (link_wallet env view w).1.state ≡ unlisted w.state
  unfolding link_wallet started
  link_wallet-unlisted view w h q = go (session view.token) refl
    where
      go :
          (t : Option String)
          → session view.token ≡ t
          → unlisted (link_wallet env view w).1.state ≡ unlisted w.state
      go none e = ground arith
      go (some token) e = ground (arith, link_account-IsLinking token (started w))
