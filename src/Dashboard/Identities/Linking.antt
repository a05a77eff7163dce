-- ===== src/Dashboard/Identities/Linking.antt =====
-- Linking a wallet: every event of it, by the answers of the wallet and the gateway.
use web3_lab_public.Prelude.{
  String, true, false, [], ◌∷◌, ◌++◌, Option, none, some, ◌<>◌, ◌≡◌, refl, arith, is_truthy, List,
  if◌then◌else◌,
}
use web3_lab_public.Text.{to_lower_case}
use web3_lab_public.Browser.{
  Reply, ok, thrown, Request, World, Trace, Response, is_ok, fetched, wallet,
}
use web3_lab_public.Dashboard.State.{Dashboard}
use web3_lab_public.Dashboard.Services.{Services}
use web3_lab_public.Dashboard.Identities.{
  session, identities_request, nonce_request, link_request, send_link, sign_and_link, link_chosen,
  link_account, link_wallet,
}
use web3_lab_public.Dashboard.Identities.Laws.{fetch_identities_lem, link_account-IsLinking}
use web3_lab_public.Dashboard.Identities.Unlinking.{accepted, wire_reread}

-- What a reply holds, if it is no error.
abbrev pub value_of : {A : Type 0} → Reply A → Option A
value_of (ok a) = some a
value_of (thrown e) = none

-- The body of an answer that is no refusal.
abbrev pub body_of : {A : Type 0} → Reply (Response A) → Option A
body_of (thrown e) = none
body_of (ok res) = if is_ok res then value_of res.json else none

-- The first account that is offered, in lower case, if it is not empty.
abbrev pub offered_account : Option (List String) → Option String
offered_account none = none
offered_account (some []) = none
offered_account (some (a ∷ rest)) =
    if is_truthy (to_lower_case a) then some (to_lower_case a) else none

abbrev pub account_in : Reply (Option (List String)) → Option String
account_in (thrown e) = none
account_in (ok accounts) = offered_account accounts

module _ (env : Services) where
  abbrev pub wire_nonce : String → Request
  wire_nonce address = record {
    method = "GET";
    url = env.urls.gateway <> "/api/v1/siwe/nonce?address=" <> address <> "&protocol=siwe";
    headers = [];
    body = [];
  }

  abbrev pub wire_link : String → String → String → Request
  wire_link token message signature = record {
    method = "POST";
    url = env.urls.gateway <> "/api/v1/auth/siwe/link";
    headers = ("Content-Type", "application/json") ∷ ("Authorization", "Bearer " <> token) ∷ [];
    body = ("message", message) ∷ ("signature", signature) ∷ ("protocol", "siwe") ∷ [];
  }

  -- The trace after the signed message, if there is one, is sent.
  unfoldable pub linked_trace : String → String → Option String → Trace → Trace
  linked_trace token message none t = t
  linked_trace token message (some signature) t =
      let sent = t ++ fetched (wire_link token message signature) ∷ [] in
      if accepted (env.link t (wire_link token message signature))
      then sent ++ fetched (wire_reread env token) ∷ []
      else sent

  -- The trace after the message, if there is one, is signed by the account.
  unfoldable pub signed_trace : String → String → Option String → Trace → Trace
  signed_trace token address none t = t
  signed_trace token address (some message) t =
      linked_trace token message (value_of (env.personal_sign t))
        (t ++ wallet "personal_sign" (message ∷ address ∷ []) ∷ [])

  -- The trace after the account, if there is one, is linked.
  unfoldable pub account_trace : String → Option String → Trace → Trace
  account_trace token none t = t
  account_trace token (some address) t =
      signed_trace token address (body_of (env.nonce t (wire_nonce address)))
        (t ++ fetched (wire_nonce address) ∷ [])

  abbrev pub link_trace : String → Trace → Trace
  link_trace token t =
      account_trace token (account_in (env.request_accounts t))
        (t ++ wallet "eth_requestAccounts" [] ∷ [])

  sent_link : String → String → String → World Dashboard → World Dashboard
  sent_link token message signature w = record w {
    trace = w.trace ++ fetched (wire_link token message signature) ∷ [];
  }

  send_link-trace :
      (token message signature : String) (w : World Dashboard)
      → (send_link env token message signature w).1.trace
        ≡ linked_trace token message (some signature) w.trace
  unfolding send_link linked_trace link_request identities_request sent_link
  send_link-trace token message signature w =
      ground (arith, fetch_identities_lem env token (sent_link token message signature w))

  sign_and_link-trace :
      (token address : String) (w : World Dashboard)
      → (sign_and_link env token address w).1.trace ≡ account_trace token (some address) w.trace
  unfolding sign_and_link account_trace signed_trace linked_trace nonce_request
  sign_and_link-trace token address w = go (env.nonce w.trace (wire_nonce address)) refl
    where
      Goal : Type 0
      Goal =
          (sign_and_link env token address w).1.trace ≡ account_trace token (some address) w.trace

      asked : World Dashboard
      asked = record w { trace = w.trace ++ fetched (wire_nonce address) ∷ [] }

      signing : String → World Dashboard
      signing message = record w {
        trace = asked.trace ++ wallet "personal_sign" (message ∷ address ∷ []) ∷ [];
      }

      signed :
          (res : Response String) (message : String) (r : Reply String)
          → env.nonce w.trace (wire_nonce address) ≡ ok res
          → res.json ≡ ok message
          → env.personal_sign asked.trace ≡ r
          → Goal
      signed res message (thrown m) e j s = ground (arith, e, j, s)
      signed res message (ok signature) e j s =
          ground (arith, e, j, s, send_link-trace token message signature (signing message))

      read :
          (res : Response String) (j : Reply String)
          → env.nonce w.trace (wire_nonce address) ≡ ok res
          → res.json ≡ j
          → Goal
      read res (thrown m) e j = ground (arith, e, j)
      read res (ok message) e j = signed res message _ e j refl

      go : (r : Reply (Response String)) → env.nonce w.trace (wire_nonce address) ≡ r → Goal
      go (thrown m) e = ground (arith, e)
      go (ok res) e = read res res.json e refl

  -- What a linking leaves: its events, no mark and the storage as it was.
  pub record IsLinked (token : String) (w : World Dashboard)
      (r : Reply (Unit {0}) × World Dashboard) : Type 0 where
    pub events : r.1.trace ≡ link_trace token w.trace
    pub settled : r.0 ≡ ok tt
    pub unmarked : r.1.state.linking_wallet ≡ false
    pub storage_kept : r.1.storage ≡ w.storage

  account_trace-none : (token : String) (t : Trace) → account_trace token none t ≡ t
  unfolding account_trace
  account_trace-none token t = refl

  link_account-trace :
      (token : String) (w : World Dashboard)
      → (link_account env token w).1.trace ≡ link_trace token w.trace
  unfolding link_account link_chosen
  link_account-trace token w = go (env.request_accounts w.trace) refl
    where
      asked : World Dashboard
      asked = record w { trace = w.trace ++ wallet "eth_requestAccounts" [] ∷ [] }

      Goal : Type 0
      Goal = (link_account env token w).1.trace ≡ link_trace token w.trace

      go : (r : Reply (Option (List String))) → env.request_accounts w.trace ≡ r → Goal
      go (thrown m) e = ground (arith, e, account_trace-none token asked.trace)
      go (ok none) e = ground (arith, e, account_trace-none token asked.trace)
      go (ok (some [])) e = ground (arith, e, account_trace-none token asked.trace)
      go (ok (some (a ∷ rest))) e = ground (
        arith,
        e,
        account_trace-none token asked.trace,
        sign_and_link-trace token (to_lower_case a) asked,
      )

  begun : World Dashboard → World Dashboard
  begun w = record w { state = record w.state { linking_wallet = true; link_error = none } }

  -- In a session and with a wallet, the accounts are asked for; a nonce is asked for the first of
  -- them, in lower case; its message is signed by that account; message and signature are posted with
  -- the session's token; and the identities are read again exactly if the gateway accepts them. Each
  -- step is taken exactly if the one before succeeds and gives what it needs (an account that is not
  -- empty, a message, a signature). The linking never fails, its mark is off at the end, and the
  -- storage is as it was.
  pub link_wallet-IsLinked :
      (view : Dashboard) (token : String) (w : World Dashboard)
      → env.has_ethereum ≡ true
      → session view.token ≡ some token
      → IsLinked token w (link_wallet env view w)
  unfolding link_wallet begun
  link_wallet-IsLinked view token w h e =
      let kept = link_account-IsLinking env token (begun w) in
      record {
        events = ground (arith, h, e, link_account-trace token (begun w));
        settled = ground (arith, h, e);
        unmarked = ground (arith, h, e);
        storage_kept = ground (arith, h, e, kept.storage_kept);
      }
