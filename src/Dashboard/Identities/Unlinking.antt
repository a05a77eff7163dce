-- ===== src/Dashboard/Identities/Unlinking.antt =====
-- Unlinking an identity.
use mathlib.Core.List.{append_assoc}
use web3_lab_public.Prelude.{
  String, Bool, false, [], ◌∷◌, ◌++◌, Option, none, some, ◌<>◌, ◌≡◌, refl, arith, if◌then◌else◌,
}
use web3_lab_public.Browser.{
  Reply, ok, thrown, Request, World, Trace, Response, is_ok, fetched, asked,
}
use web3_lab_public.Dashboard.State.{Dashboard}
use web3_lab_public.Dashboard.Services.{Services}
use web3_lab_public.Dashboard.Identities.{
  session, identities_request, unlink_question, unlink_request, send_unlink, unlink_identity,
}
use web3_lab_public.Dashboard.Identities.Laws.{fetch_identities_lem, IsLinking, unlisted}

-- The gateway took the request.
abbrev pub accepted : Reply (Response (Option String)) → Bool
accepted (thrown _) = false
accepted (ok res) = is_ok res

abbrev pub confirmed : World Dashboard → World Dashboard
confirmed w = record w { trace = w.trace ++ asked unlink_question ∷ [] }

module _ (env : Services) where
  -- The request to unlink an identity, and the one that reads the identities again.
  abbrev pub wire_delete : String → String → Request
  wire_delete token identity_id = record {
    method = "DELETE";
    url = env.urls.gateway <> "/api/v1/accounts/me/identities/" <> identity_id;
    headers = ("Authorization", "Bearer " <> token) ∷ [];
    body = [];
  }

  abbrev pub wire_reread : String → Request
  wire_reread token = record {
    method = "GET";
    url = env.urls.gateway <> "/api/v1/accounts/me/identities";
    headers = ("Authorization", "Bearer " <> token) ∷ [];
    body = [];
  }

  -- The events of an identity's unlinking that the user agreed to.
  abbrev pub unlink_events : String → String → World Dashboard → Trace
  unlink_events token identity_id w =
      fetched (wire_delete token identity_id)
      ∷ (if accepted (env.unlink (confirmed w).trace (wire_delete token identity_id))
          then fetched (wire_reread token) ∷ []
          else [])

  after_delete : String → String → World Dashboard → World Dashboard
  after_delete token identity_id w = record w {
    trace = w.trace ++ fetched (unlink_request env token identity_id) ∷ [];
  }

  send_unlink-trace :
      (token identity_id : String) (w : World Dashboard)
      → (send_unlink env token identity_id w).1.trace ≡ (
          if accepted (env.unlink w.trace (unlink_request env token identity_id))
          then (after_delete token identity_id w).trace
            ++ fetched (identities_request env token) ∷ []
          else (after_delete token identity_id w).trace)
  unfolding send_unlink after_delete
  send_unlink-trace token identity_id w =
      ground (arith, fetch_identities_lem env token (after_delete token identity_id w))

  -- In a session an identity is unlinked only with the user's consent: the question is asked, and
  -- if the answer is no nothing is sent. If it is yes one DELETE of
  -- `/api/v1/accounts/me/identities/`, that identity is sent, with the session's token, and the
  -- identities are read again, by a GET, exactly if the gateway accepts it.
  pub unlink_identity-trace :
      (view : Dashboard) (token identity_id : String) (w : World Dashboard)
      → session view.token ≡ some token
      → (unlink_identity env view identity_id w).1.trace ≡ (
          if env.confirm w.trace unlink_question
          then (confirmed w).trace ++ unlink_events token identity_id w
          else (confirmed w).trace)
  unfolding unlink_identity after_delete unlink_request identities_request
  unlink_identity-trace view token identity_id w e = ground (
    arith,
    send_unlink-trace token identity_id (confirmed w),
    append_assoc (confirmed w).trace (fetched (wire_delete token identity_id) ∷ [])
        (fetched (wire_reread token) ∷ []),
  )

  send_unlink-IsLinking :
      (token identity_id : String) (w : World Dashboard)
      → IsLinking env w (send_unlink env token identity_id w)
  unfolding send_unlink after_delete
  send_unlink-IsLinking token identity_id w =
      ground (arith, fetch_identities_lem env token (after_delete token identity_id w))

  -- Unlinking an identity changes the list of identities and its error, and nothing else of the
  -- page; the storage is as it was.
  pub unlink_identity-unlisted :
      (view : Dashboard) (identity_id : String) (w : World Dashboard)
      → w.state.identities_loading ≡ false
      → (unlisted (unlink_identity env view identity_id w).1.state ≡ unlisted w.state)
        × ((unlink_identity env view identity_id w).1.storage ≡ w.storage)
  unfolding unlink_identity
  unlink_identity-unlisted view identity_id w q = go (session view.token) refl
    where
      go :
          (t : Option String)
          → session view.token ≡ t
          → (unlisted (unlink_identity env view identity_id w).1.state ≡ unlisted w.state)
            × ((unlink_identity env view identity_id w).1.storage ≡ w.storage)
      go none e = ground arith
      go (some token) e = ground (arith, send_unlink-IsLinking token identity_id (confirmed w))
