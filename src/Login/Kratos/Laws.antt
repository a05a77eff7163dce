-- ===== src/Login/Kratos/Laws.antt =====
-- Signing in and up with an email address.
use web3_lab_public.Prelude.{
  String, Option, ◌≡◌, ◌++◌, refl, arith, is_present, option_or, if◌then◌else◌, [], ◌∷◌,
}
use web3_lab_public.Browser.{Reply, ok, thrown, World, Response, assigned}
use web3_lab_public.Login.State.{Login, Services, Flow}
use web3_lab_public.Login.Kratos.{
  redirect_of, conclude, handle_google_login, handle_email_sign_in, handle_email_sign_up,
}

abbrev pub target_of : Flow → String
target_of flow = if is_present (redirect_of flow) then option_or (redirect_of flow) "" else "/"

-- Where an answer to a form leads: to its redirect, or to the root.
abbrev pub destination : Reply Flow → String
destination (thrown _) = "/"
destination (ok flow) = target_of flow

-- The answer to a submitted form either succeeds, and the page is left once, for the answer's
-- redirect or the root; or it fails, and the page is not left.
pub conclude-leaves :
    (error_text : Flow → String) (res : Response Flow) (w : World Login)
    → let r = conclude error_text res w in
      (r.0 ≡ ok tt → r.1.trace ≡ w.trace ++ assigned (destination res.json) ∷ [])
      × ((e : String) → r.0 ≡ thrown e → r.1.trace ≡ w.trace)
unfolding conclude
conclude-leaves error_text res w = go res.json refl
  where
    go :
        (j : Reply Flow)
        → res.json ≡ j
        → let r = conclude error_text res w in
          (r.0 ≡ ok tt → r.1.trace ≡ w.trace ++ assigned (destination res.json) ∷ [])
          × ((e : String) → r.0 ≡ thrown e → r.1.trace ≡ w.trace)
    go (ok flow) e = ground arith
    go (thrown m) e = ground arith

module _ (env : Services) where
  -- Signing in with an email address never fails, and leaves the storage alone.
  pub handle_email_sign_in_settles :
      (challenge : Option String) (view : Login) (w : World Login)
      → ((handle_email_sign_in env challenge view w).0 ≡ ok tt)
        × ((handle_email_sign_in env challenge view w).1.storage ≡ w.storage)
  unfolding handle_email_sign_in
  handle_email_sign_in_settles challenge view w = ground arith

  -- Signing up with an email address never fails, and leaves the storage alone.
  pub handle_email_sign_up_settles :
      (view : Login) (w : World Login)
      → ((handle_email_sign_up env view w).0 ≡ ok tt)
        × ((handle_email_sign_up env view w).1.storage ≡ w.storage)
  unfolding handle_email_sign_up
  handle_email_sign_up_settles view w = ground arith

  -- Signing in with Google never fails, and leaves the storage alone.
  pub handle_google_login_settles :
      (challenge : Option String) (w : World Login)
      → ((handle_google_login env challenge w).0 ≡ ok tt)
        × ((handle_google_login env challenge w).1.storage ≡ w.storage)
  unfolding handle_google_login
  handle_google_login_settles challenge w = ground arith
