-- ===== src/Profile/Laws.antt =====
-- The profile page's data and what it shows of them.
use web3_lab_public.Prelude.{
  String, true, false, List, [], ◌∷◌, ◌++◌, none, some, ◌≡◌, refl, arith, is_present,
}
use web3_lab_public.Browser.{ok, World}
use web3_lab_public.Profile.{
  Profile, Services, initial, on_mount, is_wallet, header, user_card, wallet_details, error_box,
  token_section, page,
}
use web3_lab_public.Dashboard.State.{UserInfo}
use web3_lab_public.Dashboard.View.Profile.{avatar_of}
use web3_lab_public.Dashboard.Widgets.{Widget, field, button, do_navigate}

-- The labels and values of the fields among the elements of a page.
abbrev shown_field : Widget → List (String × String)
shown_field (field label value) = (label, value) ∷ []
shown_field _ = []

unfoldable pub fields : List Widget → List (String × String)
fields [] = []
fields (w ∷ ws) = shown_field w ++ fields ws

append-fields : (xs ys : List Widget) → fields xs ≡ [] → fields ys ≡ [] → fields (xs ++ ys) ≡ []
unfolding fields
append-fields [] ys e f = f
append-fields (x ∷ xs) ys e f = ground (arith, e, f, append-fields xs ys)

header-fields : (s : Profile) → fields (header s) ≡ []
unfolding fields header
header-fields s = refl

user_card-fields : (s : Profile) → is_wallet s ≡ false → fields (user_card s) ≡ []
unfolding fields user_card avatar_of
user_card-fields s h = ground (arith, h)

wallet_details-fields : (s : Profile) → is_wallet s ≡ false → fields (wallet_details s) ≡ []
unfolding fields wallet_details
wallet_details-fields s h = ground (arith, h)

error_box-fields : (s : Profile) → is_present s.error ≡ false → fields (error_box s) ≡ []
unfolding fields error_box
error_box-fields s h = ground (arith, h)

-- Without an error the page of a user who did not sign in with a wallet has no fields.
page-fields :
    (s : Profile) → is_wallet s ≡ false → is_present s.error ≡ false → fields (page s) ≡ []
unfolding fields page token_section
page-fields s h e = ground (
  arith,
  append-fields (header s ++ user_card s ++ wallet_details s ++ error_box s ++ token_section s)
      (button "Home" false (do_navigate "/")
        ∷ button "Dashboard" false (do_navigate "/dashboard")
        ∷ [])
      (append-fields (header s ++ user_card s ++ wallet_details s ++ error_box s) (token_section s)
        (append-fields (header s ++ user_card s ++ wallet_details s) (error_box s)
          (append-fields (header s ++ user_card s) (wallet_details s)
            (append-fields (header s) (user_card s) (header-fields s) (user_card-fields s h))
            (wallet_details-fields s h))
          (error_box-fields s e))
        refl)
      refl,
)

module _ (env : Services) where
  -- Loading the page from its first state never fails and leaves the storage alone, and where it
  -- ends with an error there is no user data.
  pub on_mount_exclusive :
      (w : World Profile)
      → w.state ≡ initial
      → let s = (on_mount env w).1.state in
        (is_present s.error ≡ true → s.user_info ≡ none)
        × ((on_mount env w).0 ≡ ok tt)
        × ((on_mount env w).1.storage ≡ w.storage)
  unfolding on_mount
  on_mount_exclusive w fresh = ground arith

  -- After the page has loaded, and when it knows a user who did not sign in with a wallet, the page
  -- is drawn and has no field at all: the list of the user's account details, which the source puts
  -- inside the box for an error, is not shown.
  pub loaded_page-fields :
      (w : World Profile) (u : UserInfo)
      → w.state ≡ initial
      → let s = (on_mount env w).1.state in
        s.user_info ≡ some u → is_wallet s ≡ false → (s.loading ≡ false) × (fields (page s) ≡ [])
  unfolding on_mount
  loaded_page-fields w u fresh known wallet = (
    ground (arith, fresh, known),
    page-fields (on_mount env w).1.state wallet (ground (arith, known, on_mount_exclusive w fresh)),
  )
