-- ===== src/Dashboard/View/Profile/Unlinking.antt =====
-- Which identities the profile offers to unlink.
use mathlib.Core.List.{append-nil}
use web3_lab_public.Prelude.{
  String, Bool, true, false, not, List, [], ◌∷◌, ◌++◌, Option, none, some, ◌≡◌, ◌∙◌, refl, arith,
  map, filter, if◌then◌else◌,
}
use web3_lab_public.Dashboard.State.{LinkedIdentity, UserInfo, Dashboard}
use web3_lab_public.Dashboard.Widgets.{Widget, button, do_unlink, field, text}
use web3_lab_public.Dashboard.View.Profile.{
  user_card, wallet_details, account_details, linked_section, token_section, identity_row,
  identity_rows, profile_content, entries, entry_field, avatar_of, is_account_entry, scw_field,
  identity_text, is_wallet, shown,
}

-- The identities whose unlinking a list of elements offers.
unfoldable pub unlinks : List Widget → List String
unlinks [] = []
unlinks (button label false (do_unlink id) ∷ ws) = id ∷ unlinks ws
unlinks (_ ∷ ws) = unlinks ws

unlinks-append : (xs ys : List Widget) → unlinks (xs ++ ys) ≡ unlinks xs ++ unlinks ys
unfolding unlinks
unlinks-append [] ys = refl
unlinks-append (x ∷ xs) ys = ground (arith, unlinks-append xs ys)

-- A part of the page that offers none.
silent-unlinks : (xs ys : List Widget) → unlinks xs ≡ [] → unlinks (xs ++ ys) ≡ unlinks ys
silent-unlinks xs ys e = ground (arith, unlinks-append xs ys, e)

unlinks-silent : (xs ys : List Widget) → unlinks ys ≡ [] → unlinks (xs ++ ys) ≡ unlinks xs
unlinks-silent xs ys e = ground (arith, unlinks-append xs ys, e, append-nil (unlinks xs))

abbrev pub is_secondary : LinkedIdentity → Bool
is_secondary i = not i.is_primary

abbrev pub id_of : LinkedIdentity → String
id_of i = i.identity_id

identity_row-unlinks :
    (i : LinkedIdentity)
    → unlinks (identity_row i) ≡ (if is_secondary i then i.identity_id ∷ [] else [])
unfolding identity_row unlinks
identity_row-unlinks i = ground arith

identity_rows-unlinks :
    (is : List LinkedIdentity) → unlinks (identity_rows is) ≡ map id_of (filter is_secondary is)
unfolding identity_rows unlinks filter
identity_rows-unlinks [] = refl
identity_rows-unlinks (i ∷ is) = ground (
  arith,
  unlinks-append (identity_row i) (identity_rows is),
  identity_row-unlinks i,
  identity_rows-unlinks is,
)

entry_fields-unlinks : (es : List (String × String)) → unlinks (map entry_field es) ≡ []
unfolding unlinks
entry_fields-unlinks [] = refl
entry_fields-unlinks (e ∷ es) = entry_fields-unlinks es

user_card-unlinks : (s : Dashboard) → unlinks (user_card s) ≡ []
unfolding user_card avatar_of unlinks
user_card-unlinks s = ground arith

wallet_details-unlinks : (s : Dashboard) → unlinks (wallet_details s) ≡ []
unfolding wallet_details unlinks
wallet_details-unlinks s = ground arith

account_details-unlinks : (s : Dashboard) → unlinks (account_details s) ≡ []
unfolding account_details unlinks
account_details-unlinks s = go s.user_info refl
  where
    go : (u : Option UserInfo) → s.user_info ≡ u → unlinks (account_details s) ≡ []
    go none e = ground (arith, e)
    go (some u) e =
        let fields = map entry_field (filter is_account_entry (entries u)) in
        ground (
          arith,
          e,
          entry_fields-unlinks (filter is_account_entry (entries u)),
          unlinks-append fields (scw_field s ∷ field "identity" (identity_text (some u)) ∷ []),
        )

token_section-unlinks : (s : Dashboard) → unlinks (token_section s) ≡ []
unfolding token_section unlinks
token_section-unlinks s = ground arith

-- The identities that the section offers: none while they are read.
abbrev pub offered : Dashboard → List String
offered s = if s.identities_loading then [] else map id_of (filter is_secondary s.linked_identities)

linked_section-unlinks : (s : Dashboard) → unlinks (linked_section s) ≡ offered s
unfolding linked_section unlinks filter
linked_section-unlinks s = go s.identities_loading s.linked_identities refl refl
  where
    go :
        (b : Bool) (is : List LinkedIdentity)
        → s.identities_loading ≡ b
        → s.linked_identities ≡ is
        → unlinks (linked_section s) ≡ offered s
    go true is e k = ground (arith, e)
    go false [] e k = ground (arith, e, k)
    go false (i ∷ is) e k = ground (arith, e, k, identity_rows-unlinks (i ∷ is))

-- The profile offers to unlink exactly the listed identities that are not primary, in their order,
-- and none while the identities are read.
pub profile_content-unlinks : (s : Dashboard) → unlinks (profile_content s) ≡ offered s
unfolding profile_content unlinks
profile_content-unlinks s =
    unlinks-silent (title ++ card ++ wallet_details s ++ account_details s ++ linked_section s)
      (token_section s) (token_section-unlinks s)
    ∙ silent-unlinks (title ++ card ++ wallet_details s ++ account_details s) (linked_section s)
        before
    ∙ linked_section-unlinks s
  where
    title : List Widget
    title = text "Profile" ∷ shown (is_wallet s) (text "SIWE" ∷ [])

    card : List Widget
    card =
        text (
          if is_wallet s
          then "Your Ethereum wallet identity and session details."
          else "Your account information and active session details.")
        ∷ user_card s

    title-unlinks : unlinks title ≡ []
    title-unlinks = ground arith

    before : unlinks (title ++ card ++ wallet_details s ++ account_details s) ≡ []
    before =
        silent-unlinks (title ++ card ++ wallet_details s) (account_details s) (
          silent-unlinks (title ++ card) (wallet_details s)
            (silent-unlinks title card title-unlinks ∙ user_card-unlinks s)
          ∙ wallet_details-unlinks s)
        ∙ account_details-unlinks s
