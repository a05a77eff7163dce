-- ===== src/Site/Windows.antt =====
-- A browser with several tabs over one storage.
use web3_lab_public.Prelude.{All, List, String, [], ◌∷◌, ◌++◌, some, ◌≡◌, refl}
use web3_lab_public.Prelude.Dict
use web3_lab_public.Prelude.Dict.{Dict}
use web3_lab_public.Browser.{World}
use web3_lab_public.Dashboard.State.{Dashboard}
use web3_lab_public.Site.{
  Site, Tab, at_home, at_login, at_callback, at_dashboard, storage_of, Visit,
}
use web3_lab_public.Site.Change.{Change, IsGranted, access}
use web3_lab_public.Site.Session.{Holds, Visit-Change, Visit-Holds, Change-granted}

pub record Windows : Type 0 where
  pub storage : Dict
  pub tabs : List Tab

-- The tab as it finds the storage that another tab has left.
unfoldable pub with_storage : Dict → Tab → Tab
with_storage d (at_home _) = at_home d
with_storage d (at_login param w) = at_login param (record w { storage = d })
with_storage d (at_callback w) = at_callback (record w { storage = d })
with_storage d (at_dashboard w) = at_dashboard (record w { storage = d })

-- A tab is opened, closed, or visits a page or takes a step on one.
pub data Turn (env : Site) (c : Windows) : Windows → Type 0 where
  arise : Turn env c (record c { tabs = at_home c.storage ∷ c.tabs })
  close :
      (before after : List Tab) (t : Tab)
      → c.tabs ≡ before ++ t ∷ after
      → Turn env c (record c { tabs = before ++ after })
  visit :
      (before after : List Tab) (t u : Tab)
      → c.tabs ≡ before ++ t ∷ after
      → Visit env (with_storage c.storage t) u
      → Turn env c (record { storage = storage_of u; tabs = before ++ u ∷ after })

-- What a fresh browser comes to.
pub data Browsed (env : Site) : Windows → Type 0 where
  start : Browsed env (record { storage = []; tabs = [] })
  later : {c d : Windows} → Browsed env c → Turn env c d → Browsed env d

module _ (env : Site) where
  abbrev Granted : String → Type 0
  Granted = IsGranted env.callback_env

  with_storage-Holds : (d : Dict) (t : Tab) → Holds env t → Holds env (with_storage d t)
  unfolding with_storage
  with_storage-Holds d (at_home _) h = tt
  with_storage-Holds d (at_login param w) h = tt
  with_storage-Holds d (at_callback w) h = tt
  with_storage-Holds d (at_dashboard w) h = record {
    quiet = record { identities_off = h.quiet.identities_off; linking_off = h.quiet.linking_off };
    served = h.served;
  }

  storage_of-with_storage : (d : Dict) (t : Tab) → storage_of (with_storage d t) ≡ d
  unfolding with_storage storage_of
  storage_of-with_storage d (at_home _) = refl
  storage_of-with_storage d (at_login param w) = refl
  storage_of-with_storage d (at_callback w) = refl
  storage_of-with_storage d (at_dashboard w) = refl

  abbrev AllHold : List Tab → Type 0
  AllHold = All (Holds env)

  AllHold-at : (before after : List Tab) (t : Tab) → AllHold (before ++ t ∷ after) → Holds env t
  AllHold-at [] after t h = h.0
  AllHold-at (x ∷ before) after t h = AllHold-at before after t h.1

  AllHold-put :
      (before after : List Tab) (t u : Tab)
      → Holds env u
      → AllHold (before ++ t ∷ after)
      → AllHold (before ++ u ∷ after)
  AllHold-put [] after t u k h = (k, h.1)
  AllHold-put (x ∷ before) after t u k h = (h.0, AllHold-put before after t u k h.1)

  AllHold-drop :
      (before after : List Tab) (t : Tab)
      → AllHold (before ++ t ∷ after)
      → AllHold (before ++ after)
  AllHold-drop [] after t h = h.1
  AllHold-drop (x ∷ before) after t h = (h.0, AllHold-drop before after t h.1)

  -- Every tab holds what it should, and a session in the storage was granted.
  record IsLawful (c : Windows) : Type 0 where
    tabs_hold : AllHold c.tabs
    granted : (token : String) → access c.storage ≡ some token → Granted token

  visited-Change :
      (c : Windows) (before after : List Tab) (t u : Tab)
      → c.tabs ≡ before ++ t ∷ after
      → IsLawful c
      → Visit env (with_storage c.storage t) u
      → Change Granted (access c.storage) (access (storage_of u))
  visited-Change c before after t u e l v =
      let held = with_storage-Holds c.storage t (AllHold-at before after t (rw⁻¹ e l.tabs_hold)) in
      rw⁻¹ (storage_of-with_storage c.storage t)
        (Visit-Change env (with_storage c.storage t) u held v)

  Turn-Change :
      (c d : Windows)
      → IsLawful c
      → Turn env c d
      → Change Granted (access c.storage) (access d.storage)
  Turn-Change c d l Turn.arise = Change.keep _
  Turn-Change c d l (Turn.close before after t e) = Change.keep _
  Turn-Change c d l (Turn.visit before after t u e v) = visited-Change c before after t u e l v

  Turn-IsLawful : (c d : Windows) → IsLawful c → Turn env c d → IsLawful d
  Turn-IsLawful c d l Turn.arise = record { tabs_hold = (tt, l.tabs_hold); granted = l.granted }
  Turn-IsLawful c d l (Turn.close before after t e) = record {
    tabs_hold = AllHold-drop before after t (rw⁻¹ e l.tabs_hold);
    granted = l.granted;
  }
  Turn-IsLawful c d l (Turn.visit before after t u e v) =
      let all : AllHold (before ++ t ∷ after) = rw⁻¹ e l.tabs_hold in
      let held = with_storage-Holds c.storage t (AllHold-at before after t all) in
      record {
        tabs_hold =
            AllHold-put before after t u
              (Visit-Holds env (with_storage c.storage t) u held
                (rw (storage_of-with_storage c.storage t) l.granted) v)
              all;
        granted = Change-granted env _ _ (visited-Change c before after t u e l v) l.granted;
      }

  Browsed-IsLawful : (c : Windows) → Browsed env c → IsLawful c
  unfolding Dict.lookup
  Browsed-IsLawful c Browsed.start = record { tabs_hold = tt; granted = λ token e. cc }
  Browsed-IsLawful d (Browsed.later {c} r s) = Turn-IsLawful c d (Browsed-IsLawful c r) s

  -- However the tabs of a browser take turns, each turn changes the session that they share as the
  -- machine with one token does: it is kept, or left, or entered with a token that the gateway
  -- granted for a code.
  pub Browsed-Change :
      (c d : Windows)
      → Browsed env c
      → Turn env c d
      → Change (IsGranted env.callback_env) (access c.storage) (access d.storage)
  Browsed-Change c d r s = Turn-Change c d (Browsed-IsLawful c r) s

  -- However the tabs of a browser take turns, the token with which the dashboard of any of them
  -- calls the gateway is one that the gateway granted for a code.
  pub dashboards_token-IsGranted :
      (c : Windows) (before after : List Tab) (w : World Dashboard) (token : String)
      → Browsed env c
      → c.tabs ≡ before ++ at_dashboard w ∷ after
      → w.state.token ≡ some token
      → IsGranted env.callback_env token
  dashboards_token-IsGranted c before after w token r e =
      (AllHold-at before after (at_dashboard w) (rw⁻¹ e (Browsed-IsLawful c r).tabs_hold)).served
        token
