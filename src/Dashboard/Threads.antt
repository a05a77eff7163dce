-- ===== src/Dashboard/Threads.antt =====
-- DashboardPage.tsx with several of its asynchronous functions in flight: `handleSubmitWithUpload`,
-- the effect on `[txResult]`, `fetchData`, `linkWallet`, `unlinkIdentity` and `fetchIdentities`, as
-- programs that the page has started and not yet finished. Between two awaits nothing comes in; at
-- an await any event may, and an answer may be any.
pub mod Silent
pub mod Holding
pub mod Artwork
pub mod Exclusive
pub mod Owed
pub mod Overtaking
pub mod Whole
use web3_lab_public.Prelude.{String, Option, Bool, true, false, not, [], ◌≡◌}
use web3_lab_public.Program.Crew.{Page, launch, Resumed}
use web3_lab_public.Dashboard.State.{MenuSection, mint, Dashboard}
use web3_lab_public.Dashboard.Services.{Services}
use web3_lab_public.Dashboard.Identities.Programs.{fetch_program, link_program, unlink_program}
use web3_lab_public.Dashboard.Submit.{has_artwork}
use web3_lab_public.Dashboard.Submit.Programs.Whole.{submit_program, result_program}
use web3_lab_public.Dashboard.Portfolio.{select_default}
use web3_lab_public.Dashboard.Portfolio.Programs.{data_program}
use web3_lab_public.Dashboard.Forms.{submit_disabled}
use web3_lab_public.Dashboard.Edits.{Edit, apply}

-- The marks of a transaction and of a linking that are under way.
abbrev pub marks : Dashboard → Bool × Bool
marks s = (s.tx_loading, s.linking_wallet)

module _ (env : Services) where
  -- The submission prepares no artwork.
  abbrev pub needs_no_artwork : MenuSection → Dashboard → Bool
  needs_no_artwork mint s = not (has_artwork env s)
  needs_no_artwork _ s = true

  abbrev pub any_submission : Dashboard → Bool
  any_submission s = true

  abbrev pub plain_submission : Dashboard → Bool
  plain_submission s = needs_no_artwork s.active_section s

  -- The submissions are those that `permits` allows. The effect on a result and the readings may
  -- start at any time, and an unlinking with any id.
  pub data Move (permits : Dashboard → Bool) (c : Page Dashboard) : Page Dashboard → Type 1 where
    edit : (e : Edit) → Move permits c (record c { state = apply env.format_units e c.state })
    select_asset : Move permits c (record c { state = select_default c.state })
    submit :
        submit_disabled c.state ≡ false
        → permits c.state ≡ true
        → Move permits c (launch (submit_program env c.state) c)
    show_result : Move permits c (launch (result_program env c.state) c)
    link : c.state.linking_wallet ≡ false → Move permits c (launch (link_program env c.state) c)
    unlink : (id : String) → Move permits c (launch (unlink_program env c.state id) c)
    -- what the page loads at its start, where the storage has an address or not
    load :
        (token : String) (stored : Option String)
        → Move permits c (launch (data_program env token stored) c)
    read_identities : (token : String) → Move permits c (launch (fetch_program env token) c)
    resume : {d : Page Dashboard} → Resumed c d → Move permits c d

  pub data Running (permits : Dashboard → Bool) (s : Dashboard) : Page Dashboard → Type 1 where
    start : Running permits s (record { state = s; running = [] })
    later : {c d : Page Dashboard} → Running permits s c → Move permits c d → Running permits s d
