-- ===== src/Dashboard/Threads/Whole.antt =====
-- A handler that is left alone among functions in flight.
use web3_lab_public.Prelude.{String, false, ◌≡◌, ap, refl}
use web3_lab_public.Prelude.Dict
use web3_lab_public.Prelude.Dict.{Dict}
use web3_lab_public.Browser.{Trace, World}
use web3_lab_public.Program.{run}
use web3_lab_public.Program.Crew.{Task, Page, launch}
use web3_lab_public.Program.Crew.Finishing.{Steps, run-Steps}
use web3_lab_public.Dashboard.State.{Dashboard}
use web3_lab_public.Dashboard.Services.{Services}
use web3_lab_public.Dashboard.Identities.{fetch_identities, link_wallet, unlink_identity}
use web3_lab_public.Dashboard.Identities.Programs.{fetch_program, link_program, unlink_program}
use web3_lab_public.Dashboard.Identities.Programs.Runs.{
  run-fetch_program, run-link_program, run-unlink_program,
}
use web3_lab_public.Dashboard.Submit.{handle_submit, on_tx_result}
use web3_lab_public.Dashboard.Submit.Programs.Whole.{
  submit_program, result_program, run-submit_program, run-result_program,
}
use web3_lab_public.Dashboard.Portfolio.{fetch_data}
use web3_lab_public.Dashboard.Portfolio.Programs.{data_program}
use web3_lab_public.Dashboard.Portfolio.Programs.Runs.{run-data_program}
use web3_lab_public.Dashboard.Forms.{submit_disabled}
use web3_lab_public.Dashboard.Threads.{any_submission, Move, Running}

-- The page with the state that a function has left, and the functions in flight as they were.
abbrev pub left_by : Page Dashboard → World Dashboard → Page Dashboard
left_by c w = record c { state = w.state }

module _ (env : Services) where
  abbrev pub Reaches : Dashboard → Page Dashboard → Type 1
  Reaches = Running env (any_submission env)

  Steps-Reaches : (s : Dashboard) (c d : Page Dashboard) → Reaches s c → Steps c d → Reaches s d
  Steps-Reaches s c d r Steps.stay = r
  Steps-Reaches s c d r (Steps.more {d = e} m k) =
      Steps-Reaches s e d (Running.later r (Move.resume m)) k

  launched-Reaches :
      (s : Dashboard) (c : Page Dashboard) (p : Task Dashboard) (w v : World Dashboard)
      → Reaches s (launch p c)
      → w.state ≡ c.state
      → (run p w).1 ≡ v
      → Reaches s (left_by c v)
  launched-Reaches s c p w v r h e =
      rw (← e) (Steps-Reaches s (launch p c) _ r (rw (← h) (run-Steps c.running p w)))

  -- On any page that edits, submissions, linkings, unlinkings, loads and answers have led to,
  -- whatever is in flight: a submission that the button allows, a linking that its button allows,
  -- an unlinking, a reading of the identities or of the user's data, and the effect on a result can
  -- be left alone until they end. The page has then the state that the whole function leaves, and
  -- in flight is what was.
  pub Running-left_alone :
      (s : Dashboard) (c : Page Dashboard) (storage : Dict) (trace : Trace)
      → Reaches s c
      → let w : World Dashboard = record { state = c.state; storage = storage; trace = trace } in
        (submit_disabled c.state ≡ false → Reaches s (left_by c (handle_submit env c.state w).1))
        × (c.state.linking_wallet ≡ false → Reaches s (left_by c (link_wallet env c.state w).1))
        × ((id : String) → Reaches s (left_by c (unlink_identity env c.state id w).1))
        × ((token : String) → Reaches s (left_by c (fetch_identities env token w).1))
        × ((token : String) → Reaches s (left_by c (fetch_data env token w).1))
        × Reaches s (left_by c (on_tx_result env c.state w).1)
  Running-left_alone s c storage trace r =
      let w : World Dashboard = record { state = c.state; storage = storage; trace = trace } in
      (
        (λ h.
            launched-Reaches s c (submit_program env c.state) w _
              (Running.later r (Move.submit h refl)) refl
              (ap (λ x. x.1) (run-submit_program env c.state w))),
        (λ h.
            launched-Reaches s c (link_program env c.state) w _ (Running.later r (Move.link h)) refl
              (ap (λ x. x.1) (run-link_program env c.state w))),
        (λ id.
            launched-Reaches s c (unlink_program env c.state id) w _
              (Running.later r (Move.unlink id)) refl
              (ap (λ x. x.1) (run-unlink_program env c.state id w))),
        (λ token.
            launched-Reaches s c (fetch_program env token) w _
              (Running.later r (Move.read_identities token)) refl
              (ap (λ x. x.1) (run-fetch_program env token w))),
        (λ token.
            let stored = Dict.lookup "siwe_wallet_address" storage in
            launched-Reaches s c (data_program env token stored) w _
              (Running.later r (Move.load token stored)) refl
              (ap (λ x. x.1) (run-data_program env token w))),
        launched-Reaches s c (result_program env c.state) w _ (Running.later r Move.show_result)
            refl (ap (λ x. x.1) (run-result_program env c.state w)),
      )
