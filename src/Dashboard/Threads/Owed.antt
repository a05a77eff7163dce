-- ===== src/Dashboard/Threads/Owed.antt =====
-- The mark of loading is never stuck.
use web3_lab_public.Prelude.{true, false, ◌≡◌, ◌∙◌, sym, ap}
use web3_lab_public.Program.Crew.{Page}
use web3_lab_public.Program.Crew.Owed.{
  IsAwaited, Held-IsAwaited, IsOwed, Resumed-IsOwed, launch-IsOwed, kept-IsOwed,
}
use web3_lab_public.Program.Marks.{silent-IsTidy}
use web3_lab_public.Dashboard.State.{Dashboard}
use web3_lab_public.Dashboard.Services.{Services}
use web3_lab_public.Dashboard.Identities.Programs.{link_program, unlink_program, fetch_program}
use web3_lab_public.Dashboard.Submit.Programs.Whole.{submit_program, result_program}
use web3_lab_public.Dashboard.Portfolio.Selection.{select_default-formless}
use web3_lab_public.Dashboard.Edits.Laws.{apply-vital}
use web3_lab_public.Dashboard.Threads.{any_submission, Move, Running}
use web3_lab_public.Dashboard.Threads.Holding.{loading, loading-IsSilent, submit_program-IsTidy}
use web3_lab_public.Dashboard.Threads.Holding.Linking.{link_program-IsSilent}
use web3_lab_public.Dashboard.Portfolio.Programs.{data_program}
use web3_lab_public.Dashboard.Threads.Silent.Portfolio.{data_program-IsSilent}
use web3_lab_public.Dashboard.Threads.Silent.Submit.{result_program-IsSilent}
use web3_lab_public.Dashboard.Threads.Silent.Identities.{
  unlink_program-IsSilent, fetch_program-IsSilent,
}

module _ (env : Services) where
  Move-IsOwed :
      (c d : Page Dashboard)
      → Move env (any_submission env) c d
      → IsOwed loading c
      → IsOwed loading d
  Move-IsOwed c d (Move.edit e) x =
      kept-IsOwed loading c _ (ap (λ v. v.tx_loading) (apply-vital env.format_units e c.state)) x
  Move-IsOwed c d Move.select_asset x =
      kept-IsOwed loading c _ (ap (λ v. v.tx_loading) (select_default-formless c.state)) x
  Move-IsOwed c d (Move.submit h a) x =
      launch-IsOwed loading (submit_program env c.state) c (submit_program-IsTidy env c.state) x
  Move-IsOwed c d Move.show_result x =
      launch-IsOwed loading (result_program env c.state) c
        (silent-IsTidy loading (result_program env c.state)
          (loading-IsSilent (result_program env c.state) (result_program-IsSilent env c.state)))
        x
  Move-IsOwed c d (Move.link h) x =
      launch-IsOwed loading (link_program env c.state) c
        (silent-IsTidy loading (link_program env c.state) (link_program-IsSilent env c.state)) x
  Move-IsOwed c d (Move.unlink id) x =
      launch-IsOwed loading (unlink_program env c.state id) c
        (silent-IsTidy loading (unlink_program env c.state id) (
          loading-IsSilent (unlink_program env c.state id)
            (unlink_program-IsSilent env c.state id)))
        x
  Move-IsOwed c d (Move.load token stored) x =
      launch-IsOwed loading (data_program env token stored) c
        (silent-IsTidy loading (data_program env token stored) (
          loading-IsSilent (data_program env token stored)
            (data_program-IsSilent env token stored)))
        x
  Move-IsOwed c d (Move.read_identities token) x =
      launch-IsOwed loading (fetch_program env token) c
        (silent-IsTidy loading (fetch_program env token)
          (loading-IsSilent (fetch_program env token) (fetch_program-IsSilent env token)))
        x
  Move-IsOwed c d (Move.resume r) x = Resumed-IsOwed loading c d r x

  Running-IsOwed :
      (s : Dashboard) (c : Page Dashboard)
      → s.tx_loading ≡ false
      → Running env (any_submission env) s c
      → IsOwed loading c
  Running-IsOwed s c t Running.start = record {
    each = tt;
    held = λ on. let never : false ≡ true = sym t ∙ on in cc;
  }
  Running-IsOwed s c t (Running.later {c = b} r m) = Move-IsOwed b c m (Running-IsOwed s b t r)

  -- From a page whose mark of loading is off, however edits, submissions of any kind, linkings,
  -- unlinkings, loads and answers follow one another: while the mark of loading is on, one of the
  -- functions in flight ends, left alone, with the mark off.
  pub Running-IsAwaited :
      (s : Dashboard) (c : Page Dashboard)
      → s.tx_loading ≡ false
      → Running env (any_submission env) s c
      → c.state.tx_loading ≡ true
      → IsAwaited loading c.running
  Running-IsAwaited s c t r on = Held-IsAwaited loading c.running ((Running-IsOwed s c t r).held on)
