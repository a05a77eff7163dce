-- ===== src/Dashboard/Threads/Exclusive.antt =====
-- Transactions exclude one another, and so do linkings.
use web3_lab_public.Prelude.{false, ◌≡◌, ap, arith}
use web3_lab_public.Program.Crew.{Page}
use web3_lab_public.Program.Crew.Exclusive.{
  IsExclusive, Resumed-IsExclusive, silent-IsExclusive, prompt-IsExclusive, kept-IsExclusive,
}
use web3_lab_public.Dashboard.State.{Dashboard}
use web3_lab_public.Dashboard.Services.{Services}
use web3_lab_public.Dashboard.Identities.Programs.{link_program, unlink_program, fetch_program}
use web3_lab_public.Dashboard.Submit.Programs.Whole.{submit_program, result_program}
use web3_lab_public.Dashboard.Portfolio.Selection.{select_default-formless}
use web3_lab_public.Dashboard.Forms.{submit_disabled}
use web3_lab_public.Dashboard.Edits.Laws.{apply-vital}
use web3_lab_public.Dashboard.Threads.{any_submission, plain_submission, Move, Running}
use web3_lab_public.Dashboard.Threads.Holding.{
  loading, linking, loading-IsSilent, linking-IsSilent, submit_program-IsPrompt,
  submit_program-IsSilent,
}
use web3_lab_public.Dashboard.Threads.Holding.Linking.{link_program-IsPrompt, link_program-IsSilent}
use web3_lab_public.Dashboard.Portfolio.Programs.{data_program}
use web3_lab_public.Dashboard.Threads.Silent.Portfolio.{data_program-IsSilent}
use web3_lab_public.Dashboard.Threads.Silent.Submit.{result_program-IsSilent}
use web3_lab_public.Dashboard.Threads.Silent.Identities.{
  unlink_program-IsSilent, fetch_program-IsSilent,
}

pub enabled-loading : (s : Dashboard) → submit_disabled s ≡ false → s.tx_loading ≡ false
unfolding submit_disabled
enabled-loading s h = ground (arith, h)

module _ (env : Services) where
  Move-loading :
      (c d : Page Dashboard)
      → Move env (plain_submission env) c d
      → IsExclusive loading c
      → IsExclusive loading d
  Move-loading c d (Move.edit e) x =
      kept-IsExclusive loading c _ (ap (λ v. v.tx_loading) (apply-vital env.format_units e c.state))
        x
  Move-loading c d Move.select_asset x =
      kept-IsExclusive loading c _ (ap (λ v. v.tx_loading) (select_default-formless c.state)) x
  Move-loading c d (Move.submit h a) x =
      prompt-IsExclusive loading (submit_program env c.state) c
        (submit_program-IsPrompt env c.state a) (enabled-loading c.state h) x
  Move-loading c d Move.show_result x =
      silent-IsExclusive loading (result_program env c.state) c
        (loading-IsSilent (result_program env c.state) (result_program-IsSilent env c.state)) x
  Move-loading c d (Move.link h) x =
      silent-IsExclusive loading (link_program env c.state) c (link_program-IsSilent env c.state) x
  Move-loading c d (Move.unlink id) x =
      silent-IsExclusive loading (unlink_program env c.state id) c
        (loading-IsSilent (unlink_program env c.state id) (unlink_program-IsSilent env c.state id))
        x
  Move-loading c d (Move.load token stored) x =
      silent-IsExclusive loading (data_program env token stored) c
        (loading-IsSilent (data_program env token stored) (data_program-IsSilent env token stored))
        x
  Move-loading c d (Move.read_identities token) x =
      silent-IsExclusive loading (fetch_program env token) c
        (loading-IsSilent (fetch_program env token) (fetch_program-IsSilent env token)) x
  Move-loading c d (Move.resume r) x = Resumed-IsExclusive loading c d r x

  -- From a page whose mark of loading is off, however edits, submissions that prepare no artwork,
  -- linkings, unlinkings, loads and answers follow one another: while the mark of loading is on,
  -- exactly one of the functions in flight holds it, and resets it before it ends; while it is off,
  -- none of those in flight will set it.
  pub Running-IsExclusive :
      (s : Dashboard) (c : Page Dashboard)
      → s.tx_loading ≡ false
      → Running env (plain_submission env) s c
      → IsExclusive loading c
  Running-IsExclusive s c t Running.start = IsExclusive.idle tt t
  Running-IsExclusive s c t (Running.later {c = b} r m) =
      Move-loading b c m (Running-IsExclusive s b t r)

  Move-linking :
      (c d : Page Dashboard)
      → Move env (any_submission env) c d
      → IsExclusive linking c
      → IsExclusive linking d
  Move-linking c d (Move.edit e) x =
      kept-IsExclusive linking c _
        (ap (λ v. v.linking_wallet) (apply-vital env.format_units e c.state)) x
  Move-linking c d Move.select_asset x =
      kept-IsExclusive linking c _ (ap (λ v. v.linking_wallet) (select_default-formless c.state)) x
  Move-linking c d (Move.submit h a) x =
      silent-IsExclusive linking (submit_program env c.state) c
        (submit_program-IsSilent env c.state) x
  Move-linking c d Move.show_result x =
      silent-IsExclusive linking (result_program env c.state) c
        (linking-IsSilent (result_program env c.state) (result_program-IsSilent env c.state)) x
  Move-linking c d (Move.link h) x =
      prompt-IsExclusive linking (link_program env c.state) c (link_program-IsPrompt env c.state) h
        x
  Move-linking c d (Move.unlink id) x =
      silent-IsExclusive linking (unlink_program env c.state id) c
        (linking-IsSilent (unlink_program env c.state id) (unlink_program-IsSilent env c.state id))
        x
  Move-linking c d (Move.load token stored) x =
      silent-IsExclusive linking (data_program env token stored) c
        (linking-IsSilent (data_program env token stored) (data_program-IsSilent env token stored))
        x
  Move-linking c d (Move.read_identities token) x =
      silent-IsExclusive linking (fetch_program env token) c
        (linking-IsSilent (fetch_program env token) (fetch_program-IsSilent env token)) x
  Move-linking c d (Move.resume r) x = Resumed-IsExclusive linking c d r x

  -- From a page whose mark of linking is off, however edits, submissions of any kind, linkings,
  -- unlinkings, loads and answers follow one another: while the mark of linking is on, exactly one
  -- of the functions in flight holds it, and resets it before it ends; while it is off, none of
  -- those in flight will set it.
  pub Running-links_once :
      (s : Dashboard) (c : Page Dashboard)
      → s.linking_wallet ≡ false
      → Running env (any_submission env) s c
      → IsExclusive linking c
  Running-links_once s c t Running.start = IsExclusive.idle tt t
  Running-links_once s c t (Running.later {c = b} r m) =
      Move-linking b c m (Running-links_once s b t r)
