-- ===== src/Dashboard/Machine/Soundness.antt =====
-- An invariant of the dashboard's machine.
use web3_lab_public.Prelude.{
  String, false, [], Option, none, some, ◌≡◌, refl, arith, ap, ◌∙◌, ◌⊎◌, inr,
}
use web3_lab_public.Prelude.Dict
use web3_lab_public.Prelude.Dict.{Dict}
use web3_lab_public.Browser.{World}
use web3_lab_public.Dashboard.State.{Dashboard, initial}
use web3_lab_public.Dashboard.Services.{Services}
use web3_lab_public.Dashboard.Identities.{session}
use web3_lab_public.Dashboard.Marks.{IsCalm}
use web3_lab_public.Dashboard.Forms.Choosing.{AgreesWithAsset}
use web3_lab_public.Dashboard.Portfolio.Loading.{dashboard_on_mount_lem, on_mount-unread}
use web3_lab_public.Dashboard.Machine.{Reach, opened}
use web3_lab_public.Dashboard.Machine.Frames.{stored, IsQuiet, IsFramed, Step-IsFramed}

-- What holds of the page between two steps.
pub record IsSound (w : World Dashboard) : Type 0 where
  -- no transaction runs, and a result and an error exclude one another
  pub calm : IsCalm w.state
  -- the form's address is that of the asset that is selected
  pub consistent : AgreesWithAsset w.state
  -- the page's session is the storage's, until it ends there
  pub signed : (stored w ≡ none) ⊎ (session (stored w) ≡ w.state.token)
  pub quiet : IsQuiet w
  pub portfolio_off : w.state.portfolio_loading ≡ false

pub IsFramed-IsSound : (w v : World Dashboard) → IsFramed w v → IsSound w → IsSound v
IsFramed-IsSound w v f s =
    let k = f.bound_kept in
    record {
      calm = f.calm_kept s.calm;
      consistent = f.asset_kept s.consistent;
      signed = ground (arith, s.signed, k, f.session_kept);
      quiet = record {
        identities_off = ap (λ d. d.identities_loading) k ∙ s.quiet.identities_off;
        linking_off = ap (λ d. d.linking_wallet) k ∙ s.quiet.linking_off;
      };
      portfolio_off = ap (λ d. d.portfolio_loading) k ∙ s.portfolio_off;
    }

module _ (env : Services) where
  opened-signed :
      (storage : Dict) (t : Option String)
      → session (Dict.lookup "access_token" storage) ≡ t
      → session (stored (opened env storage)) ≡ (opened env storage).state.token
  opened-signed storage none e =
      let w : World Dashboard = record { state = initial; storage = storage; trace = [] } in
      ground (arith, (dashboard_on_mount_lem env w).2 e)
  opened-signed storage (some token) e =
      let w : World Dashboard = record { state = initial; storage = storage; trace = [] } in
      ground (arith, (dashboard_on_mount_lem env w).1, (on_mount-unread env w refl refl).1 token e)

  pub opened-session :
      (storage : Dict)
      → session (Dict.lookup "access_token" storage) ≡ (opened env storage).state.token
  opened-session storage =
      let w : World Dashboard = record { state = initial; storage = storage; trace = [] } in
      ground (arith, opened-signed storage _ refl, (dashboard_on_mount_lem env w).1)

  pub opened-IsSound : (storage : Dict) → IsSound (opened env storage)
  opened-IsSound storage =
      let w : World Dashboard = record { state = initial; storage = storage; trace = [] } in
      let kept = (on_mount-unread env w refl refl).0 in
      record {
        calm = record {
          loading_off = ap (λ s. s.tx_loading) kept;
          exclusive = λ _. ap (λ s. s.error) kept;
        };
        consistent = ground (arith, kept);
        signed = inr (opened-signed storage _ refl);
        quiet = record {
          identities_off = ap (λ s. s.identities_loading) kept;
          linking_off = ap (λ s. s.linking_wallet) kept;
        };
        portfolio_off = ap (λ s. s.portfolio_loading) kept;
      }

  -- In every state that the dashboard reaches by the user's steps, its effects and its timers, each
  -- handler whole in one step, no transaction, linking or reading is marked as running, a result
  -- and an error are not shown together, the form's address is that of the selected asset, and the
  -- page's session is the storage's, or the storage has none.
  pub Reach-IsSound :
      (encode : String → String) (storage : Dict) (w : World Dashboard)
      → Reach env encode storage w
      → IsSound w
  Reach-IsSound encode storage w Reach.start = opened-IsSound storage
  Reach-IsSound encode storage w (Reach.later {v} r step) =
      let s = Reach-IsSound encode storage v r in
      IsFramed-IsSound v w (Step-IsFramed env encode v w step s.quiet) s
