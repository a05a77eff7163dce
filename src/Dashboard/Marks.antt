-- ===== src/Dashboard/Marks.antt =====
-- The fields of the dashboard that a submission writes, and effects that leave the others alone.
use web3_lab_public.Prelude.{false, none, ◌≡◌, ◌≢◌, ap, ◌∙◌}
use web3_lab_public.Browser
use web3_lab_public.Browser.{Reply, ok, thrown, Io, World, ◌>>=◌}
use web3_lab_public.Dashboard.State.{Dashboard, idle}

-- The state without what an upload and the publication of a contract write.
abbrev pub unpublished : Dashboard → Dashboard
unpublished s = record s { deployed_contract_address = none; upload_progress = idle }

-- The state without what a submission writes: also the marks and the outcome of a transaction.
abbrev pub unsubmitted : Dashboard → Dashboard
unsubmitted s = record s {
  tx_loading = false;
  tx_result = none;
  error = none;
  deployed_contract_address = none;
  upload_progress = idle;
}

-- The state without what the upload of an icon writes: also the file that is chosen.
abbrev pub unuploaded : Dashboard → Dashboard
unuploaded s = record (unpublished s) { upload_file = none; upload_preview = none }

-- An effect that keeps what `f` sees of the state, and the storage.
pub record IsKept {A : Type 0} (f : Dashboard → Dashboard) (w : World Dashboard)
    (r : Reply A × World Dashboard) : Type 0 where
  pub state_kept : f r.1.state ≡ f w.state
  pub storage_kept : r.1.storage ≡ w.storage

abbrev pub IsPublication : {A : Type 0} → World Dashboard → Reply A × World Dashboard → Type 0
IsPublication w r = IsKept unpublished w r

abbrev pub IsSubmission : {A : Type 0} → World Dashboard → Reply A × World Dashboard → Type 0
IsSubmission w r = IsKept unsubmitted w r

pub IsPublication-IsSubmission :
    {A : Type 0} {w : World Dashboard} {r : Reply A × World Dashboard}
    → IsPublication w r
    → IsSubmission w r
IsPublication-IsSubmission p = record {
  state_kept = ap unsubmitted p.state_kept;
  storage_kept = p.storage_kept;
}

pub bind-IsKept :
    {A B : Type 0} (f : Dashboard → Dashboard) (m : Io Dashboard A) (k : A → Io Dashboard B)
    (w : World Dashboard)
    → IsKept f w (m w)
    → ((a : A) → IsKept f (m w).1 (k a (m w).1))
    → IsKept f w ((m >>= k) w)
bind-IsKept {A} {B} f m k w q h = go (m w) q h
  where
    go :
        (r : Reply A × World Dashboard)
        → IsKept f w r
        → ((a : A) → IsKept f r.1 (k a r.1))
        → IsKept f w (Browser.resume r k)
    go (ok a, v) u h' = record {
      state_kept = (h' a).state_kept ∙ u.state_kept;
      storage_kept = (h' a).storage_kept ∙ u.storage_kept;
    }
    go (thrown e, v) u h' = record { state_kept = u.state_kept; storage_kept = u.storage_kept }

-- Between two transactions the mark of loading is off, and a result and an error exclude one
-- another.
pub record IsCalm (s : Dashboard) : Type 0 where
  pub loading_off : s.tx_loading ≡ false
  pub exclusive : s.tx_result ≢ none → s.error ≡ none

pub IsPublication-IsCalm :
    {A : Type 0} {w : World Dashboard} {r : Reply A × World Dashboard}
    → IsPublication w r
    → IsCalm w.state
    → IsCalm r.1.state
IsPublication-IsCalm p c = record {
  loading_off = ap (λ s. s.tx_loading) p.state_kept ∙ c.loading_off;
  exclusive = λ h.
      ap (λ s. s.error) p.state_kept
      ∙ c.exclusive (λ e. h (ap (λ s. s.tx_result) p.state_kept ∙ e));
}

-- The rule for a sequence.
pub bind-IsCalm :
    {A B : Type 0} (m : Io Dashboard A) (k : A → Io Dashboard B) (w : World Dashboard)
    → IsCalm (m w).1.state
    → ((a : A) → IsCalm (m w).1.state → IsCalm (k a (m w).1).1.state)
    → IsCalm ((m >>= k) w).1.state
bind-IsCalm {A} {B} m k w c h = go (m w) c h
  where
    go :
        (r : Reply A × World Dashboard)
        → IsCalm r.1.state
        → ((a : A) → IsCalm r.1.state → IsCalm (k a r.1).1.state)
        → IsCalm (Browser.resume r k).1.state
    go (ok a, v) c' h' = h' a c'
    go (thrown e, v) c' h' = c'
