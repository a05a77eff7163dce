-- ===== src/Dashboard/Submit/Enabled.antt =====
-- The submit button while an artwork is prepared.
use web3_lab_public.Prelude.{String, ◌≡◌, arith, ap, sym, ◌∙◌}
use web3_lab_public.Browser.{Reply, World}
use web3_lab_public.Dashboard.State.{Dashboard}
use web3_lab_public.Dashboard.Services.{Services}
use web3_lab_public.Dashboard.Upload.{upload_image, generate_metadata}
use web3_lab_public.Dashboard.Marks.{IsPublication, unpublished}
use web3_lab_public.Dashboard.Forms.{submit_disabled}
use web3_lab_public.Dashboard.Submit.{target_token_id}
use web3_lab_public.Dashboard.Submit.Frame.{
  target_token_id-IsPublication, upload_image-IsPublication, generate_metadata-IsPublication,
}

submit_disabled-unpublished : (s : Dashboard) → submit_disabled (unpublished s) ≡ submit_disabled s
unfolding submit_disabled
submit_disabled-unpublished s = ground arith

IsPublication-enabled :
    {A : Type 0} (w : World Dashboard) (r : Reply A × World Dashboard)
    → IsPublication w r
    → submit_disabled r.1.state ≡ submit_disabled w.state
IsPublication-enabled w r p =
    sym (submit_disabled-unpublished r.1.state)
    ∙ ap submit_disabled p.state_kept
    ∙ submit_disabled-unpublished w.state

-- None of the steps that prepare an artwork disables the submit button: a button that is enabled
-- when the search for the id, the upload or the metadata begins is enabled when it ends.
pub preparation-enabled :
    (env : Services) (view : Dashboard) (token_type contract token_id image_url : String)
    (w : World Dashboard)
    → (submit_disabled (target_token_id env view w).1.state ≡ submit_disabled w.state)
      × (submit_disabled (upload_image env view token_type contract token_id w).1.state
          ≡ submit_disabled w.state)
      × (submit_disabled
            (generate_metadata env view token_type contract token_id image_url w).1.state
          ≡ submit_disabled w.state)
preparation-enabled env view token_type contract token_id image_url w = (
  IsPublication-enabled w _ (target_token_id-IsPublication env view w),
  IsPublication-enabled w _ (upload_image-IsPublication env view token_type contract token_id w),
  IsPublication-enabled w _
      (generate_metadata-IsPublication env view token_type contract token_id image_url w),
)
