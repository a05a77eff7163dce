-- ===== src/Dashboard/Submit/Laws.antt =====
-- What a failing upload of the metadata does to the submission of an artwork.
use web3_lab_public.Prelude.{String, true, some, refl, ◌≡◌, arith, is_present, option_or}
use web3_lab_public.Browser.{ok, thrown, World}
use web3_lab_public.Dashboard.State.{Dashboard, mint, erc1155, File, token_name}
use web3_lab_public.Dashboard.Services.{Services}
use web3_lab_public.Dashboard.Upload.{upload_image, generate_metadata}
use web3_lab_public.Dashboard.Submit.{
  handle_submit, submit_artwork, target_token_id, has_artwork, submit_in,
}

-- The page where an artwork is minted as an ERC-1155 token.
abbrev pub minting : Dashboard → File → Dashboard
minting view file = record view {
  active_section = mint;
  active_token = erc1155;
  upload_file = some file;
}

module _ (env : Services) where
  image_upload-error :
      (view : Dashboard) (token_type contract token_id : String) (w : World Dashboard)
      → (upload_image env view token_type contract token_id w).1.state.error ≡ w.state.error
  unfolding upload_image
  image_upload-error view token_type contract token_id w = ground arith

  generate_metadata-state :
      (view : Dashboard) (token_type contract token_id url : String) (w : World Dashboard)
      → (generate_metadata env view token_type contract token_id url w).1.state ≡ w.state
  unfolding generate_metadata
  generate_metadata-state view token_type contract token_id url w = ground arith

  -- If the image of an ERC-1155 token is stored and its metadata is not, the submission fails with
  -- the error of the metadata, and what it leaves is what the two uploads left: no transaction is
  -- begun, and the error that the page shows is as it was.
  pub handle_submit-metadata :
      (view : Dashboard) (file : File) (url message : String) (w w' w'' : World Dashboard)
      → is_present (some url) ≡ true
      → upload_image env
          (minting view file)
          (token_name erc1155)
          view.interact_token_address
          view.interact_token_id
          w
        ≡ (ok (some url), w')
      → generate_metadata env
          (minting view file)
          (token_name erc1155)
          view.interact_token_address
          view.interact_token_id
          (option_or (some url) "")
          w'
        ≡ (thrown message, w'')
      → (handle_submit env (minting view file) w ≡ (thrown message, w''))
        × (w''.state.error ≡ w.state.error)
  unfolding handle_submit submit_in submit_artwork target_token_id has_artwork
  handle_submit-metadata view file url message w w' w'' p u g = (
    rw u (rw p (rw g refl)),
    ground (
      arith,
      u,
      g,
      image_upload-error (minting view file) (token_name erc1155) view.interact_token_address
          view.interact_token_id w,
      generate_metadata-state (minting view file) (token_name erc1155) view.interact_token_address
          view.interact_token_id (option_or (some url) "") w',
    ),
  )
