-- ===== src/Dashboard/Upload.antt =====
-- The image upload (DashboardPage.tsx): `handleFileSelect`, `clearUpload`, `uploadImageToMinIO`,
-- `generateMetadata` and `registerERC20Icon`.
pub mod Uploading
pub mod Programs
use web3_lab_public.Prelude.{String, true, false, [], ◌∷◌, Option, none, some, ◌<>◌, text_or}
use web3_lab_public.Text.{to_lower_case, split, last?}
use web3_lab_public.Browser.{
  Request, Response, is_ok, Io, pure, throw, catch, await, set, fetch, ◌>>=◌, ◌>>◌,
}
use web3_lab_public.Dashboard.State.{Dashboard, File, idle, uploading, done, error}
use web3_lab_public.Dashboard.Services.{Services, Presigned}
use web3_lab_public.Dashboard.Transaction.{post_request, token_text}

-- The reader's `onload` runs later: `set_preview` with the file as a data URL.
unfoldable pub handle_file_select : File → Dashboard → Dashboard
handle_file_select file s = record s { upload_file = some file; upload_progress = idle }

unfoldable pub set_preview : Option String → Dashboard → Dashboard
set_preview url s = record s { upload_preview = url }

-- The reference to the file input holds no state of the page.
unfoldable pub clear_upload : Dashboard → Dashboard
clear_upload s = record s { upload_file = none; upload_preview = none; upload_progress = idle }

-- `name.split('.').pop()?.toLowerCase() || 'png'`
unfoldable pub file_extension : String → String
file_extension name = elim (last? (split b'.' name)) [
  | none ↦ "png"
  | some ext ↦ text_or (to_lower_case ext) "png"
]

module _ (env : Services) (view : Dashboard) where
  pub presign_request : String → String → String → String → Request
  presign_request token_type contract token_id ext =
      post_request (env.urls.gateway <> "/api/v1/storage/presigned-url") (token_text view.token) (
        ("token_type", token_type)
        ∷ ("contract_address", contract)
        ∷ ("token_id", token_id)
        ∷ ("file_extension", ext)
        ∷ [])

  pub put_request : String → File → Request
  put_request url file = record {
    method = "PUT";
    url = url;
    headers = ("Content-Type", text_or file.type "image/png") ∷ [];
    body = ("file", file.name) ∷ [];
  }

  abbrev expect_ok : {B : Type 0} → Response B → String → Io Dashboard (Unit {0})
  expect_ok r message = elim (is_ok r) [ true ↦ pure tt | false ↦ throw message ]

  pub put_image : File → Presigned → Io Dashboard (Option String)
  unfolding put_request
  put_image file target = do
    put_res ← fetch env.put_file (put_request target.upload_url file)
    expect_ok put_res "Upload failed"
    set (λ s. record s { upload_progress = done })
    pure (some target.public_url)

  pub upload_file : String → String → String → File → Io Dashboard (Option String)
  unfolding presign_request put_image
  upload_file token_type contract token_id file =
      catch
        (do
          set (λ s. record s { upload_progress = uploading })
          presign_res ←
              fetch env.presigned_url
                (presign_request token_type contract token_id (file_extension file.name))
          expect_ok presign_res "Failed to get upload URL"
          target ← await presign_res.json
          put_image file target)
        (λ _. do set (λ s. record s { upload_progress = error }); pure none)

  unfoldable pub upload_image : String → String → String → Io Dashboard (Option String)
  unfolding upload_file
  upload_image token_type contract token_id = elim view.upload_file [
    | none ↦ pure none
    | some file ↦ upload_file token_type contract token_id file
  ]

  pub metadata_request : String → String → String → String → Request
  metadata_request token_type contract token_id image_url =
      post_request (env.urls.gateway <> "/api/v1/storage/metadata") (token_text view.token) (
        ("token_type", token_type)
        ∷ ("contract_address", contract)
        ∷ ("token_id", token_id)
        ∷ ("name", text_or view.nft_name view.deploy_name)
        ∷ ("description", view.nft_description)
        ∷ ("image_url", image_url)
        ∷ [])

  unfoldable pub generate_metadata : String → String → String → String → Io Dashboard (Unit {0})
  unfolding metadata_request
  generate_metadata token_type contract token_id image_url = do
    res ← fetch env.metadata (metadata_request token_type contract token_id image_url)
    expect_ok res "Metadata generation failed"
    await res.json

  pub icon_request : String → String → Request
  icon_request contract icon_url =
      post_request (env.urls.gateway <> "/api/v1/storage/erc20-icon") (token_text view.token)
        (("contract_address", contract) ∷ ("icon_url", icon_url) ∷ [])

  -- The answer is not looked at.
  unfoldable pub register_erc20_icon : String → String → Io Dashboard (Unit {0})
  unfolding icon_request
  register_erc20_icon contract icon_url = do
    _ ← fetch env.erc20_icon (icon_request contract icon_url)
    pure tt
