-- ===== src/Dashboard/Upload/Programs.antt =====
-- `uploadImageToMinIO` and `generateMetadata` as programs that stop at each of their awaits. Run
-- alone they are the effects.
use web3_lab_public.Prelude.{String, Option, none, some, ◌≡◌, arith, if◌then◌else◌}
use web3_lab_public.Browser.{World, Response, is_ok, fetched}
use web3_lab_public.Program.{Program, settled, run, bind, recover}
use web3_lab_public.Dashboard.State.{Dashboard, File, uploading, done, error}
use web3_lab_public.Dashboard.Services.{Services, Presigned}
use web3_lab_public.Dashboard.Upload.{
  file_extension, presign_request, put_request, put_image, upload_file, upload_image,
  metadata_request, generate_metadata,
}

module _ (env : Services) (view : Dashboard) where
  abbrev expect_program :
      {A B : Type 0} → Response B → String → Program Dashboard A → Program Dashboard A
  expect_program r message next = if is_ok r then next else Program.fail message

  unfoldable pub put_program : File → Presigned → Program Dashboard (Option String)
  put_program file target =
      let request = put_request env view target.upload_url file in
      Program.query (fetched request) (λ t. env.put_file t request)
        (λ reply. bind (settled reply) (λ res. expect_program res "Upload failed" (
          Program.update (λ s. record s { upload_progress = done })
            (Program.give (some target.public_url)))))

  unfoldable pub presign_program :
      String → String → String → File → Program Dashboard (Option String)
  presign_program token_type contract token_id file =
      let request =
        presign_request env view token_type contract token_id (file_extension file.name) in
      Program.query (fetched request) (λ t. env.presigned_url t request)
        (λ reply. bind (settled reply) (λ res.
          expect_program res "Failed to get upload URL"
            (bind (Program.pause (settled res.json)) (λ target. put_program file target))))

  abbrev pub file_program :
      String → String → String → Option File → Program Dashboard (Option String)
  file_program token_type contract token_id none = Program.give none
  file_program token_type contract token_id (some file) =
      recover
        (Program.update (λ s. record s { upload_progress = uploading })
          (presign_program token_type contract token_id file))
        (λ _. Program.update (λ s. record s { upload_progress = error }) (Program.give none))

  unfoldable pub upload_program : String → String → String → Program Dashboard (Option String)
  upload_program token_type contract token_id =
      file_program token_type contract token_id view.upload_file

  unfoldable pub metadata_program : String → String → String → String → Program Dashboard (Unit {0})
  metadata_program token_type contract token_id image_url =
      let request = metadata_request env view token_type contract token_id image_url in
      Program.query (fetched request) (λ t. env.metadata t request)
        (λ reply. bind (settled reply) (λ res.
          expect_program res "Metadata generation failed" (Program.pause (settled res.json))))

  pub run-metadata_program :
      (token_type contract token_id image_url : String) (w : World Dashboard)
      → run (metadata_program token_type contract token_id image_url) w
        ≡ generate_metadata env view token_type contract token_id image_url w
  unfolding metadata_program generate_metadata run bind
  run-metadata_program token_type contract token_id image_url w = ground arith

  pub run-upload_program :
      (token_type contract token_id : String) (w : World Dashboard)
      → run (upload_program token_type contract token_id) w
        ≡ upload_image env view token_type contract token_id w
  unfolding upload_program presign_program put_program upload_image upload_file put_image run bind
      recover
  run-upload_program token_type contract token_id w = ground arith
