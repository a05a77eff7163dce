-- ===== src/Dashboard/Threads/Artwork.antt =====
-- The click that submits an artwork.
use web3_lab_public.Prelude.{true, false, Option, none, some, ◌≡◌, refl, arith}
use web3_lab_public.Program.{Program, bind, recover}
use web3_lab_public.Dashboard.State.{TokenType, erc20, erc721, erc1155, File, uploading, Dashboard}
use web3_lab_public.Dashboard.Services.{Services}
use web3_lab_public.Dashboard.TokenId.Programs.{next_id_program, search_program}
use web3_lab_public.Dashboard.Upload.Programs.{upload_program, presign_program}
use web3_lab_public.Dashboard.Submit.{has_artwork}
use web3_lab_public.Dashboard.Submit.Programs.{target_program, prepared_program, artwork_program}
use web3_lab_public.Dashboard.Forms.{submit_disabled}
use web3_lab_public.Program.Advance.{advance, is_finished}

-- A program that waits, and a submit button that is as it was.
abbrev pub StaysEnabled : {A : Type 0} → Program Dashboard A → Dashboard → Type 0
StaysEnabled p s =
    (is_finished (advance p s).0 ≡ false) × (submit_disabled (advance p s).1 ≡ submit_disabled s)

uploading-enabled :
    (s : Dashboard) → submit_disabled (record s { upload_progress = uploading }) ≡ submit_disabled s
unfolding submit_disabled
uploading-enabled s = ground arith

module _ (env : Services) (view : Dashboard) where
  -- A click that submits an artwork does not disable the submit button: its program waits for an
  -- answer, and a button that was enabled is enabled still, so that a second click submits again.
  pub artwork-StaysEnabled :
      has_artwork env view ≡ true → StaysEnabled (artwork_program env view) view
  unfolding artwork_program has_artwork bind recover advance next_id_program search_program
      upload_program presign_program
  artwork-StaysEnabled h = go view.active_token view.upload_file refl refl
    where
      go :
          (t : TokenType) (f : Option File)
          → view.active_token ≡ t
          → view.upload_file ≡ f
          → StaysEnabled
              (bind (target_program env view view.active_token) (prepared_program env view))
              view
      go erc20 f e k = let never : false ≡ true = ground (arith, h, e) in cc
      go erc721 f e k = rw e (refl, refl)
      go erc1155 none e k = let never : false ≡ true = ground (arith, h, e, k) in cc
      go erc1155 (some file) e k =
          rw (e, k)
            (
              refl,
              uploading-enabled (record view { active_token = erc1155; upload_file = some file }),
            )
