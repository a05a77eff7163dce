-- ===== src/Dashboard/Submit/Icon.antt =====
-- The effect on `[txResult]`: the icon of a token that was just deployed.
use web3_lab_public.Prelude.{arith, option_or, Option, none, some, ◌≡◌, refl}
use web3_lab_public.Browser.{World}
use web3_lab_public.Dashboard.State.{Dashboard, TxResult}
use web3_lab_public.Dashboard.Services.{Services}
use web3_lab_public.Dashboard.Upload.{clear_upload}
use web3_lab_public.Dashboard.Marks.{IsKept, unuploaded}
use web3_lab_public.Dashboard.Submit.{on_tx_result, result_contract}
use web3_lab_public.Dashboard.Submit.Frame.{upload_icon-IsPublication}

module _ (env : Services) (view : Dashboard) where
  -- The effect writes the upload and nothing else of the page; the storage is as it was.
  pub on_tx_result-unuploaded :
      (w : World Dashboard) → IsKept unuploaded w (on_tx_result env view w)
  unfolding on_tx_result clear_upload
  on_tx_result-unuploaded w = go view.tx_result refl
    where
      go :
          (r : Option TxResult) → view.tx_result ≡ r → IsKept unuploaded w (on_tx_result env view w)
      go none e = ground arith
      go (some res) e = ground (
        arith,
        upload_icon-IsPublication env view (option_or (result_contract env view res) "") "" w,
      )
