-- ===== src/Dashboard/Forms/Choosing.antt =====
-- The select of assets keeps the form's address that of the asset that is selected.
use web3_lab_public.Prelude.{String, Option, none, some, ◌≡◌, refl, arith, find}
use web3_lab_public.Text.{split}
use web3_lab_public.Dashboard.State.{TokenBalance, Dashboard}
use web3_lab_public.Dashboard.Forms.{choose, change_asset, names_asset}

-- The state without the fields of the transfer's form.
abbrev pub formless : Dashboard → Dashboard
formless s = record s {
  selected_asset = none;
  interact_token_address = "";
  interact_token_id = "";
  interact_amount = "";
  amount_error = none;
}

abbrev pub AgreesWithAsset : Dashboard → Type 0
AgreesWithAsset s =
    (a : TokenBalance) → s.selected_asset ≡ some a → s.interact_token_address ≡ a.address

choose-AgreesWithAsset :
    (o : Option TokenBalance) (s : Dashboard) → AgreesWithAsset s → AgreesWithAsset (choose o s)
unfolding choose
choose-AgreesWithAsset none s c = c
choose-AgreesWithAsset (some b) s c = λ a h. ground (arith, h)

choose-formless : (o : Option TokenBalance) (s : Dashboard) → formless (choose o s) ≡ formless s
unfolding choose
choose-formless none s = refl
choose-formless (some b) s = refl

pub change_asset-AgreesWithAsset :
    (value : String) (s : Dashboard) → AgreesWithAsset s → AgreesWithAsset (change_asset value s)
unfolding change_asset
change_asset-AgreesWithAsset value s c =
    ground (arith, choose-AgreesWithAsset (find (names_asset (split b'_' value)) s.portfolio) s c)

pub change_asset-formless :
    (value : String) (s : Dashboard) → formless (change_asset value s) ≡ formless s
unfolding change_asset
change_asset-formless value s =
    ground (arith, choose-formless (find (names_asset (split b'_' value)) s.portfolio) s)
