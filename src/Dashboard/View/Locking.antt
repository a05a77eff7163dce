-- ===== src/Dashboard/View/Locking.antt =====
-- The forms while a transaction runs.
use web3_lab_public.Prelude.{
  String, Bool, true, false, ◌&&◌, ◌||◌, List, [], ◌∷◌, ◌++◌, ◌≡◌, ◌≢◌, refl, arith,
}
use web3_lab_public.Dashboard.State.{
  MenuSection, deploy, mint, transfer, profile, TokenType, erc20, erc721, erc1155, Number,
  Dashboard,
}
use web3_lab_public.Dashboard.Forms.{submit_disabled}
use web3_lab_public.Dashboard.Widgets.{Widget, button, input, file_input, select, do_submit}
use web3_lab_public.Dashboard.View.Interact.{
  icon_zone, deploy_form, asset_part, recipient_part, amount_part, id_part, artwork_part,
  interact_form, submit_button,
}
use web3_lab_public.Dashboard.View.Page.{result_box, toolchain, form_of}

-- A text input, a select or the submit button is disabled; the others are not looked at.
abbrev pub is_locked : Widget → Bool
is_locked (input _ _ disabled) = disabled
is_locked (select _ _ _ disabled) = disabled
is_locked (button _ disabled do_submit) = disabled
is_locked _ = true

unfoldable pub all_locked : List Widget → Bool
all_locked [] = true
all_locked (w ∷ ws) = is_locked w && all_locked ws

append-all_locked :
    (xs ys : List Widget)
    → all_locked xs ≡ true
    → all_locked ys ≡ true
    → all_locked (xs ++ ys) ≡ true
unfolding all_locked
append-all_locked [] ys e f = f
append-all_locked (x ∷ xs) ys e f = ground (arith, e, f, append-all_locked xs ys)

or_false : (b : Bool) → (b || false) ≡ b
or_false true = refl
or_false false = refl

abbrev is_file_input : Widget → Bool
is_file_input file_input = true
is_file_input _ = false

unfoldable pub has_file_input : List Widget → Bool
has_file_input [] = false
has_file_input (w ∷ ws) = is_file_input w || has_file_input ws

append-has_file_input :
    (xs ys : List Widget) → has_file_input (xs ++ ys) ≡ (has_file_input xs || has_file_input ys)
unfolding has_file_input
append-has_file_input [] ys = refl
append-has_file_input (x ∷ xs) ys = ground (arith, append-has_file_input xs ys)

-- The sections and types for which the source draws an input for a file.
abbrev pub takes_file : MenuSection → TokenType → Bool
takes_file deploy erc20 = true
takes_file mint erc721 = true
takes_file mint erc1155 = true
takes_file _ _ = false

deploy_form-locked : (s : Dashboard) → s.tx_loading ≡ true → all_locked (deploy_form s) ≡ true
unfolding deploy_form icon_zone all_locked
deploy_form-locked s e = ground (arith, e)

submit_button-locked : (s : Dashboard) → s.tx_loading ≡ true → is_locked (submit_button s) ≡ true
unfolding submit_button submit_disabled
submit_button-locked s e = ground (arith, e)

result_box-locked : (s : Dashboard) → all_locked (result_box s) ≡ true
unfolding result_box all_locked
result_box-locked s = ground arith

module _ (format_units : String → Number → String) (display : String → String) where
  asset_part-locked :
      (s : Dashboard) → s.tx_loading ≡ true → all_locked (asset_part format_units display s) ≡ true
  unfolding asset_part all_locked
  asset_part-locked s e = ground (arith, e)

  recipient_part-locked :
      (s : Dashboard)
      → s.tx_loading ≡ true
      → all_locked (recipient_part format_units display s) ≡ true
  unfolding recipient_part all_locked
  recipient_part-locked s e = ground (arith, e)

  amount_part-locked :
      (s : Dashboard) → s.tx_loading ≡ true → all_locked (amount_part format_units display s) ≡ true
  unfolding amount_part all_locked
  amount_part-locked s e = ground (arith, e)

  id_part-locked :
      (s : Dashboard) → s.tx_loading ≡ true → all_locked (id_part format_units display s) ≡ true
  unfolding id_part all_locked
  id_part-locked s e = ground (arith, e)

  artwork_part-locked :
      (s : Dashboard)
      → s.tx_loading ≡ true
      → all_locked (artwork_part format_units display s) ≡ true
  unfolding artwork_part all_locked
  artwork_part-locked s e = ground (arith, e)

  interact_form-locked :
      (s : Dashboard)
      → s.tx_loading ≡ true
      → all_locked (interact_form format_units display s) ≡ true
  unfolding interact_form
  interact_form-locked s e =
      append-all_locked _ (artwork_part format_units display s)
        (append-all_locked _ (id_part format_units display s)
          (append-all_locked _ (amount_part format_units display s)
            (append-all_locked (asset_part format_units display s)
              (recipient_part format_units display s) (asset_part-locked s e)
              (recipient_part-locked s e))
            (amount_part-locked s e))
          (id_part-locked s e))
        (artwork_part-locked s e)

  form_of-locked :
      (m : MenuSection) (s : Dashboard)
      → s.tx_loading ≡ true
      → all_locked (form_of format_units display m s) ≡ true
  form_of-locked deploy s e = deploy_form-locked s e
  form_of-locked mint s e = interact_form-locked s e
  form_of-locked transfer s e = interact_form-locked s e
  form_of-locked profile s e = interact_form-locked s e

  asset_part-file : (s : Dashboard) → has_file_input (asset_part format_units display s) ≡ false
  unfolding asset_part has_file_input
  asset_part-file s = ground arith

  recipient_part-file :
      (s : Dashboard) → has_file_input (recipient_part format_units display s) ≡ false
  unfolding recipient_part has_file_input
  recipient_part-file s = ground arith

  amount_part-file : (s : Dashboard) → has_file_input (amount_part format_units display s) ≡ false
  unfolding amount_part has_file_input
  amount_part-file s = ground arith

  id_part-file : (s : Dashboard) → has_file_input (id_part format_units display s) ≡ false
  unfolding id_part has_file_input
  id_part-file s = ground arith

  -- Only the part with the artwork has an input for a file.
  interact_form-file :
      (s : Dashboard)
      → has_file_input (interact_form format_units display s)
        ≡ has_file_input (artwork_part format_units display s)
  unfolding interact_form
  interact_form-file s =
      let asset = asset_part format_units display s in
      let recipient = recipient_part format_units display s in
      let amount = amount_part format_units display s in
      let id = id_part format_units display s in
      let artwork = artwork_part format_units display s in
      rw
        (
          append-has_file_input (asset ++ recipient ++ amount ++ id) artwork,
          append-has_file_input (asset ++ recipient ++ amount) id,
          append-has_file_input (asset ++ recipient) amount,
          append-has_file_input asset recipient,
          asset_part-file s,
          recipient_part-file s,
          amount_part-file s,
          id_part-file s,
        )
        refl

  artwork_part-file :
      (s : Dashboard)
      → s.active_section ≢ deploy
      → has_file_input (artwork_part format_units display s)
        ≡ takes_file s.active_section s.active_token
  unfolding artwork_part has_file_input
  artwork_part-file s d = ground (arith, d)

  deploy_form-file :
      (s : Dashboard) → has_file_input (deploy_form s) ≡ takes_file deploy s.active_token
  unfolding deploy_form icon_zone has_file_input
  deploy_form-file s = ground arith

  form_of-file :
      (s : Dashboard)
      → has_file_input (form_of format_units display s.active_section s)
        ≡ takes_file s.active_section s.active_token
  form_of-file s = ground (arith, deploy_form-file s, interact_form-file s, artwork_part-file s)

  result_box-file : (s : Dashboard) → has_file_input (submit_button s ∷ result_box s) ≡ false
  unfolding result_box submit_button has_file_input
  result_box-file s = ground arith

  -- While a transaction runs, each text input, each select and the submit button of the form is
  -- disabled, in every section and for every type of token. An input for a file has no `disabled`:
  -- it is drawn, then as ever, for the icon of an ERC-20 token that is deployed and the artwork of an
  -- NFT that is minted, and only there.
  pub toolchain-locked :
      (s : Dashboard)
      → s.tx_loading ≡ true
      → (all_locked (toolchain format_units display s) ≡ true)
        × (has_file_input (toolchain format_units display s)
            ≡ takes_file s.active_section s.active_token)
  unfolding toolchain all_locked has_file_input
  toolchain-locked s e = (
    append-all_locked (form_of format_units display s.active_section s)
        (submit_button s ∷ result_box s) (form_of-locked s.active_section s e)
        (ground (arith, submit_button-locked s e, result_box-locked s)),
    rw
        (
          append-has_file_input (form_of format_units display s.active_section s)
              (submit_button s ∷ result_box s),
          result_box-file s,
          form_of-file s,
        )
        (or_false _),
  )
