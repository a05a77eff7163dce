-- ===== src/Dashboard/Forms/Assets.antt =====
-- The select of assets: an option that is chosen selects its asset.
use web3_lab_public.Prelude.{
  String, Bool, true, false, [], ◌∷◌, some, none, ◌≡◌, refl, sym, ap, ◌∙◌, ◌==◌, ◌&&◌, arith, find,
  find-pointwise, Char, text_or, eq_iff,
}
use text.Mathlib.TextLemmas.{cons-append, nil-append}
use web3_lab_public.Text.{split}
use web3_lab_public.Text.Splitting.{lacks, split-two}
use web3_lab_public.Dashboard.State.{TokenBalance, Dashboard}
use web3_lab_public.Dashboard.Forms.{
  or_empty, id_or, names_asset, asset_option_value, choose, change_asset,
}

-- The assets are told apart by the address and the id.
abbrev pub is_same : TokenBalance → TokenBalance → Bool
is_same p q = q.address == p.address && or_empty q.id == or_empty p.id

text_or-empty : (s : String) → text_or s "" ≡ s
text_or-empty String.[] = refl
text_or-empty (String.◌∷◌ c s) = refl

module _ (p : TokenBalance) (plain : lacks b'_' p.address ≡ true)
    (plain_id : lacks b'_' (or_empty p.id) ≡ true) where
  parts : split b'_' (asset_option_value p) ≡ p.address ∷ or_empty p.id ∷ []
  parts =
      rw (cons-append (Char.char 95 tt) "" (or_empty p.id), nil-append (or_empty p.id))
        (split-two b'_' p.address (or_empty p.id) (Char.char 95 tt) plain plain_id refl)

  clash : asset_option_value p ≡ "custom" → ⊥
  unfolding split
  clash e = ground (arith, sym parts ∙ ap (split b'_') e)

  not_custom : (asset_option_value p == "custom") ≡ false
  not_custom = ground (arith, eq_iff (asset_option_value p) "custom", clash)

  -- For an asset whose address and id have no underscore and which is the first of the portfolio
  -- with that address and id: choosing its option selects it, puts its address and its id (where it
  -- has one) into the form, and clears the amount and its warning.
  pub change_asset-option :
      (s : Dashboard)
      → find (is_same p) s.portfolio ≡ some p
      → change_asset (asset_option_value p) s ≡ record s {
        selected_asset = some p;
        interact_token_address = p.address;
        interact_amount = "";
        amount_error = none;
        interact_token_id = id_or p.id s.interact_token_id;
      }
  unfolding change_asset choose
  change_asset-option s first = rw (not_custom, parts, found) refl
    where
      agree : (q : TokenBalance) → names_asset (p.address ∷ or_empty p.id ∷ []) q ≡ is_same p q
      agree q = rw (text_or-empty (or_empty p.id)) refl

      found : find (names_asset (p.address ∷ or_empty p.id ∷ [])) s.portfolio ≡ some p
      found = find-pointwise _ _ agree s.portfolio ∙ first
