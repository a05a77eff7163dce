-- ===== src/Dashboard/Portfolio/StaleId.antt =====
-- The token id that the form keeps when the selected asset has none.
use web3_lab_public.Prelude.{
  false, List, [], ◌∷◌, none, some, ◌≡◌, refl, ◌≢◌, arith, head?, All, any, eq_iff,
}
use web3_lab_public.Dashboard.State.{TokenBalance, Dashboard}
use web3_lab_public.Dashboard.Portfolio.{filtered_portfolio, select_first, select_default}
use web3_lab_public.Dashboard.Portfolio.Selection.{IsAssetSection, select_default-first}
use web3_lab_public.Dashboard.Forms.{is_shown, asset_select_value}

abbrev pub HasNoId : TokenBalance → Type 0
HasNoId p = p.id ≡ none

-- With a token id in the form that is neither empty nor "0", no asset without an id is shown.
none_shown :
    (s : Dashboard) (l : List TokenBalance)
    → All HasNoId l
    → s.interact_token_id ≢ ""
    → s.interact_token_id ≢ "0"
    → any (is_shown s) l ≡ false
unfolding any
none_shown s [] h a b = refl
none_shown s (p ∷ l) (e, h) a b =
    ground
      (arith, none_shown s l h a b, eq_iff s.interact_token_id "0", eq_iff "" s.interact_token_id)

-- After a change to assets without ids (ERC-20 tokens) with another token's id left in the form, an
-- asset is selected and its address is in the form, but the select shows the custom entry.
pub stale_id-custom :
    (s : Dashboard) (a : TokenBalance)
    → IsAssetSection s.active_section
    → head? (filtered_portfolio s) ≡ some a
    → All HasNoId (filtered_portfolio s)
    → s.interact_token_id ≢ ""
    → s.interact_token_id ≢ "0"
    → ((select_default s).selected_asset ≡ some a)
      × ((select_default s).interact_token_address ≡ a.address)
      × (asset_select_value (select_default s) ≡ "custom")
unfolding select_first filtered_portfolio asset_select_value
stale_id-custom s a m first h x y =
    rw (select_default-first s m, first) (refl, refl, rw (asset_select_value, hidden) refl)
  where
    id_of_head : (l : List TokenBalance) → head? l ≡ some a → All HasNoId l → a.id ≡ none
    id_of_head [] f k = cc
    id_of_head (b ∷ l) f (e, k) = ground arith

    kept : (select_first (some a) s).interact_token_id ≡ s.interact_token_id
    kept = rw (id_of_head (filtered_portfolio s) first h) refl

    hidden : any (is_shown (select_first (some a) s)) (filtered_portfolio s) ≡ false
    hidden = none_shown (select_first (some a) s) (filtered_portfolio s) h (rw kept x) (rw kept y)
