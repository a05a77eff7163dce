-- ===== src/Dashboard/Portfolio/StaleWarning.antt =====
-- The warning for an amount, when another asset is selected.
use package.text.Mathlib.TextLemmas.{cons-append}
use web3_lab_public.Prelude.{
  String, true, List, [], ◌∷◌, ◌++◌, Option, none, some, sym, Bool, ◌<>◌, ◌≡◌, ◌≢◌, ◌∙◌, refl,
  arith, head?, is_truthy,
}
use web3_lab_public.Dashboard.State.{
  MenuSection, profile, deploy, mint, transfer, TokenType, erc721, Number, TokenBalance, Dashboard,
}
use web3_lab_public.Dashboard.Portfolio.{
  select_first, filtered_portfolio, select_in, select_default,
}
use web3_lab_public.Dashboard.Portfolio.Selection.{IsAssetSection, select_default-first}
use web3_lab_public.Dashboard.Forms.{number_text, amount_warning, change_amount}
use web3_lab_public.Dashboard.Widgets.{Widget, text}
use web3_lab_public.Dashboard.View.Profile.{shown, shown_text}
use web3_lab_public.Dashboard.View.Interact.{amount_part}
use web3_lab_public.Dashboard.Edits.{Edit, apply}

-- The warning that typing the form's amount would give.
abbrev pub due_warning : Dashboard → Option String
due_warning s = amount_warning s.active_section s.selected_asset s.interact_amount

empty_amount-unwarned : (m : MenuSection) (o : Option TokenBalance) → amount_warning m o "" ≡ none
unfolding amount_warning
empty_amount-unwarned transfer none = refl
empty_amount-unwarned transfer (some a) = refl
empty_amount-unwarned _ o = refl

-- In the sections that move assets the effect that selects an asset empties the amount, for which
-- no warning is due, and leaves the warning that was shown.
select_default-warning :
    (s : Dashboard)
    → IsAssetSection s.active_section
    → let t = select_default s in
      (t.interact_amount ≡ "") × (due_warning t ≡ none) × (t.amount_error ≡ s.amount_error)
unfolding select_first
select_default-warning s m = rw (select_default-first s m) (go (head? (filtered_portfolio s)))
  where
    go :
        (o : Option TokenBalance)
        → let t = select_first o s in
          (t.interact_amount ≡ "") × (due_warning t ≡ none) × (t.amount_error ≡ s.amount_error)
    go none = (refl, empty_amount-unwarned s.active_section none, refl)
    go (some a) = (refl, empty_amount-unwarned s.active_section (some a), refl)

warned-IsAssetSection :
    (s : Dashboard) (value m : String)
    → (change_amount value s).amount_error ≡ some m
    → IsAssetSection s.active_section
unfolding change_amount amount_warning
warned-IsAssetSection s value m e = go s.active_section refl
  where
    go : (k : MenuSection) → s.active_section ≡ k → IsAssetSection s.active_section
    go mint h = rw h tt
    go transfer h = rw h tt
    go profile h = let never : none ≡ some m = ground (arith, e, h) in cc
    go deploy h = let never : none ≡ some m = ground (arith, e, h) in cc

append-truthy : (p s : String) → is_truthy p ≡ true → is_truthy (p <> s) ≡ true
append-truthy String.[] s h = cc
append-truthy (String.◌∷◌ c p) s h = rw (cons-append c p s) refl

select_default-token : (s : Dashboard) → (select_default s).active_token ≡ s.active_token
unfolding select_default select_in select_first
select_default-token s = ground arith

amount_warning-truthy :
    (section : MenuSection) (o : Option TokenBalance) (value m : String)
    → amount_warning section o value ≡ some m
    → is_truthy m ≡ true
unfolding amount_warning
amount_warning-truthy transfer (some a) value m e = ground (
  arith,
  e,
  append-truthy "Warning: Only " (number_text a.decimals <> " decimal places allowed.") refl,
)
amount_warning-truthy transfer none value m e = cc
amount_warning-truthy profile o value m e = cc
amount_warning-truthy deploy o value m e = cc
amount_warning-truthy mint o value m e = cc

-- The elements end with a text.
pub record EndsWith (ws : List Widget) (m : String) : Type 0 where
  pub before : List Widget
  pub drawn : ws ≡ before ++ text m ∷ []

shown_text-some : (m : String) → is_truthy m ≡ true → shown_text (some m) ≡ text m ∷ []
shown_text-some String.[] h = cc
shown_text-some (String.◌∷◌ c m) h = refl

shown-EndsWith :
    (b : Bool) (ws : List Widget) (o : Option String) (m : String)
    → b ≡ true
    → o ≡ some m
    → is_truthy m ≡ true
    → EndsWith (shown b (ws ++ shown_text o)) m
shown-EndsWith b ws o m h e t = record { before = ws; drawn = rw (h, e, shown_text-some m t) refl }

amount_part-EndsWith :
    (format_units : String → Number → String) (display : String → String) (s : Dashboard)
    (m : String)
    → s.active_token ≢ erc721
    → s.amount_error ≡ some m
    → is_truthy m ≡ true
    → EndsWith (amount_part format_units display s) m
unfolding amount_part
amount_part-EndsWith format_units display s m d e t =
    shown-EndsWith _ _ s.amount_error m (ground (arith, d)) e t

-- An amount is typed for which a warning is shown, and another type of token is picked, whose
-- form has a field for the amount (not ERC-721). After the effect that selects an asset that field
-- is empty and no warning is due for it, and the part of the form with the field ends with the old
-- warning.
pub pick_token-warning :
    (format_units : String → Number → String) (display : String → String) (s : Dashboard)
    (value m : String) (type : TokenType)
    → type ≢ erc721
    → (change_amount value s).amount_error ≡ some m
    → let u = select_default (apply format_units (Edit.pick_token type) (change_amount value s)) in
      (u.interact_amount ≡ "")
      × (due_warning u ≡ none)
      × EndsWith (amount_part format_units display u) m
unfolding apply change_amount
pick_token-warning format_units display s value m type d e =
    let t = apply format_units (Edit.pick_token type) (change_amount value s) in
    let r = select_default-warning t (warned-IsAssetSection s value m e) in
    (
      r.0,
      r.1,
      amount_part-EndsWith format_units display (select_default t) m
          (λ same. d (sym (select_default-token t) ∙ same)) (r.2 ∙ e)
          (amount_warning-truthy s.active_section s.selected_asset value m e),
    )
