-- ===== src/Dashboard/Portfolio/Selection.antt =====
-- The effect that selects an asset when the section, the token type or the portfolio changes.
use web3_lab_public.Prelude.{true, Option, none, some, ◌≡◌, refl, arith, head?, ◌∙◌, ap}
use web3_lab_public.Dashboard.State.{MenuSection, mint, transfer, TokenBalance, Dashboard}
use web3_lab_public.Dashboard.Forms.Choosing.{formless, AgreesWithAsset}
use web3_lab_public.Dashboard.Portfolio.{
  is_listed, filtered_portfolio, select_first, select_default,
}

-- The sections in which an asset is selected.
abbrev pub IsAssetSection : MenuSection → Type 0
IsAssetSection mint = Unit
IsAssetSection transfer = Unit
IsAssetSection _ = ⊥

pub select_default-first :
    (s : Dashboard)
    → IsAssetSection s.active_section
    → select_default s ≡ select_first (head? (filtered_portfolio s)) s
unfolding select_default
select_default-first s h = by_section s.active_section refl
  where
    by_section :
        (m : MenuSection)
        → s.active_section ≡ m
        → select_default s ≡ select_first (head? (filtered_portfolio s)) s
    by_section mint e = rw e refl
    by_section transfer e = rw e refl
    by_section _ e = ground arith

-- The form agrees with the asset that is selected.
pub record IsConsistent (s : Dashboard) (o : Option TokenBalance) : Type 0 where
  pub selected : s.selected_asset ≡ o
  pub address : (a : TokenBalance) → o ≡ some a → s.interact_token_address ≡ a.address
  pub listed : (a : TokenBalance) → o ≡ some a → is_listed s.active_section s.active_token a ≡ true
  pub cleared : o ≡ none → s.interact_token_address ≡ ""
  pub no_amount : s.interact_amount ≡ ""

module _ (s : Dashboard) where
  filtered-select_first :
      (o : Option TokenBalance) → filtered_portfolio (select_first o s) ≡ filtered_portfolio s
  unfolding select_first filtered_portfolio
  filtered-select_first none = refl
  filtered-select_first (some a) = refl

  select_first-twice :
      (o : Option TokenBalance) → select_first o (select_first o s) ≡ select_first o s
  unfolding select_first
  select_first-twice none = refl
  select_first-twice (some a) = ground arith

  select_first-section :
      (o : Option TokenBalance)
      → IsAssetSection s.active_section
      → IsAssetSection (select_first o s).active_section
  unfolding select_first
  select_first-section none h = h
  select_first-section (some a) h = h

  -- In the sections that move assets, running the effect twice is running it once.
  pub select_default_idempotent :
      IsAssetSection s.active_section → select_default (select_default s) ≡ select_default s
  select_default_idempotent h =
      let o = head? (filtered_portfolio s) in
      let t = select_first o s in
      rw (select_default-first s h) (
        select_default-first t (select_first-section o h)
        ∙ ap (λ l. select_first (head? l) t) (filtered-select_first o)
        ∙ select_first-twice o)

select_first-AgreesWithAsset :
    (o : Option TokenBalance) (s : Dashboard) → AgreesWithAsset (select_first o s)
unfolding select_first
select_first-AgreesWithAsset none s = λ a h. ground arith
select_first-AgreesWithAsset (some b) s = λ a h. ground (arith, h)

pub select_default-AgreesWithAsset :
    (s : Dashboard) → AgreesWithAsset s → AgreesWithAsset (select_default s)
unfolding select_default
select_default-AgreesWithAsset s c = go s.active_section refl
  where
    selected : IsAssetSection s.active_section → AgreesWithAsset (select_default s)
    selected h =
        rw (select_default-first s h)
          (select_first-AgreesWithAsset (head? (filtered_portfolio s)) s)

    kept : select_default s ≡ s → AgreesWithAsset (select_default s)
    kept k = rw k c

    go : (m : MenuSection) → s.active_section ≡ m → AgreesWithAsset (select_default s)
    go mint e = selected (simp e tt)
    go transfer e = selected (simp e tt)
    go _ e = kept (ground arith)

pub select_default-formless : (s : Dashboard) → formless (select_default s) ≡ formless s
unfolding select_default select_first
select_default-formless s = ground arith
