-- ===== src/Dashboard/TokenId/Laws.antt =====
-- The binary search for the next token id.
use web3_lab_public.Prelude.{
  ℕ, zero, suc, ◌+◌, ◌-◌, ◌*◌, ◌/◌, ◌^◌, ◌≤◌, ◌<◌, ◌≡◌, refl, ap, ◌∙◌, String, true, false, some,
  ltb, leb, if◌then◌else◌, arith, Bool-cases, inl, inr,
}
use native.Mathlib.Nat.{pow-suc}
use web3_lab_public.Text.{print}
use web3_lab_public.Browser.{ok, thrown, World, Trace}
use web3_lab_public.Dashboard.State.{Dashboard}
use web3_lab_public.Dashboard.Services.{Services}
use web3_lab_public.Dashboard.TokenId.{
  highest_id, search_fuel, has_owner, search, get_next_token_id,
}
use web3_lab_public.Dashboard.TokenId.Rounds.{
  half_above, half_below, after_call, search_round, search_end,
}

-- The collection has minted exactly the ids below `n`, and the node answers each call.
pub record HasMinted (env : Services) (contract : String) (n : ℕ) : Type 0 where
  pub owned : (t : Trace) (i : ℕ) → i < n → (o : String) × (env.owner_of t contract i ≡ ok o)
  pub free : (t : Trace) (i : ℕ) → n ≤ i → (e : String) × (env.owner_of t contract i ≡ thrown e)

-- An upper bound that is not minted stands for what the loop found before it.
narrow :
    (low top n next : ℕ)
    → ltb low top ≡ true
    → ltb ((low + top - 1) / 2) n ≡ false
    → (if ltb n ((low + top - 1) / 2) then n else (low + top - 1) / 2)
      ≡ (if ltb n top then n else next)
narrow low top n next more above = ground (arith, last)
  where
    last : (low + top - 1) / 2 < top
    last = ground arith

module _ (env : Services) (contract : String) where
  -- One probe answers whether the id is minted.
  has_owner-minted :
      (n mid : ℕ) (w : World Dashboard)
      → HasMinted env contract n
      → has_owner env contract mid w ≡ (ok (ltb mid n), after_call env contract mid w)
  unfolding has_owner
  has_owner-minted n mid w h = elim (Bool-cases (ltb mid n)) [
    | inl below ↦ let (o, e) = h.owned w.trace mid (ground arith) in rw (below, e) refl
    | inr above ↦ let (o, e) = h.free w.trace mid (ground arith) in rw (above, e) refl
  ]

  -- From bounds that enclose the number of minted ids, the loop finds it within its fuel; where all
  -- the ids up to the upper bound are minted it leaves `next` as it was.
  search-minted :
      (fuel low top next n : ℕ) (w : World Dashboard)
      → HasMinted env contract n
      → low ≤ n
      → top - low < 2 ^ fuel
      → (search env contract (suc fuel) low top next w).0
        ≡ ok (some (if ltb n top then n else next))
  search-minted zero low top next n w h a b =
      rw (search_end env contract zero low top next w (ground arith)) (ground arith)
  search-minted (suc fuel) low top next n w h a b = elim (Bool-cases (ltb low top)) [
    | inr stop ↦ rw (search_end env contract (suc fuel) low top next w stop) (ground arith)
    | inl more ↦
        let mid = (low + top - 1) / 2 in
        let b' : top - low < 2 ^ fuel * 2 = omega (arith, pow-suc 2 fuel) in
        let probe = has_owner-minted n mid w h in
        let round = search_round env contract (suc fuel) low top next (ltb mid n) w _ more probe in
        elim (Bool-cases (ltb mid n)) [
          | inl below ↦
              rw (round, below)
                (search-minted fuel (mid + 1) top next n (after_call env contract mid w) h
                  (ground arith) (half_above low top (2 ^ fuel) more b'))
          | inr above ↦
              rw (round, above)
                (search-minted fuel low mid mid n (after_call env contract mid w) h a
                    (half_below low top (2 ^ fuel) more b')
                  ∙ ap (λ k. ok (some k)) (narrow low top n next more above))
        ]
  ]

  get_next_token_id-search :
      (k : ℕ) (w : World Dashboard)
      → (search env contract search_fuel 0 (highest_id + 1) 0 w).0 ≡ ok (some k)
      → (get_next_token_id env contract w).0 ≡ ok (print k)
  unfolding get_next_token_id
  get_next_token_id-search k w e = rw e refl

  -- For a collection whose ids are minted from 0 on with none left out, the function returns the
  -- number of minted ids if that is at most 10000, and else the id 0, which is taken.
  pub get_next_token_id-count :
      (n : ℕ) (w : World Dashboard)
      → HasMinted env contract n
      → (get_next_token_id env contract w).0 ≡ ok (print (if leb n highest_id then n else 0))
  get_next_token_id-count n w h = get_next_token_id-search (if leb n highest_id then n else 0) w (
      search-minted 14 0 10001 0 n w h (omega arith) (omega arith)
      ∙ ap (λ k. ok (some k)) (ground arith))
