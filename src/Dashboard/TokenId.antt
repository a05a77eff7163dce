-- ===== src/Dashboard/TokenId.antt =====
-- `getNextTokenIdForERC721` of DashboardPage.tsx: a binary search for the first token id without an
-- owner. `top` is the source's `high + 1`, which keeps the upper bound a natural number.
pub mod Rounds
pub mod Laws
pub mod Bounds
pub mod Programs
use web3_lab_public.Prelude.{
  ℕ, zero, suc, ◌+◌, ◌-◌, ◌/◌, String, Bool, true, false, [], ◌∷◌, Option, none, some, ltb,
  if◌then◌else◌,
}
use web3_lab_public.Text.{print}
use web3_lab_public.Browser.{Io, pure, throw, catch, ask, called, ◌>>=◌, ◌>>◌}
use web3_lab_public.Dashboard.State.{Dashboard}
use web3_lab_public.Dashboard.Services.{Services}

abbrev pub highest_id : ℕ
highest_id = 10000

-- The ids up to 10000 are halved at most 14 times, since 10001 < 2 ^ 14; the last round tests and
-- stops.
abbrev pub search_fuel : ℕ
search_fuel = 15

module _ (env : Services) (contract_address : String) where
  -- `try { await contract.ownerOf(mid) } catch`: whether the call succeeds.
  pub has_owner : ℕ → Io Dashboard Bool
  has_owner mid =
      catch
        (do
          _ ←
              ask (called contract_address "ownerOf" (print mid ∷ []))
                (λ t. env.owner_of t contract_address mid)
          pure true)
        (λ _. pure false)

  -- The `while` loop; `none` if the fuel runs out.
  unfoldable pub search : ℕ → (low top next_id : ℕ) → Io Dashboard (Option ℕ)
  unfolding has_owner
  search zero low top next_id = pure none
  search (suc fuel) low top next_id =
      let mid = (low + top - 1) / 2 in
      if ltb low top
      then (do
        found ← has_owner mid
        elim found [ true ↦ search fuel (mid + 1) top next_id | false ↦ search fuel low mid mid ])
      else pure (some next_id)

  abbrev finish : Option ℕ → Io Dashboard String
  finish none = throw "out of fuel"
  finish (some next_id) = pure (print next_id)

  unfoldable pub get_next_token_id : Io Dashboard String
  get_next_token_id = do next_id ← search search_fuel 0 (highest_id + 1) 0; finish next_id
