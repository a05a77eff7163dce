-- ===== src/Dashboard/TokenId/Programs.antt =====
-- `getNextTokenIdForERC721` as a program that stops at each call of `ownerOf`. Run alone it is the
-- effect.
use web3_lab_public.Prelude.{
  ℕ, zero, suc, ◌+◌, ◌-◌, ◌/◌, String, [], ◌∷◌, ◌++◌, Option, none, some, ◌≡◌, ◌∙◌, refl, arith,
  ltb, if◌then◌else◌,
}
use web3_lab_public.Text.{print}
use web3_lab_public.Browser.{Reply, ok, thrown, World, called, ◌>>=◌}
use web3_lab_public.Program.{Program, run, bind, run-bind}
use web3_lab_public.Dashboard.State.{Dashboard}
use web3_lab_public.Dashboard.Services.{Services}
use web3_lab_public.Dashboard.TokenId.{
  highest_id, search_fuel, has_owner, search, get_next_token_id,
}

module _ (env : Services) (contract_address : String) where
  unfoldable pub search_program : ℕ → (low top next_id : ℕ) → Program Dashboard (Option ℕ)
  search_program zero low top next_id = Program.give none
  search_program (suc fuel) low top next_id =
      let mid = (low + top - 1) / 2 in
      if ltb low top
      then Program.query (called contract_address "ownerOf" (print mid ∷ []))
          (λ t. env.owner_of t contract_address mid)
          (λ reply. elim reply [
            | ok _ ↦ search_program fuel (mid + 1) top next_id
            | thrown _ ↦ search_program fuel low mid mid
          ])
      else Program.give (some next_id)

  run-search_program :
      (fuel low top next_id : ℕ) (w : World Dashboard)
      → run (search_program fuel low top next_id) w
        ≡ search env contract_address fuel low top next_id w
  unfolding search_program search has_owner run
  run-search_program zero low top next_id w = refl
  run-search_program (suc fuel) low top next_id w =
      let mid = (low + top - 1) / 2 in
      let asked : World Dashboard = record w {
        trace = w.trace ++ called contract_address "ownerOf" (print mid ∷ []) ∷ [];
      } in
      ground (
        arith,
        run-search_program fuel (mid + 1) top next_id asked,
        run-search_program fuel low mid mid asked,
      )

  abbrev pub finish_program : Option ℕ → Program Dashboard String
  finish_program none = Program.fail "out of fuel"
  finish_program (some next_id) = Program.give (print next_id)

  unfoldable pub next_id_program : Program Dashboard String
  next_id_program = bind (search_program search_fuel 0 (highest_id + 1) 0) finish_program

  pub run-next_id_program :
      (w : World Dashboard) → run next_id_program w ≡ get_next_token_id env contract_address w
  unfolding next_id_program get_next_token_id run
  run-next_id_program w =
      run-bind (search_program search_fuel 0 (highest_id + 1) 0) finish_program w ∙ go _ refl
    where
      go :
          (r : Reply (Option ℕ) × World Dashboard)
          → search env contract_address search_fuel 0 (highest_id + 1) 0 w ≡ r
          → (run (search_program search_fuel 0 (highest_id + 1) 0)
                >>= (λ o. run (finish_program o)))
              w
            ≡ get_next_token_id env contract_address w
      go (thrown e, v) k = ground (arith, run-search_program search_fuel 0 (highest_id + 1) 0 w, k)
      go (ok none, v) k = ground (arith, run-search_program search_fuel 0 (highest_id + 1) 0 w, k)
      go (ok (some n), v) k =
          ground (arith, run-search_program search_fuel 0 (highest_id + 1) 0 w, k)
