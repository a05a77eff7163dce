-- ===== src/Dashboard/TokenId/Rounds.antt =====
-- One round of the binary search.
use web3_lab_public.Prelude.{
  ℕ, suc, ◌+◌, ◌-◌, ◌*◌, ◌/◌, ◌<◌, ◌≡◌, refl, String, Bool, true, false, [], ◌∷◌, ◌++◌, some, ltb,
  if◌then◌else◌, arith,
}
use web3_lab_public.Text.{print}
use web3_lab_public.Browser.{ok, World, called}
use web3_lab_public.Dashboard.State.{Dashboard}
use web3_lab_public.Dashboard.Services.{Services}
use web3_lab_public.Dashboard.TokenId.{has_owner, search}

pub half_above :
    (low top bound : ℕ)
    → ltb low top ≡ true
    → top - low < bound * 2
    → top - ((low + top - 1) / 2 + 1) < bound
half_above low top bound more h = ground arith

pub half_below :
    (low top bound : ℕ)
    → ltb low top ≡ true
    → top - low < bound * 2
    → (low + top - 1) / 2 - low < bound
half_below low top bound more h = ground arith

module _ (env : Services) (contract : String) where
  abbrev pub after_call : ℕ → World Dashboard → World Dashboard
  after_call mid w = record w { trace = w.trace ++ called contract "ownerOf" (print mid ∷ []) ∷ [] }

  -- One round of the loop, where the probe of the middle answers `b` and leaves the world `w'`.
  pub search_round :
      (fuel low top next : ℕ) (b : Bool) (w w' : World Dashboard)
      → ltb low top ≡ true
      → has_owner env contract ((low + top - 1) / 2) w ≡ (ok b, w')
      → search env contract (suc fuel) low top next w ≡ (
          if b
          then search env contract fuel ((low + top - 1) / 2 + 1) top next w'
          else search env contract fuel low ((low + top - 1) / 2) ((low + top - 1) / 2) w')
  unfolding search
  search_round fuel low top next true w w' more probe = rw (more, probe) refl
  search_round fuel low top next false w w' more probe = rw (more, probe) refl

  pub search_end :
      (fuel low top next : ℕ) (w : World Dashboard)
      → ltb low top ≡ false
      → search env contract (suc fuel) low top next w ≡ (ok (some next), w)
  unfolding search
  search_end fuel low top next w stop = rw stop refl
