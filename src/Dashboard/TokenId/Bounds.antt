-- ===== src/Dashboard/TokenId/Bounds.antt =====
-- The binary search ends within its fuel, whatever the node answers.
use web3_lab_public.Prelude.{
  ℕ, zero, suc, ◌+◌, ◌-◌, ◌*◌, ◌/◌, ◌^◌, ◌≤◌, ◌<◌, ◌≡◌, refl, String, Bool, true, false, [], ◌∷◌,
  Option, some, ltb, length, arith, Bool-cases, inl, inr, length-append,
}
use native.Mathlib.Nat.{pow-suc}
use web3_lab_public.Text.{print}
use web3_lab_public.Browser.{Reply, ok, thrown, World, called}
use web3_lab_public.Dashboard.State.{Dashboard}
use web3_lab_public.Dashboard.Services.{Services}
use web3_lab_public.Dashboard.TokenId.{has_owner, search, get_next_token_id}
use web3_lab_public.Dashboard.TokenId.Rounds.{
  half_above, half_below, after_call, search_round, search_end,
}

module _ (env : Services) (contract : String) where
  has_owner_total :
      (mid : ℕ) (w : World Dashboard)
      → (b : Bool) × (has_owner env contract mid w ≡ (ok b, after_call env contract mid w))
  unfolding has_owner
  has_owner_total mid w = go (env.owner_of w.trace contract mid) refl
    where
      go :
          (r : Reply String)
          → env.owner_of w.trace contract mid ≡ r
          → (b : Bool) × (has_owner env contract mid w ≡ (ok b, after_call env contract mid w))
      go (ok o) e = (true, rw e refl)
      go (thrown m) e = (false, rw e refl)

  -- What a bounded search leaves: a result, the page's state and storage as they were, and a trace
  -- with at most so many more calls.
  record IsBounded (probes : ℕ) (w : World Dashboard) (r : Reply (Option ℕ) × World Dashboard)
      : Type 0 where
    found : ℕ
    result : r.0 ≡ ok (some found)
    state_kept : r.1.state ≡ w.state
    storage_kept : r.1.storage ≡ w.storage
    calls : length r.1.trace ≤ length w.trace + probes

  IsBounded-call :
      (fuel mid : ℕ) (w : World Dashboard) {r : Reply (Option ℕ) × World Dashboard}
      → IsBounded fuel (after_call env contract mid w) r
      → IsBounded (suc fuel) w r
  IsBounded-call fuel mid w b = record {
    found = b.found;
    result = b.result;
    state_kept = b.state_kept;
    storage_kept = b.storage_kept;
    calls =
        omega
          (arith, b.calls, length-append w.trace (called contract "ownerOf" (print mid ∷ []) ∷ []));
  }

  search-IsBounded :
      (fuel low top next : ℕ) (w : World Dashboard)
      → top - low < 2 ^ fuel
      → IsBounded fuel w (search env contract (suc fuel) low top next w)
  search-IsBounded zero low top next w b =
      rw (search_end env contract zero low top next w (ground arith)) record {
        found = next;
        result = refl;
        state_kept = refl;
        storage_kept = refl;
        calls = omega arith;
      }
  search-IsBounded (suc fuel) low top next w b = elim (Bool-cases (ltb low top)) [
    | inr stop ↦ rw (search_end env contract (suc fuel) low top next w stop) record {
      found = next;
      result = refl;
      state_kept = refl;
      storage_kept = refl;
      calls = omega arith;
    }
    | inl more ↦
        let mid = (low + top - 1) / 2 in
        let b' : top - low < 2 ^ fuel * 2 = omega (arith, pow-suc 2 fuel) in
        let (found, probe) = has_owner_total mid w in
        elim (Bool-cases found) [
          | inl hit ↦
              rw
                (search_round env contract (suc fuel) low top next true w
                  (after_call env contract mid w) more (rw hit at probe))
                (IsBounded-call fuel mid w (
                  search-IsBounded fuel (mid + 1) top next (after_call env contract mid w)
                    (half_above low top (2 ^ fuel) more b')))
          | inr miss ↦
              rw
                (search_round env contract (suc fuel) low top next false w
                  (after_call env contract mid w) more (rw miss at probe))
                (IsBounded-call fuel mid w (
                  search-IsBounded fuel low mid mid (after_call env contract mid w)
                    (half_below low top (2 ^ fuel) more b')))
        ]
  ]

  -- Whatever the node answers, the function returns the print of a number after at most 14 calls of
  -- `ownerOf`, and changes neither the page's state nor its storage.
  pub get_next_token_id_total :
      (w : World Dashboard)
      → (k : ℕ) × ((get_next_token_id env contract w).0 ≡ ok (print k))
        × ((get_next_token_id env contract w).1.state ≡ w.state)
        × ((get_next_token_id env contract w).1.storage ≡ w.storage)
        × (length (get_next_token_id env contract w).1.trace ≤ length w.trace + 14)
  unfolding get_next_token_id
  get_next_token_id_total w =
      let b = search-IsBounded 14 0 10001 0 w (omega arith) in
      (
        b.found,
        rw b.result refl,
        rw b.result b.state_kept,
        rw b.result b.storage_kept,
        rw b.result b.calls,
      )
