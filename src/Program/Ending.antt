-- ===== src/Program/Ending.antt =====
-- What a program that is left alone does to a mark.
use web3_lab_public.Prelude.{[], ◌∷◌, ◌++◌, Bool, false, ◌≡◌, ◌∙◌, refl, inl, inr}
use web3_lab_public.Browser.{World}
use web3_lab_public.Program.{Program, run}
use web3_lab_public.Program.Silent.{IsSilent}
use web3_lab_public.Program.Marks.{IsHolding}

module _ {S : Type 0} (mark : S → Bool) where
  run-silent :
      {A : Type 0} (p : Program S A) (w : World S)
      → IsSilent mark p
      → mark (run p w).1.state ≡ mark w.state
  unfolding IsSilent run
  run-silent (Program.give a) w h = refl
  run-silent (Program.fail e) w h = refl
  run-silent (Program.update f p) w h =
      run-silent p (record w { state = f w.state }) h.1 ∙ h.0 w.state
  run-silent (Program.post e p) w h = run-silent p (record w { trace = w.trace ++ e ∷ [] }) h
  run-silent (Program.pause p) w h = run-silent p w h
  run-silent (Program.query e a k) w h =
      run-silent (k (a w.trace)) (record w { trace = w.trace ++ e ∷ [] }) (h (a w.trace))

  -- A program that holds the mark, left alone, ends with the mark off.
  pub run-holding :
      {A : Type 0} (p : Program S A) (w : World S)
      → IsHolding mark p
      → mark (run p w).1.state ≡ false
  unfolding IsHolding run
  run-holding (Program.give a) w h = elim h [ ]
  run-holding (Program.fail e) w h = elim h [ ]
  run-holding (Program.update f p) w (inl h) = run-holding p (record w { state = f w.state }) h.1
  run-holding (Program.update f p) w (inr h) =
      run-silent p (record w { state = f w.state }) h.1 ∙ h.0 w.state
  run-holding (Program.post e p) w h = run-holding p (record w { trace = w.trace ++ e ∷ [] }) h
  run-holding (Program.pause p) w h = run-holding p w h
  run-holding (Program.query e a k) w h =
      run-holding (k (a w.trace)) (record w { trace = w.trace ++ e ∷ [] }) (h (a w.trace))
