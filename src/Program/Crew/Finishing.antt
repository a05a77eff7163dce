-- ===== src/Program/Crew/Finishing.antt =====
-- A program that is left alone, among others that wait.
use web3_lab_public.Prelude.{List, [], ◌++◌, ◌∷◌, refl}
use web3_lab_public.Browser.{World}
use web3_lab_public.Program.{Program, run}
use web3_lab_public.Program.Advance.{advance}
use web3_lab_public.Program.Crew.{Task, Page, proceed, Resumed}

-- Programs are resumed, one after the other.
pub data Steps {S : Type 0} : Page S → Page S → Type 1 where
  stay : {c : Page S} → Steps c c
  more : {c d e : Page S} → Resumed c d → Steps d e → Steps c e

module _ {S : Type 0} (others : List (Task S)) where
  -- It finishes, with the state that it has when it is run, and the others as they were.
  pub run-Steps :
      (p : Task S) (w : World S)
      → Steps (proceed [] p others w.state) (record { state = (run p w).1.state; running = others })
  unfolding run advance
  run-Steps (Program.give a) w = Steps.stay
  run-Steps (Program.fail e) w = Steps.stay
  run-Steps (Program.update f p) w = run-Steps p (record w { state = f w.state })
  run-Steps (Program.post e p) w = run-Steps p (record w { trace = w.trace ++ e ∷ [] })
  run-Steps (Program.pause p) w = Steps.more (Resumed.go_on [] others p refl) (run-Steps p w)
  run-Steps (Program.query e a k) w =
      Steps.more (Resumed.answer [] others e a k (a w.trace) refl)
        (run-Steps (k (a w.trace)) (record w { trace = w.trace ++ e ∷ [] }))
