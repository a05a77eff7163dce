-- ===== src/Program/Crew.antt =====
-- A page and the programs that it has started and not yet finished: between two awaits nothing
-- comes in, at an await of one program another may go on.
pub mod Exclusive
pub mod Owed
pub mod Finishing
use web3_lab_public.Prelude.{Bool, List, [], ◌∷◌, ◌++◌, ◌≡◌, if◌then◌else◌}
use web3_lab_public.Browser.{Trace, Event, Reply}
use web3_lab_public.Program.{Program}
use web3_lab_public.Program.Advance.{advance, is_finished}

-- What an event handler starts: its promise is not read by the page.
abbrev pub Task : Type 0 → Type 1
Task S = Program S (Unit {0})

pub record Page (S : Type 0) : Type 1 where
  pub state : S
  pub running : List (Task S)

module _ {S : Type 0} where
  abbrev pub park : Task S → List (Task S) → List (Task S)
  park p rest = if is_finished p then rest else p ∷ rest

  -- A program that goes on, in the place that it had among the others.
  abbrev pub proceed : List (Task S) → Task S → List (Task S) → S → Page S
  proceed before p after s =
      let r = advance p s in record { state = r.1; running = before ++ park r.0 after }

  -- A program that a page starts.
  abbrev pub launch : Task S → Page S → Page S
  launch p c = proceed [] p c.running c.state

  -- A program that waits at an await is resumed, with any answer.
  pub data Resumed (c : Page S) : Page S → Type 1 where
    go_on :
        (before after : List (Task S)) (p : Task S)
        → c.running ≡ before ++ Program.pause p ∷ after
        → Resumed c (proceed before p after c.state)
    answer :
        {B : Type 0} (before after : List (Task S)) (e : Event) (a : Trace → Reply B)
        (k : Reply B → Task S) (r : Reply B)
        → c.running ≡ before ++ Program.query e a k ∷ after
        → Resumed c (proceed before (k r) after c.state)
