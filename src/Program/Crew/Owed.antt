-- ===== src/Program/Crew/Owed.antt =====
-- Pages whose mark is on only while a program holds it.
use web3_lab_public.Prelude.{
  Bool, true, false, All, List, [], ◌∷◌, ◌++◌, ◌≡◌, ◌∙◌, sym, ap, refl, ◌⊎◌, inl, inr,
}
use web3_lab_public.Browser.{World}
use web3_lab_public.Program.{Program, run}
use web3_lab_public.Program.Marks.{IsHolding, IsTidy, silent-IsTidy}
use web3_lab_public.Program.Ending.{run-holding}
use web3_lab_public.Program.Advance.{advance, is_finished, advance-IsHolding, advance-IsTidy}
use web3_lab_public.Program.Crew.{Task, Page, park, proceed, launch, Resumed}

module _ {S : Type 0} (mark : S → Bool) where
  -- A program that will not leave the mark on.
  abbrev pub IsSound : Task S → Type 0
  IsSound p = IsTidy mark p ⊎ IsHolding mark p

  -- One of the programs holds the mark.
  pub data Held : List (Task S) → Type 1 where
    here : {p : Task S} {ps : List (Task S)} → IsHolding mark p → Held (p ∷ ps)
    there : {p : Task S} {ps : List (Task S)} → Held ps → Held (p ∷ ps)

  -- Every program that waits is sound, and while the mark is on one of them holds it.
  pub record IsOwed (c : Page S) : Type 1 where
    pub each : All IsSound c.running
    pub held : mark c.state ≡ true → Held c.running

  advance-IsSound :
      (p : Task S) (s : S)
      → IsSound p
      → IsSound (advance p s).0
        × ((mark (advance p s).1 ≡ mark s)
            ⊎ (IsHolding mark (advance p s).0 ⊎ (mark (advance p s).1 ≡ false)))
  advance-IsSound p s (inl h) = elim (advance-IsTidy mark p s h) [
    | inl r ↦ (inl r.0, inl r.1)
    | inr (inl r) ↦ (inr r, inr (inl r))
    | inr (inr r) ↦ (inl (silent-IsTidy mark _ r.0), inr (inr r.1))
  ]
  advance-IsSound p s (inr h) = elim (advance-IsHolding mark p s h) [
    | inl r ↦ (inr r.0, inr (inl r.0))
    | inr r ↦ (inl (silent-IsTidy mark _ r.0), inr (inr r.1))
  ]

  park-AllSound :
      (p : Task S) (ps : List (Task S)) → IsSound p → All IsSound ps → All IsSound (park p ps)
  park-AllSound p ps h k = go (is_finished p) refl
    where
      go : (b : Bool) → is_finished p ≡ b → All IsSound (park p ps)
      go true e = rw e k
      go false e = rw e (h, k)

  park-Held : (p : Task S) (ps : List (Task S)) → Held ps → Held (park p ps)
  park-Held p ps k = go (is_finished p) refl
    where
      go : (b : Bool) → is_finished p ≡ b → Held (park p ps)
      go true e = rw e k
      go false e = rw e (Held.there k)

  parked-Held : (p : Task S) (ps : List (Task S)) → IsHolding mark p → Held (park p ps)
  unfolding IsHolding
  parked-Held (Program.give a) ps h = elim h [ ]
  parked-Held (Program.fail e) ps h = elim h [ ]
  parked-Held (Program.update f p) ps h = Held.here h
  parked-Held (Program.post e p) ps h = Held.here h
  parked-Held (Program.pause p) ps h = Held.here h
  parked-Held (Program.query e a q) ps h = Held.here h

  append-Held : (before after : List (Task S)) → Held after → Held (before ++ after)
  append-Held [] after h = h
  append-Held (x ∷ before) after h = Held.there (append-Held before after h)

  swapped-AllSound :
      (before after : List (Task S)) (q p : Task S)
      → IsSound p
      → All IsSound (before ++ q ∷ after)
      → All IsSound (before ++ park p after)
  swapped-AllSound [] after q p k h = park-AllSound p after k h.1
  swapped-AllSound (x ∷ before) after q p k h = (h.0, swapped-AllSound before after q p k h.1)

  AllSound-at :
      (before after : List (Task S)) (q : Task S) → All IsSound (before ++ q ∷ after) → IsSound q
  AllSound-at [] after q h = h.0
  AllSound-at (x ∷ before) after q h = AllSound-at before after q h.1

  -- A program that goes on: the one that holds the mark holds it still, or the mark is off.
  swapped-Held :
      (before after : List (Task S)) (q p : Task S) (s : S)
      → (IsHolding mark q → IsHolding mark p)
      → Held (before ++ q ∷ after)
      → Held (before ++ park (advance p s).0 after) ⊎ (mark (advance p s).1 ≡ false)
  swapped-Held [] after q p s g (Held.here h) = elim (advance-IsHolding mark p s (g h)) [
    | inl r ↦ inl (parked-Held (advance p s).0 after r.0)
    | inr r ↦ inr r.1
  ]
  swapped-Held [] after q p s g (Held.there h) = inl (park-Held (advance p s).0 after h)
  swapped-Held (x ∷ before) after q p s g (Held.here h) = inl (Held.here h)
  swapped-Held (x ∷ before) after q p s g (Held.there h) =
      elim (swapped-Held before after q p s g h) [ inl r ↦ inl (Held.there r) | inr r ↦ inr r ]

  unmarked : {A : Type 1} {s : S} → mark s ≡ false → mark s ≡ true → A
  unmarked f t = let never : false ≡ true = sym f ∙ t in cc

  resumed-IsOwed :
      (before after : List (Task S)) (q p : Task S) (c : Page S)
      → c.running ≡ before ++ q ∷ after
      → (IsSound q → IsSound p)
      → (IsHolding mark q → IsHolding mark p)
      → IsOwed c
      → IsOwed (proceed before p after c.state)
  resumed-IsOwed before after q p c e f g w = record {
    each = swapped-AllSound before after q (advance p c.state).0 r.0 rest;
    held = λ t. elim r.1 [
      | inl k ↦ elim (swapped-Held before after q p c.state g (rw⁻¹ e (w.held (sym k ∙ t)))) [
        | inl h ↦ h
        | inr n ↦ unmarked n t
      ]
      | inr (inl h) ↦ append-Held before _ (parked-Held (advance p c.state).0 after h)
      | inr (inr n) ↦ unmarked n t
    ];
  }
    where
      rest : All IsSound (before ++ q ∷ after)
      rest = rw⁻¹ e w.each

      r :
          IsSound (advance p c.state).0
          × ((mark (advance p c.state).1 ≡ mark c.state)
              ⊎ (IsHolding mark (advance p c.state).0 ⊎ (mark (advance p c.state).1 ≡ false)))
      r = advance-IsSound p c.state (f (AllSound-at before after q rest))

  pub Resumed-IsOwed : (c d : Page S) → Resumed c d → IsOwed c → IsOwed d
  unfolding IsTidy IsHolding
  Resumed-IsOwed c d (Resumed.go_on before after p e) =
      resumed-IsOwed before after (Program.pause p) p c e (λ h. h) (λ h. h)
  Resumed-IsOwed c d (Resumed.answer before after ev a k r e) =
      resumed-IsOwed before after (Program.query ev a k) (k r) c e
        (λ h. elim h [ inl x ↦ inl (x r) | inr x ↦ inr (x r) ]) (λ h. h r)

  -- A tidy program may start at any time.
  pub launch-IsOwed : (p : Task S) (c : Page S) → IsTidy mark p → IsOwed c → IsOwed (launch p c)
  launch-IsOwed p c h w =
      let r = advance-IsSound p c.state (inl h) in
      record {
        each = park-AllSound (advance p c.state).0 c.running r.0 w.each;
        held = λ t. elim r.1 [
          | inl k ↦ park-Held (advance p c.state).0 c.running (w.held (sym k ∙ t))
          | inr (inl x) ↦ parked-Held (advance p c.state).0 c.running x
          | inr (inr n) ↦ unmarked n t
        ];
      }

  pub kept-IsOwed :
      (c : Page S) (s : S) → mark s ≡ mark c.state → IsOwed c → IsOwed (record c { state = s })
  kept-IsOwed c s k w = record { each = w.each; held = λ t. w.held (sym k ∙ t) }

  -- One of the programs in flight, whatever the world is by then, ends with the mark off if it is
  -- left alone.
  pub record IsAwaited (tasks : List (Task S)) : Type 1 where
    pub before : List (Task S)
    pub task : Task S
    pub after : List (Task S)
    pub among : tasks ≡ before ++ task ∷ after
    pub ends : (w : World S) → mark (run task w).1.state ≡ false

  pub Held-IsAwaited : (tasks : List (Task S)) → Held tasks → IsAwaited tasks
  Held-IsAwaited [] h = elim h [ ]
  Held-IsAwaited (p ∷ ps) (Held.here h) = record {
    before = [];
    task = p;
    after = ps;
    among = refl;
    ends = λ w. run-holding mark p w h;
  }
  Held-IsAwaited (p ∷ ps) (Held.there h) =
      let rest = Held-IsAwaited ps h in
      record {
        before = p ∷ rest.before;
        task = rest.task;
        after = rest.after;
        among = ap (λ xs. p ∷ xs) rest.among;
        ends = rest.ends;
      }
