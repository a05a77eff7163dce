-- ===== src/Program/Crew/Exclusive.antt =====
-- Pages where at most one program holds a mark.
use web3_lab_public.Prelude.{
  Bool, true, false, All, List, [], ◌∷◌, ◌++◌, ◌≡◌, ◌∙◌, sym, refl, ◌⊎◌, inl, inr,
}
use web3_lab_public.Program.{Program}
use web3_lab_public.Program.Silent.{IsSilent}
use web3_lab_public.Program.Marks.{IsHolding, IsPrompt}
use web3_lab_public.Program.Advance.{
  advance, is_finished, advance-IsSilent, advance-IsHolding, advance-prompt,
}
use web3_lab_public.Program.Crew.{Task, Page, park, proceed, launch, Resumed}

module _ {S : Type 0} (mark : S → Bool) where
  abbrev pub AllSilent : List (Task S) → Type 0
  AllSilent = All (IsSilent mark)

  -- One program of a list holds the mark, and the others leave it alone.
  pub data OneHolds : List (Task S) → Type 1 where
    here : {p : Task S} {ps : List (Task S)} → IsHolding mark p → AllSilent ps → OneHolds (p ∷ ps)
    there : {p : Task S} {ps : List (Task S)} → IsSilent mark p → OneHolds ps → OneHolds (p ∷ ps)

  -- Either the mark is off and no program will touch it, or it is on and exactly one of the
  -- programs holds it, which will reset it.
  pub data IsExclusive (c : Page S) : Type 1 where
    idle : AllSilent c.running → mark c.state ≡ false → IsExclusive c
    busy : OneHolds c.running → mark c.state ≡ true → IsExclusive c

  park-AllSilent :
      (p : Task S) (ps : List (Task S)) → IsSilent mark p → AllSilent ps → AllSilent (park p ps)
  park-AllSilent p ps h k = go (is_finished p) refl
    where
      go : (b : Bool) → is_finished p ≡ b → AllSilent (park p ps)
      go true e = rw e k
      go false e = rw e (h, k)

  park-there :
      (p : Task S) (ps : List (Task S)) → IsSilent mark p → OneHolds ps → OneHolds (park p ps)
  park-there p ps h k = go (is_finished p) refl
    where
      go : (b : Bool) → is_finished p ≡ b → OneHolds (park p ps)
      go true e = rw e k
      go false e = rw e (OneHolds.there h k)

  park-here :
      (p : Task S) (ps : List (Task S)) → IsHolding mark p → AllSilent ps → OneHolds (park p ps)
  unfolding IsHolding
  park-here (Program.give a) ps h k = elim h [ ]
  park-here (Program.fail e) ps h k = elim h [ ]
  park-here (Program.update f p) ps h k = OneHolds.here h k
  park-here (Program.post e p) ps h k = OneHolds.here h k
  park-here (Program.pause p) ps h k = OneHolds.here h k
  park-here (Program.query e a q) ps h k = OneHolds.here h k

  -- Programs that leave the mark alone, of which one goes on.
  swapped-AllSilent :
      (before after : List (Task S)) (q p : Task S) (s : S)
      → (IsSilent mark q → IsSilent mark p)
      → AllSilent (before ++ q ∷ after)
      → AllSilent (before ++ park (advance p s).0 after) × (mark (advance p s).1 ≡ mark s)
  swapped-AllSilent [] after q p s f h =
      let r = advance-IsSilent mark p s (f h.0) in
      (park-AllSilent (advance p s).0 after r.0 h.1, r.1)
  swapped-AllSilent (x ∷ before) after q p s f h =
      let r = swapped-AllSilent before after q p s f h.1 in ((h.0, r.0), r.1)

  -- Programs of which one holds the mark, and one goes on.
  swapped-OneHolds :
      (before after : List (Task S)) (q p : Task S) (s : S)
      → (IsSilent mark q → IsSilent mark p)
      → (IsHolding mark q → IsHolding mark p)
      → mark s ≡ true
      → OneHolds (before ++ q ∷ after)
      → (OneHolds (before ++ park (advance p s).0 after) × (mark (advance p s).1 ≡ true))
        ⊎ (AllSilent (before ++ park (advance p s).0 after) × (mark (advance p s).1 ≡ false))
  swapped-OneHolds [] after q p s f g t (OneHolds.here h k) =
      elim (advance-IsHolding mark p s (g h)) [
        | inl r ↦ inl (park-here (advance p s).0 after r.0 k, r.1 ∙ t)
        | inr r ↦ inr (park-AllSilent (advance p s).0 after r.0 k, r.1)
      ]
  swapped-OneHolds [] after q p s f g t (OneHolds.there h k) =
      let r = advance-IsSilent mark p s (f h) in
      inl (park-there (advance p s).0 after r.0 k, r.1 ∙ t)
  swapped-OneHolds (x ∷ before) after q p s f g t (OneHolds.here h k) =
      let r = swapped-AllSilent before after q p s f k in inl (OneHolds.here h r.0, r.1 ∙ t)
  swapped-OneHolds (x ∷ before) after q p s f g t (OneHolds.there h k) =
      elim (swapped-OneHolds before after q p s f g t k) [
        | inl r ↦ inl (OneHolds.there h r.0, r.1)
        | inr r ↦ inr ((h, r.0), r.1)
      ]

  resumed-IsExclusive :
      (before after : List (Task S)) (q p : Task S) (c : Page S)
      → c.running ≡ before ++ q ∷ after
      → (IsSilent mark q → IsSilent mark p)
      → (IsHolding mark q → IsHolding mark p)
      → IsExclusive c
      → IsExclusive (proceed before p after c.state)
  resumed-IsExclusive before after q p c e f g (IsExclusive.idle h t) =
      let r = swapped-AllSilent before after q p c.state f (rw⁻¹ e h) in
      IsExclusive.idle r.0 (r.1 ∙ t)
  resumed-IsExclusive before after q p c e f g (IsExclusive.busy h t) =
      elim (swapped-OneHolds before after q p c.state f g t (rw⁻¹ e h)) [
        | inl r ↦ IsExclusive.busy r.0 r.1
        | inr r ↦ IsExclusive.idle r.0 r.1
      ]

  -- Resumed programs stay exclusive.
  pub Resumed-IsExclusive : (c d : Page S) → Resumed c d → IsExclusive c → IsExclusive d
  unfolding IsSilent IsHolding
  Resumed-IsExclusive c d (Resumed.go_on before after p e) =
      resumed-IsExclusive before after (Program.pause p) p c e (λ h. h) (λ h. h)
  Resumed-IsExclusive c d (Resumed.answer before after ev a k r e) =
      resumed-IsExclusive before after (Program.query ev a k) (k r) c e (λ h. h r) (λ h. h r)

  -- A program that leaves the mark alone may start at any time.
  pub silent-IsExclusive :
      (p : Task S) (c : Page S) → IsSilent mark p → IsExclusive c → IsExclusive (launch p c)
  silent-IsExclusive p c h (IsExclusive.idle k t) =
      let r = advance-IsSilent mark p c.state h in
      IsExclusive.idle (park-AllSilent (advance p c.state).0 c.running r.0 k) (r.1 ∙ t)
  silent-IsExclusive p c h (IsExclusive.busy k t) =
      let r = advance-IsSilent mark p c.state h in
      IsExclusive.busy (park-there (advance p c.state).0 c.running r.0 k) (r.1 ∙ t)

  -- A prompt program may start while the mark is off.
  pub prompt-IsExclusive :
      (p : Task S) (c : Page S)
      → IsPrompt mark p
      → mark c.state ≡ false
      → IsExclusive c
      → IsExclusive (launch p c)
  prompt-IsExclusive p c h t (IsExclusive.idle k _) = elim (advance-prompt mark p c.state h) [
    | inl r ↦ IsExclusive.idle (park-AllSilent (advance p c.state).0 c.running r.0 k) (r.1 ∙ t)
    | inr (inl r) ↦ IsExclusive.busy (park-here (advance p c.state).0 c.running r.0 k) r.1
    | inr (inr r) ↦ IsExclusive.idle (park-AllSilent (advance p c.state).0 c.running r.0 k) r.1
  ]
  prompt-IsExclusive p c h t (IsExclusive.busy k u) = let never : true ≡ false = sym u ∙ t in cc

  -- A step that keeps the programs and the mark.
  pub kept-IsExclusive :
      (c : Page S) (s : S)
      → mark s ≡ mark c.state
      → IsExclusive c
      → IsExclusive (record c { state = s })
  kept-IsExclusive c s k (IsExclusive.idle h t) = IsExclusive.idle h (k ∙ t)
  kept-IsExclusive c s k (IsExclusive.busy h t) = IsExclusive.busy h (k ∙ t)
