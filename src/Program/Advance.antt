-- ===== src/Program/Advance.antt =====
-- A program that runs until its next await, or its end.
use web3_lab_public.Prelude.{Bool, true, false, ◌≡◌, ◌∙◌, refl, ◌⊎◌, inl, inr}
use web3_lab_public.Program.{Program}
use web3_lab_public.Program.Silent.{IsSilent}
use web3_lab_public.Program.Marks.{IsHolding, IsTidy, IsPrompt}

module _ {S A : Type 0} where
  unfoldable pub advance : Program S A → S → Program S A × S
  advance (Program.update f p) s = advance p (f s)
  advance (Program.post e p) s = advance p s
  advance (Program.give r) s = (Program.give r, s)
  advance (Program.fail e) s = (Program.fail e, s)
  advance (Program.pause p) s = (Program.pause p, s)
  advance (Program.query e answer k) s = (Program.query e answer k, s)

  abbrev pub is_finished : Program S A → Bool
  is_finished (Program.give _) = true
  is_finished (Program.fail _) = true
  is_finished _ = false

  module _ (mark : S → Bool) where
    pub advance-IsSilent :
        (p : Program S A) (s : S)
        → IsSilent mark p
        → IsSilent mark (advance p s).0 × (mark (advance p s).1 ≡ mark s)
    unfolding IsSilent advance
    advance-IsSilent (Program.give a) s q = (tt, refl)
    advance-IsSilent (Program.fail e) s q = (tt, refl)
    advance-IsSilent (Program.update f p) s q =
        let rest = advance-IsSilent p (f s) q.1 in (rest.0, rest.1 ∙ q.0 s)
    advance-IsSilent (Program.post e p) s q = advance-IsSilent p s q
    advance-IsSilent (Program.pause p) s q = (q, refl)
    advance-IsSilent (Program.query e a k) s q = (q, refl)

    -- A program that holds the mark holds it still, or has reset it.
    pub advance-IsHolding :
        (p : Program S A) (s : S)
        → IsHolding mark p
        → (IsHolding mark (advance p s).0 × (mark (advance p s).1 ≡ mark s))
          ⊎ (IsSilent mark (advance p s).0 × (mark (advance p s).1 ≡ false))
    unfolding IsHolding advance
    advance-IsHolding (Program.give a) s q = elim q [ ]
    advance-IsHolding (Program.fail e) s q = elim q [ ]
    advance-IsHolding (Program.update f p) s (inl q) = elim (advance-IsHolding p (f s) q.1) [
      | inl h ↦ inl (h.0, h.1 ∙ q.0 s)
      | inr h ↦ inr h
    ]
    advance-IsHolding (Program.update f p) s (inr q) =
        let rest = advance-IsSilent p (f s) q.1 in inr (rest.0, rest.1 ∙ q.0 s)
    advance-IsHolding (Program.post e p) s q = advance-IsHolding p s q
    advance-IsHolding (Program.pause p) s q = inl (q, refl)
    advance-IsHolding (Program.query e a k) s q = inl (q, refl)

    -- A tidy program has not touched the mark, or it holds the mark, or it has reset it.
    pub advance-IsTidy :
        (p : Program S A) (s : S)
        → IsTidy mark p
        → (IsTidy mark (advance p s).0 × (mark (advance p s).1 ≡ mark s))
          ⊎ (IsHolding mark (advance p s).0
              ⊎ (IsSilent mark (advance p s).0 × (mark (advance p s).1 ≡ false)))
    unfolding IsTidy advance
    advance-IsTidy (Program.give a) s q = inl (tt, refl)
    advance-IsTidy (Program.fail e) s q = inl (tt, refl)
    advance-IsTidy (Program.update f p) s (inl q) = elim (advance-IsTidy p (f s) q.1) [
      | inl h ↦ inl (h.0, h.1 ∙ q.0 s)
      | inr h ↦ inr h
    ]
    advance-IsTidy (Program.update f p) s (inr q) = elim (advance-IsHolding p (f s) q.1) [
      | inl h ↦ inr (inl h.0)
      | inr h ↦ inr (inr h)
    ]
    advance-IsTidy (Program.post e p) s q = advance-IsTidy p s q
    advance-IsTidy (Program.pause p) s q = inl (q, refl)
    advance-IsTidy (Program.query e a k) s q = inl (q, refl)

    -- A prompt program has not touched the mark, or it holds the mark, which is on, or it has reset
    -- it.
    pub advance-prompt :
        (p : Program S A) (s : S)
        → IsPrompt mark p
        → (IsSilent mark (advance p s).0 × (mark (advance p s).1 ≡ mark s))
          ⊎ ((IsHolding mark (advance p s).0 × (mark (advance p s).1 ≡ true))
              ⊎ (IsSilent mark (advance p s).0 × (mark (advance p s).1 ≡ false)))
    unfolding IsPrompt IsSilent advance
    advance-prompt (Program.give a) s q = inl (tt, refl)
    advance-prompt (Program.fail e) s q = inl (tt, refl)
    advance-prompt (Program.update f p) s (inl q) = inl (advance-IsSilent (Program.update f p) s q)
    advance-prompt (Program.update f p) s (inr q) = elim (advance-IsHolding p (f s) q.1) [
      | inl h ↦ inr (inl (h.0, h.1 ∙ q.0 s))
      | inr h ↦ inr (inr h)
    ]
    advance-prompt (Program.post e p) s q = inl (advance-IsSilent p s q)
    advance-prompt (Program.pause p) s q = inl (q, refl)
    advance-prompt (Program.query e a k) s q = inl (q, refl)
