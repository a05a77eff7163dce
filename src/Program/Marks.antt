-- ===== src/Program/Marks.antt =====
-- What a program does to a mark of its state, a Boolean that says that something is under way.
use web3_lab_public.Prelude.{Bool, true, false, ◌≡◌, ◌⊎◌, inl, inr}
use web3_lab_public.Browser.{Reply}
use web3_lab_public.Program.{Program, bind, ensure}
use web3_lab_public.Program.Silent.{IsNeutral, IsSilent, bind-IsSilent}

module _ {S : Type 0} (mark : S → Bool) where
  -- An update that sets the mark, that resets it.
  abbrev pub IsSetting : (S → S) → Type 0
  IsSetting f = (s : S) → mark (f s) ≡ true

  abbrev pub IsResetting : (S → S) → Type 0
  IsResetting f = (s : S) → mark (f s) ≡ false

  -- A program that leaves the mark as it is until it resets it, once, before its end.
  unfoldable pub IsHolding : {A : Type 0} → Program S A → Type 0
  IsHolding (Program.give _) = ⊥
  IsHolding (Program.fail _) = ⊥
  IsHolding (Program.update f p) =
      (IsNeutral mark f × IsHolding p) ⊎ (IsResetting f × IsSilent mark p)
  IsHolding (Program.post e p) = IsHolding p
  IsHolding (Program.pause p) = IsHolding p
  IsHolding (Program.query {B} e a k) = (r : Reply B) → IsHolding (k r)

  -- A program that leaves the mark as it is, or sets it and then holds it.
  unfoldable pub IsTidy : {A : Type 0} → Program S A → Type 0
  IsTidy (Program.give _) = Unit
  IsTidy (Program.fail _) = Unit
  IsTidy (Program.update f p) = (IsNeutral mark f × IsTidy p) ⊎ (IsSetting f × IsHolding p)
  IsTidy (Program.post e p) = IsTidy p
  IsTidy (Program.pause p) = IsTidy p
  IsTidy (Program.query {B} e a k) = (r : Reply B) → IsTidy (k r)

  -- A program that leaves the mark as it is, or sets it before anything else and then holds it.
  unfoldable pub IsPrompt : {A : Type 0} → Program S A → Type 0
  IsPrompt (Program.update f p) = (IsNeutral mark f × IsSilent mark p) ⊎ (IsSetting f × IsHolding p)
  IsPrompt (Program.give _) = Unit
  IsPrompt (Program.fail _) = Unit
  IsPrompt (Program.post e p) = IsSilent mark p
  IsPrompt (Program.pause p) = IsSilent mark p
  IsPrompt (Program.query {B} e a k) = (r : Reply B) → IsSilent mark (k r)

  module _ {A B : Type 0} where
    pub bind-IsHolding :
        (p : Program S A) (h : A → Program S B)
        → IsHolding p
        → ((a : A) → IsSilent mark (h a))
        → IsHolding (bind p h)
    unfolding IsHolding bind
    bind-IsHolding (Program.give a) h q u = elim q [ ]
    bind-IsHolding (Program.fail e) h q u = elim q [ ]
    bind-IsHolding (Program.update f p) h (inl q) u = inl (q.0, bind-IsHolding p h q.1 u)
    bind-IsHolding (Program.update f p) h (inr q) u = inr (q.0, bind-IsSilent mark p h q.1 u)
    bind-IsHolding (Program.post e p) h q u = bind-IsHolding p h q u
    bind-IsHolding (Program.pause p) h q u = bind-IsHolding p h q u
    bind-IsHolding (Program.query e a k) h q u = λ r. bind-IsHolding (k r) h (q r) u

    -- What is tidy may follow what leaves the mark alone.
    pub bind-IsTidy :
        (p : Program S A) (h : A → Program S B)
        → IsSilent mark p
        → ((a : A) → IsTidy (h a))
        → IsTidy (bind p h)
    unfolding IsSilent IsTidy bind
    bind-IsTidy (Program.give a) h q u = u a
    bind-IsTidy (Program.fail e) h q u = tt
    bind-IsTidy (Program.update f p) h q u = inl (q.0, bind-IsTidy p h q.1 u)
    bind-IsTidy (Program.post e p) h q u = bind-IsTidy p h q u
    bind-IsTidy (Program.pause p) h q u = bind-IsTidy p h q u
    bind-IsTidy (Program.query e a k) h q u = λ r. bind-IsTidy (k r) h (q r) u

  module _ {A : Type 0} where
    pub ensure-IsHolding :
        (f : S → S) (p : Program S A) → IsResetting f → IsSilent mark p → IsHolding (ensure f p)
    unfolding IsSilent IsHolding ensure
    ensure-IsHolding f (Program.give a) h q = inr (h, tt)
    ensure-IsHolding f (Program.fail e) h q = inr (h, tt)
    ensure-IsHolding f (Program.update g p) h q = inl (q.0, ensure-IsHolding f p h q.1)
    ensure-IsHolding f (Program.post e p) h q = ensure-IsHolding f p h q
    ensure-IsHolding f (Program.pause p) h q = ensure-IsHolding f p h q
    ensure-IsHolding f (Program.query e a k) h q = λ r. ensure-IsHolding f (k r) h (q r)

    pub silent-IsTidy : (p : Program S A) → IsSilent mark p → IsTidy p
    unfolding IsSilent IsTidy
    silent-IsTidy (Program.give a) q = tt
    silent-IsTidy (Program.fail e) q = tt
    silent-IsTidy (Program.update f p) q = inl (q.0, silent-IsTidy p q.1)
    silent-IsTidy (Program.post e p) q = silent-IsTidy p q
    silent-IsTidy (Program.pause p) q = silent-IsTidy p q
    silent-IsTidy (Program.query e a k) q = λ r. silent-IsTidy (k r) (q r)

    pub silent-IsPrompt : (p : Program S A) → IsSilent mark p → IsPrompt p
    unfolding IsSilent IsPrompt
    silent-IsPrompt (Program.give a) q = tt
    silent-IsPrompt (Program.fail e) q = tt
    silent-IsPrompt (Program.update f p) q = inl q
    silent-IsPrompt (Program.post e p) q = q
    silent-IsPrompt (Program.pause p) q = q
    silent-IsPrompt (Program.query e a k) q = q

    pub prompt-IsTidy : (p : Program S A) → IsPrompt p → IsTidy p
    unfolding IsSilent IsTidy IsPrompt
    prompt-IsTidy (Program.give a) q = tt
    prompt-IsTidy (Program.fail e) q = tt
    prompt-IsTidy (Program.update f p) (inl q) = inl (q.0, silent-IsTidy p q.1)
    prompt-IsTidy (Program.update f p) (inr q) = inr q
    prompt-IsTidy (Program.post e p) q = silent-IsTidy p q
    prompt-IsTidy (Program.pause p) q = silent-IsTidy p q
    prompt-IsTidy (Program.query e a k) q = λ r. silent-IsTidy (k r) (q r)
