-- ===== src/Program/Silent.antt =====
-- Programs that leave a part of their state as it is.
use web3_lab_public.Prelude.{String, Bool, true, false, ◌≡◌, ap, if◌then◌else◌}
use web3_lab_public.Browser.{Reply, ok, thrown}
use web3_lab_public.Program.{Program, settled, bind, recover, ensure}

module _ {S B : Type 0} (mark : S → B) where
  -- An update that leaves the part as it is.
  abbrev pub IsNeutral : (S → S) → Type 0
  IsNeutral f = (s : S) → mark (f s) ≡ mark s

  -- A program all of whose updates leave the part as it is.
  unfoldable pub IsSilent : {A : Type 0} → Program S A → Type 0
  IsSilent (Program.give _) = Unit
  IsSilent (Program.fail _) = Unit
  IsSilent (Program.update f p) = IsNeutral f × IsSilent p
  IsSilent (Program.post e p) = IsSilent p
  IsSilent (Program.pause p) = IsSilent p
  IsSilent (Program.query {B = C} e a k) = (r : Reply C) → IsSilent (k r)

  pub settled-IsSilent : {A : Type 0} (r : Reply A) → IsSilent (settled r)
  unfolding IsSilent
  settled-IsSilent (ok a) = tt
  settled-IsSilent (thrown e) = tt

  module _ {A C : Type 0} where
    pub bind-IsSilent :
        (p : Program S A) (h : A → Program S C)
        → IsSilent p
        → ((a : A) → IsSilent (h a))
        → IsSilent (bind p h)
    unfolding IsSilent bind
    bind-IsSilent (Program.give a) h q u = u a
    bind-IsSilent (Program.fail e) h q u = tt
    bind-IsSilent (Program.update f p) h q u = (q.0, bind-IsSilent p h q.1 u)
    bind-IsSilent (Program.post e p) h q u = bind-IsSilent p h q u
    bind-IsSilent (Program.pause p) h q u = bind-IsSilent p h q u
    bind-IsSilent (Program.query e a k) h q u = λ r. bind-IsSilent (k r) h (q r) u

  module _ {A : Type 0} where
    pub recover-IsSilent :
        (p : Program S A) (h : String → Program S A)
        → IsSilent p
        → ((e : String) → IsSilent (h e))
        → IsSilent (recover p h)
    unfolding IsSilent recover
    recover-IsSilent (Program.give a) h q u = tt
    recover-IsSilent (Program.fail e) h q u = u e
    recover-IsSilent (Program.update f p) h q u = (q.0, recover-IsSilent p h q.1 u)
    recover-IsSilent (Program.post e p) h q u = recover-IsSilent p h q u
    recover-IsSilent (Program.pause p) h q u = recover-IsSilent p h q u
    recover-IsSilent (Program.query e a k) h q u = λ r. recover-IsSilent (k r) h (q r) u

    pub ensure-IsSilent :
        (f : S → S) (p : Program S A) → IsNeutral f → IsSilent p → IsSilent (ensure f p)
    unfolding IsSilent ensure
    ensure-IsSilent f (Program.give a) h q = (h, tt)
    ensure-IsSilent f (Program.fail e) h q = (h, tt)
    ensure-IsSilent f (Program.update g p) h q = (q.0, ensure-IsSilent f p h q.1)
    ensure-IsSilent f (Program.post e p) h q = ensure-IsSilent f p h q
    ensure-IsSilent f (Program.pause p) h q = ensure-IsSilent f p h q
    ensure-IsSilent f (Program.query e a k) h q = λ r. ensure-IsSilent f (k r) h (q r)

    -- A choice between two programs.
    pub choice-IsSilent :
        (b : Bool) (p q : Program S A) → IsSilent p → IsSilent q → IsSilent (if b then p else q)
    choice-IsSilent true p q h k = h
    choice-IsSilent false p q h k = k

    -- The answer to a question.
    pub reply-IsSilent :
        {C : Type 0} (h : C → Program S A) (r : Reply C)
        → ((c : C) → IsSilent (h c))
        → IsSilent (bind (settled r) h)
    reply-IsSilent h r u = bind-IsSilent (settled r) h (settled-IsSilent r) u

-- What leaves a part as it is leaves what is a part of it as it is.
pub project-IsSilent :
    {S B C A : Type 0} (mark : S → B) (part : B → C) (p : Program S A)
    → IsSilent mark p
    → IsSilent (λ s. part (mark s)) p
unfolding IsSilent
project-IsSilent mark part (Program.give a) q = tt
project-IsSilent mark part (Program.fail e) q = tt
project-IsSilent mark part (Program.update f p) q =
    ((λ s. ap part (q.0 s)), project-IsSilent mark part p q.1)
project-IsSilent mark part (Program.post e p) q = project-IsSilent mark part p q
project-IsSilent mark part (Program.pause p) q = project-IsSilent mark part p q
project-IsSilent mark part (Program.query e a k) q = λ r. project-IsSilent mark part (k r) (q r)
