-- ===== src/Program.antt =====
-- An asynchronous function as a program that stops at each `await`: what Browser's effects are when
-- other events may come in between. `run` is the effect of a program that is left alone.
pub mod Silent
pub mod Marks
pub mod Ending
pub mod Advance
pub mod Crew
use web3_lab_public.Prelude.{
  String, Bool, true, false, if◌then◌else◌, [], ◌∷◌, ◌++◌, ◌≡◌, ◌∙◌, refl,
}
use web3_lab_public.Browser
use web3_lab_public.Browser.{
  Trace, Event, Reply, ok, thrown, World, Io, ask, catch, finally, set, ◌>>=◌,
}

pub data Program (S A : Type 0) : Type 1 where
  give : A → Program S A
  fail : String → Program S A
  update : (S → S) → Program S A → Program S A
  -- a request whose promise nobody waits for
  post : Event → Program S A → Program S A
  -- an `await` of a promise that is settled
  pause : Program S A → Program S A
  -- an `await` of an answer from outside
  query : {B : Type 0} → Event → (Trace → Reply B) → (Reply B → Program S A) → Program S A

module _ {S : Type 0} where
  abbrev pub settled : {A : Type 0} → Reply A → Program S A
  settled (ok a) = Program.give a
  settled (thrown e) = Program.fail e

  unfoldable pub run : {A : Type 0} → Program S A → Io S A
  run (Program.give a) w = (ok a, w)
  run (Program.fail e) w = (thrown e, w)
  run (Program.update f p) w = run p (record w { state = f w.state })
  run (Program.post e p) w = run p (record w { trace = w.trace ++ e ∷ [] })
  run (Program.pause p) w = run p w
  run (Program.query e answer k) w =
      run (k (answer w.trace)) (record w { trace = w.trace ++ e ∷ [] })

  unfoldable pub bind : {A B : Type 0} → Program S A → (A → Program S B) → Program S B
  bind (Program.give a) h = h a
  bind (Program.fail e) h = Program.fail e
  bind (Program.update f p) h = Program.update f (bind p h)
  bind (Program.post e p) h = Program.post e (bind p h)
  bind (Program.pause p) h = Program.pause (bind p h)
  bind (Program.query e answer k) h = Program.query e answer (λ r. bind (k r) h)

  -- `try { p } catch (e) { h e }`
  unfoldable pub recover : {A : Type 0} → Program S A → (String → Program S A) → Program S A
  recover (Program.give a) h = Program.give a
  recover (Program.fail e) h = h e
  recover (Program.update f p) h = Program.update f (recover p h)
  recover (Program.post e p) h = Program.post e (recover p h)
  recover (Program.pause p) h = Program.pause (recover p h)
  recover (Program.query e answer k) h = Program.query e answer (λ r. recover (k r) h)

  -- `try { p } finally { set(f) }`
  unfoldable pub ensure : {A : Type 0} → (S → S) → Program S A → Program S A
  ensure f (Program.give a) = Program.update f (Program.give a)
  ensure f (Program.fail e) = Program.update f (Program.fail e)
  ensure f (Program.update g p) = Program.update g (ensure f p)
  ensure f (Program.post e p) = Program.post e (ensure f p)
  ensure f (Program.pause p) = Program.pause (ensure f p)
  ensure f (Program.query e answer k) = Program.query e answer (λ r. ensure f (k r))

  pub run-bind :
      {A B : Type 0} (p : Program S A) (h : A → Program S B) (w : World S)
      → run (bind p h) w ≡ (run p >>= (λ a. run (h a))) w
  unfolding run bind
  run-bind (Program.give a) h w = refl
  run-bind (Program.fail e) h w = refl
  run-bind (Program.update f p) h w = run-bind p h (record w { state = f w.state })
  run-bind (Program.post e p) h w = run-bind p h (record w { trace = w.trace ++ e ∷ [] })
  run-bind (Program.pause p) h w = run-bind p h w
  run-bind (Program.query e answer k) h w =
      run-bind (k (answer w.trace)) h (record w { trace = w.trace ++ e ∷ [] })

  pub run-recover :
      {A : Type 0} (p : Program S A) (h : String → Program S A) (w : World S)
      → run (recover p h) w ≡ catch (run p) (λ e. run (h e)) w
  unfolding run recover
  run-recover (Program.give a) h w = refl
  run-recover (Program.fail e) h w = refl
  run-recover (Program.update f p) h w = run-recover p h (record w { state = f w.state })
  run-recover (Program.post e p) h w = run-recover p h (record w { trace = w.trace ++ e ∷ [] })
  run-recover (Program.pause p) h w = run-recover p h w
  run-recover (Program.query e answer k) h w =
      run-recover (k (answer w.trace)) h (record w { trace = w.trace ++ e ∷ [] })

  pub run-ensure :
      {A : Type 0} (f : S → S) (p : Program S A) (w : World S)
      → run (ensure f p) w ≡ finally (run p) (set f) w
  unfolding run ensure
  run-ensure f (Program.give a) w = refl
  run-ensure f (Program.fail e) w = refl
  run-ensure f (Program.update g p) w = run-ensure f p (record w { state = g w.state })
  run-ensure f (Program.post e p) w = run-ensure f p (record w { trace = w.trace ++ e ∷ [] })
  run-ensure f (Program.pause p) w = run-ensure f p w
  run-ensure f (Program.query e answer k) w =
      run-ensure f (k (answer w.trace)) (record w { trace = w.trace ++ e ∷ [] })

  -- The parts of a sequence run as other effects do.
  pub run-bind-as :
      {A B : Type 0} (p : Program S A) (h : A → Program S B) (m : Io S A) (f : A → Io S B)
      (w : World S)
      → run p w ≡ m w
      → ((a : A) (v : World S) → run (h a) v ≡ f a v)
      → run (bind p h) w ≡ (m >>= f) w
  run-bind-as {A} p h m f w e k = run-bind p h w ∙ rw e (go (m w))
    where
      go : (r : Reply A × World S) → Browser.resume r (λ a. run (h a)) ≡ Browser.resume r f
      go (ok a, v) = k a v
      go (thrown x, v) = refl

  -- An error is handled as other effects handle it.
  pub run-recover-as :
      {A : Type 0} (p : Program S A) (h : String → Program S A) (m : Io S A) (f : String → Io S A)
      (w : World S)
      → run p w ≡ m w
      → ((e : String) (v : World S) → run (h e) v ≡ f e v)
      → run (recover p h) w ≡ catch m f w
  run-recover-as {A} p h m f w e k = run-recover p h w ∙ rw e (go (m w))
    where
      go : (r : Reply A × World S) → Browser.recover r (λ x. run (h x)) ≡ Browser.recover r f
      go (ok a, v) = refl
      go (thrown x, v) = k x v

  -- A question whose answer is used, or whose error is passed on.
  pub run-settled-as :
      {A B : Type 0} (r : Reply A) (h : A → Program S B) (f : A → Io S B) (w : World S)
      → ((a : A) (v : World S) → run (h a) v ≡ f a v)
      → run (bind (settled r) h) w ≡ Browser.resume (r, w) f
  unfolding run bind
  run-settled-as (ok a) h f w k = k a w
  run-settled-as (thrown e) h f w k = refl

  pub run-query-as :
      {A B : Type 0} (e : Event) (answer : Trace → Reply A) (h : A → Program S B) (f : A → Io S B)
      (w : World S)
      → ((a : A) (v : World S) → run (h a) v ≡ f a v)
      → run (Program.query e answer (λ r. bind (settled r) h)) w ≡ (ask e answer >>= f) w
  unfolding run
  run-query-as e answer h f w k =
      run-settled-as (answer w.trace) h f (record w { trace = w.trace ++ e ∷ [] }) k

  pub run-choice-as :
      {A : Type 0} (b : Bool) (p q : Program S A) (m n : Io S A) (w : World S)
      → run p w ≡ m w
      → run q w ≡ n w
      → run (if b then p else q) w ≡ (if b then m else n) w
  run-choice-as true p q m n w h k = h
  run-choice-as false p q m n w h k = k
