-- ===== src/Scripts/Quiet.antt =====
-- Effects of the scripts that write no file and leave the process as it is, and how they compose.
use web3_lab_public.Prelude.{
  ℕ, suc, ◌+◌, String, List, [], ◌∷◌, ◌++◌, Option, ◌≡◌, refl, ◌∙◌, ap, ◌⊎◌, inl, inr, arith,
}
use web3_lab_public.Browser
use web3_lab_public.Browser.{
  Reply, ok, thrown, Io, World, Trace, Event, written, called, pure, throw, ask, emit, ◌>>=◌, ◌>>◌,
}
use web3_lab_public.Scripts.Chain.{
  Chain, Process, run_main, artifact, deploy_contract, send, call_view, get_signer,
}

-- The number of files written.
unfoldable pub writes : Trace → ℕ
writes [] = 0
writes (written file content ∷ t) = suc (writes t)
writes (_ ∷ t) = writes t

pub writes-append : (s t : Trace) → writes (s ++ t) ≡ writes s + writes t
unfolding writes
writes-append [] t = ground arith
writes-append (e ∷ s) t = ground (arith, writes-append s t)

pub record IsUnchanged {A : Type 0} (w : World Process) (r : Reply A × World Process) : Type 0 where
  pub state_kept : r.1.state ≡ w.state
  pub none_written : writes r.1.trace ≡ writes w.trace

abbrev pub IsQuiet : {A : Type 0} → Io Process A → Type 0
IsQuiet m = (w : World Process) → IsUnchanged w (m w)

pub pure-IsQuiet : {A : Type 0} (a : A) → IsQuiet (pure a)
pure-IsQuiet a w = record { state_kept = refl; none_written = refl }

pub throw-IsQuiet : {A : Type 0} (e : String) → IsQuiet {A = A} (throw e)
throw-IsQuiet e w = record { state_kept = refl; none_written = refl }

pub bind-IsQuiet :
    {A B : Type 0} {m : Io Process A} {f : A → Io Process B}
    → IsQuiet m
    → ((a : A) → IsQuiet (f a))
    → IsQuiet (m >>= f)
bind-IsQuiet {A} {B} {m} {f} q k w = go (m w) (q w)
  where
    go : (r : Reply A × World Process) → IsUnchanged w r → IsUnchanged w (Browser.resume r f)
    go (ok a, v) u = record {
      state_kept = (k a v).state_kept ∙ u.state_kept;
      none_written = (k a v).none_written ∙ u.none_written;
    }
    go (thrown e, v) u = record { state_kept = u.state_kept; none_written = u.none_written }

pub then-IsQuiet :
    {A B : Type 0} {m : Io Process A} {f : Io Process B} → IsQuiet m → IsQuiet f → IsQuiet (m >> f)
then-IsQuiet {A} {B} {m} {f} q k = bind-IsQuiet {f = λ _. f} q (λ _. k)

pub ask-IsQuiet :
    {A : Type 0} (e : Event) (answer : Trace → Reply A)
    → writes (e ∷ []) ≡ 0
    → IsQuiet (ask e answer)
ask-IsQuiet e answer h w = record {
  state_kept = refl;
  none_written = omega (arith, h, writes-append w.trace (e ∷ []));
}

module _ (chain : Chain) where
  pub artifact-IsQuiet : (name : String) → IsQuiet (artifact chain name)
  unfolding artifact writes
  artifact-IsQuiet name =
      ask-IsQuiet (called "artifacts" "readArtifact" (name ∷ [])) (λ t. chain.read_artifact t name)
        refl

  pub send-IsQuiet :
      (contract function : String) (args : List String)
      → IsQuiet (send chain contract function args)
  unfolding send writes
  send-IsQuiet contract function args = ask-IsQuiet _ _ refl

  pub call_view-IsQuiet :
      (contract function : String) (args : List String)
      → IsQuiet (call_view chain contract function args)
  unfolding call_view writes
  call_view-IsQuiet contract function args = ask-IsQuiet _ _ refl

  pub get_signer-IsQuiet : (key : Option String) → IsQuiet (get_signer chain key)
  unfolding get_signer writes
  get_signer-IsQuiet key = ask-IsQuiet _ _ refl

  pub deploy_contract-IsQuiet :
      (name : String) (args : List String) → IsQuiet (deploy_contract chain name args)
  unfolding deploy_contract artifact writes
  deploy_contract-IsQuiet name args =
      then-IsQuiet {A = Unit {0}}
        (ask-IsQuiet (called "artifacts" "readArtifact" (name ∷ []))
          (λ t. chain.read_artifact t name) refl)
        (bind-IsQuiet (ask-IsQuiet (called name "deploy" args) (λ t. chain.deploy t name args) refl)
          (λ address.
            then-IsQuiet {A = Unit {0}}
              (ask-IsQuiet (called address "waitForDeployment" [])
                (λ t. chain.wait_for_deployment t address) refl)
              (pure-IsQuiet address)))

-- What a script's run leaves when its last step is to write one file: the exit code tells whether
-- it was written.
pub record IsReported (w : World Process) (r : Reply (Unit {0}) × World Process) : Type 0 where
  pub result : r.0 ≡ ok tt
  pub outcome :
      ((r.1.state ≡ w.state) × (writes r.1.trace ≡ suc (writes w.trace)))
      ⊎ ((r.1.state.exit_code ≡ 1) × (writes r.1.trace ≡ writes w.trace))

-- What stands before `run_main` has caught the error.
pub record IsWriting (w : World Process) (r : Reply (Unit {0}) × World Process) : Type 0 where
  pub state_kept : r.1.state ≡ w.state
  pub on_value : (u : Unit {0}) → r.0 ≡ ok u → writes r.1.trace ≡ suc (writes w.trace)
  pub on_error : (e : String) → r.0 ≡ thrown e → writes r.1.trace ≡ writes w.trace

pub emit-IsWriting :
    (file : String) (content : List (String × String)) (w : World Process)
    → IsWriting w (emit (written file content) w)
unfolding writes
emit-IsWriting file content w = record {
  state_kept = refl;
  on_value = λ u e. omega (arith, writes-append w.trace (written file content ∷ []));
  on_error = λ e h. cc;
}

pub quiet-IsWriting :
    {A : Type 0} {m : Io Process A} {f : A → Io Process (Unit {0})}
    → IsQuiet m
    → ((a : A) (w : World Process) → IsWriting w (f a w))
    → (w : World Process) → IsWriting w ((m >>= f) w)
quiet-IsWriting {A} {m} {f} q k w = go (m w) (q w)
  where
    go : (r : Reply A × World Process) → IsUnchanged w r → IsWriting w (Browser.resume r f)
    go (ok a, v) u = record {
      state_kept = (k a v).state_kept ∙ u.state_kept;
      on_value = λ x e. (k a v).on_value x e ∙ ap (λ n. suc n) u.none_written;
      on_error = λ x e. (k a v).on_error x e ∙ u.none_written;
    }
    go (thrown e, v) u = record {
      state_kept = u.state_kept;
      on_value = λ x h. cc;
      on_error = λ x h. u.none_written;
    }

pub throw-IsWriting : (e : String) (w : World Process) → IsWriting w (throw {A = Unit {0}} e w)
throw-IsWriting e w = record { state_kept = refl; on_value = λ u h. cc; on_error = λ u h. refl }

pub run_main-IsReported :
    (m : Io Process (Unit {0})) (w : World Process)
    → IsWriting w (m w)
    → IsReported w (run_main m w)
run_main-IsReported m w h = go (m w) h
  where
    go :
        (r : Reply (Unit {0}) × World Process)
        → IsWriting w r
        → IsReported w (Browser.recover r (λ _. Browser.set (λ p. record p { exit_code = 1 })))
    go (ok tt, v) i = record { result = refl; outcome = inl (i.state_kept, i.on_value tt refl) }
    go (thrown e, v) i = record { result = refl; outcome = inr (refl, i.on_error e refl) }
