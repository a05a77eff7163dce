-- ===== src/Site/Change.antt =====
-- The machine with one session's token, and the steps that the callback page takes of it.
use web3_lab_public.Prelude.{
  String, Bool, true, false, ◌&&◌, ◌==◌, Option, none, some, ◌≡◌, refl, arith, is_present,
  option_or, if◌then◌else◌,
}
use web3_lab_public.Prelude.Dict
use web3_lab_public.Prelude.Dict.{Dict}
use web3_lab_public.Browser.{Reply, ok, thrown, Trace, Response, World}
use web3_lab_public.Dashboard.Identities.{session}
use web3_lab_public.Callback
use web3_lab_public.Callback.{Callback, TokenBody, token_request, on_code}
use web3_lab_public.Callback.Laws.{granted, usable, stored_after, on_code-storage, on_code-without}

pub data Change (Grants : String → Type 0) : Option String → Option String → Type 0 where
  keep : (s : Option String) → Change Grants s s
  enter : (s : Option String) (token : String) → Grants token → Change Grants s (some token)
  leave : (s : Option String) → Change Grants s none

-- The gateway's answer to some code has the token.
pub record IsGranted (env : Callback.Services) (token : String) : Type 0 where
  pub code : String
  pub before : Trace
  pub body : TokenBody
  pub answered : granted (env.token before (token_request env code)) ≡ some body
  pub is_token : session body.access_token ≡ some token

-- The session's token that a storage holds.
abbrev pub access : Dict → Option String
access d = session (Dict.lookup "access_token" d)

usable-session :
    (j : Reply TokenBody) (body : TokenBody)
    → usable j ≡ some body
    → session body.access_token ≡ some (option_or body.access_token "")
usable-session (thrown m) body e = cc
usable-session (ok b) body e = go b.access_token refl
  where
    go :
        (o : Option String)
        → b.access_token ≡ o
        → session body.access_token ≡ some (option_or body.access_token "")
    go none h = ground (arith, e)
    go (some String.[]) h = ground (arith, e)
    go (some (String.◌∷◌ c s)) h = ground (arith, e)

granted-session :
    (r : Reply (Response TokenBody)) (body : TokenBody)
    → granted r ≡ some body
    → session body.access_token ≡ some (option_or body.access_token "")
granted-session (thrown m) body e = cc
granted-session (ok res) body e = usable-session res.json body e

new-session :
    (access : Option String) (b : Bool) (id new : Option String)
    → session access ≡ some (option_or access "")
    → new ≡ (if b && "id_token" == "access_token" then id else some (option_or access ""))
    → session new ≡ some (option_or access "")
new-session none b id new e k = cc
new-session (some String.[]) b id new e k = cc
new-session (some (String.◌∷◌ c s)) true id new e k = rw k refl
new-session (some (String.◌∷◌ c s)) false id new e k = rw k refl

-- The session after an exchange that grants a token.
pub entered-session :
    (r : Reply (Response TokenBody)) (body : TokenBody) (old new : Option String)
    → granted r ≡ some body
    → new ≡ stored_after (some body) "access_token" old
    → session new ≡ some (option_or body.access_token "")
entered-session r body old new e k =
    new-session body.access_token (is_present body.id_token) (some (option_or body.id_token "")) new
      (granted-session r body e) k

module _ (env : Callback.Services) where
  exchanged-Change :
      (code : String) (before : Trace) (old new : Option String) (o : Option TokenBody)
      → granted (env.token before (token_request env code)) ≡ o
      → new ≡ stored_after o "access_token" old
      → Change (IsGranted env) (session old) (session new)
  exchanged-Change code before old new none e k = rw k (Change.keep _)
  exchanged-Change code before old new (some body) e k = rw (entered-session _ body old new e k) (
      Change.enter _ (option_or body.access_token "") (record {
        code = code;
        before = before;
        body = body;
        answered = e;
        is_token = granted-session _ body e;
      }))

  pub on_code-Change :
      (code : Option String) (w : World Callback)
      → Change (IsGranted env) (access w.storage) (access (on_code env code w).1.storage)
  on_code-Change none w = rw (on_code-without env none w refl) (Change.keep _)
  on_code-Change (some String.[]) w = rw (on_code-without env (some "") w refl) (Change.keep _)
  on_code-Change (some (String.◌∷◌ c s)) w =
      let code = String.◌∷◌ c s in
      exchanged-Change code w.trace (Dict.lookup "access_token" w.storage) _ _ refl
        (on_code-storage env code w "access_token" refl).1
