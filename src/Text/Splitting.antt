-- ===== src/Text/Splitting.antt =====
-- What `split` makes of a text with one separator.
use text.Mathlib.TextLemmas.{nil-append, cons-append, append_assoc, append-nil}
use web3_lab_public.Prelude.{
  ℕ, String, Bool, true, false, [], ◌∷◌, ◌≡◌, refl, ◌<>◌, nat_eq, Char, code, arith, if◌then◌else◌,
}
use web3_lab_public.Text.{split_rest, split}

-- Whether the separator does not occur.
abbrev pub lacks : ℕ → String → Bool
lacks sep String.[] = true
lacks sep (String.◌∷◌ c s) = if nat_eq (code c) sep then false else lacks sep s

extend : (cur s : String) (c : Char) → (cur <> String.◌∷◌ c "") <> s ≡ cur <> String.◌∷◌ c s
extend cur s c = rw (append_assoc cur (String.◌∷◌ c "") s, cons-append c "" s, nil-append s) refl

split_rest-last :
    (sep : ℕ) (cur s : String) → lacks sep s ≡ true → split_rest sep cur s ≡ (cur <> s) ∷ []
unfolding split_rest
split_rest-last sep cur String.[] h = rw (append-nil cur) refl
split_rest-last sep cur (String.◌∷◌ c s) h =
    ground (arith, split_rest-last sep (cur <> String.◌∷◌ c "") s, extend cur s c)

split_rest-first :
    (sep : ℕ) (cur s : String) (d : Char) (t : String)
    → lacks sep s ≡ true
    → nat_eq (code d) sep ≡ true
    → split_rest sep cur (s <> String.◌∷◌ d t) ≡ (cur <> s) ∷ split_rest sep "" t
unfolding split_rest
split_rest-first sep cur String.[] d t h e =
    rw (nil-append (String.◌∷◌ d t), append-nil cur, e) refl
split_rest-first sep cur (String.◌∷◌ c s) d t h e =
    rw (cons-append c s (String.◌∷◌ d t))
      (ground (arith, split_rest-first sep (cur <> String.◌∷◌ c "") s d t, extend cur s c, e))

pub split-two :
    (sep : ℕ) (a b : String) (d : Char)
    → lacks sep a ≡ true
    → lacks sep b ≡ true
    → nat_eq (code d) sep ≡ true
    → split sep (a <> String.◌∷◌ d b) ≡ a ∷ b ∷ []
unfolding split
split-two sep a b d h k e =
    rw (split_rest-first sep "" a d b h e, split_rest-last sep "" b k, nil-append a, nil-append b)
      refl
