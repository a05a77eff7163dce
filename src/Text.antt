-- ===== src/Text.antt =====
-- The methods of JavaScript's strings that the pages call. Texts are sequences of characters, which
-- agree with UTF-16 units on the addresses, hashes, amounts and file names handled here;
-- `to_lower_case` changes the letters A to Z, the only ones with a case in those.
pub mod Splitting
use web3_lab_public.Prelude.{
  ℕ, zero, suc, ◌-◌, ◌/◌, ◌%◌, ◌≡◌, refl, Char, code, String, Bool, true, false, ◌&&◌, ◌||◌, List,
  [], ◌∷◌, Option, none, some, ◌<>◌, leb, ltb, nat_eq, if◌then◌else◌,
}
use text.Mathlib.Text.{starts_with}

abbrev pub length_of : String → ℕ
length_of String.[] = 0
length_of (String.◌∷◌ c s) = suc (length_of s)

letter_from : String → String → Char → Char
letter_from (String.◌∷◌ u us) (String.◌∷◌ l ls) c =
    if nat_eq (code c) (code u) then l else letter_from us ls c
letter_from _ _ c = c

lower_char : Char → Char
unfolding letter_from
lower_char = letter_from "ABCDEFGHIJKLMNOPQRSTUVWXYZ" "abcdefghijklmnopqrstuvwxyz"

unfoldable pub to_lower_case : String → String
unfolding lower_char
to_lower_case String.[] = ""
to_lower_case (String.◌∷◌ c s) = String.◌∷◌ (lower_char c) (to_lower_case s)

upper_char : Char → Char
unfolding letter_from
upper_char = letter_from "abcdefghijklmnopqrstuvwxyz" "ABCDEFGHIJKLMNOPQRSTUVWXYZ"

unfoldable pub to_upper_case : String → String
unfolding upper_char
to_upper_case String.[] = ""
to_upper_case (String.◌∷◌ c s) = String.◌∷◌ (upper_char c) (to_upper_case s)

-- `s.slice(0, n)`, `s.slice(n)`, `s.slice(-n)`
unfoldable pub slice_to : ℕ → String → String
slice_to zero s = ""
slice_to (suc n) String.[] = ""
slice_to (suc n) (String.◌∷◌ c s) = String.◌∷◌ c (slice_to n s)

unfoldable pub slice_from : ℕ → String → String
slice_from zero s = s
slice_from (suc n) String.[] = ""
slice_from (suc n) (String.◌∷◌ c s) = slice_from n s

unfoldable pub slice_last : ℕ → String → String
unfolding slice_from
slice_last n s = slice_from (length_of s - n) s

-- `s.split(sep)` for a separator of one character; `cur` is the part that is being read.
pub split_rest : ℕ → String → String → List String
split_rest sep cur String.[] = cur ∷ []
split_rest sep cur (String.◌∷◌ c s) =
    let longer = split_rest sep (cur <> String.◌∷◌ c "") s in
    let closed = cur ∷ split_rest sep "" s in if nat_eq (code c) sep then closed else longer

unfoldable pub split : ℕ → String → List String
unfolding split_rest
split sep s = split_rest sep "" s

-- `parts.pop()` of a list: its last element.
unfoldable pub last? : List String → Option String
last? [] = none
last? (x ∷ []) = some x
last? (x ∷ y ∷ r) = last? (y ∷ r)

-- `parts[1]`
abbrev pub second? : List String → Option String
second? (_ ∷ y ∷ _) = some y
second? _ = none

-- `s.replace(c, '')` takes out the first occurrence.
unfoldable pub remove_first : ℕ → String → String
remove_first c String.[] = ""
remove_first c (String.◌∷◌ d s) = if nat_eq (code d) c then s else String.◌∷◌ d (remove_first c s)

-- `s.includes(t)`
unfoldable pub includes : String → String → Bool
includes String.[] t = starts_with "" t
includes (String.◌∷◌ c s) t = starts_with (String.◌∷◌ c s) t || includes s t

-- The character class `[a-fA-F0-9]`.
abbrev pub is_hex : ℕ → Bool
is_hex c = leb b'0' c && leb c b'9' || leb b'a' c && leb c b'f' || leb b'A' c && leb c b'F'

-- `/^[a-fA-F0-9]{n}$/`
unfoldable pub is_hex_run : ℕ → String → Bool
is_hex_run zero String.[] = true
is_hex_run zero (String.◌∷◌ c s) = false
is_hex_run (suc n) String.[] = false
is_hex_run (suc n) (String.◌∷◌ c s) = is_hex (code c) && is_hex_run n s

-- `/^0x[a-fA-F0-9]{n}$/`
unfoldable pub is_hex_number : ℕ → String → Bool
unfolding is_hex_run
is_hex_number n (String.◌∷◌ z (String.◌∷◌ x s)) =
    nat_eq (code z) b'0' && nat_eq (code x) b'x' && is_hex_run n s
is_hex_number n _ = false

-- `n.toString()` of a number that is not negative
digit : ℕ → String
digit zero = "0"
digit (suc zero) = "1"
digit (suc (suc zero)) = "2"
digit (suc (suc (suc zero))) = "3"
digit (suc (suc (suc (suc zero)))) = "4"
digit (suc (suc (suc (suc (suc zero))))) = "5"
digit (suc (suc (suc (suc (suc (suc zero)))))) = "6"
digit (suc (suc (suc (suc (suc (suc (suc zero))))))) = "7"
digit (suc (suc (suc (suc (suc (suc (suc (suc zero)))))))) = "8"
digit _ = "9"

print_from : ℕ → ℕ → String
unfolding digit
print_from zero n = ""
print_from (suc fuel) n =
    let more = print_from fuel (n / 10) in if ltb n 10 then digit n else more <> digit (n % 10)

-- A number has fewer digits than its value plus one.
unfoldable pub print : ℕ → String
unfolding print_from
print n = print_from (suc n) n

print_test : print 10247 ≡ "10247"
unfolding print
print_test = refl

lower_test : to_lower_case "0xAbZ9" ≡ "0xabz9"
unfolding to_lower_case
lower_test = refl

split_test : split b'.' "a.b.PNG" ≡ "a" ∷ "b" ∷ "PNG" ∷ []
unfolding split
split_test = refl

slice_last_test : slice_last 4 "0x123456" ≡ "3456"
unfolding slice_last
slice_last_test = refl
