-- ===== src/Prelude/Text.antt =====
-- The functions of Go's `strings` and `regexp` packages that the code calls, over code points.
-- The separators and patterns are ASCII, so this agrees with Go's bytes on valid UTF-8.
pub mod Laws
use Prim.Native.Char.{Char, code}
use Prim.Native.Nat.{ℕ, zero, suc, ◌+◌, ◌/◌, ◌%◌}
use Prim.Native.String
use Prim.Native.String.{String}
use mathlib.Core.Bool.{Bool, true, false, not, ◌&&◌, ◌||◌}
use mathlib.Core.List.{List, [], ◌∷◌, ◌++◌}
use mathlib.Core.Option.{Option, none, some}
use oadp_operator.Prelude.Tests.{nat_eq, ltb, leb, ◌==◌, if◌then◌else◌}

abbrev pub append : String → String → String
append s t = String.◌++◌ s t

abbrev pub same_char : Char → Char → Bool
same_char c d = nat_eq (code c) (code d)

-- strings.HasPrefix(s, p)
unfoldable pub has_prefix : String → String → Bool
has_prefix s String.[] = true
has_prefix String.[] (String.◌∷◌ c p) = false
has_prefix (String.◌∷◌ d s) (String.◌∷◌ c p) = same_char d c && has_prefix s p

-- strings.HasSuffix(s, t)
unfoldable pub has_suffix : String → String → Bool
has_suffix String.[] t = t == ""
has_suffix (String.◌∷◌ c s) t = String.◌∷◌ c s == t || has_suffix s t

-- strings.Contains(s, t)
unfoldable pub contains_text : String → String → Bool
contains_text String.[] t = has_prefix "" t
contains_text (String.◌∷◌ c s) t = has_prefix (String.◌∷◌ c s) t || contains_text s t

-- strings.TrimPrefix(s, p)
unfoldable pub strip_prefix : String → String → Option String
strip_prefix s String.[] = some s
strip_prefix String.[] (String.◌∷◌ c p) = none
strip_prefix (String.◌∷◌ d s) (String.◌∷◌ c p) = if same_char d c then strip_prefix s p else none

-- strings.CutSuffix(s, t)
unfoldable pub strip_suffix : String → String → Option String
strip_suffix String.[] t = if t == "" then some "" else none
strip_suffix (String.◌∷◌ c s) t =
    if String.◌∷◌ c s == t
    then some ""
    else elim (strip_suffix s t) [ none ↦ none | some r ↦ some (String.◌∷◌ c r) ]

unfoldable pub trim_prefix : String → String → String
unfolding strip_prefix
trim_prefix s p = elim (strip_prefix s p) [ none ↦ s | some r ↦ r ]

abbrev cons_head : Char → List String → List String
cons_head c [] = String.◌∷◌ c "" ∷ []
cons_head c (w ∷ ws) = String.◌∷◌ c w ∷ ws

-- strings.Split(s, sep) for a separator of one character, given by its code
unfoldable pub split : ℕ → String → List String
split sep String.[] = "" ∷ []
split sep (String.◌∷◌ c s) =
    let rest = split sep s in if nat_eq (code c) sep then "" ∷ rest else cons_head c rest

-- strings.ReplaceAll(s, x, "") for a text x of one character, given by its code
unfoldable pub remove_char : ℕ → String → String
remove_char x String.[] = ""
remove_char x (String.◌∷◌ c s) =
    let rest = remove_char x s in if nat_eq (code c) x then rest else String.◌∷◌ c rest

abbrev is_space : ℕ → Bool
is_space c =
    nat_eq c b' '
    || (leb 9 c && leb c 13)
    || nat_eq c 0x85
    || nat_eq c 0xa0
    || nat_eq c 0x1680
    || (leb 0x2000 c && leb c 0x200a)
    || nat_eq c 0x2028
    || nat_eq c 0x2029
    || nat_eq c 0x202f
    || nat_eq c 0x205f
    || nat_eq c 0x3000

trim_left : String → String
trim_left String.[] = ""
trim_left (String.◌∷◌ c s) =
    let rest = trim_left s in if is_space (code c) then rest else String.◌∷◌ c s

trim_right : String → String
trim_right String.[] = ""
trim_right (String.◌∷◌ c s) =
    let rest = trim_right s in if rest == "" && is_space (code c) then "" else String.◌∷◌ c rest

-- strings.TrimSpace(s)
unfoldable pub trim_space : String → String
unfolding trim_left trim_right
trim_space s = trim_right (trim_left s)

-- strings.ReplaceAll(s, "\r\n", "\n"): a return is dropped where a new line follows it.
unfoldable pub replace_crlf : String → String
replace_crlf String.[] = ""
replace_crlf (String.◌∷◌ c s) =
    let rest = replace_crlf s in
    if nat_eq (code c) 13 && has_prefix s "\n" then rest else String.◌∷◌ c rest

has_char : ℕ → String → Bool
has_char x String.[] = false
has_char x (String.◌∷◌ c s) = nat_eq (code c) x || has_char x s

-- the regular expression `\[.*\]` on a text with no new line
unfoldable pub has_brackets : String → Bool
unfolding has_char
has_brackets String.[] = false
has_brackets (String.◌∷◌ c s) = (nat_eq (code c) b'[' && has_char b']' s) || has_brackets s

abbrev is_word : ℕ → Bool
is_word c =
    (leb b'a' c && leb c b'z')
    || (leb b'A' c && leb c b'Z')
    || (leb b'0' c && leb c b'9')
    || nat_eq c b'_'

abbrev starts_word : String → Bool
starts_word String.[] = false
starts_word (String.◌∷◌ c s) = is_word (code c)

abbrev word_here : String → String → Bool
word_here s w = elim (strip_prefix s w) [ none ↦ false | some r ↦ not (starts_word r) ]

word_after : Bool → String → String → Bool
word_after in_word String.[] w = not in_word && word_here "" w
word_after in_word (String.◌∷◌ c s) w =
    (not in_word && word_here (String.◌∷◌ c s) w) || word_after (is_word (code c)) s w

-- the regular expression `\bw\b` for a w that begins and ends with word characters
unfoldable pub has_whole_word : String → String → Bool
unfolding word_after strip_prefix
has_whole_word s w = word_after false s w

nth_digit : List String → ℕ → String
nth_digit [] n = ""
nth_digit (d ∷ ds) zero = d
nth_digit (d ∷ ds) (suc n) = nth_digit ds n

last_digit : ℕ → String
unfolding nth_digit
last_digit n = nth_digit ("0" ∷ "1" ∷ "2" ∷ "3" ∷ "4" ∷ "5" ∷ "6" ∷ "7" ∷ "8" ∷ "9" ∷ []) (n % 10)

-- The digits in front of `shown`; nothing stands in front where no tens are left.
digits_before : ℕ → ℕ → String → String
unfolding last_digit
digits_before zero n shown = shown
digits_before (suc rounds) n shown = elim (n / 10) [
  | zero ↦ append (last_digit n) shown
  | suc tens ↦ digits_before rounds (suc tens) (append (last_digit n) shown)
]

-- the verb %d on a number that is not negative; n + 1 rounds suffice
unfoldable pub decimal : ℕ → String
unfolding digits_before
decimal n = digits_before (n + 1) n ""

abbrev is_bracket : ℕ → Bool
is_bracket c = nat_eq c b'[' || nat_eq c b']' || nat_eq c b' '

trim_left_brackets : String → String
trim_left_brackets String.[] = ""
trim_left_brackets (String.◌∷◌ c s) =
    let rest = trim_left_brackets s in if is_bracket (code c) then rest else String.◌∷◌ c s

trim_right_brackets : String → String
trim_right_brackets String.[] = ""
trim_right_brackets (String.◌∷◌ c s) =
    let rest = trim_right_brackets s in
    if rest == "" && is_bracket (code c) then "" else String.◌∷◌ c rest

-- strings.Trim(s, "[] ")
unfoldable pub trim_brackets : String → String
unfolding trim_left_brackets trim_right_brackets
trim_brackets s = trim_right_brackets (trim_left_brackets s)
