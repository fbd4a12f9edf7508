-- ===== src/Text.antt =====
-- The functions of Go's `strings`, `strconv` and `path/filepath` that the program calls.
pub mod Laws
use Prim.Native.Char.{Char, code}
use Prim.Native.String
use pzsvc_exec.Prelude.{
  ℕ, zero, suc, ◌+◌, ◌-◌, ◌*◌, ◌/◌, ◌%◌, ◌^◌, String, ◌<>◌, ◌==◌, Bool, true, false, ◌&&◌, ◌||◌,
  Option, none, some, List, [], ◌∷◌, ltb, leb, nat_eq, if◌then◌else◌, is_some,
}
use pzsvc_exec.Prelude.Int.{ℤ, pos, negsuc}

-- strings.Join
unfoldable pub join : List String → String → String
join [] sep = ""
join (x ∷ []) sep = x
join (x ∷ y ∷ xs) sep = x <> sep <> join (y ∷ xs) sep

-- What follows the prefix, if the text has it.
unfoldable pub strip_prefix : String → String → Option String
strip_prefix String.[] s = some s
strip_prefix (String.◌∷◌ d p) String.[] = none
strip_prefix (String.◌∷◌ d p) (String.◌∷◌ c s) =
    if nat_eq (code d) (code c) then strip_prefix p s else none

-- The text before and after the first place where `sep` stands.
unfoldable pub cut : String → String → Option (String × String)
unfolding strip_prefix
cut sep String.[] = elim (strip_prefix sep String.[]) [ some rest ↦ some ("", rest) | none ↦ none ]
cut sep (String.◌∷◌ c s) =
    let later = cut sep s in
    elim (strip_prefix sep (String.◌∷◌ c s)) [
      | some rest ↦ some ("", rest)
      | none ↦ elim later [ none ↦ none | some (before, after) ↦ some (String.◌∷◌ c before, after) ]
    ]

-- strings.Contains
unfoldable pub contains : String → String → Bool
unfolding cut
contains s sub = is_some (cut sub s)

-- strings.SplitN(s, sep, 2), where `sep` is not empty
unfoldable pub split_two : String → String → List String
unfolding cut
split_two s sep = elim (cut sep s) [ none ↦ s ∷ [] | some (a, b) ↦ a ∷ b ∷ [] ]

split_fuel : ℕ → String → String → List String
split_fuel zero s sep = s ∷ []
split_fuel (suc f) s sep = elim (cut sep s) [ none ↦ s ∷ [] | some (a, b) ↦ a ∷ split_fuel f b sep ]

-- strings.Split, where `sep` is not empty. Each separator takes a character, so the fuel is enough.
unfoldable pub split : String → String → List String
unfolding split_fuel cut
split s sep = split_fuel (suc (String.count s)) s sep

-- strings.Replace(s, old, "", -1), where `old` is not empty
unfoldable pub remove_all : String → String → String
unfolding split join
remove_all s old = join (split s old) ""

last_or : String → List String → String
last_or d [] = d
last_or d (x ∷ xs) = last_or x xs

-- The last piece of strings.SplitAfter, if there are two or more.
unfoldable pub after_last : String → String → Option String
unfolding split last_or
after_last s sep = elim (split s sep) [
  | [] ↦ none
  | x ∷ rest ↦ elim rest [ [] ↦ none | y ∷ more ↦ some (last_or y more) ]
]

-- unicode.IsSpace
is_space : ℕ → Bool
is_space c =
    (leb 9 c && leb c 13)
    || nat_eq c 32
    || nat_eq c 0x85
    || nat_eq c 0xa0
    || nat_eq c 0x1680
    || (leb 0x2000 c && leb c 0x200a)
    || nat_eq c 0x2028
    || nat_eq c 0x2029
    || nat_eq c 0x202f
    || nat_eq c 0x205f
    || nat_eq c 0x3000

trim_left : String → String
trim_left String.[] = ""
trim_left (String.◌∷◌ c s) =
    let rest = trim_left s in if is_space (code c) then rest else String.◌∷◌ c s

trim_right : String → String
trim_right String.[] = ""
trim_right (String.◌∷◌ c s) =
    let rest = trim_right s in if is_space (code c) && (rest == "") then "" else String.◌∷◌ c rest

-- strings.TrimSpace
unfoldable pub trim_space : String → String
unfolding trim_left trim_right is_space
trim_space s = trim_left (trim_right s)

-- The code points of a text.
abbrev pub codes : String → List ℕ
codes String.[] = []
codes (String.◌∷◌ c s) = code c ∷ codes s

-- unicode.ToLower, on the characters whose lower case is an ASCII letter. Other letters stay as
-- they are here: their lower case is no ASCII letter, and the program compares with ASCII only.
lower : ℕ → ℕ
lower c =
    if leb b'A' c && leb c b'Z'
    then c + 32
    else if nat_eq c 0x130
    then b'i'
    else if nat_eq c 0x212a
    then b'k'
    else c

-- The loop of filepath.Ext, from the front: the suffix that starts at the last dot after the last
-- slash, for the lower-case text.
ext_from : List ℕ → List ℕ → List ℕ
ext_from found [] = found
ext_from found (c ∷ s) =
    ext_from (if nat_eq c b'/' then [] else if nat_eq c b'.' then c ∷ s else found) s

lower_codes : String → List ℕ
lower_codes String.[] = []
lower_codes (String.◌∷◌ c s) = lower (code c) ∷ lower_codes s

-- filepath.Ext(strings.ToLower(s))
unfoldable pub lower_ext : String → List ℕ
unfolding lower_codes lower ext_from
lower_ext s = ext_from [] (lower_codes s)

abbrev eq_codes : List ℕ → List ℕ → Bool
eq_codes [] [] = true
eq_codes (a ∷ s) (b ∷ t) = nat_eq a b && eq_codes s t
eq_codes _ _ = false

-- A list of code points is this text.
abbrev pub spells : List ℕ → String → Bool
spells s t = eq_codes s (codes t)

digit : ℕ → String
digit d =
    if nat_eq d 0
    then "0"
    else if nat_eq d 1
    then "1"
    else if nat_eq d 2
    then "2"
    else if nat_eq d 3
    then "3"
    else if nat_eq d 4
    then "4"
    else if nat_eq d 5
    then "5"
    else if nat_eq d 6
    then "6"
    else if nat_eq d 7
    then "7"
    else if nat_eq d 8
    then "8"
    else "9"

decimal_fuel : ℕ → ℕ → String → String
decimal_fuel zero n acc = acc
decimal_fuel (suc f) n acc =
    let more = decimal_fuel f (n / 10) (digit (n % 10) <> acc) in
    if ltb n 10 then digit n <> acc else more

-- `%d` of a count. The digits of a number below 10 ^ 64.
unfoldable pub decimal : ℕ → String
unfolding decimal_fuel digit
decimal n = decimal_fuel 64 n ""

-- strconv.Itoa
unfoldable pub itoa : ℤ → String
unfolding decimal
itoa (pos n) = decimal n
itoa (negsuc n) = "-" <> decimal (n + 1)

digits_of : ℕ → String → Option ℕ
digits_of acc String.[] = some acc
digits_of acc (String.◌∷◌ c s) =
    let rest = digits_of (acc * 10 + (code c - 48)) s in
    if leb 48 (code c) && leb (code c) 57 then rest else none

-- The value, and whether the error is nil. Out of range the value is the bound that was passed.
signed : Bool → Option ℕ → ℤ × Bool
signed minus none = (pos 0, false)
signed false (some n) = if ltb n (2 ^ 63) then (pos n, true) else (pos (2 ^ 63 - 1), false)
signed true (some zero) = (pos 0, true)
signed true (some (suc n)) =
    if ltb n (2 ^ 63) then (negsuc n, true) else (negsuc (2 ^ 63 - 1), false)

unsigned_digits : String → Option ℕ
unsigned_digits s = if s == "" then none else digits_of 0 s

-- strconv.Atoi
unfoldable pub atoi : String → ℤ × Bool
unfolding signed unsigned_digits digits_of strip_prefix
atoi s = elim (strip_prefix "-" s) [
  | some rest ↦ signed true (unsigned_digits rest)
  | none ↦ elim (strip_prefix "+" s) [
    | some rest ↦ signed false (unsigned_digits rest)
    | none ↦ signed false (unsigned_digits s)
  ]
]
