-- ===== src/Base/Text.antt =====
-- Texts: their equality test, concatenation, lines, decimal numbers, and lists of texts.
use Prim.Native.Nat.{ℕ, zero, suc, ◌/◌, ◌%◌}
use Prim.Native.Char.{Char, code, len_utf8}
use Prim.Native.String
use Prim.Native.String.{String}
use text.Mathlib.Text.{◌==◌ as str_same}
use mathlib.Core.Path.{◌≡◌, refl}
use mathlib.Core.Bool.{Bool, true, false, ◌&&◌, ◌||◌}
use mathlib.Core.Option.{Option, none, some}
use mathlib.Core.List.{List, [], ◌∷◌, ◌++◌}
use native.Mathlib.Omega.{arith}
use darius.Base.Tests.{◌==◌, ltb, leb, if◌then◌else◌}

abbrev pub str_eq : String → String → Bool
str_eq a b = str_same a b

infixr 65 ◌⧺◌
abbrev pub ◌⧺◌ : String → String → String
s ⧺ t = String.◌++◌ s t

-- Rust's `is_empty`.
abbrev pub is_blank : String → Bool
is_blank s = str_eq s ""

abbrev pub contains : String → List String → Bool
contains a [] = false
contains a (x ∷ xs) = str_eq x a || contains a xs

pub contains-append :
    (a : String) (xs ys : List String) → contains a (xs ++ ys) ≡ (contains a xs || contains a ys)
contains-append a [] ys = refl
contains-append a (x ∷ xs) ys = ground (arith, contains-append a xs ys)

-- A character put before the first of some lines.
before_first : Char → List String → List String
before_first c [] = String.◌∷◌ c String.[] ∷ []
before_first c (l ∷ ls) = String.◌∷◌ c l ∷ ls

starts_line_feed : String → Bool
starts_line_feed String.[] = false
starts_line_feed (String.◌∷◌ c s) = code c == 10

-- `str::lines`: the ends are "\n" and "\r\n", and a last empty line is left out.
unfoldable pub lines : String → List String
unfolding before_first starts_line_feed
lines String.[] = []
lines (String.◌∷◌ c s) =
    let rest = lines s in
    if code c == 10
    then "" ∷ rest
    else if code c == 13 && starts_line_feed s
    then rest
    else before_first c rest

-- What follows the first line feed: `find('\n')` and the slice behind it.
unfoldable pub after_line_feed : String → Option String
after_line_feed String.[] = none
after_line_feed (String.◌∷◌ c s) =
    let rest = after_line_feed s in if code c == 10 then some s else rest

-- `chars().take(n).collect()`.
unfoldable pub take_chars : ℕ → String → String
take_chars zero s = String.[]
take_chars (suc n) String.[] = String.[]
take_chars (suc n) (String.◌∷◌ c s) = String.◌∷◌ c (take_chars n s)

digit : ℕ → String
digit n =
    if n == 0
    then "0"
    else if n == 1
    then "1"
    else if n == 2
    then "2"
    else if n == 3
    then "3"
    else if n == 4
    then "4"
    else if n == 5
    then "5"
    else if n == 6
    then "6"
    else if n == 7
    then "7"
    else if n == 8
    then "8"
    else "9"

decimal_from : ℕ → ℕ → String
decimal_from zero n = ""
decimal_from (suc fuel) n =
    let high = decimal_from fuel (n / 10) ⧺ digit (n % 10) in if ltb n 10 then digit n else high

-- A number in decimal. A number has fewer digits than `n + 1`, so the fuel is enough.
unfoldable pub decimal : ℕ → String
unfolding decimal_from digit
decimal n = decimal_from (suc n) n

-- `char::is_whitespace`: the code points of Unicode's White_Space.
unfoldable pub is_whitespace : ℕ → Bool
is_whitespace c =
    (leb 9 c && leb c 13)
    || c == 32
    || c == 133
    || c == 160
    || c == 5760
    || (leb 8192 c && leb c 8202)
    || c == 8232
    || c == 8233
    || c == 8239
    || c == 8287
    || c == 12288

-- `trim().is_empty()`.
unfoldable pub trims_to_nothing : String → Bool
unfolding is_whitespace
trims_to_nothing String.[] = true
trims_to_nothing (String.◌∷◌ c s) = is_whitespace (code c) && trims_to_nothing s

-- Whether the first character is the one with this code.
abbrev pub first_is : ℕ → String → Bool
first_is n String.[] = false
first_is n (String.◌∷◌ c s) = code c == n

-- `line[1..]`; `none` is its panic, where byte 1 is no boundary.
abbrev pub line_rest : String → Option String
line_rest String.[] = none
line_rest (String.◌∷◌ c s) = if len_utf8 c == 1 then some s else none

unfoldable pub trim_start : String → String
unfolding is_whitespace
trim_start String.[] = String.[]
trim_start (String.◌∷◌ c s) =
    let rest = trim_start s in if is_whitespace (code c) then rest else String.◌∷◌ c s

unfoldable pub trim_end : String → String
unfolding is_whitespace
trim_end String.[] = String.[]
trim_end (String.◌∷◌ c s) =
    let rest = trim_end s in
    if is_whitespace (code c) && is_blank rest then String.[] else String.◌∷◌ c rest

-- `str::trim`
unfoldable pub trim : String → String
trim s = trim_end (trim_start s)

-- `str::starts_with`, `ends_with` and `contains`, and `replace('\\', "/")`.
unfoldable pub starts_with : String → String → Bool
starts_with String.[] s = true
starts_with (String.◌∷◌ c p) String.[] = false
starts_with (String.◌∷◌ c p) (String.◌∷◌ d s) = code c == code d && starts_with p s

unfoldable pub ends_with : String → String → Bool
ends_with p String.[] = is_blank p
ends_with p (String.◌∷◌ c s) = str_eq p (String.◌∷◌ c s) || ends_with p s

unfoldable pub has_text : String → String → Bool
unfolding starts_with
has_text p String.[] = is_blank p
has_text p (String.◌∷◌ c s) = starts_with p (String.◌∷◌ c s) || has_text p s

unfoldable pub to_slashes : String → String
to_slashes String.[] = String.[]
to_slashes (String.◌∷◌ c s) = (if code c == 92 then "/" else String.◌∷◌ c String.[]) ⧺ to_slashes s
