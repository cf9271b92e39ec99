-- ===== src/Base/Chars.antt =====
-- Texts by their characters: `s.chars().collect::<Vec<char>>()`, the operations of that vector, and
-- back. An index out of range is a panic, `none`.
use Prim.Native.Nat.{ℕ, zero, suc}
use Prim.Native.Char.{Char, code}
use Prim.Native.String.{String}
use mathlib.Core.Bool.{◌&&◌}
use mathlib.Core.Option.{Option, none, some}
use darius.Base.Tests.{◌==◌, if◌then◌else◌}
use darius.Base.Text.{is_whitespace}
use darius.Base.Optional.{◌>>=◌}

-- `chars().count()`
unfoldable pub char_count : String → ℕ
char_count String.[] = 0
char_count (String.◌∷◌ c s) = suc (char_count s)

-- `Vec::insert`
unfoldable pub insert_char : ℕ → Char → String → Option String
insert_char zero c s = some (String.◌∷◌ c s)
insert_char (suc n) c String.[] = none
insert_char (suc n) c (String.◌∷◌ d s) = insert_char n c s >>= λ t. some (String.◌∷◌ d t)

-- `Vec::remove`
unfoldable pub remove_char : ℕ → String → Option String
remove_char n String.[] = none
remove_char zero (String.◌∷◌ d s) = some s
remove_char (suc n) (String.◌∷◌ d s) = remove_char n s >>= λ t. some (String.◌∷◌ d t)

-- `for (i, c) in text.chars().enumerate() { chars.insert(cursor + i, c) }`
unfoldable pub insert_chars : ℕ → String → String → Option String
unfolding insert_char
insert_chars n String.[] s = some s
insert_chars n (String.◌∷◌ c text) s = insert_char n c s >>= insert_chars (suc n) text

-- `String::pop`, the character dropped.
unfoldable pub pop_char : String → String
pop_char String.[] = String.[]
pop_char (String.◌∷◌ c String.[]) = String.[]
pop_char (String.◌∷◌ c (String.◌∷◌ d s)) = String.◌∷◌ c (pop_char (String.◌∷◌ d s))

-- `trim_start_matches(c)`
unfoldable pub trim_start_matches : ℕ → String → String
trim_start_matches n String.[] = String.[]
trim_start_matches n (String.◌∷◌ c s) =
    let rest = trim_start_matches n s in if code c == n then rest else String.◌∷◌ c s

-- `strip_prefix(c)`
unfoldable pub strip_char : ℕ → String → Option String
strip_char n String.[] = none
strip_char n (String.◌∷◌ c s) = if code c == n then some s else none

-- `splitn(2, char::is_whitespace)`: what stands before the first white space, and behind it.
unfoldable pub split_space : String → String × String
unfolding is_whitespace
split_space String.[] = (String.[], String.[])
split_space (String.◌∷◌ c s) =
    let rest = split_space s in
    if is_whitespace (code c) then (String.[], s) else (String.◌∷◌ c rest.0, rest.1)

-- The iterator of a text's characters after `any(|d| d == c)`, where it found one.
unfoldable pub after_char : Char → String → Option String
after_char c String.[] = none
after_char c (String.◌∷◌ d s) =
    let rest = after_char c s in if code d == code c then some s else rest

-- `replace("\r\n", " ")`
unfoldable pub replace_crlf : String → String
replace_crlf String.[] = String.[]
replace_crlf (String.◌∷◌ c String.[]) = String.◌∷◌ c String.[]
replace_crlf (String.◌∷◌ c (String.◌∷◌ d s)) =
    let paired = String.◌∷◌ " " (replace_crlf s) in
    let single = String.◌∷◌ c (replace_crlf (String.◌∷◌ d s)) in
    if code c == 13 && code d == 10 then paired else single

-- `replace(['\r', '\n'], " ")`
unfoldable pub replace_breaks : String → String
replace_breaks String.[] = String.[]
replace_breaks (String.◌∷◌ c s) =
    String.◌∷◌ (if code c == 13 then " " else if code c == 10 then " " else c) (replace_breaks s)
