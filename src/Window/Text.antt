-- ===== src/Window/Text.antt =====
-- What the cron parser uses of Go's packages strings and strconv.
use Prim.Native.Char.{Char, code}
use maintenance_orchestrator.Prelude.{
  ℕ, zero, suc, ◌+◌, ◌-◌, ◌*◌, ◌^◌, ltb, leb, ℤ, pos, negsuc, Bool, ◌&&◌, ◌||◌, Option, none, some,
  List, [], ◌∷◌, String, if◌then◌else◌, ◌==◌, is_empty,
}

-- The first text with the character `c` in front of it.
abbrev cons_first : Char → List String → List String
cons_first c [] = []
cons_first c (s ∷ ss) = String.◌∷◌ c s ∷ ss

-- strings.Split with a separator of one character: never empty.
unfoldable pub split_on : ℕ → String → List String
split_on sep String.[] = "" ∷ []
split_on sep (String.◌∷◌ c s) =
    let rest = split_on sep s in if code c == sep then "" ∷ rest else cons_first c rest

-- unicode.IsSpace
unfoldable pub is_space : ℕ → Bool
is_space c =
    leb 9 c && leb c 13
    || c == 32
    || c == 133
    || c == 160
    || c == 5760
    || leb 8192 c && leb c 8202
    || c == 8232
    || c == 8233
    || c == 8239
    || c == 8287
    || c == 12288

abbrev add_field : String → List String → List String
add_field word rest = if is_empty word then rest else word ∷ rest

-- The word that the text starts with, and the words behind it.
abbrev words : String → String × List String
words String.[] = ("", [])
words (String.◌∷◌ c s) =
    let (word, rest) = words s in
    if is_space (code c) then ("", add_field word rest) else (String.◌∷◌ c word, rest)

-- strings.Fields
unfoldable pub text_fields : String → List String
unfolding is_space
text_fields s = let (word, rest) = words s in add_field word rest

-- The value of a text of digits, after the value `n` of those before it.
abbrev digits : ℕ → String → Option ℕ
digits n String.[] = some n
digits n (String.◌∷◌ c s) =
    let rest = digits (n * 10 + (code c - 48)) s in
    if leb 48 (code c) && leb (code c) 57 then rest else none

abbrev unsigned : String → Option ℕ
unsigned s = if is_empty s then none else digits 0 s

abbrev positive : Option ℕ → Option ℤ
positive none = none
positive (some n) = if ltb n (2 ^ 63) then some (pos n) else none

abbrev negative : Option ℕ → Option ℤ
negative none = none
negative (some zero) = some (pos 0)
negative (some (suc n)) = if ltb n (2 ^ 63) then some (negsuc n) else none

-- strconv.Atoi: `none` for its error, also for a value that is no int64.
unfoldable pub atoi : String → Option ℤ
atoi String.[] = none
atoi (String.◌∷◌ c s) =
    if code c == b'-'
    then negative (unsigned s)
    else if code c == b'+'
    then positive (unsigned s)
    else positive (unsigned (String.◌∷◌ c s))
