-- ===== src/Prelude/Text.antt =====
-- The methods of Python's `str` that the program uses, over a text's characters.
use Prim.Native.Nat.{ℕ, zero, suc, ◌/◌, ◌%◌}
use Prim.Native.Char.{Char, code}
use Prim.Native.String.{String, ◌++◌}
use mathlib.Core.Bool.{Bool, true, false, not, ◌&&◌, ◌||◌}
use mathlib.Core.List.{List, [], ◌∷◌}
use graphrag_aws_template.Prelude.Tests.{if◌then◌else◌, leb, ltb}
use graphrag_aws_template.Prelude.Equality.{◌==◌, string_eq}

abbrev between : ℕ → ℕ → ℕ → Bool
between a b c = leb a c && leb c b

abbrev pub same_code : ℕ → ℕ → Bool
same_code a b = leb a b && leb b a

-- `str.isspace`, of one character
unfoldable pub is_space : ℕ → Bool
is_space c =
    between 9 13 c
    || between 28 32 c
    || same_code c 133
    || same_code c 160
    || same_code c 5760
    || between 8192 8202 c
    || same_code c 8232
    || same_code c 8233
    || same_code c 8239
    || same_code c 8287
    || same_code c 12288

-- `str.lstrip` of the characters that pass the test
unfoldable pub lstrip_by : (ℕ → Bool) → String → String
lstrip_by p String.[] = ""
lstrip_by p (String.◌∷◌ c s) =
    let rest = lstrip_by p s in if p (code c) then rest else String.◌∷◌ c s

-- `str.rstrip`
unfoldable pub rstrip_by : (ℕ → Bool) → String → String
rstrip_by p String.[] = ""
rstrip_by p (String.◌∷◌ c s) =
    let rest = rstrip_by p s in if p (code c) && rest == "" then "" else String.◌∷◌ c rest

unfoldable pub strip_by : (ℕ → Bool) → String → String
unfolding lstrip_by rstrip_by
strip_by p s = lstrip_by p (rstrip_by p s)

-- `s.strip()`
unfoldable pub strip : String → String
unfolding strip_by is_space
strip s = strip_by is_space s

-- `len(s.split())`, from whether the last character was inside a word
unfoldable pub words_from : Bool → String → ℕ
unfolding is_space
words_from inside String.[] = 0
words_from inside (String.◌∷◌ c s) =
    let space = is_space (code c) in
    let rest = words_from (not space) s in if space || inside then rest else suc rest

unfoldable pub word_count : String → ℕ
unfolding words_from
word_count s = words_from false s

-- `s.startswith(prefix)`
unfoldable pub starts_with : String → String → Bool
starts_with s String.[] = true
starts_with String.[] (String.◌∷◌ d prefix) = false
starts_with (String.◌∷◌ c s) (String.◌∷◌ d prefix) =
    same_code (code c) (code d) && starts_with s prefix

-- `part in s`
unfoldable pub occurs_in : String → String → Bool
unfolding starts_with
occurs_in part String.[] = part == ""
occurs_in part (String.◌∷◌ c s) = starts_with (String.◌∷◌ c s) part || occurs_in part s

-- `s[n:]`
unfoldable pub drop_text : ℕ → String → String
drop_text zero s = s
drop_text (suc n) String.[] = ""
drop_text (suc n) (String.◌∷◌ c s) = drop_text n s

-- all(p(c) for c in s)
unfoldable pub every : (ℕ → Bool) → String → Bool
every p String.[] = true
every p (String.◌∷◌ c s) = p (code c) && every p s

-- separator.join(parts)
unfoldable pub join : String → List String → String
join separator [] = ""
join separator (part ∷ []) = part
join separator (part ∷ next ∷ parts) = part ++ (separator ++ join separator (next ∷ parts))

-- len(s)
unfoldable pub text_length : String → ℕ
text_length String.[] = 0
text_length (String.◌∷◌ c s) = suc (text_length s)

-- `s[:n]`
unfoldable pub take_text : ℕ → String → String
take_text zero s = ""
take_text (suc n) String.[] = ""
take_text (suc n) (String.◌∷◌ c s) = String.◌∷◌ c (take_text n s)

-- the characters at which `str.splitlines` ends a line; a carriage return may be followed by a line
-- feed, which then belongs to it
unfoldable pub ends_line : ℕ → Bool
ends_line c =
    between 10 13 c || between 28 30 c || same_code c 133 || same_code c 8232 || same_code c 8233

-- the character in front of the first line
abbrev cons_to_first : Char → List String → List String
cons_to_first c [] = String.◌∷◌ c "" ∷ []
cons_to_first c (line ∷ lines) = String.◌∷◌ c line ∷ lines

-- from whether the last character was a carriage return
unfoldable pub lines_from : Bool → String → List String
unfolding ends_line
lines_from after_return String.[] = []
lines_from after_return (String.◌∷◌ c s) =
    let rest = lines_from (same_code (code c) 13) s in
    if after_return && same_code (code c) 10
    then rest
    else if ends_line (code c)
    then "" ∷ rest
    else cons_to_first c rest

-- `s.splitlines()`
unfoldable pub split_lines : String → List String
unfolding lines_from
split_lines s = lines_from false s

-- "0123456789"[n]
unfoldable pub digit : ℕ → String
unfolding take_text drop_text
digit n = take_text 1 (drop_text n "0123456789")

unfoldable pub decimal_with : ℕ → ℕ → String
unfolding digit
decimal_with zero n = ""
decimal_with (suc fuel) n =
    let rest = decimal_with fuel (n / 10) in if ltb n 10 then digit n else rest ++ digit (n % 10)

-- str(n): a number has at most as many digits as it is large, and one more
unfoldable pub decimal : ℕ → String
unfolding decimal_with
decimal n = decimal_with (suc n) n
