-- ===== src/Scan.antt =====
-- Taking text apart, and numbers in it (the functions of the standard library that the sources use).
use openpaw.Prelude.{
  ℕ, ◌+◌, ◌-◌, ◌*◌, ◌^◌, ◌/◌, ◌%◌, zero, suc, ◌++◌, ltb, Bool, true, false, ◌&&◌, ◌||◌, Option,
  none, some, List, [], ◌∷◌, Text, ◌==◌, leb, if◌then◌else◌, any, text_eq,
}

-- `char::is_whitespace`.
unfoldable pub is_whitespace : ℕ → Bool
is_whitespace c =
    (leb 9 c && leb c 13)
    || any (λ d. c == d) (32 ∷ 133 ∷ 160 ∷ 5760 ∷ 8232 ∷ 8233 ∷ 8239 ∷ 8287 ∷ 12288 ∷ [])
    || (leb 8192 c && leb c 8202)

unfoldable pub trim_start : Text → Text
unfolding is_whitespace
trim_start [] = []
trim_start (c ∷ s) = if is_whitespace c then trim_start s else c ∷ s

abbrev is_empty : Text → Bool
is_empty [] = true
is_empty (c ∷ s) = false

unfoldable pub trim_end : Text → Text
unfolding is_whitespace
trim_end [] = []
trim_end (c ∷ s) =
    let rest = trim_end s in if is_whitespace c && is_empty rest then [] else c ∷ rest

-- `str::trim`.
abbrev pub trim : Text → Text
trim s = trim_end (trim_start s)

abbrev push_front : ℕ → List Text → List Text
push_front c [] = (c ∷ []) ∷ []
push_front c (s ∷ rest) = (c ∷ s) ∷ rest

-- `str::split` at a character.
unfoldable pub split : ℕ → Text → List Text
split sep [] = [] ∷ []
split sep (c ∷ s) = let rest = split sep s in if c == sep then [] ∷ rest else push_front c rest

abbrev keep_words : List Text → List Text
keep_words [] = []
keep_words ([] ∷ rest) = keep_words rest
keep_words ((c ∷ s) ∷ rest) = (c ∷ s) ∷ keep_words rest

unfoldable pub split_space : Text → List Text
unfolding is_whitespace
split_space [] = [] ∷ []
split_space (c ∷ s) =
    let rest = split_space s in if is_whitespace c then [] ∷ rest else push_front c rest

-- `str::split_whitespace`.
unfoldable pub split_whitespace : Text → List Text
unfolding split_space
split_whitespace s = keep_words (split_space s)

abbrev extend : ℕ → Option (Text × Text) → Option (Text × Text)
extend c none = none
extend c (some (s, t)) = some (c ∷ s, t)

-- What stands before and after the first place of a character: `find` and the two slices.
unfoldable pub split_once : ℕ → Text → Option (Text × Text)
split_once sep [] = none
split_once sep (c ∷ s) =
    let rest = split_once sep s in if c == sep then some ([], s) else extend c rest

-- `strip_prefix`.
unfoldable pub strip_prefix : Text → Text → Option Text
strip_prefix [] s = some s
strip_prefix (c ∷ p) [] = none
strip_prefix (c ∷ p) (d ∷ s) = let rest = strip_prefix p s in if c == d then rest else none

abbrev digit : ℕ → Option ℕ
digit c = if leb b'0' c && leb c b'9' then some (c - b'0') else none

abbrev step_digit : ℕ → Option ℕ → Option ℕ
step_digit acc none = none
step_digit acc (some d) = some (acc * 10 + d)

abbrev and_digit : Option ℕ → Option ℕ → Option ℕ
and_digit none d = none
and_digit (some acc) d = step_digit acc d

-- The number that digits write, after `acc`.
unfoldable pub digits : Option ℕ → Text → Option ℕ
digits acc [] = acc
digits acc (c ∷ s) = digits (and_digit acc (digit c)) s

-- One digit or more.
unfoldable pub unsigned : Text → Option ℕ
unfolding digits
unsigned [] = none
unsigned (c ∷ s) = digits (some 0) (c ∷ s)

abbrev at_most : ℕ → Option ℕ → Option ℕ
at_most bound none = none
at_most bound (some n) = if leb n bound then some n else none

abbrev strip_plus : Text → Text
strip_plus [] = []
strip_plus (c ∷ s) = if c == b'+' then s else c ∷ s

-- `str::parse` of a u8.
unfoldable pub parse_u8 : Text → Option ℕ
unfolding unsigned
parse_u8 s = at_most 255 (unsigned (strip_plus s))

abbrev negated : Option ℕ → Option (Bool × ℕ)
negated none = none
negated (some n) = some (true, n)

abbrev positive : Option ℕ → Option (Bool × ℕ)
positive none = none
positive (some n) = some (false, n)

-- `str::parse` of an i64: whether there is a minus, and the magnitude.
unfoldable pub parse_i64 : Text → Option (Bool × ℕ)
unfolding unsigned
parse_i64 [] = none
parse_i64 (c ∷ s) =
    if c == b'-'
    then negated (at_most (2 ^ 63) (unsigned s))
    else positive (at_most (2 ^ 63 - 1) (unsigned (strip_plus (c ∷ s))))

-- `str::parse` of a u16, and of a u64.
unfoldable pub parse_u16 : Text → Option ℕ
unfolding unsigned
parse_u16 s = at_most (2 ^ 16 - 1) (unsigned (strip_plus s))

unfoldable pub parse_u64 : Text → Option ℕ
unfolding unsigned
parse_u64 s = at_most (2 ^ 64 - 1) (unsigned (strip_plus s))

-- `starts_with`.
abbrev pub starts_with : Text → Text → Bool
starts_with [] s = true
starts_with (c ∷ p) [] = false
starts_with (c ∷ p) (d ∷ s) = c == d && starts_with p s

-- `str::contains` of a text.
abbrev pub contains : Text → Text → Bool
contains p [] = starts_with p []
contains p (c ∷ s) = starts_with p (c ∷ s) || contains p s

-- `ends_with`.
abbrev pub ends_with : Text → Text → Bool
ends_with p [] = starts_with p []
ends_with p (c ∷ s) = text_eq p (c ∷ s) || ends_with p s

-- `trim_end_matches` of a character.
abbrev drop_last : ℕ → ℕ → Text → Text
drop_last sep c [] = if c == sep then [] else c ∷ []
drop_last sep c (d ∷ s) = c ∷ d ∷ s

abbrev pub trim_end_matches : ℕ → Text → Text
trim_end_matches sep [] = []
trim_end_matches sep (c ∷ s) = drop_last sep c (trim_end_matches sep s)

-- `Display` of a number: its decimal digits. Each turn divides by ten, so that a turn more than the
-- number is enough.
abbrev show_digits : ℕ → ℕ → Text
show_digits zero n = []
show_digits (suc fuel) n =
    let rest = show_digits fuel (n / 10) in
    if ltb n 10 then (b'0' + n) ∷ [] else rest ++ (b'0' + n % 10) ∷ []

unfoldable pub show : ℕ → Text
show n = show_digits (n + 1) n

-- `str::lines().count()`: the last line counts if there is something of it.
unfoldable pub line_count : Text → ℕ
line_count [] = 0
line_count (c ∷ []) = 1
line_count (c ∷ d ∷ s) = (if c == 10 then 1 else 0) + line_count (d ∷ s)
