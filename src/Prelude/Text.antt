-- ===== src/Prelude/Text.antt =====
-- Python's methods on texts, for ASCII texts: other letters and spaces keep no case and no space.
use Prim.Native.Char.{Char, code}
use Prim.Native.String.{String, char_at}
use text.Mathlib.Text.{find?}
use portfolio_copilot.Prelude.{
  zero, suc, [], ◌∷◌, ◌-◌, codes, length, str_eq, str_append, some, ◌&&◌, none, leb, any, ◌==◌,
  is_some, List, Bool, if◌then◌else◌, ◌≡◌, ℕ, Option, true, false, refl,
}

-- `c.isspace()`
abbrev pub is_space : Char → Bool
is_space c =
    let n = code c in
    if n == 32 then true else if leb 9 n && leb n 13 then true else leb 28 n && leb n 31

abbrev pub is_digit : Char → Bool
is_digit c = leb 48 (code c) && leb (code c) 57

abbrev upper_char : Char → Char
upper_char c =
    if leb 97 (code c) && leb (code c) 122
    then char_at "ABCDEFGHIJKLMNOPQRSTUVWXYZ" (code c - 97)
    else c

abbrev lower_char : Char → Char
lower_char c =
    if leb 65 (code c) && leb (code c) 90
    then char_at "abcdefghijklmnopqrstuvwxyz" (code c - 65)
    else c

unfoldable pub upper : String → String
unfolding upper_char
upper String.[] = ""
upper (String.◌∷◌ c s) = String.◌∷◌ (upper_char c) (upper s)

-- `s.lower()` and `s.casefold()`, which agree on ASCII
unfoldable pub lower : String → String
unfolding lower_char
lower String.[] = ""
lower (String.◌∷◌ c s) = String.◌∷◌ (lower_char c) (lower s)

unfoldable pub lstrip : String → String
lstrip String.[] = ""
lstrip (String.◌∷◌ c s) = let rest = lstrip s in if is_space c then rest else String.◌∷◌ c s

abbrev cons_kept : Char → String → String
cons_kept c String.[] = if is_space c then "" else String.◌∷◌ c ""
cons_kept c s = String.◌∷◌ c s

unfoldable pub rstrip : String → String
unfolding cons_kept
rstrip String.[] = ""
rstrip (String.◌∷◌ c s) = cons_kept c (rstrip s)

unfoldable pub strip : String → String
unfolding lstrip rstrip
strip s = rstrip (lstrip s)

-- `part in s`
abbrev pub has_part : String → String → Bool
has_part part s = is_some (find? s part)

abbrev pub is_blank : String → Bool
is_blank String.[] = true
is_blank s = false

-- `s or None`
abbrev pub or_none : String → Option String
or_none String.[] = none
or_none s = some s

-- `s.replace(old, new)` for a character and a text
unfoldable pub replace_char : ℕ → String → String → String
replace_char old new String.[] = ""
replace_char old new (String.◌∷◌ c s) =
    let rest = replace_char old new s in
    if code c == old then str_append new rest else String.◌∷◌ c rest

-- `s[-n:] if len(s) >= n else s`, and so `s[-n:]` for every n > 0
unfoldable pub last_chars : ℕ → String → String
last_chars n String.[] = ""
last_chars n (String.◌∷◌ c s) =
    let rest = last_chars n s in if leb (length (codes s)) (n - 1) then String.◌∷◌ c s else rest

-- `s in {…}`
abbrev pub one_of : String → List String → Bool
one_of s names = any (str_eq s) names

-- `s[:n]`
unfoldable pub first_chars : ℕ → String → String
first_chars zero s = ""
first_chars (suc n) String.[] = ""
first_chars (suc n) (String.◌∷◌ c s) = String.◌∷◌ c (first_chars n s)

-- What stands behind a text that another begins with.
unfoldable pub without_prefix : String → String → Option String
without_prefix String.[] s = some s
without_prefix (String.◌∷◌ d t) String.[] = none
without_prefix (String.◌∷◌ d t) (String.◌∷◌ c s) =
    let rest = without_prefix t s in if code c == code d then rest else none

-- `s.rsplit(marker, 1)` where the marker occurs
unfoldable pub split_last : String → String → Option (String × String)
unfolding without_prefix
split_last marker String.[] = none
split_last marker (String.◌∷◌ c s) = elim (split_last marker s) [
  | some (front, back) ↦ some (String.◌∷◌ c front, back)
  | none ↦ elim (without_prefix marker (String.◌∷◌ c s)) [
    | some back ↦ some ("", back)
    | none ↦ none
  ]
]

-- `s.partition(marker)` where the marker occurs
unfoldable pub split_first : String → String → Option (String × String)
unfolding without_prefix
split_first marker String.[] = none
split_first marker (String.◌∷◌ c s) = elim (without_prefix marker (String.◌∷◌ c s)) [
  | some back ↦ some ("", back)
  | none ↦ elim (split_first marker s) [
    | some (front, back) ↦ some (String.◌∷◌ c front, back)
    | none ↦ none
  ]
]

-- `sep.join(parts)`
unfoldable pub join : String → List String → String
join sep [] = ""
join sep (s ∷ []) = s
join sep (s ∷ t ∷ parts) = str_append s (str_append sep (join sep (t ∷ parts)))

-- The parts of a formatted text, put together.
abbrev pub concat : List String → String
concat [] = ""
concat (s ∷ parts) = str_append s (concat parts)

cases :
    (upper "a-bZ" ≡ "A-BZ")
    × (lower "A-bZ" ≡ "a-bz")
    × (strip "  a b \n" ≡ "a b")
    × (replace_char 47 "." "BRK/B" ≡ "BRK.B")
    × (last_chars 4 "123456" ≡ "3456")
    × (last_chars 4 "12" ≡ "12")
    × (has_part "or" "fork" ≡ true)
unfolding upper lower strip replace_char last_chars
cases = (refl, refl, refl, refl, refl, refl, refl)
