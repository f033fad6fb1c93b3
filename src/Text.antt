-- ===== src/Text.antt =====
-- Python's `str` and `bytes` as lists of code points and of byte values, with the methods that
-- the sources call: str.strip, split on one character, partition, rpartition, startswith, lower,
-- upper, casefold, isdigit with int(), and str.encode("utf-8", "replace").
pub mod Laws
pub mod Utf8
pub mod Decimal
use Prim.Native.Char.{code}
use fastapi_better_auth.Base.{
  ℕ, zero, suc, ◌+◌, ◌-◌, ◌*◌, ◌/◌, ◌%◌, String, Bool, true, false, not, ◌&&◌, ◌||◌, Option, none,
  some, List, [], ◌∷◌, ◌++◌, ltb, leb, ◌==◌, if◌then◌else◌,
}

abbrev pub Str : Type 0
Str = List ℕ

abbrev pub Bytes : Type 0
Bytes = List ℕ

-- a literal of the source
abbrev pub lit : String → Str
lit String.[] = []
lit (String.◌∷◌ c s) = code c ∷ lit s

unfoldable pub str_eq : Str → Str → Bool
str_eq [] [] = true
str_eq [] (b ∷ t) = false
str_eq (a ∷ s) [] = false
str_eq (a ∷ s) (b ∷ t) = (a == b) && str_eq s t

unfoldable pub contains : ℕ → Str → Bool
contains c [] = false
contains c (a ∷ s) = (a == c) || contains c s

abbrev pub between : ℕ → ℕ → ℕ → Bool
between lo hi c = leb lo c && leb c hi

-- str.isspace of one code point
unfoldable pub is_space : ℕ → Bool
is_space c =
    between 9 13 c
    || between 28 32 c
    || c == 0x85
    || c == 0xa0
    || c == 0x1680
    || between 0x2000 0x200a c
    || c == 0x2028
    || c == 0x2029
    || c == 0x202f
    || c == 0x205f
    || c == 0x3000

unfoldable pub lstrip : Str → Str
lstrip [] = []
lstrip (c ∷ s) = let rest = lstrip s in if is_space c then rest else c ∷ s

rstrip_keep : ℕ → Str → Str
rstrip_keep a [] = if is_space a then [] else a ∷ []
rstrip_keep a (b ∷ t) = a ∷ b ∷ t

unfoldable pub rstrip : Str → Str
unfolding rstrip_keep
rstrip [] = []
rstrip (c ∷ s) = rstrip_keep c (rstrip s)

-- str.strip()
unfoldable pub strip : Str → Str
unfolding lstrip rstrip
strip s = rstrip (lstrip s)

-- `not s.strip()`
unfoldable pub is_blank : Str → Bool
is_blank [] = true
is_blank (c ∷ s) = is_space c && is_blank s

unfoldable pub cons_head : ℕ → List Str → List Str
cons_head a [] = (a ∷ []) ∷ []
cons_head a (w ∷ ws) = (a ∷ w) ∷ ws

-- str.split(c)
unfoldable pub split_on : ℕ → Str → List Str
unfolding cons_head
split_on c [] = [] ∷ []
split_on c (a ∷ s) = let rest = split_on c s in if a == c then [] ∷ rest else cons_head a rest

-- sep.join(parts)
unfoldable pub join : Str → List Str → Str
join sep [] = []
join sep (w ∷ []) = w
join sep (w ∷ v ∷ ws) = w ++ (sep ++ join sep (v ∷ ws))

-- the result of str.partition: the Boolean tells whether the separator was found
pub record Parts : Type 0 where
  pub before : Str
  pub found : Bool
  pub after : Str

unfoldable pub partition : ℕ → Str → Parts
partition c [] = record { before = []; found = false; after = [] }
partition c (a ∷ s) =
    let rest = partition c s in
    if a == c
    then record { before = []; found = true; after = s }
    else record { before = a ∷ rest.before; found = rest.found; after = rest.after }

-- str.rpartition: with no separator the whole text is `after`
unfoldable pub rpartition : ℕ → Str → Parts
rpartition c [] = record { before = []; found = false; after = [] }
rpartition c (a ∷ s) =
    let rest = rpartition c s in
    if rest.found
    then record { before = a ∷ rest.before; found = true; after = rest.after }
    else if a == c
    then record { before = []; found = true; after = s }
    else record { before = []; found = false; after = a ∷ s }

-- str.startswith
unfoldable pub starts_with : Str → Str → Bool
starts_with [] s = true
starts_with (a ∷ p) [] = false
starts_with (a ∷ p) (b ∷ s) = (a == b) && starts_with p s

unfoldable pub is_ascii : Str → Bool
is_ascii [] = true
is_ascii (c ∷ s) = ltb c 128 && is_ascii s

unfoldable pub all_digits : Str → Bool
all_digits [] = true
all_digits (c ∷ s) = between 48 57 c && all_digits s

-- str.isdigit of an ASCII text
unfoldable pub is_digits : Str → Bool
unfolding all_digits
is_digits [] = false
is_digits (c ∷ s) = all_digits (c ∷ s)

-- int(s) of a text of digits
unfoldable pub digits_from : ℕ → Str → ℕ
digits_from n [] = n
digits_from n (c ∷ s) = digits_from (n * 10 + (c - 48)) s

unfoldable pub to_int : Str → ℕ
unfolding digits_from
to_int s = digits_from 0 s

unfoldable pub decimal_from : ℕ → ℕ → Str → Str
decimal_from zero n acc = acc
decimal_from (suc f) n acc =
    let rest = decimal_from f (n / 10) ((48 + n % 10) ∷ acc) in
    if ltb n 10 then (48 + n) ∷ acc else rest

-- f"{n}"; the fuel is more than the digits of `n`
unfoldable pub decimal : ℕ → Str
unfolding decimal_from
decimal n = decimal_from (suc n) n []

-- str.lower, str.upper and str.casefold of one code point below 256. Header text is decoded as
-- Latin-1, so nothing above reaches them; above, the code point is kept.
abbrev is_upper_latin : ℕ → Bool
is_upper_latin c = between 65 90 c || (between 0xc0 0xde c && not (c == 0xd7))

unfoldable pub lower_char : ℕ → ℕ
lower_char c = if is_upper_latin c then c + 32 else c

unfoldable pub lower : Str → Str
unfolding lower_char
lower [] = []
lower (c ∷ s) = lower_char c ∷ lower s

unfoldable pub upper_char : ℕ → Str
upper_char c =
    if between 97 122 c || (between 0xe0 0xfe c && not (c == 0xf7))
    then (c - 32) ∷ []
    else if c == 0xdf
    then 83 ∷ 83 ∷ []
    else if c == 0xff
    then 0x178 ∷ []
    else if c == 0xb5
    then 0x39c ∷ []
    else c ∷ []

unfoldable pub upper : Str → Str
unfolding upper_char
upper [] = []
upper (c ∷ s) = upper_char c ++ upper s

unfoldable pub casefold_char : ℕ → Str
casefold_char c =
    if is_upper_latin c
    then (c + 32) ∷ []
    else if c == 0xdf
    then 115 ∷ 115 ∷ []
    else if c == 0xb5
    then 0x3bc ∷ []
    else c ∷ []

unfoldable pub casefold : Str → Str
unfolding casefold_char
casefold [] = []
casefold (c ∷ s) = casefold_char c ++ casefold s

-- str.encode("utf-8", "replace") of one code point: a lone surrogate becomes "?"
unfoldable pub utf8_char : ℕ → Bytes
utf8_char c =
    if ltb c 0x80
    then c ∷ []
    else if ltb c 0x800
    then (0xc0 + c / 64) ∷ (0x80 + c % 64) ∷ []
    else if between 0xd800 0xdfff c
    then 63 ∷ []
    else if ltb c 0x10000
    then (0xe0 + c / 4096) ∷ (0x80 + c / 64 % 64) ∷ (0x80 + c % 64) ∷ []
    else (0xf0 + c / 262144) ∷ (0x80 + c / 4096 % 64) ∷ (0x80 + c / 64 % 64) ∷ (0x80 + c % 64) ∷ []

unfoldable pub utf8 : Str → Bytes
unfolding utf8_char
utf8 [] = []
utf8 (c ∷ s) = utf8_char c ++ utf8 s

-- str.encode("utf-8") is refused for a text that holds a surrogate
unfoldable pub is_encodable : Str → Bool
is_encodable [] = true
is_encodable (c ∷ s) = not (leb 0xd800 c && leb c 0xdfff) && is_encodable s
