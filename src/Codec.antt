-- ===== src/Codec.antt =====
-- The encodings that the cookie modules call: base64.b64encode and b64decode(validate=True), strict
-- UTF-8 decoding, and urllib.parse.unquote(errors="strict").
pub mod Base64
use fastapi_better_auth.Base.{
  ℕ, zero, suc, ◌+◌, ◌-◌, ◌*◌, ◌/◌, ◌%◌, ◌≡◌, Bool, true, false, ◌&&◌, ◌||◌, Option, none, some,
  List, [], ◌∷◌, ◌++◌, ltb, leb, ◌==◌, if◌then◌else◌,
}
use fastapi_better_auth.Text.{Str, Bytes, lit, contains}

infixl 5 ◌>>=◌
abbrev pub ◌>>=◌ {ℓ κ} : {A : Type ℓ} {B : Type κ} → Option A → (A → Option B) → Option B
none >>= f = none
some a >>= f = f a

-- the value of a character of the standard alphabet
unfoldable pub b64_value : ℕ → Option ℕ
b64_value c =
    if leb 65 c && leb c 90
    then some (c - 65)
    else if leb 97 c && leb c 122
    then some (c - 71)
    else if leb 48 c && leb c 57
    then some (c + 4)
    else if c == 43
    then some 62
    else if c == 47
    then some 63
    else none

unfoldable pub b64_char : ℕ → ℕ
b64_char v =
    if ltb v 26
    then v + 65
    else if ltb v 52
    then v + 71
    else if ltb v 62
    then v - 4
    else if v == 62
    then 43
    else 47

abbrev pub pad : ℕ
pad = b'='

-- base64.b64encode
unfoldable pub b64encode : Bytes → Str
unfolding b64_char
b64encode [] = []
b64encode (x ∷ []) = b64_char (x / 4) ∷ b64_char (x % 4 * 16) ∷ pad ∷ pad ∷ []
b64encode (x ∷ y ∷ []) =
    b64_char (x / 4) ∷ b64_char (x % 4 * 16 + y / 16) ∷ b64_char (y % 16 * 4) ∷ pad ∷ []
b64encode (x ∷ y ∷ z ∷ s) =
    b64_char (x / 4)
    ∷ b64_char (x % 4 * 16 + y / 16)
    ∷ b64_char (y % 16 * 4 + z / 64)
    ∷ b64_char (z % 64)
    ∷ b64encode s

full_quad : ℕ → ℕ → ℕ → ℕ → Option Bytes → Option Bytes
full_quad a b c d rest = do
  p ← b64_value a
  q ← b64_value b
  r ← b64_value c
  s ← b64_value d
  bytes ← rest
  some ((p * 4 + q / 16) ∷ (q % 16 * 16 + r / 4) ∷ (r % 4 * 64 + s) ∷ bytes)

-- the last four characters, which may end in padding
last_quad : ℕ → ℕ → ℕ → ℕ → Option Bytes
unfolding full_quad
last_quad a b c d =
    if c == pad && d == pad
    then (do p ← b64_value a; q ← b64_value b; some ((p * 4 + q / 16) ∷ []))
    else if d == pad
    then (do
      p ← b64_value a
      q ← b64_value b
      r ← b64_value c
      some ((p * 4 + q / 16) ∷ (q % 16 * 16 + r / 4) ∷ []))
    else full_quad a b c d (some [])

-- base64.b64decode(validate=True). Its callers pass a text of 44 characters, and on a text whose
-- length is a multiple of four all supported versions of Python agree; any other is refused here.
unfoldable pub b64decode : Str → Option Bytes
unfolding b64_value full_quad last_quad
b64decode [] = some []
b64decode (a ∷ b ∷ c ∷ d ∷ []) = last_quad a b c d
b64decode (a ∷ b ∷ c ∷ d ∷ e ∷ s) = full_quad a b c d (b64decode (e ∷ s))
b64decode _ = none

-- A strict UTF-8 decoder: the continuation bytes still due, the code point so far, and the range
-- that the next continuation byte must lie in.
record Utf8State : Type 0 where
  due : ℕ
  point : ℕ
  low : ℕ
  high : ℕ

abbrev idle : Utf8State
idle = record { due = 0; point = 0; low = 0x80; high = 0xbf }

lead : ℕ → Option (Utf8State × Str)
lead c =
    if ltb c 0x80
    then some (idle, c ∷ [])
    else if leb 0xc2 c && leb c 0xdf
    then some (record { due = 1; point = c - 0xc0; low = 0x80; high = 0xbf }, [])
    else if leb 0xe0 c && leb c 0xef
    then some (
      record {
        due = 2;
        point = c - 0xe0;
        low = if c == 0xe0 then 0xa0 else 0x80;
        high = if c == 0xed then 0x9f else 0xbf;
      },
      [],
    )
    else if leb 0xf0 c && leb c 0xf4
    then some (
      record {
        due = 3;
        point = c - 0xf0;
        low = if c == 0xf0 then 0x90 else 0x80;
        high = if c == 0xf4 then 0x8f else 0xbf;
      },
      [],
    )
    else none

continuation : Utf8State → ℕ → Option (Utf8State × Str)
continuation st c =
    if leb st.low c && leb c st.high
    then (let point = st.point * 64 + (c - 0x80) in
        if st.due == 1
        then some (idle, point ∷ [])
        else some (record { due = st.due - 1; point = point; low = 0x80; high = 0xbf }, []))
    else none

utf8_step : Utf8State → ℕ → Option (Utf8State × Str)
unfolding lead continuation
utf8_step st c = if st.due == 0 then lead c else continuation st c

utf8_run : Utf8State → Bytes → Option Str
unfolding utf8_step
utf8_run st [] = if st.due == 0 then some [] else none
utf8_run st (c ∷ s) = elim (utf8_step st c) [
  | none ↦ none
  | some (st', out) ↦ elim (utf8_run st' s) [ none ↦ none | some t ↦ some (out ++ t) ]
]

unfoldable pub utf8_decode : Bytes → Option Str
unfolding utf8_run
utf8_decode = utf8_run idle

unfoldable pub hex_value : ℕ → Option ℕ
hex_value c =
    if leb 48 c && leb c 57
    then some (c - 48)
    else if leb 65 c && leb c 70
    then some (c - 55)
    else if leb 97 c && leb c 102
    then some (c - 87)
    else none

-- the byte of two hex digits
hex_byte : ℕ → ℕ → Option ℕ
unfolding hex_value
hex_byte a b = do p ← hex_value a; q ← hex_value b; some (p * 16 + q)

-- urllib.parse.unquote_to_bytes: a "%" with two hex digits is a byte, any other stays
unfoldable pub unquote_to_bytes : Str → Bytes
unfolding hex_byte
unquote_to_bytes [] = []
unquote_to_bytes (c ∷ []) = c ∷ []
unquote_to_bytes (c ∷ d ∷ []) = c ∷ d ∷ []
unquote_to_bytes (c ∷ a ∷ b ∷ s) =
    let plain = c ∷ unquote_to_bytes (a ∷ b ∷ s) in
    if c == b'%'
    then elim (hex_byte a b) [ none ↦ plain | some v ↦ v ∷ unquote_to_bytes s ]
    else plain

-- each run of ASCII characters is decoded by itself; `run` is the one being read
unquote_runs : Str → Str → Option Str
unfolding utf8_decode unquote_to_bytes
unquote_runs run [] = utf8_decode (unquote_to_bytes run)
unquote_runs run (c ∷ s) = if ltb c 128 then unquote_runs (run ++ c ∷ []) s else (do
  head ← utf8_decode (unquote_to_bytes run)
  tail ← unquote_runs [] s
  some (head ++ c ∷ tail))

-- urllib.parse.unquote(s, errors="strict"); `none` for a UnicodeDecodeError
unfoldable pub unquote : Str → Option Str
unfolding unquote_runs
unquote s = if contains b'%' s then unquote_runs [] s else some s
