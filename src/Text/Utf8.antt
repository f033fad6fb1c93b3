-- ===== src/Text/Utf8.antt =====
-- UTF-8 bytes of ASCII texts, where encoding may replace.
use fastapi_better_auth.Base.{ℕ, ◌<◌, ◌≡◌, refl, true, false, [], ◌∷◌, ◌++◌, arith, ◌==◌}
use fastapi_better_auth.Text.{Str, Bytes, utf8, utf8_char, is_ascii, contains}

pub utf8_ascii : (t : Str) → is_ascii t ≡ true → utf8 t ≡ t
unfolding utf8 utf8_char is_ascii
utf8_ascii [] h = refl
utf8_ascii (c ∷ t) h = ground (arith, utf8_ascii t)

utf8_char_head :
    (a b : ℕ) (r rest : Bytes)
    → utf8_char a ++ r ≡ b ∷ rest
    → b < 128
    → (b == 63) ≡ false
    → (a ≡ b) × (r ≡ rest)
unfolding utf8_char
utf8_char_head a b r rest h k q = ground arith

utf8-cons-ne-nil : (a : ℕ) (r : Bytes) → utf8_char a ++ r ≡ [] → ⊥
unfolding utf8_char
utf8-cons-ne-nil a r h = ground arith

pub eq_of_utf8 : (s t : Str) → is_ascii t ≡ true → contains 63 t ≡ false → utf8 s ≡ t → s ≡ t
unfolding utf8 is_ascii contains
eq_of_utf8 [] t h q e = e
eq_of_utf8 (a ∷ s) [] h q e = absurd (utf8-cons-ne-nil a (utf8 s) e)
eq_of_utf8 (a ∷ s) (b ∷ t) h q e =
    let (same, rest) = utf8_char_head a b (utf8 s) t e (ground arith) (ground arith) in
    ground (arith, same, eq_of_utf8 s t (ground arith) (ground arith) rest)
