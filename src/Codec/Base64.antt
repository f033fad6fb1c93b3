-- ===== src/Codec/Base64.antt =====
-- Lemmas on base64 encoding and decoding.
use fastapi_better_auth.Base.{
  ℕ, ◌+◌, ◌*◌, ◌/◌, ◌%◌, ◌<◌, ◌≡◌, refl, ap, ◌∙◌, false, Option, some, [], ◌∷◌, ◌==◌, All, arith,
  none, true, Bool-cases, ==_iff, inl, inr, sym,
}
use fastapi_better_auth.Text.{Str, Bytes, contains, is_ascii}
use fastapi_better_auth.Codec.{
  b64_value, b64_char, b64encode, b64decode, full_quad, last_quad, pad, ◌>>=◌,
}

b64_value-char : (v : ℕ) → v < 64 → b64_value (b64_char v) ≡ some v
unfolding b64_value b64_char
b64_value-char v h = ground arith

b64_char-ne-pad : (v : ℕ) → v < 64 → (b64_char v == pad) ≡ false
unfolding b64_char
b64_char-ne-pad v h = ground arith

bytes_eq :
    {a b c x y z : ℕ} (s : Bytes)
    → a ≡ x
    → b ≡ y
    → c ≡ z
    → some (a ∷ b ∷ c ∷ s) ≡ some (x ∷ y ∷ z ∷ s)
bytes_eq s p q r = cc

quad-encode :
    (x y z : ℕ) (s : Bytes)
    → x < 256
    → y < 256
    → z < 256
    → full_quad
        (b64_char (x / 4))
        (b64_char (x % 4 * 16 + y / 16))
        (b64_char (y % 16 * 4 + z / 64))
        (b64_char (z % 64))
        (some s)
      ≡ some (x ∷ y ∷ z ∷ s)
unfolding full_quad
quad-encode x y z s hx hy hz =
    rw (b64_value-char (x / 4) (omega arith), b64_value-char (x % 4 * 16 + y / 16) (omega arith))
      (rw
        (b64_value-char (y % 16 * 4 + z / 64) (omega arith), b64_value-char (z % 64) (omega arith))
        (bytes_eq s (omega arith) (omega arith) (omega arith)))

last-one :
    (x : ℕ) → x < 256 → last_quad (b64_char (x / 4)) (b64_char (x % 4 * 16)) pad pad ≡ some (x ∷ [])
unfolding last_quad
last-one x h =
    rw (b64_value-char (x / 4) (omega arith), b64_value-char (x % 4 * 16) (omega arith))
      (ap (λ (n : ℕ). some (n ∷ [])) (omega arith))

pair_eq :
    {a b x y : ℕ} → a ≡ x → b ≡ y → ◌≡◌ {A = Option Bytes} (some (a ∷ b ∷ [])) (some (x ∷ y ∷ []))
pair_eq p q = cc

last-two :
    (x y : ℕ)
    → x < 256
    → y < 256
    → last_quad (b64_char (x / 4)) (b64_char (x % 4 * 16 + y / 16)) (b64_char (y % 16 * 4)) pad
      ≡ some (x ∷ y ∷ [])
unfolding last_quad
last-two x y hx hy = rw (b64_char-ne-pad (y % 16 * 4) (omega arith)) (
    rw
      (
        b64_value-char (x / 4) (omega arith),
        b64_value-char (x % 4 * 16 + y / 16) (omega arith),
        b64_value-char (y % 16 * 4) (omega arith),
      )
      (pair_eq (omega arith) (omega arith)))

last-full : (a b c d : ℕ) → (d == pad) ≡ false → last_quad a b c d ≡ full_quad a b c d (some [])
unfolding last_quad
last-full a b c d h = ground arith

b64decode-quad :
    (a b c d : ℕ) (s : Str) (t : Bytes)
    → (d == pad) ≡ false
    → b64decode s ≡ some t
    → b64decode (a ∷ b ∷ c ∷ d ∷ s) ≡ full_quad a b c d (some t)
unfolding b64decode
b64decode-quad a b c d [] t h e = last-full a b c d h ∙ ap (full_quad a b c d) e
b64decode-quad a b c d (x ∷ s) t h e = ap (full_quad a b c d) e

-- Decoding what was encoded gives the bytes back.
pub b64decode-b64encode : (s : Bytes) → All (λ x. x < 256) s → b64decode (b64encode s) ≡ some s
unfolding b64encode
b64decode-b64encode [] h = unfold b64decode in refl
b64decode-b64encode (x ∷ []) (hx, _) = unfold b64decode in last-one x hx
b64decode-b64encode (x ∷ y ∷ []) (hx, (hy, _)) = unfold b64decode in last-two x y hx hy
b64decode-b64encode (x ∷ y ∷ z ∷ s) (hx, (hy, (hz, h))) =
    b64decode-quad _ _ _ _ (b64encode s) s (b64_char-ne-pad (z % 64) (omega arith))
      (b64decode-b64encode s h)
    ∙ quad-encode x y z s hx hy hz

-- a chain of lookups that succeeded
bind-eq-some {ℓ κ} :
    {A : Type ℓ} {B : Type κ} (m : Option A) (f : A → Option B) {b : B}
    → (m >>= f) ≡ some b
    → (a : A) × (m ≡ some a) × (f a ≡ some b)
bind-eq-some none f h = cc
bind-eq-some (some a) f h = (a, refl, h)

-- What holds of the alphabet and of the padding holds of every character of a text that decodes.
module _ (P : ℕ → Type 0) (alphabet : (c v : ℕ) → b64_value c ≡ some v → P c)
    (padding : P pad) where
  full_quad-All :
      (a b c d : ℕ) (rest : Option Bytes) (t : Bytes)
      → full_quad a b c d rest ≡ some t
      → (P a × P b × P c × P d) × ((u : Bytes) × (rest ≡ some u))
  unfolding full_quad
  full_quad-All a b c d rest t h =
      let (p, ep, h1) = bind-eq-some (b64_value a) _ h in
      let (q, eq, h2) = bind-eq-some (b64_value b) _ h1 in
      let (r, er, h3) = bind-eq-some (b64_value c) _ h2 in
      let (s, es, h4) = bind-eq-some (b64_value d) _ h3 in
      let (u, eu, h5) = bind-eq-some rest _ h4 in
      ((alphabet a p ep, alphabet b q eq, alphabet c r er, alphabet d s es), (u, eu))

  padded : (c : ℕ) → (c == pad) ≡ true → P c
  padded c e = rw ((==_iff c pad).0 e) padding

  last_quad-All :
      (a b c d : ℕ) (t : Bytes) → last_quad a b c d ≡ some t → All P (a ∷ b ∷ c ∷ d ∷ [])
  unfolding last_quad
  last_quad-All a b c d t h = elim (Bool-cases (d == pad)) [
    | inl dp ↦ elim (Bool-cases (c == pad)) [
      | inl cp ↦
          let (p, ep, h1) = bind-eq-some (b64_value a) _ (rw (cp, dp) at h) in
          let (q, eq, h2) = bind-eq-some (b64_value b) _ h1 in
          (alphabet a p ep, (alphabet b q eq, (padded c cp, (padded d dp, tt))))
      | inr cn ↦
          let (p, ep, h1) = bind-eq-some (b64_value a) _ (rw (cn, dp) at h) in
          let (q, eq, h2) = bind-eq-some (b64_value b) _ h1 in
          let (r, er, h3) = bind-eq-some (b64_value c) _ h2 in
          (alphabet a p ep, (alphabet b q eq, (alphabet c r er, (padded d dp, tt))))
    ]
    | inr dn ↦
        let ((pa, pb, pc, pd), _) =
          full_quad-All a b c d (some []) t (sym (last-full a b c d dn) ∙ h) in
        (pa, (pb, (pc, (pd, tt))))
  ]

  b64decode-All : (s : Str) (t : Bytes) → b64decode s ≡ some t → All P s
  unfolding b64decode
  b64decode-All [] t h = tt
  b64decode-All (a ∷ b ∷ c ∷ d ∷ []) t h = last_quad-All a b c d t h
  b64decode-All (a ∷ b ∷ c ∷ d ∷ e ∷ s) t h =
      let ((pa, pb, pc, pd), (u, eu)) = full_quad-All a b c d (b64decode (e ∷ s)) t h in
      (pa, (pb, (pc, (pd, b64decode-All (e ∷ s) u eu))))
  b64decode-All _ t h = absurd (cc)

b64_value-range : (c v : ℕ) → b64_value c ≡ some v → (c < 128) × ((c == b'.') ≡ false)
unfolding b64_value
b64_value-range c v h = ground arith

contains_of_All :
    (s : Str) → All (λ c. (c < 128) × ((c == b'.') ≡ false)) s → contains b'.' s ≡ false
unfolding contains
contains_of_All [] h = refl
contains_of_All (c ∷ s) ((_, p), h) = rw p (contains_of_All s h)

is_ascii_of_All : (s : Str) → All (λ c. (c < 128) × ((c == b'.') ≡ false)) s → is_ascii s ≡ true
unfolding is_ascii
is_ascii_of_All [] h = refl
is_ascii_of_All (c ∷ s) ((p, _), h) = ground (arith, is_ascii_of_All s h)

-- A text that decodes holds no dot and is ASCII.
pub b64decode-no_dot : (s : Str) (t : Bytes) → b64decode s ≡ some t → contains b'.' s ≡ false
b64decode-no_dot s t h =
    contains_of_All s (b64decode-All _ b64_value-range (omega arith, refl) s t h)

pub b64decode-is_ascii : (s : Str) (t : Bytes) → b64decode s ≡ some t → is_ascii s ≡ true
b64decode-is_ascii s t h =
    is_ascii_of_All s (b64decode-All _ b64_value-range (omega arith, refl) s t h)
