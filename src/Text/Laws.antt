-- ===== src/Text/Laws.antt =====
-- Laws of the text operations.
use fastapi_better_auth.Base.{
  ℕ, ◌≡◌, refl, ◌↔◌, Bool, true, false, not, ◌||◌, [], ◌∷◌, ◌++◌, arith, ==_refl,
}
use fastapi_better_auth.Text.{
  Str, str_eq, contains, is_space, lstrip, rstrip, strip, is_blank, split_on, partition, rpartition,
  starts_with,
}

pub str_eq_refl : (s : Str) → str_eq s s ≡ true
unfolding str_eq
str_eq_refl [] = refl
str_eq_refl (a ∷ s) = rw (==_refl a) (str_eq_refl s)

eq_of_str_eq : (s t : Str) → str_eq s t ≡ true → s ≡ t
unfolding str_eq
eq_of_str_eq [] [] h = refl
eq_of_str_eq [] (b ∷ t) h = cc
eq_of_str_eq (a ∷ s) [] h = cc
eq_of_str_eq (a ∷ s) (b ∷ t) h = ground (arith, eq_of_str_eq s t)

pub str_eq_iff : (s t : Str) → (str_eq s t ≡ true) ↔ (s ≡ t)
str_eq_iff s t = (eq_of_str_eq s t, λ e. rw e (str_eq_refl t))

-- A text free of the separator is one part.
pub split_on-append :
    (c : ℕ) (w s : Str) → contains c w ≡ false → split_on c (w ++ (c ∷ s)) ≡ w ∷ split_on c s
unfolding split_on contains
split_on-append c [] s h = rw (==_refl c)
split_on-append c (a ∷ w) s h = ground (arith, split_on-append c w s)

pub split_on_free : (c : ℕ) (w : Str) → contains c w ≡ false → split_on c w ≡ w ∷ []
unfolding split_on contains
split_on_free c [] h = refl
split_on_free c (a ∷ w) h = ground (arith, split_on_free c w)

pub partition-append :
    (c : ℕ) (w s : Str)
    → contains c w ≡ false
    → partition c (w ++ (c ∷ s)) ≡ record { before = w; found = true; after = s }
unfolding partition contains
partition-append c [] s h = rw (==_refl c)
partition-append c (a ∷ w) s h = ground (arith, partition-append c w s)

pub rpartition_free :
    (c : ℕ) (w : Str)
    → contains c w ≡ false
    → rpartition c w ≡ record { before = []; found = false; after = w }
unfolding rpartition contains
rpartition_free c [] h = refl
rpartition_free c (a ∷ w) h = ground (arith, rpartition_free c w)

pub rpartition-append :
    (c : ℕ) (w s : Str)
    → contains c s ≡ false
    → rpartition c (w ++ (c ∷ s)) ≡ record { before = w; found = true; after = s }
unfolding rpartition
rpartition-append c [] s h = rw (rpartition_free c s h) (rw (==_refl c))
rpartition-append c (a ∷ w) s h = rw (rpartition-append c w s h)

pub rpartition_missing : (c : ℕ) (s : Str) → (rpartition c s).found ≡ false → contains c s ≡ false
unfolding rpartition contains
rpartition_missing c [] h = refl
rpartition_missing c (a ∷ s) h = ground (arith, rpartition_missing c s)

-- What a successful rpartition says of the text.
pub rpartition_found :
    (c : ℕ) (s : Str)
    → (rpartition c s).found ≡ true
    → (s ≡ (rpartition c s).before ++ (c ∷ (rpartition c s).after))
      × (contains c (rpartition c s).after ≡ false)
unfolding rpartition contains
rpartition_found c [] h = cc
rpartition_found c (a ∷ s) h = ground (arith, rpartition_found c s, rpartition_missing c s)

pub starts_with-append : (p s : Str) → starts_with p (p ++ s) ≡ true
unfolding starts_with
starts_with-append [] s = refl
starts_with-append (a ∷ p) s = rw (==_refl a) (starts_with-append p s)

-- A text that does not begin, or does not end, with whitespace.
unfoldable pub starts_solid : Str → Bool
starts_solid [] = true
starts_solid (c ∷ s) = not (is_space c)

unfoldable pub ends_solid : Str → Bool
ends_solid [] = true
ends_solid (c ∷ []) = not (is_space c)
ends_solid (c ∷ d ∷ s) = ends_solid (d ∷ s)

lstrip_solid : (s : Str) → starts_solid s ≡ true → lstrip s ≡ s
unfolding lstrip starts_solid
lstrip_solid [] h = refl
lstrip_solid (c ∷ s) h = ground arith

rstrip_solid : (s : Str) → ends_solid s ≡ true → rstrip s ≡ s
unfolding rstrip ends_solid
rstrip_solid [] h = refl
rstrip_solid (c ∷ []) h = ground arith
rstrip_solid (c ∷ d ∷ s) h = rw (rstrip_solid (d ∷ s) h)

-- strip leaves a text alone that neither begins nor ends with whitespace.
pub strip_solid : (s : Str) → starts_solid s ≡ true → ends_solid s ≡ true → strip s ≡ s
unfolding strip
strip_solid s h k = rw (lstrip_solid s h) (rstrip_solid s k)

pub strip-space : (c : ℕ) (s : Str) → is_space c ≡ true → strip (c ∷ s) ≡ strip s
unfolding strip lstrip
strip-space c s h = rw h

pub starts_solid-append :
    (c : ℕ) (s t : Str)
    → starts_solid s ≡ true
    → is_space c ≡ false
    → starts_solid (s ++ (c ∷ t)) ≡ true
unfolding starts_solid
starts_solid-append c [] t h k = rw k
starts_solid-append c (a ∷ s) t h k = h

pub ends_solid-append :
    (c : ℕ) (s t : Str)
    → ends_solid t ≡ true
    → is_space c ≡ false
    → ends_solid (s ++ (c ∷ t)) ≡ true
unfolding ends_solid
ends_solid-append c [] [] h k = rw k
ends_solid-append c [] (b ∷ t) h k = h
ends_solid-append c (a ∷ []) t h k = ends_solid-append c [] t h k
ends_solid-append c (a ∷ b ∷ s) t h k = ends_solid-append c (b ∷ s) t h k

-- `not s.strip()` is that every character is whitespace.
is_blank_lem : (s : Str) → is_blank s ≡ true → strip s ≡ []
unfolding is_blank strip lstrip rstrip
is_blank_lem [] h = refl
is_blank_lem (c ∷ s) h = ground (arith, is_blank_lem s)

pub contains-append : (c : ℕ) (s t : Str) → contains c (s ++ t) ≡ (contains c s || contains c t)
unfolding contains
contains-append c [] t = refl
contains-append c (a ∷ s) t = ground (arith, contains-append c s t)
