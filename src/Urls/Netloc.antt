-- ===== src/Urls/Netloc.antt =====
-- urls.py: the texts that a canonical origin is put together from, taken apart again.
use fastapi_better_auth.Base.{
  ℕ, zero, suc, ◌+◌, ◌/◌, ◌%◌, ◌≤◌, ◌≡◌, ◌≢◌, refl, sym, ap, Bool, true, false, not, ◌||◌, some,
  List, [], ◌∷◌, ◌++◌, arith, Bool-cases, inl, inr, ◌==◌, ltb, all, any,
}
use fastapi_better_auth.Text.{
  Str, contains, partition, lower, lower_char, strip, is_space, is_ascii, is_digits, all_digits,
  to_int, decimal, decimal_from, split_on, cons_head,
}
use fastapi_better_auth.Text.Laws.{strip_solid, starts_solid, ends_solid}
use fastapi_better_auth.Text.Decimal.{to_int-decimal}
use fastapi_better_auth.Urls.{is_control, is_host_char, is_hostname, is_label, remove_dot}
use fastapi_better_auth.Urls.Split.{authority, port_of}

-- a character of a host name, of an address or of a port
unfoldable pub is_plain_char : ℕ → Bool
unfolding is_host_char
is_plain_char c = is_host_char c || c == b'.' || c == b':'

module _ {A : Type 0} (p : A → Bool) where
  pub all-append : (s t : List A) → all p s ≡ true → all p t ≡ true → all p (s ++ t) ≡ true
  all-append [] t h k = k
  all-append (c ∷ s) t h k = let r = all-append s t (ground (arith, h)) k in ground (arith, h, r)

pub contains_plain :
    (c : ℕ) (s : Str) → is_plain_char c ≡ false → all is_plain_char s ≡ true → contains c s ≡ false
unfolding contains
contains_plain c [] other h = refl
contains_plain c (a ∷ s) other h = elim (Bool-cases (a == c)) [
  | inr differs ↦ let k = contains_plain c s other (ground (arith, h)) in ground (arith, differs, k)
  | inl same ↦
      let e : a ≡ c = ground (arith, same) in
      let k : is_plain_char a ≡ true = ground (arith, h) in absurd (cc (rw e at k))
]

-- `/`, `?` and `#` end an authority
pub authority_whole :
    (s : Str)
    → contains b'/' s ≡ false
    → contains b'?' s ≡ false
    → contains b'#' s ≡ false
    → authority s ≡ (s, [])
unfolding authority contains
authority_whole [] a b d = refl
authority_whole (c ∷ s) a b d =
    let k = authority_whole s (ground (arith, a)) (ground (arith, b)) (ground (arith, d)) in
    let e : (c == b'/' || c == b'?' || c == b'#') ≡ false = ground (arith, a, b, d) in
    rw (k, e) refl

pub partition_free :
    (c : ℕ) (s : Str)
    → contains c s ≡ false
    → partition c s ≡ record { before = s; found = false; after = [] }
unfolding partition contains
partition_free c [] h = refl
partition_free c (a ∷ s) h = ground (arith, partition_free c s)

pub lower_plain : (s : Str) → all is_plain_char s ≡ true → lower s ≡ s
unfolding lower lower_char is_plain_char is_host_char
lower_plain [] h = refl
lower_plain (c ∷ s) h =
    let k = lower_plain s (ground (arith, h)) in
    let e : (is_plain_char c) ≡ true = ground (arith, h) in ground (arith, k, e)

pub is_ascii_plain : (s : Str) → all is_plain_char s ≡ true → is_ascii s ≡ true
unfolding is_ascii is_plain_char is_host_char
is_ascii_plain [] h = refl
is_ascii_plain (c ∷ s) h = let k = is_ascii_plain s (ground (arith, h)) in ground (arith, h, k)

-- a text that `_as_text` lets through as it is
unfoldable pub is_calm : ℕ → Bool
is_calm c = not (is_control c)

pub calm_plain : (s : Str) → all is_plain_char s ≡ true → all is_calm s ≡ true
unfolding is_calm is_control is_space is_plain_char is_host_char
calm_plain [] h = refl
calm_plain (c ∷ s) h = let k = calm_plain s (ground (arith, h)) in ground (arith, h, k)

calm_start : (s : Str) → all is_calm s ≡ true → starts_solid s ≡ true
unfolding starts_solid is_calm is_control
calm_start [] h = refl
calm_start (c ∷ s) h = ground (arith, h)

calm_end : (s : Str) → all is_calm s ≡ true → ends_solid s ≡ true
unfolding ends_solid is_calm is_control
calm_end [] h = refl
calm_end (c ∷ []) h = ground (arith, h)
calm_end (c ∷ d ∷ s) h = calm_end (d ∷ s) (ground (arith, h))

pub strip_calm : (s : Str) → all is_calm s ≡ true → strip s ≡ s
strip_calm s h = strip_solid s (calm_start s h) (calm_end s h)

pub uncontrolled : (s : Str) → all is_calm s ≡ true → any is_control s ≡ false
unfolding is_calm
uncontrolled [] h = refl
uncontrolled (c ∷ s) h = let k = uncontrolled s (ground (arith, h)) in ground (arith, h, k)

-- the decimal of a number
decimal_from-all_digits :
    (f n : ℕ) (acc : Str) → all_digits acc ≡ true → all_digits (decimal_from f n acc) ≡ true
unfolding decimal_from all_digits
decimal_from-all_digits zero n acc h = h
decimal_from-all_digits (suc f) n acc h = elim (Bool-cases (ltb n 10)) [
  | inl one ↦ rw one (ground (arith, one, h))
  | inr more ↦
      rw more (decimal_from-all_digits f (n / 10) ((48 + n % 10) ∷ acc) (ground (arith, h)))
]

digits_plain : (s : Str) → all_digits s ≡ true → all is_plain_char s ≡ true
unfolding all_digits is_plain_char is_host_char
digits_plain [] h = refl
digits_plain (c ∷ s) h = let k = digits_plain s (ground (arith, h)) in ground (arith, h, k)

pub decimal_plain : (n : ℕ) → all is_plain_char (decimal n) ≡ true
unfolding decimal all_digits
decimal_plain n = digits_plain (decimal n) (decimal_from-all_digits (suc n) n [] refl)

-- a port that is written is read
pub port_of-decimal : (n : ℕ) → n ≢ 0 → n ≤ 65535 → port_of (decimal n) ≡ some (some n)
unfolding decimal all_digits to_int
port_of-decimal n positive small =
    read (decimal n) (to_int-decimal n) (decimal_from-all_digits (suc n) n [] refl)
  where
    read : (s : Str) → to_int s ≡ n → all_digits s ≡ true → port_of s ≡ some (some n)
    read [] e h = absurd (positive (sym e))
    read (c ∷ s) e h = unfold port_of is_digits in rw (h, e) (ground arith)

-- a label between dots
abbrev is_filled : Str → Bool
is_filled [] = false
is_filled (c ∷ w) = true

-- every label but the first is filled
others_filled : List Str → Bool
others_filled [] = true
others_filled (w ∷ ws) = all is_filled ws

others_kept :
    (c : ℕ) (ws : List Str) → others_filled (cons_head c ws) ≡ true → others_filled ws ≡ true
unfolding cons_head others_filled
others_kept c [] h = refl
others_kept c (w ∷ ws) h = h

others_of : (ws : List Str) → all is_filled ws ≡ true → others_filled ws ≡ true
unfolding others_filled
others_of [] h = refl
others_of (w ∷ ws) h = ground (arith, h)

undotted : (s : Str) → others_filled (split_on b'.' s) ≡ true → remove_dot s ≡ s
unfolding split_on remove_dot
undotted [] h = refl
undotted (c ∷ []) h = elim (Bool-cases (c == b'.')) [
  | inl dot ↦ absurd (unfold others_filled in cc (rw dot at h))
  | inr other ↦ rw other refl
]
undotted (c ∷ d ∷ s) h =
    ap (λ t. c ∷ t)
      (undotted (d ∷ s) (elim (Bool-cases (c == b'.')) [
        | inl dot ↦ others_of (split_on b'.' (d ∷ s)) (unfold others_filled in rw dot at h)
        | inr other ↦ others_kept c (split_on b'.' (d ∷ s)) (rw other at h)
      ]))

headed :
    (c : ℕ) (ws : List Str)
    → all (λ w. all is_host_char w) (cons_head c ws) ≡ true
    → (is_host_char c ≡ true) × (all (λ w. all is_host_char w) ws ≡ true)
unfolding cons_head
headed c [] h = (ground (arith, h), refl)
headed c (w ∷ ws) h = (ground (arith, h), ground (arith, h))

labels_plain :
    (s : Str)
    → all (λ w. all is_host_char w) (split_on b'.' s) ≡ true
    → (all is_plain_char s ≡ true) × (contains b':' s ≡ false)
unfolding split_on is_plain_char contains is_host_char
labels_plain [] h = (refl, refl)
labels_plain (c ∷ s) h = elim (Bool-cases (c == b'.')) [
  | inl dot ↦
      let (k, l) = labels_plain s (rw dot at h) in (ground (arith, dot, k), ground (arith, dot, l))
  | inr other ↦
      let (first, rest) = headed c (split_on b'.' s) (rw other at h) in
      let (k, l) = labels_plain s rest in (ground (arith, first, k), ground (arith, first, l))
]

label_parts :
    (ws : List Str)
    → all is_label ws ≡ true
    → (all (λ w. all is_host_char w) ws ≡ true) × (all is_filled ws ≡ true)
unfolding is_label
label_parts [] h = (refl, refl)
label_parts ([] ∷ ws) h = absurd (ground (arith, h))
label_parts ((c ∷ w) ∷ ws) h =
    let (k, l) = label_parts ws (ground (arith, h)) in (ground (arith, h, k), l)

-- A text that stands as a host without brackets.
pub record IsBare (host : Str) : Type 0 where
  pub chars : all is_plain_char host ≡ true
  pub undivided : contains b':' host ≡ false
  pub undotted : remove_dot host ≡ host
  pub filled : host ≢ []

pub hostname-IsBare : (host : Str) → is_hostname host ≡ true → IsBare host
unfolding is_hostname
hostname-IsBare host h =
    let (k, l) = label_parts (split_on b'.' host) h in
    let (chars, undivided) = labels_plain host k in
    record {
      chars = chars;
      undivided = undivided;
      undotted = undotted host (others_of (split_on b'.' host) l);
      filled = λ e. absurd (nothing (rw e at h));
    }
  where
    nothing : all is_label (split_on b'.' []) ≡ true → ⊥
    nothing k = unfold split_on is_label in cc
