-- ===== src/Secret/Laws.antt =====
-- shared_secret.py: an accepted secret.
use fastapi_better_auth.Base.{
  ℕ, zero, suc, ◌≤◌, ◌<◌, ◌≡◌, ◌≢◌, refl, sym, ap, ◌∙◌, true, false, some, List, [], ◌∷◌, ◌++◌, leb,
  arith, All, length, drop, length-append, drop-append, append_assoc, append-nil, Bool-cases, inl,
  inr,
}
use fastapi_better_auth.Text.{Str, strip, is_blank, is_encodable, starts_with}
use fastapi_better_auth.Text.Laws.{str_eq_iff, starts_with-append}
use fastapi_better_auth.Errors.{ok}
use fastapi_better_auth.Cookies.{member}
use fastapi_better_auth.Secret.{
  text, take, find, find_after_first, repeating_unit, is_refused, accepted, placeholder_secrets,
}

-- `count` copies of `unit`, one after the other
unfoldable pub repeated : ℕ → Str → Str
repeated zero unit = []
repeated (suc count) unit = unit ++ repeated count unit

-- A secret as the library wants it. It is no repetition of a unit shorter than 32 characters.
pub record IsStrong (casefold : Str → Str) (value : Str) : Type 0 where
  pub trimmed : strip value ≡ value
  pub encodable : is_encodable value ≡ true
  pub unknown : All (λ p. casefold value ≢ p) placeholder_secrets
  pub long : 32 ≤ length value
  pub varied : (count : ℕ) (unit : Str) → value ≡ repeated count unit → 32 ≤ length unit

repeated-append : (n : ℕ) (u : Str) → repeated n u ++ u ≡ u ++ repeated n u
unfolding repeated
repeated-append zero u = sym (append-nil u)
repeated-append (suc n) u = append_assoc u (repeated n u) u ∙ ap (λ s. u ++ s) (repeated-append n u)

-- the first place of a needle is not after any place of it
find-drop :
    (needle s : Str) (k : ℕ)
    → k ≤ length s
    → starts_with needle (drop k s) ≡ true
    → (i : ℕ) × (find needle s ≡ some i) × (i ≤ k)
unfolding find
find-drop needle [] zero h e = (0, rw e refl, omega arith)
find-drop needle [] (suc k) h e = absurd (omega arith)
find-drop needle (c ∷ s) zero h e = (0, rw e refl, omega arith)
find-drop needle (c ∷ s) (suc k) h e = elim (Bool-cases (starts_with needle (c ∷ s))) [
  | inl here ↦ (0, rw here refl, omega arith)
  | inr later ↦
      let (i, found, before) = find-drop needle s k (omega arith) e in
      (suc i, rw (later, found) refl, omega arith)
]

length-take : (n : ℕ) (s : Str) → length (take n s) ≤ n
unfolding take
length-take zero s = omega arith
length-take (suc n) [] = omega arith
length-take (suc n) (c ∷ s) = omega (arith, length-take n s)

-- a value that begins again at `k` in its double has a unit of at most `k` characters
unit_short :
    (c : ℕ) (s : Str) (k : ℕ)
    → k < length (c ∷ s)
    → starts_with (c ∷ s) (drop k (s ++ (c ∷ s))) ≡ true
    → length (repeating_unit (c ∷ s)) ≤ suc k
unfolding repeating_unit find_after_first
unit_short c s k h e =
    let (i, found, before) =
      find-drop (c ∷ s) (s ++ (c ∷ s)) k (omega (arith, length-append s (c ∷ s))) e in
    elim (Bool-cases (leb (length (c ∷ s)) (suc i))) [
      | inl whole ↦ rw (repeating_unit, found, whole) (ground (arith, whole))
      | inr part ↦ rw (repeating_unit, found, part) (omega (arith, length-take (suc i) (c ∷ s)))
    ]

unit_of_repeated :
    (d : ℕ) (u : Str) (m : ℕ)
    → length (repeating_unit ((d ∷ u) ++ repeated m (d ∷ u))) ≤ length (d ∷ u)
unit_of_repeated d u m =
    let rest : Str = repeated m (d ∷ u) in
    let value : Str = (d ∷ u) ++ rest in
    let shifted : drop (length u) ((u ++ rest) ++ value) ≡ value ++ rest =
      ap (drop (length u)) (append_assoc u rest value)
      ∙ (drop-append u (rest ++ value)
          ∙ (sym (append_assoc rest (d ∷ u) rest)
              ∙ ap (λ s. s ++ rest) (repeated-append m (d ∷ u)))) in
    unit_short d (u ++ rest) (length u) (omega (arith, length-append u rest))
      (rw shifted (starts_with-append value rest))

repeated_nil : (n : ℕ) → repeated n [] ≡ []
unfolding repeated
repeated_nil zero = refl
repeated_nil (suc n) = repeated_nil n

unit_bound :
    (value : Str) (count : ℕ) (unit : Str)
    → value ≢ []
    → value ≡ repeated count unit
    → length (repeating_unit value) ≤ length unit
unfolding repeated
unit_bound value zero unit filled e = absurd (filled e)
unit_bound value (suc n) [] filled e = absurd (filled (e ∙ repeated_nil (suc n)))
unit_bound value (suc n) (d ∷ u) filled e = rw e (unit_of_repeated d u n)

not-member-All : (s : Str) (ts : List Str) → member s ts ≡ false → All (λ t. s ≢ t) ts
unfolding member
not-member-All s [] h = tt
not-member-All s (t ∷ ts) h = (ground (arith, str_eq_iff s t), not-member-All s ts (ground arith))

filled_value : (value : Str) → is_blank value ≡ false → value ≢ []
unfolding is_blank
filled_value [] h = absurd (cc)
filled_value (c ∷ s) h = λ e. cc

module _ (casefold : Str → Str) where
  accepted_value :
      (value w : Str)
      → accepted casefold (text value) ≡ ok w
      → (w ≡ value) × (is_refused casefold value ≡ false)
  unfolding accepted
  accepted_value value w h = elim (Bool-cases (is_refused casefold value)) [
    | inl bad ↦ absurd (cc (rw bad at h))
    | inr good ↦ (cc (rw good at h), good)
  ]

  -- A value that a SharedSecret accepts is kept as it is, has no whitespace at its ends, can be encoded,
  -- is none of the known placeholders, has at least 32 characters, and is not the repetition of any
  -- unit of fewer than 32 characters.
  pub accepted-IsStrong :
      (value w : Str)
      → accepted casefold (text value) ≡ ok w
      → (w ≡ value) × IsStrong casefold value
  unfolding is_refused
  accepted-IsStrong value w h =
      let (same, good) = accepted_value value w h in
      (
        same,
        record {
          trimmed = sym ((str_eq_iff value (strip value)).0 (ground (arith, good)));
          encodable = ground (arith, good);
          unknown = not-member-All (casefold value) placeholder_secrets (ground (arith, good));
          long = ground (arith, good);
          varied = λ count unit e.
              let bound =
                unit_bound value count unit (filled_value value (ground (arith, good))) e in
              ground (arith, good, bound);
        },
      )
