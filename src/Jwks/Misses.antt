-- ===== src/Jwks/Misses.antt =====
-- jwks.py: the list of misses, and the lookup of a kid.
use fastapi_better_auth.Base.{
  ℕ, suc, ◌≤◌, ◌≡◌, some, List, [], ◌∷◌, arith, leb, length, All, Bool-cases, inl, inr,
}
use fastapi_better_auth.Text.{Str, str_eq}
use fastapi_better_auth.Text.Laws.{str_eq_iff}
use fastapi_better_auth.Jwks.Parse.{Jwk, lookup}
use fastapi_better_auth.Jwks.{get, delete, assign, evict}

module _ (P : Str × ℕ → Type 0) where
  pub evict-All : (l : List (Str × ℕ)) → All P l → All P (evict l) × (length (evict l) ≤ 255)
  unfolding evict
  evict-All [] h = (tt, omega arith)
  evict-All (e ∷ l) (p, h) = elim (Bool-cases (leb 256 (length (e ∷ l)))) [
    | inl full ↦ rw full (evict-All l h)
    | inr room ↦ rw room ((p, h), ground (arith, room))
  ]

  pub assign-All :
      (kid : Str) (now : ℕ) (l : List (Str × ℕ))
      → ((at : ℕ) → P (kid, at))
      → All P l
      → All P (assign kid now l) × (length (assign kid now l) ≤ suc (length l))
  unfolding assign
  assign-All kid now [] p h = ((p now, tt), omega arith)
  assign-All kid now ((k, at) ∷ l) p (q, h) = elim (Bool-cases (str_eq k kid)) [
    | inl same ↦ rw same ((rw ((str_eq_iff k kid).0 same) (p now), h), omega arith)
    | inr other ↦ let (a, s) = assign-All kid now l p h in rw other ((q, a), omega arith)
  ]

  pub delete-All :
      (kid : Str) (l : List (Str × ℕ))
      → All P l
      → All P (delete kid l) × (length (delete kid l) ≤ length l)
  unfolding delete
  delete-All kid [] h = (tt, omega arith)
  delete-All kid ((k, at) ∷ l) (q, h) =
      let (a, s) = delete-All kid l h in
      elim (Bool-cases (str_eq k kid)) [
        | inl same ↦ rw same (a, omega arith)
        | inr other ↦ rw other ((q, a), omega arith)
      ]

  pub get-All :
      (kid : Str) (at : ℕ) (l : List (Str × ℕ)) → get kid l ≡ some at → All P l → P (kid, at)
  unfolding get
  get-All kid at [] e h = absurd (cc)
  get-All kid at ((k, v) ∷ l) e (q, h) = elim (Bool-cases (str_eq k kid)) [
    | inl same ↦
        let same_at : v ≡ at = cc (rw same at e) in rw (← (str_eq_iff k kid).0 same, ← same_at) q
    | inr other ↦ get-All kid at l (rw other at e) h
  ]

pub lookup-All :
    {Key : Type 0} (P : Str × Jwk Key → Type 0) (kid : Str) (jwk : Jwk Key)
    (keys : List (Str × Jwk Key))
    → lookup kid keys ≡ some jwk
    → All P keys
    → P (kid, jwk)
unfolding lookup
lookup-All P kid jwk [] e h = absurd (cc)
lookup-All P kid jwk ((k, j) ∷ keys) e (q, h) = elim (Bool-cases (str_eq k kid)) [
  | inl same ↦
      let found : j ≡ jwk = cc (rw same at e) in rw (← (str_eq_iff k kid).0 same, ← found) q
  | inr other ↦ lookup-All P kid jwk keys (rw other at e) h
]
