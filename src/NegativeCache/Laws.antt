-- ===== src/NegativeCache/Laws.antt =====
-- negative_cache.py: the bound and the window of the cache.
use fastapi_better_auth.Base.{
  ℕ, suc, ◌+◌, ◌≤◌, ◌<◌, ◌≡◌, inl, inr, true, some, List, [], ◌∷◌, arith, leb, ltb, length,
  Bool-cases,
}
use fastapi_better_auth.Text.{Str, Bytes}
use fastapi_better_auth.Text.Laws.{str_eq_refl}
use fastapi_better_auth.NegativeCache.{
  NegativeCache, get, delete, assign, has, evict, key, holds, remember, remembered_in,
}

abbrev Entries : Type 0
Entries = List (Bytes × ℕ)

length-delete-le : (k : Bytes) (l : Entries) → length (delete k l) ≤ length l
unfolding delete
length-delete-le k [] = omega arith
length-delete-le k ((j, v) ∷ l) = ground (arith, length-delete-le k l)

length-assign-le : (k : Bytes) (v : ℕ) (l : Entries) → length (assign k v l) ≤ suc (length l)
unfolding assign
length-assign-le k v [] = omega arith
length-assign-le k v ((j, w) ∷ l) = ground (arith, length-assign-le k v l)

length-assign-has :
    (k : Bytes) (v : ℕ) (l : Entries) → has k l ≡ true → length (assign k v l) ≡ length l
unfolding assign has
length-assign-has k v [] h = cc
length-assign-has k v ((j, w) ∷ l) h = ground (arith, length-assign-has k v l)

get-assign : (k : Bytes) (v : ℕ) (l : Entries) → get k (assign k v l) ≡ some v
unfolding get assign
get-assign k v [] = rw (str_eq_refl k)
get-assign k v ((j, w) ∷ l) = ground (arith, get-assign k v l)

-- Eviction never runs out of entries, and leaves room for the key.
evict_room :
    (max : ℕ) (k : Bytes) (v : ℕ) (l : Entries)
    → 0 < max
    → length l ≤ max
    → (l' : Entries) × (evict max k l ≡ some l') × (length (assign k v l') ≤ max)
unfolding evict
evict_room max k v [] h b = ([], ground arith, unfold assign in h)
evict_room max k v (e ∷ l) h b = elim (Bool-cases (has k (e ∷ l))) [
  | inl held ↦ (e ∷ l, rw held, rw (length-assign-has k v (e ∷ l) held) b)
  | inr absent ↦ elim (Bool-cases (leb max (length (e ∷ l)))) [
    | inl full ↦
        let (l', out, fits) = evict_room max k v l h (omega arith) in
        (l', rw (absent, full) out, fits)
    | inr room ↦ (e ∷ l, rw (absent, room), ground (arith, length-assign-le k v (e ∷ l)))
  ]
]

-- The configuration that the verifier validates, and the bound.
pub record IsBounded (c : NegativeCache) : Type 0 where
  pub positive : 0 < c.max
  pub bounded : length c.entries ≤ c.max

module _ (sha256 : Bytes → Bytes) where
  remembered :
      (now : ℕ) (m : Str) (c : NegativeCache)
      → IsBounded c
      → 0 < c.ttl
      → (l : Entries) × (evict c.max (key sha256 m) c.entries ≡ some l)
        × (remember sha256 now m c ≡ some (record c { entries = assign (key sha256 m) now l }))
        × (length (assign (key sha256 m) now l) ≤ c.max)
  unfolding remember remembered_in
  remembered now m c b t =
      let (l, out, fits) = evict_room c.max (key sha256 m) now c.entries b.positive b.bounded in
      (l, out, rw (out, remembered_in) (ground arith), fits)

  -- Remembering a verdict always succeeds and keeps the cache within its maximum.
  pub remember-IsBounded :
      (now : ℕ) (m : Str) (c : NegativeCache)
      → IsBounded c
      → (c' : NegativeCache) × (remember sha256 now m c ≡ some c') × IsBounded c'
  remember-IsBounded now m c b = elim (Bool-cases (leb c.ttl 0)) [
    | inl off ↦ (c, unfold remember in rw off, b)
    | inr on ↦
        let (l, out, kept, fits) = remembered now m c b (ground arith) in
        (
          record c { entries = assign (key sha256 m) now l },
          kept,
          record { positive = b.positive; bounded = fits },
        )
  ]

  -- A remembered verdict is answered exactly until its time to live has passed.
  pub holds-remember :
      (at now : ℕ) (m : Str) (c c' : NegativeCache)
      → IsBounded c
      → 0 < c.ttl
      → remember sha256 at m c ≡ some c'
      → (holds sha256 now m c').1 ≡ ltb now (at + c.ttl)
  unfolding holds
  holds-remember at now m c c' b t h =
      let (l, out, kept, fits) = remembered at m c b t in
      let e : c' ≡ record c { entries = assign (key sha256 m) at l } = ground arith in
      rw e (ground (arith, get-assign (key sha256 m) at l))
