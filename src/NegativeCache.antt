-- ===== src/NegativeCache.antt =====
-- negative_cache.py: the bounded, expiring set of cookie values that upstream called dead. The
-- SHA-256 of a value is a parameter, and a clock reading is a number in the smallest unit.
pub mod Laws
pub mod History
use fastapi_better_auth.Base.{
  ℕ, zero, suc, ◌+◌, ◌-◌, Bool, true, false, not, ◌&&◌, ◌||◌, Option, none, some, List, [], ◌∷◌,
  ◌++◌, leb, ltb, ◌==◌, if◌then◌else◌, length,
}
use fastapi_better_auth.Text.{Str, Bytes, str_eq, utf8}

pub record NegativeCache : Type 0 where
  pub ttl : ℕ
  pub max : ℕ
  pub entries : List (Bytes × ℕ)

-- the constructor
abbrev pub new : ℕ → ℕ → NegativeCache
new ttl max = record { ttl = ttl; max = max; entries = [] }

-- a dict keeps its keys in the order of insertion
unfoldable pub get : Bytes → List (Bytes × ℕ) → Option ℕ
get k [] = none
get k ((j, v) ∷ l) = if str_eq j k then some v else get k l

unfoldable pub delete : Bytes → List (Bytes × ℕ) → List (Bytes × ℕ)
delete k [] = []
delete k ((j, v) ∷ l) = if str_eq j k then l else (j, v) ∷ delete k l

-- an assignment keeps the place of a key that is there
unfoldable pub assign : Bytes → ℕ → List (Bytes × ℕ) → List (Bytes × ℕ)
assign k v [] = (k, v) ∷ []
assign k v ((j, w) ∷ l) = if str_eq j k then (j, v) ∷ l else (j, w) ∷ assign k v l

unfoldable pub has : Bytes → List (Bytes × ℕ) → Bool
has k [] = false
has k ((j, v) ∷ l) = str_eq j k || has k l

-- the loop that pops the oldest entry; `none` is the StopIteration of an empty dict
unfoldable pub evict : ℕ → Bytes → List (Bytes × ℕ) → Option (List (Bytes × ℕ))
unfolding has
evict max k [] = if leb max 0 then none else some []
evict max k (e ∷ l) =
    let rest = evict max k l in
    if not (has k (e ∷ l)) && leb max (length (e ∷ l)) then rest else some (e ∷ l)

module _ (sha256 : Bytes → Bytes) where
  -- _key
  unfoldable pub key : Str → Bytes
  key material = sha256 (utf8 material)

  -- NegativeCache.holds
  unfoldable pub holds : ℕ → Str → NegativeCache → NegativeCache × Bool
  unfolding key
  holds now material c = if leb c.ttl 0 then (c, false) else elim (get (key material) c.entries) [
    | none ↦ (c, false)
    | some at ↦
        if leb (at + c.ttl) now
        then (record c { entries = delete (key material) c.entries }, false)
        else (c, true)
  ]

  remembered_in : ℕ → Bytes → NegativeCache → Option (List (Bytes × ℕ)) → Option NegativeCache
  remembered_in now k c none = none
  remembered_in now k c (some l) = some (record c { entries = assign k now l })

  -- NegativeCache.remember
  unfoldable pub remember : ℕ → Str → NegativeCache → Option NegativeCache
  unfolding key remembered_in
  remember now material c =
      if leb c.ttl 0
      then some c
      else remembered_in now (key material) c (evict c.max (key material) c.entries)
