-- ===== src/Sql/Store/Pool.antt =====
-- stores/sqlalchemy_store.py: how many lookups of a SyncStoreAdapter may run at once.
use fastapi_better_auth.Base.{
  ℤ, pos, negsuc, ℕ, ◌+◌, ◌≤◌, ◌≡◌, Option, none, some, ltb, if◌then◌else◌, Bool-cases, inl, inr,
  arith,
}
use fastapi_better_auth.Errors.{
  configuration, Result, ok, raise, refuse_if, ok_of, ◌>>◌, bad_concurrency,
}

abbrev default_max_concurrency : ℕ
default_max_concurrency = 8

-- what is passed as `max_concurrency`: None, an int that is no bool, or anything else
pub data Concurrency : Type 0 where
  absent foreign : Concurrency
  number : ℤ → Concurrency

-- `pool.size` of an engine: no method, one that raises or answers no int, or one that answers an int
pub data Size : Type 0 where
  unstated : Size
  stated : ℤ → Size

-- an engine's pool: `overflow` is none where `_max_overflow` is no int
pub record ConnectionPool : Type 0 where
  pub size : Size
  pub overflow : Option ℤ

-- _validated_concurrency
unfoldable pub validated_concurrency : Concurrency → Result (Option ℕ)
validated_concurrency Concurrency.absent = ok none
validated_concurrency Concurrency.foreign = raise (configuration bad_concurrency)
validated_concurrency (number (negsuc n)) = raise (configuration bad_concurrency)
validated_concurrency (number (pos n)) =
    refuse_if (ltb n 1) (configuration bad_concurrency) >> ok (some n)

extra_of : Option ℤ → ℕ
extra_of none = 0
extra_of (some (pos n)) = n
extra_of (some (negsuc n)) = 0

-- _pool_ceiling
unfoldable pub pool_ceiling : ConnectionPool → ℕ
unfolding extra_of
pool_ceiling pool = elim pool.size [
  | unstated ↦ default_max_concurrency
  | stated base ↦ elim base [
    | negsuc n ↦ default_max_concurrency
    | pos n ↦ if ltb n 1 then default_max_concurrency else n + extra_of pool.overflow
  ]
]

-- _limiter_tokens
unfoldable pub limiter_tokens : ConnectionPool → Option ℕ → ℕ
limiter_tokens pool none = pool_ceiling pool
limiter_tokens pool (some n) = n

ceiling_bound : (pool : ConnectionPool) → 1 ≤ pool_ceiling pool
unfolding pool_ceiling
ceiling_bound pool = ground arith

-- Whatever the pool states, and whatever bound was configured, at least one lookup may run; a configured
-- bound is kept as it is.
pub limiter_tokens_bound :
    (pool : ConnectionPool) (given : Concurrency) (bound : Option ℕ)
    → validated_concurrency given ≡ ok bound
    → (1 ≤ limiter_tokens pool bound)
      × ((n : ℕ) → given ≡ number (pos n) → limiter_tokens pool bound ≡ n)
unfolding validated_concurrency limiter_tokens
limiter_tokens_bound pool Concurrency.absent bound h =
    rw (← ok_of h) (ceiling_bound pool, λ n e. absurd (cc))
limiter_tokens_bound pool Concurrency.foreign bound h = absurd (cc)
limiter_tokens_bound pool (number (negsuc m)) bound h = absurd (cc)
limiter_tokens_bound pool (number (pos m)) bound h = elim (Bool-cases (ltb m 1)) [
  | inl small ↦ absurd (cc (rw small at h))
  | inr fine ↦ let e : some m ≡ bound = ok_of (rw fine at h) in rw (← e) (ground arith, λ n k. cc)
]
