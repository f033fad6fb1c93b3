-- ===== src/Latches.antt =====
-- once.py, stores/outage.py and remote_backoff.py: the latches that keep a warning from repeating,
-- and the one that a 429 trips. A lock guards each method, so a method is one step.
pub mod Laws
pub mod Outage
use fastapi_better_auth.Base.{
  ℕ, ◌+◌, ◌≡◌, Bool, true, false, ◌&&◌, ◌||◌, Option, none, some, List, [], ◌∷◌, leb, ltb, ◌==◌,
  if◌then◌else◌, length,
}
use fastapi_better_auth.Text.{Str}

-- Once: whether it has fired
pub record Once : Type 0 where
  pub fired : Bool

abbrev pub new_once : Once
new_once = record { fired = false }

-- Once.fire
unfoldable pub fire : Once → Once × Bool
fire o = if o.fired then (o, false) else (record o { fired = true }, true)

-- OnceByKey: a Once for each key seen, under the test by which the keys are told apart
module _ {K : Type 0} (key_eq : K → K → Bool) where
  unfoldable pub latch_of : K → List (K × Once) → Option Once
  latch_of k [] = none
  latch_of k ((j, o) ∷ l) = if key_eq j k then some o else latch_of k l

  -- a latch is a shared object: firing it changes the one in the dictionary
  unfoldable pub put_latch : K → Once → List (K × Once) → List (K × Once)
  put_latch k o [] = (k, o) ∷ []
  put_latch k o ((j, p) ∷ l) = if key_eq j k then (j, o) ∷ l else (j, p) ∷ put_latch k o l

  get_or_new : Option Once → Once
  get_or_new none = new_once
  get_or_new (some o) = o

  -- OnceByKey.fire
  unfoldable pub fire_key : K → List (K × Once) → List (K × Once) × Bool
  unfolding latch_of put_latch get_or_new fire
  fire_key k l = let (o, first) = fire (get_or_new (latch_of k l)) in (put_latch k o l, first)

-- BackoffLatch: until when calls are blocked. Readings of the monotonic clock are numbers, in the
-- smallest unit that it tells apart.
pub record Backoff : Type 0 where
  pub blocked_until : Option ℕ

-- BackoffLatch.latched at the clock reading `now`
unfoldable pub latched : ℕ → Backoff → Backoff × Bool
latched now b = elim b.blocked_until [
  | none ↦ (b, false)
  | some until ↦ if leb until now then (record { blocked_until = none }, false) else (b, true)
]

-- BackoffLatch.observe of a response's status, where `backoff` is what retry_after_seconds reads of
-- its headers; the Boolean tells whether the warning was logged
unfoldable pub observe : ℕ → ℕ → ℕ → Backoff → Backoff × Bool
unfolding latched
observe now status backoff b =
    if status == 429
    then (let (b', blocked) = latched now b in
        if blocked then (b', false) else (record { blocked_until = some (now + backoff) }, true))
    else (b, false)
