-- ===== src/Latches/Laws.antt =====
-- once.py and remote_backoff.py: what the latches let through.
use fastapi_better_auth.Base.{
  ℕ, ◌+◌, ◌≡◌, refl, ◌↔◌, Bool, true, false, not, ◌||◌, none, some, List, [], ◌∷◌, arith, ltb,
  if◌then◌else◌,
}
use fastapi_better_auth.Latches.{
  Once, fire, latch_of, put_latch, get_or_new, fire_key, Backoff, latched, observe,
}

-- A 429 seen while no backoff is in force blocks every call until exactly the wait that it named
-- has passed, and logs one warning.
pub observe_window :
    (at now wait : ℕ) (b : Backoff)
    → (latched at b).1 ≡ false
    → ((observe at 429 wait b).1 ≡ true)
      × ((latched now (observe at 429 wait b).0).1 ≡ ltb now (at + wait))
unfolding observe latched
observe_window at now wait b h = ground arith

-- While a backoff is in force no response changes it or logs again, so a burst of 429s neither
-- extends the window nor floods the log.
pub observe-latched :
    (now status wait : ℕ) (b : Backoff)
    → (latched now b).1 ≡ true
    → observe now status wait b ≡ (b, false)
unfolding observe latched
observe-latched now status wait b h = ground arith

module _ {K : Type 0} (key_eq : K → K → Bool)
    (key_eq_iff : (a b : K) → (key_eq a b ≡ true) ↔ (a ≡ b)) where
  seen_before : K → List K → Bool
  seen_before k [] = false
  seen_before k (j ∷ js) = key_eq j k || seen_before k js

  -- the independent description: a key is answered true where it occurs for the first time
  unfoldable pub firsts : List K → List K → List Bool
  unfolding seen_before
  firsts seen [] = []
  firsts seen (k ∷ ks) = not (seen_before k seen) ∷ firsts (k ∷ seen) ks

  -- the results of a sequence of calls of OnceByKey.fire
  unfoldable pub fire_all : List K → List (K × Once) → List Bool
  fire_all [] l = []
  fire_all (k ∷ ks) l = let (l', first) = fire_key key_eq k l in first ∷ fire_all ks l'

  latch_of-put_latch :
      (k j : K) (o : Once) (l : List (K × Once))
      → latch_of key_eq j (put_latch key_eq k o l)
        ≡ (if key_eq k j then some o else latch_of key_eq j l)
  unfolding latch_of put_latch
  latch_of-put_latch k j o [] = refl
  latch_of-put_latch k j o ((i, p) ∷ l) =
      ground (arith, latch_of-put_latch k j o l, key_eq_iff i k, key_eq_iff i j, key_eq_iff k j)

  abbrev Agrees : List (K × Once) → List K → Type 0
  Agrees l seen =
      (k : K)
      → latch_of key_eq k l ≡ (if seen_before k seen then some (record { fired = true }) else none)

  fire_key-Agrees :
      (k : K) (l : List (K × Once)) (seen : List K)
      → Agrees l seen
      → Agrees (fire_key key_eq k l).0 (k ∷ seen)
  unfolding fire_key seen_before get_or_new fire
  fire_key-Agrees k l seen h j =
      ground (arith, h k, h j, latch_of-put_latch k j (record { fired = true }) l, key_eq_iff k j)

  fire_key-first :
      (k : K) (l : List (K × Once)) (seen : List K)
      → Agrees l seen
      → (fire_key key_eq k l).1 ≡ not (seen_before k seen)
  unfolding fire_key get_or_new fire
  fire_key-first k l seen h = ground (arith, h k)

  fire_all_from :
      (ks : List K) (l : List (K × Once)) (seen : List K)
      → Agrees l seen
      → fire_all ks l ≡ firsts seen ks
  unfolding fire_all firsts
  fire_all_from [] l seen h = refl
  fire_all_from (k ∷ ks) l seen h = cc (
    fire_key-first k l seen h,
    fire_all_from ks (fire_key key_eq k l).0 (k ∷ seen) (fire_key-Agrees k l seen h),
  )

  -- Over any sequence of keys, a warning keyed by them fires exactly where its key occurs for the
  -- first time.
  pub fire_all-eq-firsts : (ks : List K) → fire_all ks [] ≡ firsts [] ks
  fire_all-eq-firsts ks = fire_all_from ks [] [] (λ k. unfold latch_of seen_before in refl)
