-- ===== src/NegativeCache/History.antt =====
-- negative_cache.py: sequences of calls.
use fastapi_better_auth.Base.{
  ℕ, ◌+◌, ◌<◌, ◌≡◌, refl, inl, inr, true, some, List, [], ◌∷◌, arith, leb, All, Any, Any-map,
  Bool-cases, Option-cases, not, ◌&&◌, length, ◌⊎◌,
}
use fastapi_better_auth.Text.{Str, Bytes, str_eq}
use fastapi_better_auth.Text.Laws.{str_eq_iff}
use fastapi_better_auth.NegativeCache.{
  NegativeCache, new, get, delete, assign, evict, has, key, holds, remember, remembered_in,
}

pub data Call : Type 0 where
  ask note : ℕ → Str → Call

module _ (P : Bytes × ℕ → Type 0) where
  get-All : (k : Bytes) (v : ℕ) (l : List (Bytes × ℕ)) → get k l ≡ some v → All P l → P (k, v)
  unfolding get
  get-All k v [] h a = cc
  get-All k v ((j, w) ∷ l) h a = elim (Bool-cases (str_eq j k)) [
    | inl same ↦
        let e : j ≡ k = (str_eq_iff j k).0 same in let f : w ≡ v = ground arith in rw (← e, ← f) a.0
    | inr other ↦ get-All k v l (rw other at h) a.1
  ]

  delete-All : (k : Bytes) (l : List (Bytes × ℕ)) → All P l → All P (delete k l)
  unfolding delete
  delete-All k [] a = tt
  delete-All k ((j, w) ∷ l) a = ground (arith, delete-All k l a.1)

  assign-All :
      (k : Bytes) (v : ℕ) (l : List (Bytes × ℕ)) → P (k, v) → All P l → All P (assign k v l)
  unfolding assign
  assign-All k v [] p a = (p, tt)
  assign-All k v ((j, w) ∷ l) p a = ground (arith, assign-All k v l p a.1, str_eq_iff j k)

  evict-All :
      (max : ℕ) (k : Bytes) (l l' : List (Bytes × ℕ)) → evict max k l ≡ some l' → All P l → All P l'
  unfolding evict
  evict-All max k [] l' h a = let e : [] ≡ l' = ground arith in rw (← e) tt
  evict-All max k (e ∷ l) l' h a =
      elim (Bool-cases (not (has k (e ∷ l)) && leb max (length (e ∷ l)))) [
        | inl full ↦ evict-All max k l l' (rw (full, evict) at h) a.1
        | inr room ↦ let same : e ∷ l ≡ l' = ground arith in rw (← same) a
      ]

-- `call` recorded the key `k` at the reading `at`
abbrev pub Made : (Bytes → Bytes) → Bytes × ℕ → Call → Type 0
Made sha256 (k, at) (ask now m) = ⊥
Made sha256 (k, at) (note now m) = (now ≡ at) × (key sha256 m ≡ k)

-- the caches that a sequence of calls leads to, with the calls, the latest first
pub data Reach (sha256 : Bytes → Bytes) (ttl max : ℕ) : List Call → NegativeCache → Type 0 where
  start : Reach sha256 ttl max [] (new ttl max)
  asked :
      {h : List Call} {c : NegativeCache} (now : ℕ) (m : Str)
      → Reach sha256 ttl max h c
      → Reach sha256 ttl max (ask now m ∷ h) (holds sha256 now m c).0
  noted :
      {h : List Call} {c c' : NegativeCache} (now : ℕ) (m : Str)
      → Reach sha256 ttl max h c
      → remember sha256 now m c ≡ some c'
      → Reach sha256 ttl max (note now m ∷ h) c'

record IsBacked (sha256 : Bytes → Bytes) (ttl : ℕ) (h : List Call) (c : NegativeCache)
    : Type 0 where
  window : c.ttl ≡ ttl
  backed : All (λ e. Any (Made sha256 e) h) c.entries

All-map :
    (P Q : Bytes × ℕ → Type 0) (l : List (Bytes × ℕ))
    → ((e : Bytes × ℕ) → P e → Q e)
    → All P l
    → All Q l
All-map P Q [] f a = tt
All-map P Q (e ∷ l) f (p, a) = (f e p, All-map P Q l f a)

module _ (sha256 : Bytes → Bytes) (ttl max : ℕ) where
  holds_cases :
      (now : ℕ) (m : Str) (c : NegativeCache)
      → ((holds sha256 now m c).0 ≡ c)
        ⊎ ((holds sha256 now m c).0 ≡ record c { entries = delete (key sha256 m) c.entries })
  unfolding holds
  holds_cases now m c = ground arith

  remember_cases :
      (now : ℕ) (m : Str) (c c' : NegativeCache)
      → remember sha256 now m c ≡ some c'
      → (c' ≡ c)
        ⊎ ((l : List (Bytes × ℕ)) × (evict c.max (key sha256 m) c.entries ≡ some l)
            × (c' ≡ record c { entries = assign (key sha256 m) now l }))
  unfolding remember remembered_in
  remember_cases now m c c' e = elim (Option-cases (evict c.max (key sha256 m) c.entries)) [
    | inl out ↦ inl (ground arith)
    | inr (l, left) ↦ elim (Bool-cases (leb c.ttl 0)) [
      | inl off ↦ inl (ground arith)
      | inr on ↦ inr (l, left, ground arith)
    ]
  ]

  asked-IsBacked :
      (now : ℕ) (m : Str) (h : List Call) (c : NegativeCache)
      → IsBacked sha256 ttl h c
      → IsBacked sha256 ttl (ask now m ∷ h) (holds sha256 now m c).0
  asked-IsBacked now m h c b =
      let later : All (λ e. Any (Made sha256 e) (ask now m ∷ h)) c.entries =
        All-map _ _ c.entries (λ e p. inr p) b.backed in
      let less =
        delete-All (λ e. Any (Made sha256 e) (ask now m ∷ h)) (key sha256 m) c.entries later in
      elim (holds_cases now m c) [
        | inl same ↦ rw same (record { window = b.window; backed = later })
        | inr dropped ↦ rw dropped (record { window = b.window; backed = less })
      ]

  noted-IsBacked :
      (now : ℕ) (m : Str) (h : List Call) (c c' : NegativeCache)
      → remember sha256 now m c ≡ some c'
      → IsBacked sha256 ttl h c
      → IsBacked sha256 ttl (note now m ∷ h) c'
  noted-IsBacked now m h c c' e b =
      let P : Bytes × ℕ → Type 0 = λ x. Any (Made sha256 x) (note now m ∷ h) in
      let later : All P c.entries = All-map _ _ c.entries (λ x p. inr p) b.backed in
      elim (remember_cases now m c c' e) [
        | inl same ↦ rw same (record { window = b.window; backed = later })
        | inr (l, left, kept) ↦ rw kept (record {
          window = b.window;
          backed =
              assign-All P (key sha256 m) now l (inl (refl, refl))
                (evict-All P c.max (key sha256 m) c.entries l left later);
        })
      ]

  Reach-IsBacked :
      {h : List Call} {c : NegativeCache} → Reach sha256 ttl max h c → IsBacked sha256 ttl h c
  Reach-IsBacked Reach.start = record { window = refl; backed = tt }
  Reach-IsBacked (Reach.asked {h = h} {c = c} now m r) = asked-IsBacked now m h c (Reach-IsBacked r)
  Reach-IsBacked (Reach.noted {h = h} {c = c} {c' = c'} now m r e) =
      noted-IsBacked now m h c c' e (Reach-IsBacked r)

  -- the call recorded a value with the key of `m`, and its window covers `now`
  abbrev pub Covers : ℕ → Str → Call → Type 0
  Covers now m (ask at m') = ⊥
  Covers now m (note at m') = (key sha256 m' ≡ key sha256 m) × (now < at + ttl)

  Covers-Made :
      (at now : ℕ) (m : Str)
      → now < at + ttl
      → (call : Call) → Made sha256 (key sha256 m, at) call
      → Covers now m call
  Covers-Made at now m h (ask now' m') p = p
  Covers-Made at now m h (note now' m') (e, k) = (k, omega arith)

  -- Whatever calls were made, a cookie value is answered as dead only if a verdict was recorded,
  -- within the time to live, for a value with the same SHA-256.
  pub holds-covered :
      (h : List Call) (c : NegativeCache) (now : ℕ) (m : Str)
      → Reach sha256 ttl max h c
      → (holds sha256 now m c).1 ≡ true
      → Any (Covers now m) h
  unfolding holds
  holds-covered h c now m r hit = elim (Option-cases (get (key sha256 m) c.entries)) [
    | inl missing ↦ absurd (ground arith)
    | inr (at, found) ↦
        let b = Reach-IsBacked r in
        Any-map (Made sha256 (key sha256 m, at)) (Covers now m) h
          (Covers-Made at now m (ground arith))
          (get-All (λ e. Any (Made sha256 e) h) (key sha256 m) at c.entries found b.backed)
  ]
